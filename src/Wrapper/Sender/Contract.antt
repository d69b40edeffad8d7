-- ===== src/Wrapper/Sender/Contract.antt =====
-- What the users of `Sender` rely on of the library: a log of the messages that it accepted. As
-- raknet-c/rakpeer.h documents, `Send` returns 0 on bad input and another number otherwise; looking
-- up an address and taking a packet send nothing.
use raknet_sys.Prelude.{ℕ, ◌≡◌, ◌≢◌, List, [], ◌∷◌, ◌++◌}
use raknet_sys.Peer.Interface.{RakNet, SendArgs}

pub record Sending (lib : RakNet) : Type 0 where
  -- the accepted messages, the oldest first
  pub sent : lib.Peer → List SendArgs
  pub send_accepted :
      (args : SendArgs) (s : lib.Peer)
      → (lib.send args s).0 ≢ 0
      → sent (lib.send args s).1 ≡ sent s ++ args ∷ []
  pub lookup_keeps :
      (i : ℕ) (s : lib.Peer) → sent (lib.get_system_address_from_index i s).1 ≡ sent s
  pub receive_keeps : (s : lib.Peer) → sent (lib.receive s).1 ≡ sent s
  pub deallocate_keeps : (a : ℕ) (s : lib.Peer) → sent (lib.deallocate_packet a s).1 ≡ sent s

-- The library refused some message in some state.
abbrev pub Refuses : RakNet → Type 0
Refuses lib = (args : SendArgs) × (s : lib.Peer) × ((lib.send args s).0 ≡ 0)
