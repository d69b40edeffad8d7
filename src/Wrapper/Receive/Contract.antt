-- ===== src/Wrapper/Receive/Contract.antt =====
-- What src/rakpeer.rs relies on of `Receive` and `DeallocatePacket`, as raknet-c/rakpeer.h documents
-- them: a queue of packets, 0 from an empty one, and a packet that stays until it is given back.
use raknet_sys.Prelude.{ℕ, ◌≡◌, ◌≢◌, List, [], ◌∷◌}
use raknet_sys.Native.Pointer.{to}
use raknet_sys.Native.Structs
use raknet_sys.Peer.Interface.{RakNet}

pub record Queueing (lib : RakNet) : Type 0 where
  -- the packets that wait, the next one first; none arrives during a call
  pub waiting : lib.Peer → List Structs.Packet
  -- the packets that were handed out and not given back, the latest first
  pub outstanding : lib.Peer → List ℕ
  pub receive_empty :
      (s : lib.Peer)
      → waiting s ≡ []
      → ((lib.receive s).0 ≡ 0)
        × (waiting (lib.receive s).1 ≡ [])
        × (outstanding (lib.receive s).1 ≡ outstanding s)
  pub receive_next :
      (s : lib.Peer) (x : Structs.Packet) (xs : List Structs.Packet)
      → waiting s ≡ x ∷ xs
      → ((lib.receive s).0 ≢ 0)
        × (lib.packet_at (lib.receive s).0 (lib.receive s).1 ≡ to x)
        × (waiting (lib.receive s).1 ≡ xs)
        × (outstanding (lib.receive s).1 ≡ (lib.receive s).0 ∷ outstanding s)
  pub give_back :
      (s : lib.Peer) (a : ℕ) (rest : List ℕ)
      → outstanding s ≡ a ∷ rest
      → (waiting (lib.deallocate_packet a s).1 ≡ waiting s)
        × (outstanding (lib.deallocate_packet a s).1 ≡ rest)
