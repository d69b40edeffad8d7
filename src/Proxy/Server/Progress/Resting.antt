-- ===== src/Proxy/Server/Progress/Resting.antt =====
-- Connections of examples/proxy.rs at whose clients nothing waits, and what arrives at them.
use raknet_sys.Prelude.{ℕ, ◌<◌, ◌≡◌, ap, ◌∙◌, [], ◌∷◌, ◌++◌, List, All, length}
use raknet_sys.Prelude.Outcome.{ok, traverse}
use raknet_sys.Native.Platform.{Platform}
use raknet_sys.Native.Structs
use raknet_sys.Peer.Interface.{RakNet}
use raknet_sys.Wrapper.Address.{RakNetGuid, address, into_address_or_guid}
use raknet_sys.Wrapper.Packet.{Packet, from_packet}
use raknet_sys.Wrapper.Receive.Contract.{Queueing}
use raknet_sys.Wrapper.Sender.Contract.{Sending}
use raknet_sys.Proxy.Connection.Relay.{NotEmpty}
use raknet_sys.Proxy.Server.{Connections}
use raknet_sys.Proxy.Server.Identity.{moved}
use raknet_sys.Proxy.Server.Round.{AllReady, Drained}
use raknet_sys.Proxy.Server.Progress.Aligned.{Aligned}

module _ (lib : RakNet) (p : Platform) (q : Queueing lib) (sending : Sending lib) (fuel : ℕ) where
  open lib use {Peer}
  open q use {waiting}

  -- Nothing waits at the client of a connection, and its address is converted into an identity.
  abbrev pub Resting : Connections lib → Type 0
  Resting [] = Unit
  Resting ((k, c) ∷ m) =
      (waiting c.client ≡ [])
      × ((n : Structs.AddressOrGuid) × (into_address_or_guid p (address c.system_address) ≡ ok n))
      × Resting m

  pub Drained-Resting :
      (m n : Connections lib)
      → AllReady lib p q sending fuel m
      → Aligned lib m n
      → Drained lib p q sending fuel n
      → Resting n
  Drained-Resting [] [] r a d = tt
  Drained-Resting [] (y ∷ n) r a d = absurd a
  Drained-Resting (x ∷ m) [] r a d = absurd a
  Drained-Resting ((j, b) ∷ m) ((k, c) ∷ n) (r, rs) (_, at, a) (empty, d) =
      (empty, (r.identity, rw at (r.identified)), Drained-Resting m n rs a d)

  -- Packets that a client can receive between two rounds.
  pub record Acceptable (xs : List Structs.Packet) : Type 0 where
    pub packets : List Packet
    pub converted : traverse (from_packet p) xs ≡ ok packets
    pub not_empty : All NotEmpty packets
    pub enough : length xs < fuel

  -- They make connections ready at which nothing waited.
  pub moved-AllReady :
      (f : RakNetGuid → Peer → Peer) (incoming : RakNetGuid → List Structs.Packet)
      (m : Connections lib)
      → ((k : RakNetGuid) (s : Peer) → waiting (f k s) ≡ waiting s ++ incoming k)
      → ((k : RakNetGuid) → Acceptable (incoming k))
      → Resting m
      → AllReady lib p q sending fuel (moved lib p f m)
  moved-AllReady f incoming [] adds accepts r = tt
  moved-AllReady f incoming ((k, c) ∷ m) adds accepts (empty, (n, identified), r) =
      let a = accepts k in
      let arrived : waiting (f k c.client) ≡ incoming k =
        adds k c.client ∙ ap (λ xs. xs ++ incoming k) empty in
      (
        record {
          packets = a.packets;
          converted = rw arrived (a.converted);
          not_empty = a.not_empty;
          enough = rw arrived (a.enough);
          identity = n;
          identified = identified;
        },
        moved-AllReady f incoming m adds accepts r,
      )
