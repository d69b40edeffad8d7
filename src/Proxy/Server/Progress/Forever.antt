-- ===== src/Proxy/Server/Progress/Forever.antt =====
-- The loop of `main` of examples/proxy.rs, with what arrives between its rounds.
use raknet_sys.Prelude.{
  ℕ, ◌<◌, ◌≡◌, refl, ap, ◌∙◌, ◌⊎◌, inl, inr, none, some, append-nil, append_assoc, Option, Bool,
  false, true, List, [], ◌∷◌, ◌++◌, Bytes, length, arith,
}
use raknet_sys.Prelude.Outcome.{Outcome, ok, traverse, ◌>>=◌}
use raknet_sys.Native.Platform.{Platform}
use raknet_sys.Native.Structs
use raknet_sys.Peer.Interface.{RakNet}
use raknet_sys.Wrapper.Address.{RakNetGuid}
use raknet_sys.Wrapper.Packet.{Packet, from_packet}
use raknet_sys.Wrapper.Receive.Contract.{Queueing}
use raknet_sys.Wrapper.Sender.Contract.{Sending}
use raknet_sys.Proxy.Connection.{ProxyConnection}
use raknet_sys.Proxy.Connection.Fresh.{Starting}
use raknet_sys.Proxy.Connection.Queue.{Undisturbed}
use raknet_sys.Proxy.Connection.Returns.{Faulty}
use raknet_sys.Proxy.Server.{RakNetProxy, get, new, serve}
use raknet_sys.Proxy.Server.Identity.{moved}
use raknet_sys.Proxy.Server.Ledger.{notes, ledger}
use raknet_sys.Proxy.Server.Life.{Life, made, turn, network, Life-ledger}
use raknet_sys.Proxy.Server.Parts.{new-connections}
use raknet_sys.Proxy.Server.Progress.{Expected, learned}
use raknet_sys.Proxy.Server.Progress.Aligned.{get-Aligned, moved-Aligned}
use raknet_sys.Proxy.Server.Progress.Packets.{Serving}
use raknet_sys.Proxy.Server.Progress.Resting.{Resting, Drained-Resting, Acceptable, moved-AllReady}
use raknet_sys.Proxy.Server.Progress.Whole.{Rested, serve_rests}

-- What arrives between two rounds: at the server, and at the client of each connection.
pub record Arrival : Type 0 where
  pub at_server : List Structs.Packet
  pub at_client : RakNetGuid → List Structs.Packet

-- A network that puts packets behind those that wait already.
pub record Network (lib : RakNet) (q : Queueing lib) : Type 0 where
  pub deliver : List Structs.Packet → lib.Peer → lib.Peer
  pub delivers :
      (xs : List Structs.Packet) (s : lib.Peer) → q.waiting (deliver xs s) ≡ q.waiting s ++ xs

module _ (lib : RakNet) (p : Platform) (q : Queueing lib) (net : Network lib q) (fuel : ℕ) where
  abbrev pub arrived : Arrival → RakNetProxy lib → RakNetProxy lib
  arrived a self = record self {
    server = net.deliver a.at_server self.server;
    connections = moved lib p (λ k. net.deliver (a.at_client k)) self.connections;
  }

  -- The loop, for as many rounds as there are arrivals.
  unfoldable pub rounds : List Arrival → RakNetProxy lib → Outcome (RakNetProxy lib)
  rounds [] self = ok self
  rounds (a ∷ arrivals) self = serve lib p fuel (arrived a self) >>= rounds arrivals

  module _ (sending : Sending lib) where
    -- Every arrival is what the proxy expects, with the clients that are known by then.
    abbrev pub Orderly : (RakNetGuid → Bool) → List Arrival → Type 0
    Orderly known [] = Unit
    Orderly known (a ∷ arrivals) =
        (packets : List Packet) × (traverse (from_packet p) a.at_server ≡ ok packets)
        × (length a.at_server < fuel)
        × Expected known packets
        × ((k : RakNetGuid) → Acceptable lib p q sending fuel (a.at_client k))
        × Orderly (learned known packets) arrivals

    -- All packets that the server receives, in their order.
    abbrev pub received :
        (known : RakNetGuid → Bool) (arrivals : List Arrival) → Orderly known arrivals → List Packet
    received known [] orderly = []
    received known (a ∷ arrivals) (packets, _, _, _, _, later) =
        packets ++ received (learned known packets) arrivals later

    module _ (starting : Starting lib q.waiting) (quiet : Undisturbed lib q.waiting)
        (starts_silent : Starting lib sending.sent)
        (silent : (xs : List Structs.Packet) (s : lib.Peer)
          → sending.sent (net.deliver xs s) ≡ sending.sent s) where
      open q use {waiting}

      abbrev Lived : List Packet → RakNetProxy lib → Type 0
      Lived = Life lib p q sending starts_silent

      -- Between two rounds nothing waits, and the known clients have a connection.
      record Idle (known : RakNetGuid → Bool) (self : RakNetProxy lib) : Type 0 where
        found :
            (k : RakNetGuid)
            → known k ≡ true
            → (c : ProxyConnection lib) × (get k self.connections ≡ some c)
        server_empty : waiting self.server ≡ []
        resting : Resting lib p q sending fuel self.connections

      arrived-Serving :
          (known : RakNetGuid → Bool) (a : Arrival) (self : RakNetProxy lib)
          → Idle known self
          → ((k : RakNetGuid) → Acceptable lib p q sending fuel (a.at_client k))
          → Serving lib p q sending starting quiet fuel known (arrived a self)
      arrived-Serving known a self idle accepts =
          let f : RakNetGuid → lib.Peer → lib.Peer = λ k. net.deliver (a.at_client k) in
          record {
            found = λ k h.
                let (c, e) = idle.found k h in
                get-Aligned lib k self.connections (moved lib p f self.connections) c
                  (moved-Aligned lib p f self.connections) e;
            all_ready =
                moved-AllReady lib p q sending fuel f a.at_client self.connections
                  (λ k s. net.delivers (a.at_client k) s) accepts idle.resting;
          }

      Rested-Idle :
          (known : RakNetGuid → Bool) (self : RakNetProxy lib)
          → Rested lib p q sending starting quiet fuel known self
          → Idle known self
      Rested-Idle known self r = record {
        found = λ k h.
            let (c, e) = r.serving.found k h in
            get-Aligned lib k r.handled.connections self.connections c r.aligned e;
        server_empty = r.server_empty;
        resting =
            Drained-Resting lib p q sending fuel r.handled.connections self.connections
              r.serving.all_ready r.aligned r.drained;
      }

      rounds-Idle :
          (known : RakNetGuid → Bool) (arrivals : List Arrival) (self : RakNetProxy lib)
          → (orderly : Orderly known arrivals) → Idle known self
          → ((final : RakNetProxy lib) × (rounds arrivals self ≡ ok final)
              × ((known' : RakNetGuid → Bool) × Idle known' final)
              × ((seen : List Packet)
                  → Lived seen self
                  → Lived (seen ++ received known arrivals orderly) final))
            ⊎ Faulty lib p (rounds arrivals self)
      unfolding rounds
      rounds-Idle known [] self orderly idle =
          inl (self, refl, (known, idle), λ seen life. rw (append-nil seen) life)
      rounds-Idle known (a ∷ arrivals) self (packets, converted, m, expected, accepts, later) idle =
          let waits : waiting (net.deliver a.at_server self.server) ≡ a.at_server =
            net.delivers a.at_server self.server ∙ ap (λ xs. xs ++ a.at_server) idle.server_empty in
          elim (serve_rests lib p q sending starting quiet fuel known (arrived a self) packets
            (rw waits m) (rw waits converted) expected
            (arrived-Serving known a self idle accepts)) [
              | inr (e, k, fault) ↦ inr (e, rw k refl, fault)
              | inl (next, served, rested) ↦
                  elim (rounds-Idle (learned known packets) arrivals next later
                    (Rested-Idle (learned known packets) next rested)) [
                      | inr (e, k, fault) ↦ inr (e, rw (served, k) refl, fault)
                      | inl (final, ran, last, lives) ↦ inl (
                        final,
                        rw (served, ran) refl,
                        last,
                        λ seen life.
                            let moved_on =
                              network (net.deliver a.at_server self.server)
                                (λ k. net.deliver (a.at_client k)) life
                                (λ k s. silent (a.at_client k) s) in
                            let turned =
                              turn fuel packets next moved_on (rw waits m) (rw waits converted)
                                served in
                            let more = received (learned known packets) arrivals later in
                            rw (← append_assoc seen packets more) (lives (seen ++ packets) turned),
                      )
                    ]
            ]

      -- A proxy that was made, with nothing that waits at its server, goes through any number of
      -- rounds, if what arrives between two rounds can be converted and is less than the fuel, if no
      -- packet at a client is empty, and if each packet at the server is proper and is the
      -- notification of a new connection or comes from a client of which there was one before it.
      -- Then nothing waits at the server or at any client, and what each connection has sent to the
      -- game server, with what waits in it, is what the ledger of its client says for all packets
      -- that the server has received. Or a round panics in one of these ways, each of which needs a
      -- library that answers so in some state: with the error of a message that it refuses, with the
      -- assertion for a server's address that is no IPv4 one, or with the error or the unknown code
      -- for a new client that it does not start or connect. The rounds end in no other way.
      pub rounds_end :
          (keys : Option (Bytes × Bytes)) (self : RakNetProxy lib) (arrivals : List Arrival)
          → new lib p keys ≡ ok (inr self)
          → waiting self.server ≡ []
          → (orderly : Orderly (λ k. false) arrivals)
          → ((final : RakNetProxy lib) × (rounds arrivals self ≡ ok final)
              × (waiting final.server ≡ [])
              × Resting lib p q sending fuel final.connections
              × ((k : RakNetGuid)
                  → ledger lib p sending starts_silent k final.connections
                    ≡ notes p k (received (λ k. false) arrivals orderly) none))
            ⊎ Faulty lib p (rounds arrivals self)
      rounds_end keys self arrivals created empty orderly =
          let none_yet = new-connections lib p keys self created in
          let idle : Idle (λ k. false) self = record {
            found = λ k h. absurd (ground (arith, h));
            server_empty = empty;
            resting = rw none_yet tt;
          } in
          elim (rounds-Idle (λ k. false) arrivals self orderly idle) [
            | inr faulty ↦ inr faulty
            | inl (final, ran, (_, last), lives) ↦ inl (
              final,
              ran,
              last.server_empty,
              last.resting,
              λ k.
                  Life-ledger lib p q sending starts_silent (received (λ k. false) arrivals orderly)
                    final k (lives [] (made keys self created)),
            )
          ]
