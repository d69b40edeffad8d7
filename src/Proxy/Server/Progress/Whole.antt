-- ===== src/Proxy/Server/Progress/Whole.antt =====
-- A whole call of `RakNetProxy::serve` of examples/proxy.rs does its work or panics at an answer of the
-- library.
use raknet_sys.Prelude.{
  ℕ, Bool, ◌<◌, ◌≡◌, ap, sym, refl, ◌∙◌, ◌⊎◌, inl, inr, List, [], ◌∷◌, Bytes, length, arith,
  Option-cases,
}
use raknet_sys.Prelude.Outcome.{ok, unwrap_err, traverse}
use raknet_sys.Native.Platform.{Platform}
use raknet_sys.Peer.Interface.{RakNet}
use raknet_sys.Wrapper.Address.{RakNetGuid, SystemAddress, address, into_address_or_guid}
use raknet_sys.Wrapper.Packet.{Packet, from_packet}
use raknet_sys.Native.Structs
use raknet_sys.Wrapper.Sender.Contract.{Sending}
use raknet_sys.Wrapper.Receive.Contract.{Queueing}
use raknet_sys.Wrapper.Receive.Drain.{receive_all_drains}
use raknet_sys.Proxy.Connection.{ProxyConnection, forward_packet}
use raknet_sys.Proxy.Connection
use raknet_sys.Proxy.Connection.Fresh.{Starting}
use raknet_sys.Proxy.Connection.Queue.{Undisturbed}
use raknet_sys.Proxy.Connection.Returns.{Faulty, refused}
use raknet_sys.Proxy.Connection.Kept.{serve-SameOwner}
use raknet_sys.Proxy.Server.{Connections, RakNetProxy, get, serve_connections, serve}
use raknet_sys.Proxy.Server.Round.{AllReady, Drained, serve_connections_lem}
use raknet_sys.Proxy.Server.Progress.{Expected, has_connection, learned}
use raknet_sys.Proxy.Server.Progress.Aligned.{Aligned, serve_connections-Aligned}
use raknet_sys.Proxy.Server.Progress.Packets.{Serving, handle_packets_end}
use raknet_sys.Proxy.Server.{send_to}
use raknet_sys.Proxy.Server.Delivery.{address_args, send-address}
use raknet_sys.Prelude.State.{lift, continue-eq-ok, lift-eq-ok}
use raknet_sys.Wrapper.Sender.{set_data, set_system_identifier, send}
use raknet_sys.Wrapper.Sender
use raknet_sys.Proxy.Connection.{unwrap_sent}
use raknet_sys.Prelude.Keeps.{Keeps, Keeps-pure, Keeps-lift, Keeps-bind}

module _ (lib : RakNet) (p : Platform) (sending : Sending lib) {X : Type 0}
    (shown : lib.Peer → List X) (quiet : Undisturbed lib shown) where
  -- Sending to an address, whatever it is: if it is not converted, the call does not return.
  send_to_one-Keeps :
      (a : SystemAddress) (n : Structs.AddressOrGuid) (bytes : Bytes)
      → into_address_or_guid p (address a) ≡ ok n
      → Keeps shown (send lib p (set_system_identifier (address a) (set_data bytes Sender.new)))
  send_to_one-Keeps a n bytes e s t r h =
      let args = address_args lib p sending a n e bytes in
      let same : t ≡ (lib.send args s).1 =
        ground (arith, h, send-address lib p sending a n e bytes s) in
      ap shown same ∙ quiet.send_keeps args s

  send_to-Keeps :
      (a : SystemAddress) (n : Structs.AddressOrGuid) (ms : List Bytes)
      → into_address_or_guid p (address a) ≡ ok n
      → Keeps shown (send_to lib p a ms)
  unfolding send_to
  send_to-Keeps a n [] e = Keeps-pure shown tt
  send_to-Keeps a n (m ∷ ms) e =
      Keeps-bind shown (send lib p (set_system_identifier (address a) (set_data m Sender.new)))
        (send_to_one-Keeps a n m e)
        λ result.
          Keeps-bind shown (lift (unwrap_sent result)) (Keeps-lift shown (unwrap_sent result))
            λ _. send_to-Keeps a n ms e

module _ (lib : RakNet) (p : Platform) (q : Queueing lib) (sending : Sending lib)
    (starting : Starting lib q.waiting) (quiet : Undisturbed lib q.waiting) (fuel : ℕ) where
  open lib use {Peer}
  open q use {waiting}

  -- The second loop of `serve` leaves the packets of the server alone.
  serve_connections-waiting :
      (m n : Connections lib) (s t : Peer)
      → AllReady lib p q sending fuel m
      → serve_connections lib p fuel m s ≡ ok (n, t)
      → waiting t ≡ waiting s
  unfolding serve_connections
  serve_connections-waiting [] n s t ready e = ground (arith, e)
  serve_connections-waiting ((j, c) ∷ m) n s t (r, rs) e =
      let ((out, d), u, served, then_send) =
        continue-eq-ok (lift (Connection.serve lib p fuel c) s) _ e in
      let (returned, same) = lift-eq-ok (Connection.serve lib p fuel c) s served in
      let (_, owner) = serve-SameOwner lib p fuel c d out returned in
      let identified : into_address_or_guid p (address d.system_address) ≡ ok r.identity =
        rw owner (r.identified) in
      let (_, v, sent, then_rest) =
        continue-eq-ok (send_to lib p d.system_address out u) _ then_send in
      let (rest, w, walked, last) = continue-eq-ok (serve_connections lib p fuel m v) _ then_rest in
      let end : t ≡ w = ground (arith, last) in
      ap waiting end
      ∙ serve_connections-waiting m rest v w rs walked
      ∙ send_to-Keeps lib p sending waiting quiet d.system_address r.identity out identified u v tt
          sent
      ∙ ap waiting (sym same)

  at_start :
      (self : RakNetProxy lib)
      → AllReady lib p q sending fuel self.connections
      → Serving lib p q sending starting quiet fuel (has_connection self) self
  at_start self ready = record {
    found = λ k h. elim (Option-cases (get k self.connections)) [
      | inl missing ↦ absurd (ground (arith, h, missing))
      | inr found ↦ found
    ];
    all_ready = ready;
  }

  -- The clients that are known and the connections, without the server.
  same_server :
      (known : RakNetGuid → Bool) (self : RakNetProxy lib) (server : Peer)
      → Serving lib p q sending starting quiet fuel known self
      → Serving lib p q sending starting quiet fuel known (record self { server = server })
  same_server known self server serving = record {
    found = serving.found;
    all_ready = serving.all_ready;
  }

  -- What is left after a call that returned.
  pub record Rested (known : RakNetGuid → Bool) (self : RakNetProxy lib) : Type 0 where
    pub handled : RakNetProxy lib
    pub serving : Serving lib p q sending starting quiet fuel known handled
    pub aligned : Aligned lib handled.connections self.connections
    pub server_empty : waiting self.server ≡ []
    pub drained : Drained lib p q sending fuel self.connections

  pub serve_rests :
      (known : RakNetGuid → Bool) (self : RakNetProxy lib) (packets : List Packet)
      → length (waiting self.server) < fuel
      → traverse (from_packet p) (waiting self.server) ≡ ok packets
      → Expected known packets
      → Serving lib p q sending starting quiet fuel known self
      → ((next : RakNetProxy lib) × (serve lib p fuel self ≡ ok next)
          × Rested (learned known packets) next)
        ⊎ Faulty lib p (serve lib p fuel self)
  unfolding serve
  serve_rests known self packets m e expected serving =
      let (server, taken, empty, _) = receive_all_drains lib p q fuel self.server packets m e in
      let received : RakNetProxy lib = record self { server = server } in
      elim (handle_packets_end lib p q sending starting quiet fuel known packets received
        (omega arith) expected (same_server known self server serving)) [
          | inr (x, k, fault) ↦ inr (x, rw (taken, k) refl, fault)
          | inl (handled, k, serving', same) ↦
              elim (serve_connections_lem lib p q sending fuel handled.connections handled.server
                serving'.all_ready) [
                  | inl (l, refuses) ↦ inr (unwrap_err, rw (taken, k, l) refl, refused refuses)
                  | inr (n, t, walked, _, drained) ↦ inl (
                    record handled { connections = n; server = t },
                    rw (taken, k, walked) refl,
                    record {
                      handled = handled;
                      serving = serving';
                      aligned =
                          serve_connections-Aligned lib p fuel handled.connections n handled.server
                            t walked;
                      server_empty =
                          serve_connections-waiting handled.connections n handled.server t
                            serving'.all_ready walked
                          ∙ ap waiting same
                          ∙ empty;
                      drained = drained;
                    },
                  )
                ]
        ]

  -- If the packets that wait at the server and at the client of each connection can be converted and
  -- are fewer than the fuel, if those of the clients are not empty, if those of the server are
  -- proper and each is the notification of a new connection or comes from a client that is known
  -- by then, and if the address of each connection is converted into an identity, `serve` returns
  -- and no packet waits any more at the server, nor at any client; or it panics at an answer of
  -- the library.
  pub serve_ends :
      (self : RakNetProxy lib) (packets : List Packet)
      → length (waiting self.server) < fuel
      → traverse (from_packet p) (waiting self.server) ≡ ok packets
      → Expected (has_connection self) packets
      → AllReady lib p q sending fuel self.connections
      → ((next : RakNetProxy lib) × (serve lib p fuel self ≡ ok next)
          × (waiting next.server ≡ [])
          × Drained lib p q sending fuel next.connections)
        ⊎ Faulty lib p (serve lib p fuel self)
  serve_ends self packets m e expected ready =
      elim (serve_rests (has_connection self) self packets m e expected (at_start self ready)) [
        | inl (next, served, rested) ↦ inl (next, served, rested.server_empty, rested.drained)
        | inr faulty ↦ inr faulty
      ]
