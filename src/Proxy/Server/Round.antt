-- ===== src/Proxy/Server/Round.antt =====
-- The second loop of `RakNetProxy::serve` of examples/proxy.rs as a whole: what the clients of all
-- connections have received goes to the clients of the server.
use raknet_sys.Prelude.{
  ℕ, ◌<◌, ◌≡◌, refl, ap, sym, ◌∙◌, ◌⊎◌, inl, inr, List, [], ◌∷◌, ◌++◌, map, append-nil,
  append_assoc, All, length,
}
use raknet_sys.Prelude.Outcome.{ok, panic, unwrap_err, traverse}
use raknet_sys.Native.Platform.{Platform}
use raknet_sys.Native.Structs
use raknet_sys.Peer.Interface.{RakNet, SendArgs}
use raknet_sys.Wrapper.Address.{address, into_address_or_guid}
use raknet_sys.Wrapper.Packet.{Packet, from_packet}
use raknet_sys.Wrapper.Sender.Contract.{Sending, Refuses}
use raknet_sys.Wrapper.Receive.Contract.{Queueing}
use raknet_sys.Proxy.Connection.{ProxyConnection}
use raknet_sys.Proxy.Connection.Relay.{relayed, NotEmpty, serve_relays}
use raknet_sys.Proxy.Server.{Connections, serve_connections}
use raknet_sys.Proxy.Server.Delivery.{address_args, send_to_lem}

module _ (lib : RakNet) (p : Platform) (q : Queueing lib) (sending : Sending lib) (fuel : ℕ) where
  open lib use {Peer}
  open sending use {sent}

  -- A connection whose packets can be converted and are not empty, within the fuel, and whose client
  -- has an IPv4 address.
  pub record Ready (c : ProxyConnection lib) : Type 0 where
    pub packets : List Packet
    pub converted : traverse (from_packet p) (q.waiting c.client) ≡ ok packets
    pub not_empty : All NotEmpty packets
    pub enough : length (q.waiting c.client) < fuel
    pub identity : Structs.AddressOrGuid
    pub identified : into_address_or_guid p (address c.system_address) ≡ ok identity

  abbrev pub AllReady : Connections lib → Type 0
  AllReady [] = Unit
  AllReady ((k, c) ∷ m) = Ready c × AllReady m

  -- The messages among the packets of each connection, each to the address of that connection.
  abbrev pub deliveries : (m : Connections lib) → AllReady m → List SendArgs
  deliveries [] ready = []
  deliveries ((k, c) ∷ m) (r, rs) =
      map (address_args lib p sending c.system_address r.identity r.identified) (relayed r.packets)
      ++ deliveries m rs

  abbrev pub Drained : Connections lib → Type 0
  Drained [] = Unit
  Drained ((k, c) ∷ m) = (q.waiting c.client ≡ []) × Drained m

  -- If the packets that wait at the client of each connection can be converted, are not empty and
  -- are fewer than the fuel, and the address of each connection is converted into an identity,
  -- the server is asked to send, connection by connection, the messages among these packets, in
  -- their order, each to the address of that connection, and nothing else; and no packet waits at
  -- a client any more. Or the library refuses a message, which panics.
  pub serve_connections_lem :
      (m : Connections lib) (s : Peer) (ready : AllReady m)
      → ((serve_connections lib p fuel m s ≡ panic unwrap_err) × Refuses lib)
        ⊎ ((n : Connections lib) × (t : Peer) × (serve_connections lib p fuel m s ≡ ok (n, t))
            × (sent t ≡ sent s ++ deliveries m ready)
            × Drained n)
  unfolding serve_connections
  serve_connections_lem [] s ready = inr ([], s, refl, sym (append-nil (sent s)), tt)
  serve_connections_lem ((k, c) ∷ m) s (r, rs) =
      let (client, served, empty) =
        serve_relays lib p q fuel c r.packets r.enough r.converted r.not_empty in
      let args = address_args lib p sending c.system_address r.identity r.identified in
      elim (send_to_lem lib p sending c.system_address r.identity r.identified (relayed r.packets)
        s) [
          | inl (e, refused) ↦ inl (rw (served, e), refused)
          | inr (u, e, logged) ↦ elim (serve_connections_lem m u rs) [
            | inl (l, refused) ↦ inl (rw (served, e, l), refused)
            | inr (n, t, l, later, drained) ↦ inr (
              (k, record c { client = client }) ∷ n,
              t,
              rw (served, e, l),
              later
                  ∙ ap (λ log. log ++ deliveries m rs) logged
                  ∙ append_assoc (sent s) (map args (relayed r.packets)) (deliveries m rs),
              (empty, drained),
            )
          ]
        ]
