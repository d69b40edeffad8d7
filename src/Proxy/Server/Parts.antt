-- ===== src/Proxy/Server/Parts.antt =====
-- The calls of `RakNetProxy::new` and `RakNetProxy::serve` of examples/proxy.rs that returned, taken
-- apart.
use raknet_sys.Prelude.{ℕ, ◌≡◌, ap, inr, Option, none, some, List, [], Bytes, arith}
use raknet_sys.Prelude.Outcome.{ok, >>=-eq-ok, map_ok-eq-ok, map_ok}
use raknet_sys.Native.Platform.{Platform}
use raknet_sys.Peer.Interface.{RakNet}
use raknet_sys.Wrapper.Packet.{Packet}
use raknet_sys.Wrapper.Receive.{receive_all}
use raknet_sys.Wrapper.Methods
use raknet_sys.Proxy.Server.{
  Connections, RakNetProxy, ProxyError, new, started, start_server, handle_packets,
  serve_connections, serve, with_server, with_served,
}

module _ (lib : RakNet) (p : Platform) where
  -- The parts of a call of `serve` that returned.
  pub serve-eq-ok :
      (fuel : ℕ) (self next : RakNetProxy lib)
      → serve lib p fuel self ≡ ok next
      → (packets : List Packet) × (server : lib.Peer) × (handled : RakNetProxy lib)
        × (m : Connections lib) × (t : lib.Peer) × (receive_all lib p fuel self.server
            ≡ ok (packets, server))
        × (handle_packets lib p packets (record self { server = server }) ≡ ok handled)
        × (serve_connections lib p fuel handled.connections handled.server ≡ ok (m, t))
        × (record handled { connections = m; server = t } ≡ next)
  unfolding serve
  serve-eq-ok fuel self next e =
      let (received, k, rest) =
        >>=-eq-ok (map_ok (with_server lib p self) (receive_all lib p fuel self.server)) _ e in
      let (x, taken, same) =
        map_ok-eq-ok (with_server lib p self) (receive_all lib p fuel self.server) k in
      let (handled, l, last) = >>=-eq-ok (handle_packets lib p received.0 received.1) _ rest in
      let (y, walked, result) =
        map_ok-eq-ok (with_served lib p handled)
          (serve_connections lib p fuel handled.connections handled.server) last in
      (
        x.0,
        x.1,
        handled,
        y.0,
        y.1,
        taken,
        rw (ap (λ (r : List Packet × RakNetProxy lib). handle_packets lib p r.0 r.1) same) l,
        walked,
        result,
      )

  -- A new proxy has no connections.
  pub new-connections :
      (keys : Option (Bytes × Bytes)) (self : RakNetProxy lib)
      → new lib p keys ≡ ok (inr self)
      → self.connections ≡ []
  unfolding new
  new-connections keys self e =
      let (x, _, k) =
        map_ok-eq-ok (started lib p) (start_server lib p keys (Methods.new lib 0)) e in
      empty x k
    where
      empty :
          (x : Option ProxyError × lib.Peer) → started lib p x ≡ inr self → self.connections ≡ []
      empty (none, server) k = ground (arith, k)
      empty (some problem, server) k = cc
