-- ===== src/Proxy/Server/Identity.antt =====
-- The connections of the proxy of examples/proxy.rs over its life: one for each client, and each under
-- the GUID of its own client.
use raknet_sys.Prelude.{
  ℕ, ◌≡◌, ◌≢◌, refl, ap, sym, ◌∙◌, inl, inr, Option, none, some, List, [], ◌∷◌, Bytes, arith,
  Bool-cases,
}
use raknet_sys.Prelude.Outcome.{ok, >>=-eq-ok}
use raknet_sys.Prelude.State.{lift, continue-eq-ok, lift-eq-ok}
use raknet_sys.Native.Platform.{Platform}
use raknet_sys.Peer.Interface.{RakNet}
use raknet_sys.Wrapper.Address.{RakNetGuid, guid_eq}
use raknet_sys.Wrapper.Address.Unassigned.{guid_eq_iff}
use raknet_sys.Wrapper.Packet.{Packet}
use raknet_sys.Proxy.Connection.{ProxyConnection}
use raknet_sys.Proxy.Connection
use raknet_sys.Proxy.Connection.Kept.{forward_packet-SameOwner, serve-SameOwner, new_owner}
use raknet_sys.Proxy.Server.{
  Connections, RakNetProxy, get, insert, new, handle_packet, handle_packets, send_to,
  serve_connections, serve,
}
use raknet_sys.Proxy.Server.Parts.{serve-eq-ok, new-connections}
use raknet_sys.Proxy.Server.Routing.{get-insert_other, added, routed, handle_packet-Handled}

module _ {lib : RakNet} where
  -- Each connection stands under the GUID of its client, and no GUID stands twice.
  abbrev pub Keyed : Connections lib → Type 0
  Keyed [] = Unit
  Keyed ((k, c) ∷ m) = (c.guid ≡ k) × (get k m ≡ none) × Keyed m

  insert-Keyed :
      (k : RakNetGuid) (c : ProxyConnection lib) (m : Connections lib)
      → c.guid ≡ k
      → Keyed m
      → Keyed (insert k c m)
  unfolding insert get
  insert-Keyed k c [] e h = (e, refl, tt)
  insert-Keyed k c ((j, d) ∷ m) e (own, fresh, h) = elim (Bool-cases (guid_eq j k)) [
    | inl same ↦ rw same (e ∙ sym ((guid_eq_iff j k).0 same), fresh, h)
    | inr differ ↦
        let other : k ≢ j = λ same. ground (arith, differ, (guid_eq_iff j k).1 (sym same)) in
        rw differ (own, get-insert_other k j c m other ∙ fresh, insert-Keyed k c m e h)
  ]

  get-Keyed :
      (k : RakNetGuid) (c : ProxyConnection lib) (m : Connections lib)
      → Keyed m
      → get k m ≡ some c
      → c.guid ≡ k
  unfolding get
  get-Keyed k c [] h e = cc
  get-Keyed k c ((j, d) ∷ m) (own, fresh, h) e = elim (Bool-cases (guid_eq j k)) [
    | inl same ↦
        let found : d ≡ c = ground (arith, e, same) in
        ap (λ x. x.guid) (sym found) ∙ own ∙ (guid_eq_iff j k).0 same
    | inr differ ↦ get-Keyed k c m h (ground (arith, e, differ))
  ]

module _ (lib : RakNet) (p : Platform) where
  handle_packet-Keyed :
      (packet : Packet) (self next : RakNetProxy lib)
      → handle_packet lib p packet self ≡ ok next
      → Keyed self.connections
      → Keyed next.connections
  handle_packet-Keyed packet self next e h = elim (handle_packet-Handled lib p packet self next e) [
    | added bs c _ made same ↦ rw same (
        insert-Keyed packet.guid c self.connections
          (new_owner lib p self.peers packet.guid packet.system_address c made).0 h)
    | routed b bs c d _ _ found forward same ↦ rw same (
        insert-Keyed packet.guid d self.connections
          ((forward_packet-SameOwner lib p packet c d forward).0
            ∙ get-Keyed packet.guid c self.connections h found)
          h)
  ]

  handle_packets-Keyed :
      (packets : List Packet) (self next : RakNetProxy lib)
      → handle_packets lib p packets self ≡ ok next
      → Keyed self.connections
      → Keyed next.connections
  unfolding handle_packets
  handle_packets-Keyed [] self next e h = ground (arith, e, h)
  handle_packets-Keyed (x ∷ xs) self next e h =
      let (mid, k, rest) = >>=-eq-ok (handle_packet lib p x self) _ e in
      handle_packets-Keyed xs mid next rest (handle_packet-Keyed x self mid k h)

  -- The second loop of `serve` walks the whole map and leaves its keys.
  serve_connections-Keyed :
      (fuel : ℕ) (m n : Connections lib) (s t : lib.Peer)
      → serve_connections lib p fuel m s ≡ ok (n, t)
      → Keyed m
      → Keyed n × ((k : RakNetGuid) → get k m ≡ none → get k n ≡ none)
  unfolding serve_connections get
  serve_connections-Keyed fuel [] n s t e h =
      let empty : [] ≡ n = ground (arith, e) in rw (sym empty) (tt, λ k none. refl)
  serve_connections-Keyed fuel ((j, c) ∷ m) n s t e (own, fresh, h) =
      let ((out, d), u, k, then_send) =
        continue-eq-ok (lift (Connection.serve lib p fuel c) s) _ e in
      let (_, v, _, then_rest) =
        continue-eq-ok (send_to lib p d.system_address out u) _ then_send in
      let (rest, w, walked, last) = continue-eq-ok (serve_connections lib p fuel m v) _ then_rest in
      let (keyed, missing) = serve_connections-Keyed fuel m rest v w walked h in
      let result : (j, d) ∷ rest ≡ n = ground (arith, last) in
      let served = (lift-eq-ok (Connection.serve lib p fuel c) s k).0 in
      let owner = (serve-SameOwner lib p fuel c d out served).0 in
      rw (sym result) (
        (owner ∙ own, missing j fresh, keyed),
        λ g none_before. elim (Bool-cases (guid_eq j g)) [
          | inl same ↦ absurd (ground (arith, none_before, same))
          | inr differ ↦ rw differ (missing g (ground (arith, none_before, differ)))
        ],
      )

  serve-Keyed :
      (fuel : ℕ) (self next : RakNetProxy lib)
      → serve lib p fuel self ≡ ok next
      → Keyed self.connections
      → Keyed next.connections
  serve-Keyed fuel self next e h =
      let (packets, server, handled, m, t, _, l, walked, result) =
        serve-eq-ok lib p fuel self next e in
      let after = handle_packets-Keyed packets (record self { server = server }) handled l h in
      rw (sym result)
        (serve_connections-Keyed fuel handled.connections m handled.server t walked after).0

  -- What the network does to the client of each connection.
  abbrev pub moved : (RakNetGuid → lib.Peer → lib.Peer) → Connections lib → Connections lib
  moved f [] = []
  moved f ((k, c) ∷ m) = (k, record c { client = f k c.client }) ∷ moved f m

  moved-Keyed :
      (f : RakNetGuid → lib.Peer → lib.Peer) (m : Connections lib)
      → Keyed m
      → Keyed (moved f m) × ((k : RakNetGuid) → get k m ≡ none → get k (moved f m) ≡ none)
  unfolding get
  moved-Keyed f [] h = (tt, λ k none. refl)
  moved-Keyed f ((j, c) ∷ m) (own, fresh, h) =
      let (keyed, missing) = moved-Keyed f m h in
      (
        (own, missing j fresh, keyed),
        λ g none_before. elim (Bool-cases (guid_eq j g)) [
          | inl same ↦ absurd (ground (arith, none_before, same))
          | inr differ ↦ rw differ (missing g (ground (arith, none_before, differ)))
        ],
      )

  -- The proxies that the loop of `main` comes to: `new`, then calls of `serve`, and between them
  -- whatever the network does to its peers.
  pub data Reachable : RakNetProxy lib → Type 0 where
    made :
        (keys : Option (Bytes × Bytes)) (self : RakNetProxy lib)
        → new lib p keys ≡ ok (inr self)
        → Reachable self
    round :
        {self : RakNetProxy lib} (fuel : ℕ) (next : RakNetProxy lib)
        → Reachable self
        → serve lib p fuel self ≡ ok next
        → Reachable next
    network :
        {self : RakNetProxy lib} (server : lib.Peer) (f : RakNetGuid → lib.Peer → lib.Peer)
        → Reachable self
        → Reachable (record self { server = server; connections = moved f self.connections })

  -- In every proxy that comes from `new` by calls of `serve` and by what the network does to its
  -- peers, each connection stands under the GUID of its own client, and no GUID has two
  -- connections.
  pub Reachable-Keyed : (self : RakNetProxy lib) → Reachable self → Keyed self.connections
  Reachable-Keyed self (made keys _ e) = rw (new-connections lib p keys self e) tt
  Reachable-Keyed self (round {self = before} fuel _ r e) =
      serve-Keyed fuel before self e (Reachable-Keyed before r)
  Reachable-Keyed _ (network {self = before} server f r) =
      (moved-Keyed f before.connections (Reachable-Keyed before r)).0
