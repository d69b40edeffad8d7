-- ===== src/Proxy/Server/Unconnected.antt =====
-- The packets at which `RakNetProxy::handle_packet` of examples/proxy.rs panics by itself.
use raknet_sys.Prelude.{
  ℕ, ◌+◌, ◌≡◌, ◌≢◌, ◌↔◌, refl, ◌⊎◌, inl, inr, true, false, none, some, [], ◌∷◌, Bytes, arith, ◌==◌,
  Bool-cases, Option-cases,
}
use raknet_sys.Prelude.Outcome.{
  Panic, panic, unwrap_none, out_of_range, assertion, map_ok, >>=-eq-panic, map_ok-eq-panic,
}
use raknet_sys.Native.Platform.{Platform}
use raknet_sys.Peer.Interface.{RakNet}
use raknet_sys.MessageId.{id_new_incoming_connection, message_id_byte}
use raknet_sys.Wrapper.Address.{is_unassigned_guid}
use raknet_sys.Wrapper.Packet.{Packet}
use raknet_sys.Proxy.Connection.{ProxyConnection, ConnectionError, forward_packet}
use raknet_sys.Proxy.Connection
use raknet_sys.Proxy.Connection.Panics.{IsAccess, others, new-avoids, forward_packet-Avoids}
use raknet_sys.Proxy.Server.{
  RakNetProxy, get, insert, handle_packet, add_connection, route, unwrap_connection,
  update_connection,
}

module _ (lib : RakNet) (p : Platform) (packet : Packet) (self : RakNetProxy lib) where
  -- A new connection is made, or the attempt fails in another way.
  add_connection-avoids : (e : Panic) → IsAccess e → add_connection lib p packet self ≢ panic e
  add_connection-avoids e access h =
      let make = Connection.new lib p self.peers packet.guid packet.system_address in
      elim (>>=-eq-panic make _ h) [
        | inl failed ↦ new-avoids e access lib p self.peers packet.guid packet.system_address failed
        | inr (result, _, rest) ↦ unwrapped result rest
      ]
    where
      unwrapped :
          (result : ConnectionError ⊎ ProxyConnection lib)
          → map_ok
              (λ c. record self {
                connections = insert packet.guid c self.connections;
                peers = self.peers + 1;
              })
              (unwrap_connection lib p result)
            ≡ panic e
          → ⊥
      unwrapped (inl error) k = ground (arith, k, others e access)
      unwrapped (inr c) k = cc

  route-avoids :
      (e : Panic) (c : ProxyConnection lib)
      → IsAccess e
      → get packet.guid self.connections ≡ some c
      → route lib p packet self ≢ panic e
  route-avoids e c access found h =
      let forward : map_ok (update_connection lib p packet.guid self)
            (forward_packet lib p packet c)
          ≡ panic e =
        ground (arith, h, found) in
      forward_packet-Avoids e access lib p packet c (
        map_ok-eq-panic (update_connection lib p packet.guid self) (forward_packet lib p packet c)
          forward)

  route_unconnected :
      (route lib p packet self ≡ panic unwrap_none) ↔ (get packet.guid self.connections ≡ none)
  route_unconnected = elim (Option-cases (get packet.guid self.connections)) [
    | inl missing ↦ (λ h. missing, λ h. ground (arith, missing))
    | inr (c, found) ↦ (
      λ h. absurd (route-avoids unwrap_none c tt found h),
      λ missing. absurd (ground (arith, missing, found)),
    )
  ]

  route_in_range : route lib p packet self ≢ panic out_of_range
  route_in_range h = elim (Option-cases (get packet.guid self.connections)) [
    | inl missing ↦ absurd (ground (arith, missing, h))
    | inr (c, found) ↦ route-avoids out_of_range c tt found h
  ]

  -- A packet of a client that has no connection.
  abbrev pub IsUnconnected : Type 0
  IsUnconnected =
      (b : ℕ) × (bs : Bytes) × (packet.bytes ≡ b ∷ bs)
      × (b ≢ message_id_byte id_new_incoming_connection)
      × (get packet.guid self.connections ≡ none)

  abbrev PanicsExactly : Type 0
  PanicsExactly =
      ((handle_packet lib p packet self ≡ panic unwrap_none)
        ↔ ((is_unassigned_guid packet.guid ≡ false) × IsUnconnected))
      × ((handle_packet lib p packet self ≡ panic out_of_range)
          ↔ ((is_unassigned_guid packet.guid ≡ false) × (packet.bytes ≡ [])))

  -- The four ways through the handler.
  unassigned_panics :
      is_unassigned_guid packet.guid ≡ true → handle_packet lib p packet self ≡ panic assertion
  unfolding handle_packet
  unassigned_panics u = ground (arith, u)

  empty_panics :
      is_unassigned_guid packet.guid ≡ false
      → packet.bytes ≡ []
      → handle_packet lib p packet self ≡ panic out_of_range
  unfolding handle_packet
  empty_panics a e = ground (arith, a, e)

  opening_adds :
      (b : ℕ) (bs : Bytes)
      → is_unassigned_guid packet.guid ≡ false
      → packet.bytes ≡ b ∷ bs
      → (b == message_id_byte id_new_incoming_connection) ≡ true
      → handle_packet lib p packet self ≡ add_connection lib p packet self
  unfolding handle_packet
  opening_adds b bs a e k = rw (a, e, k)

  other_routes :
      (b : ℕ) (bs : Bytes)
      → is_unassigned_guid packet.guid ≡ false
      → packet.bytes ≡ b ∷ bs
      → (b == message_id_byte id_new_incoming_connection) ≡ false
      → handle_packet lib p packet self ≡ route lib p packet self
  unfolding handle_packet
  other_routes b bs a e k = rw (a, e, k)

  panics_at :
      (bytes : Bytes)
      → packet.bytes ≡ bytes
      → is_unassigned_guid packet.guid ≡ false
      → PanicsExactly
  panics_at [] e a =
      let r = empty_panics a e in
      (
        (
          λ h. absurd (ground (arith, h, r)),
          λ (_, (b, bs, e', _, _)). absurd (ground (arith, e, e')),
        ),
        (λ h. (a, e), λ h. r),
      )
  panics_at (b ∷ bs) e a = elim (Bool-cases (b == message_id_byte id_new_incoming_connection)) [
    | inl new ↦
        let r = opening_adds b bs a e new in
        (
          (
            λ h. absurd (add_connection-avoids unwrap_none tt (rw (← r) h)),
            λ (_, (b', bs', e', n, _)). absurd (ground (arith, e, e', n, new)),
          ),
          (
            λ h. absurd (add_connection-avoids out_of_range tt (rw (← r) h)),
            λ (_, e'). absurd (ground (arith, e, e')),
          ),
        )
    | inr old ↦
        let r = other_routes b bs a e old in
        (
          (
            λ h. (a, (b, bs, e, ground (arith, old), route_unconnected.0 (rw (← r) h))),
            λ (_, (_, _, _, _, missing)). rw r (route_unconnected.1 missing),
          ),
          (λ h. absurd (route_in_range (rw (← r) h)), λ (_, e'). absurd (ground (arith, e, e'))),
        )
  ]

  -- The handler panics on a missing connection exactly if the sender has a GUID, the packet is not
  -- empty and not the notification of a new connection, and the map has no connection under that
  -- GUID; and it panics on an index beyond the end exactly if the sender has a GUID and the packet
  -- is empty.
  pub handle_packet_panics :
      ((handle_packet lib p packet self ≡ panic unwrap_none)
        ↔ ((is_unassigned_guid packet.guid ≡ false) × IsUnconnected))
      × ((handle_packet lib p packet self ≡ panic out_of_range)
          ↔ ((is_unassigned_guid packet.guid ≡ false) × (packet.bytes ≡ [])))
  handle_packet_panics = elim (Bool-cases (is_unassigned_guid packet.guid)) [
    | inl u ↦
        let r = unassigned_panics u in
        (
          (λ h. absurd (ground (arith, h, r)), λ (a, _). absurd (ground (arith, a, u))),
          (λ h. absurd (ground (arith, h, r)), λ (a, _). absurd (ground (arith, a, u))),
        )
    | inr a ↦ panics_at packet.bytes refl a
  ]
