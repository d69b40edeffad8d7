-- ===== src/Proxy/Server/Routing.antt =====
-- The connections of the proxy of examples/proxy.rs as a map: a packet reaches the connection of its
-- sender and no other.
use raknet_sys.Prelude.{
  ℕ, ◌+◌, ◌≡◌, ◌≢◌, refl, ap, sym, ◌∙◌, ◌⊎◌, inl, inr, true, false, some, [], ◌∷◌, Bytes, arith,
  ◌==◌, Bool-cases, Option-cases,
}
use raknet_sys.Prelude.Outcome.{map_ok, ok, >>=-eq-ok, map_ok-eq-ok}
use raknet_sys.Native.Platform.{Platform}
use raknet_sys.Peer.Interface.{RakNet}
use raknet_sys.MessageId.{id_new_incoming_connection, message_id_byte}
use raknet_sys.Wrapper.Address.{RakNetGuid, guid_eq}
use raknet_sys.Wrapper.Address.Unassigned.{guid_eq_iff}
use raknet_sys.Wrapper.Packet.{Packet}
use raknet_sys.Proxy.Connection.{ProxyConnection, ConnectionError, first_byte, forward_packet}
use raknet_sys.Proxy.Connection
use raknet_sys.Proxy.Server.{
  Connections, RakNetProxy, get, insert, handle_packet, add_connection, route, update_connection,
  unwrap_connection,
}

pub guid_eq_same : (x : RakNetGuid) → guid_eq x x ≡ true
guid_eq_same x = (guid_eq_iff x x).1 refl

pub guid_eq_other : (x y : RakNetGuid) → x ≢ y → guid_eq x y ≡ false
guid_eq_other x y n = elim (Bool-cases (guid_eq x y)) [
  | inl e ↦ absurd (n ((guid_eq_iff x y).0 e))
  | inr e ↦ e
]

module _ {lib : RakNet} where
  -- What is inserted is found under its key.
  pub get-insert_same :
      (k : RakNetGuid) (c : ProxyConnection lib) (m : Connections lib)
      → get k (insert k c m) ≡ some c
  unfolding get insert
  get-insert_same k c [] = rw (guid_eq_same k)
  get-insert_same k c ((j, d) ∷ m) = elim (Bool-cases (guid_eq j k)) [
    | inl e ↦ rw (e, e)
    | inr e ↦ rw (e, e) (get-insert_same k c m)
  ]

  -- No other key is changed.
  pub get-insert_other :
      (k j : RakNetGuid) (c : ProxyConnection lib) (m : Connections lib)
      → k ≢ j
      → get j (insert k c m) ≡ get j m
  unfolding get insert
  get-insert_other k j c [] n = rw (guid_eq_other k j n)
  get-insert_other k j c ((i, d) ∷ m) n = elim (Bool-cases (guid_eq i k)) [
    | inl e ↦
        let other : guid_eq i j ≡ false = rw ((guid_eq_iff i k).0 e) (guid_eq_other k j n) in
        rw (e, other)
    | inr e ↦ rw (e, get-insert_other k j c m n)
  ]

module _ (lib : RakNet) (p : Platform) (packet : Packet) (self : RakNetProxy lib) where
  -- How a packet ends that a proxy handles: with the connection of its sender, made or known.
  pub data Handled (next : RakNetProxy lib) : Type 0 where
    added :
        (bs : Bytes) (c : ProxyConnection lib)
        → packet.bytes ≡ message_id_byte id_new_incoming_connection ∷ bs
        → Connection.new lib p self.peers packet.guid packet.system_address ≡ ok (inr c)
        → next ≡ record self {
          connections = insert packet.guid c self.connections;
          peers = self.peers + 1;
        }
        → Handled next
    routed :
        (b : ℕ) (bs : Bytes) (c d : ProxyConnection lib)
        → packet.bytes ≡ b ∷ bs
        → b ≢ message_id_byte id_new_incoming_connection
        → get packet.guid self.connections ≡ some c
        → forward_packet lib p packet c ≡ ok (tt, d)
        → next ≡ record self { connections = insert packet.guid d self.connections }
        → Handled next

  add_connection-Handled :
      (bs : Bytes) (next : RakNetProxy lib)
      → packet.bytes ≡ message_id_byte id_new_incoming_connection ∷ bs
      → add_connection lib p packet self ≡ ok next
      → Handled next
  add_connection-Handled bs next e h =
      let (result, made, rest) =
        >>=-eq-ok (Connection.new lib p self.peers packet.guid packet.system_address) _ h in
      let (c, u, k) = map_ok-eq-ok _ (unwrap_connection lib p result) rest in
      added bs c e (made ∙ ap ok (unwrapped result c u)) (sym k)
    where
      unwrapped :
          (result : ConnectionError ⊎ ProxyConnection lib) (c : ProxyConnection lib)
          → unwrap_connection lib p result ≡ ok c
          → result ≡ inr c
      unwrapped (inl x) c u = cc
      unwrapped (inr x) c u = ground (arith, u)

  route-Handled :
      (b : ℕ) (bs : Bytes) (next : RakNetProxy lib)
      → packet.bytes ≡ b ∷ bs
      → b ≢ message_id_byte id_new_incoming_connection
      → route lib p packet self ≡ ok next
      → Handled next
  route-Handled b bs next e n h = elim (Option-cases (get packet.guid self.connections)) [
    | inl missing ↦ absurd (ground (arith, h, missing))
    | inr (c, found) ↦
        let forward : map_ok (update_connection lib p packet.guid self)
              (forward_packet lib p packet c)
            ≡ ok next =
          ground (arith, h, found) in
        let (d, k, same) = map_ok-eq-ok _ (forward_packet lib p packet c) forward in
        routed b bs c d.1 e n found k (sym same)
  ]

  bytes-Handled :
      (bytes : Bytes) (next : RakNetProxy lib)
      → packet.bytes ≡ bytes
      → handle_packet lib p packet self ≡ ok next
      → Handled next
  unfolding handle_packet
  bytes-Handled [] next e h = absurd (ground (arith, h, e))
  bytes-Handled (b ∷ bs) next e h =
      elim (Bool-cases (b == message_id_byte id_new_incoming_connection)) [
        | inl new ↦
            add_connection-Handled bs next (ground (arith, e, new)) (ground (arith, h, e, new))
        | inr old ↦ route-Handled b bs next e (ground (arith, old)) (ground (arith, h, e, old))
      ]

  pub handle_packet-Handled :
      (next : RakNetProxy lib) → handle_packet lib p packet self ≡ ok next → Handled next
  handle_packet-Handled next h = bytes-Handled packet.bytes next refl h

  -- The handling of a packet changes nothing for the other clients: the connection of each other
  -- GUID is what it was, and the server's peer is.
  pub handle_packet_isolated :
      (next : RakNetProxy lib) (other : RakNetGuid)
      → handle_packet lib p packet self ≡ ok next
      → packet.guid ≢ other
      → (get other next.connections ≡ get other self.connections) × (next.server ≡ self.server)
  handle_packet_isolated next other h n = elim (handle_packet-Handled next h) [
    | added bs c e made same ↦
        rw same (get-insert_other packet.guid other c self.connections n, refl)
    | routed b bs c d e k found forward same ↦
        rw same (get-insert_other packet.guid other d self.connections n, refl)
  ]
