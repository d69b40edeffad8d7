-- ===== src/Proxy/Connection/Queue.antt =====
-- What `forward_packet` of examples/proxy.rs leaves alone: the packets that wait at the client.
use raknet_sys.Prelude.{
  ℕ, ◌≡◌, ap, sym, ◌∙◌, List, [], ◌∷◌, ◌++◌, Bytes, arith, if◌then◌else◌, Bool-cases, inl, inr,
}
use raknet_sys.Prelude.Outcome.{ok, map_ok-eq-ok}
use raknet_sys.Prelude.State.{M, continue, continue-eq-ok}
use raknet_sys.Prelude.Keeps.{Keeps, Keeps-lift, Keeps-bind, Keeps-after_call}
use raknet_sys.Native.Platform.{Platform}
use raknet_sys.Peer.Interface.{RakNet, SendArgs}
use raknet_sys.Peer.Shim.{rak_peer_get_system_address_from_index}
use raknet_sys.Wrapper.Address.{SystemAddress, from_system_address, is_unassigned_address}
use raknet_sys.Wrapper.Packet.{Packet}
use raknet_sys.Wrapper.Sender.{set_data, set_broadcast, send}
use raknet_sys.Wrapper.Sender
use raknet_sys.Wrapper.Sender.Send.{broadcast_args, send-broadcast}
use raknet_sys.Wrapper.Methods.{get_system_address_from_index}
use raknet_sys.Proxy.Connection.{
  ProxyConnection, on_client, with_client, unwrap_sent, send_message, send_queued, forward_packet,
}

-- Sending a message and looking up an address add nothing to a list that the library keeps, such as
-- the packets that wait, and take nothing from it.
pub record Undisturbed (lib : RakNet) {X : Type 0} (shown : lib.Peer → List X) : Type 0 where
  pub send_keeps : (args : SendArgs) (s : lib.Peer) → shown (lib.send args s).1 ≡ shown s
  pub lookup_keeps :
      (i : ℕ) (s : lib.Peer) → shown (lib.get_system_address_from_index i s).1 ≡ shown s

module _ (lib : RakNet) (p : Platform) {X : Type 0} (shown : lib.Peer → List X)
    (quiet : Undisturbed lib shown) where
  abbrev client_shown : ProxyConnection lib → List X
  client_shown c = shown c.client

  on_client-Keeps :
      {A : Type 0} (m : M lib.Peer A) → Keeps shown m → Keeps client_shown (on_client m)
  on_client-Keeps {A} m k c d a h =
      let (x, e, same) = map_ok-eq-ok (with_client c) (m c.client) h in
      ap (λ (y : A × ProxyConnection lib). shown y.1.client) (sym same) ∙ k c.client x.1 x.0 e

  send-broadcast-Keeps :
      (bytes : Bytes) → Keeps shown (send lib p (set_broadcast (set_data bytes Sender.new)))
  send-broadcast-Keeps bytes s t a h =
      let next = (lib.send (broadcast_args p bytes) s).1 in
      let same : t ≡ next = ground (arith, h, send-broadcast lib p bytes s) in
      ap shown same ∙ quiet.send_keeps (broadcast_args p bytes) s

  send_message-Keeps : (bytes : Bytes) → Keeps client_shown (send_message lib p bytes)
  unfolding send_message
  send_message-Keeps bytes =
      Keeps-bind client_shown (on_client (send lib p (set_broadcast (set_data bytes Sender.new))))
        (on_client-Keeps _ (send-broadcast-Keeps bytes))
        λ result. Keeps-lift client_shown (unwrap_sent result)

  send_queued-Keeps : (ms : List Bytes) → Keeps client_shown (send_queued lib p ms)
  unfolding send_queued
  send_queued-Keeps [] s t a h = ground (arith, h)
  send_queued-Keeps (m ∷ ms) s t a h =
      Keeps-bind client_shown (send_message lib p m) (send_message-Keeps m)
        (λ _. send_queued-Keeps ms) (record s { messages = ms }) t a h

  lookup-Keeps : (i : ℕ) → Keeps shown (get_system_address_from_index lib p i)
  unfolding get_system_address_from_index rak_peer_get_system_address_from_index
  lookup-Keeps i =
      Keeps-after_call shown (lib.get_system_address_from_index i) (quiet.lookup_keeps i)
        λ a. Keeps-lift shown (from_system_address p a)

  send_all-Keeps :
      (bytes : Bytes) (c d : ProxyConnection lib)
      → continue (send_queued lib p c.messages c) (λ _. send_message lib p bytes) ≡ ok (tt, d)
      → client_shown d ≡ client_shown c
  send_all-Keeps bytes c d h =
      Keeps-bind client_shown (send_queued lib p c.messages) (send_queued-Keeps c.messages)
        (λ _. send_message-Keeps bytes) c d tt h

  forward_after_lookup :
      (packet : Packet) (a : SystemAddress) (c d : ProxyConnection lib)
      → (if is_unassigned_address a
          then ok (tt, record c { messages = c.messages ++ packet.bytes ∷ [] })
          else continue (send_queued lib p c.messages c) (λ _. send_message lib p packet.bytes))
        ≡ ok (tt, d)
      → client_shown d ≡ client_shown c
  forward_after_lookup packet a c d h = elim (Bool-cases (is_unassigned_address a)) [
    | inl waits ↦ ground (arith, h, waits)
    | inr connected ↦ send_all-Keeps packet.bytes c d (ground (arith, h, connected))
  ]

  pub forward_packet-shown :
      (packet : Packet) (c d : ProxyConnection lib)
      → forward_packet lib p packet c ≡ ok (tt, d)
      → shown d.client ≡ shown c.client
  unfolding forward_packet
  forward_packet-shown packet c d h =
      let m = get_system_address_from_index lib p 0 in
      let (a, t, e, rest) = continue-eq-ok (on_client m c) _ h in
      forward_after_lookup packet a t d rest ∙ on_client-Keeps m (lookup-Keeps 0) c t a e
