-- ===== src/Proxy/Connection/Order.antt =====
-- The queue of a connection of examples/proxy.rs: messages are sent in the order in which they were
-- to be forwarded, and none is lost.
use raknet_sys.Prelude.{
  ◌≡◌, refl, ap, sym, ◌∙◌, ◌⊎◌, inl, inr, List, [], ◌∷◌, ◌++◌, map, append-nil, append_assoc, Bytes,
  arith, ◌==◌, ==_iff, if◌then◌else◌, Bool-cases,
}
use raknet_sys.Prelude.Outcome.{ok, panic, unwrap_err}
use mathlib.Core.List.{map-append}
use raknet_sys.Native.Platform.{Platform}
use raknet_sys.Peer.Interface.{RakNet}
use raknet_sys.Peer.Shim.{rak_peer_get_system_address_from_index}
use raknet_sys.Wrapper.Address.{SystemAddress, from_system_address, is_unassigned_address}
use raknet_sys.Wrapper.Sender.Send.{broadcast_args, send-broadcast}
use raknet_sys.Wrapper.Sender.Contract.{Sending, Refuses}
use raknet_sys.Wrapper.Packet.{Packet}
use raknet_sys.Wrapper.Methods.{get_system_address_from_index}
use raknet_sys.Prelude.State.{continue}
use raknet_sys.Proxy.Connection.{ProxyConnection, send_message, send_queued, forward_packet}

module _ (lib : RakNet) (p : Platform) (sending : Sending lib) where
  open lib use {Peer}
  open sending use {sent}

  -- The client has accepted these messages, in this order, since `s`.
  abbrev pub Sent : Peer → List Bytes → Peer → Type 0
  Sent s messages t = sent t ≡ sent s ++ map (broadcast_args p) messages

  abbrev after_message : Bytes → ProxyConnection lib → ProxyConnection lib
  after_message bytes c = record c { client = (lib.send (broadcast_args p bytes) c.client).1 }

  -- A message is accepted and logged, or refused, which panics.
  send_message_cases :
      (bytes : Bytes) (c : ProxyConnection lib)
      → ((send_message lib p bytes c ≡ panic unwrap_err) × Refuses lib)
        ⊎ ((send_message lib p bytes c ≡ ok (tt, after_message bytes c))
            × Sent c.client (bytes ∷ []) (after_message bytes c).client)
  unfolding send_message
  send_message_cases bytes c =
      let args = broadcast_args p bytes in
      elim (Bool-cases ((lib.send args c.client).0 == 0)) [
        | inl refused ↦ inl (
          rw (send-broadcast lib p bytes c.client, refused),
          (args, c.client, (==_iff _ 0).0 refused),
        )
        | inr accepted ↦ inr (
          rw (send-broadcast lib p bytes c.client, accepted),
          sending.send_accepted args c.client (ground arith),
        )
      ]

  -- One message and those after it.
  joined :
      (s : Peer) {t : Peer} (m : Bytes) (ms : List Bytes) (u : Peer)
      → Sent s (m ∷ []) t
      → Sent t ms u
      → Sent s (m ∷ ms) u
  joined s m ms u first rest =
      rest
      ∙ ap (λ log. log ++ map (broadcast_args p) ms) first
      ∙ append_assoc (sent s) (broadcast_args p m ∷ []) (map (broadcast_args p) ms)

  -- The messages before the last one, and that one.
  appended :
      (s : Peer) {t : Peer} (ms : List Bytes) (m : Bytes) (u : Peer)
      → Sent s ms t
      → Sent t (m ∷ []) u
      → Sent s (ms ++ m ∷ []) u
  appended s ms m u first rest =
      rest
      ∙ ap (λ log. log ++ broadcast_args p m ∷ []) first
      ∙ append_assoc (sent s) (map (broadcast_args p) ms) (broadcast_args p m ∷ [])
      ∙ ap (λ log. sent s ++ log) (sym (map-append (broadcast_args p) ms (m ∷ [])))

  -- The queue is sent whole and in its order, or a message is refused, which panics.
  send_queued_cases :
      (ms : List Bytes) (c : ProxyConnection lib)
      → ((send_queued lib p ms c ≡ panic unwrap_err) × Refuses lib)
        ⊎ ((client : Peer) × (send_queued lib p ms c
              ≡ ok (tt, record c { client = client; messages = [] }))
            × Sent c.client ms client)
  unfolding send_queued
  send_queued_cases [] c = inr (c.client, refl, sym (append-nil (sent c.client)))
  send_queued_cases (m ∷ ms) c = elim (send_message_cases m (record c { messages = ms })) [
    | inl (e, refused) ↦ inl (rw e, refused)
    | inr (e, logged) ↦ elim (send_queued_cases ms (after_message m (record c { messages = ms }))) [
      | inl (k, refused) ↦ inl (rw (e, k), refused)
      | inr (client, k, rest) ↦ inr (client, rw (e, k), joined c.client m ms client logged rest)
    ]
  ]

  abbrev after_lookup : ProxyConnection lib → ProxyConnection lib
  after_lookup c = record c { client = (lib.get_system_address_from_index 0 c.client).1 }

  -- The queue, then the message itself.
  send_all_cases :
      (bytes : Bytes) (c : ProxyConnection lib)
      → ((continue (send_queued lib p c.messages c) (λ _. send_message lib p bytes)
            ≡ panic unwrap_err)
          × Refuses lib)
        ⊎ ((client : Peer) × (continue
                (send_queued lib p c.messages c)
                (λ _. send_message lib p bytes)
              ≡ ok (tt, record c { client = client; messages = [] }))
            × Sent c.client (c.messages ++ bytes ∷ []) client)
  send_all_cases bytes c = elim (send_queued_cases c.messages c) [
    | inl (e, refused) ↦ inl (rw e, refused)
    | inr (client, e, logged) ↦
        let d = record c { client = client; messages = [] } in
        elim (send_message_cases bytes d) [
          | inl (k, refused) ↦ inl (rw (e, k), refused)
          | inr (k, last) ↦ inr (
            (after_message bytes d).client,
            rw (e, k),
            appended c.client c.messages bytes (after_message bytes d).client logged last,
          )
        ]
  ]

  -- What `forward_packet` does with a message, given the address of the client's server that it
  -- finds: unassigned, it queues the message, at the end.
  abbrev pub Forwards : Packet → SystemAddress → ProxyConnection lib → ProxyConnection lib → Type 0
  Forwards packet a c d =
      (d.guid ≡ c.guid)
      × (d.system_address ≡ c.system_address)
      × (if is_unassigned_address a
          then (d.messages ≡ c.messages ++ packet.bytes ∷ []) × Sent c.client [] d.client
          else (d.messages ≡ []) × Sent c.client (c.messages ++ packet.bytes ∷ []) d.client)

  -- Where the address that the client has for its server can be read: once it is not the
  -- unassigned one, the queue is sent whole before the message, in order, and the queue is left
  -- empty; until then the message is put at the end of the queue and nothing is sent. It panics
  -- only if the library refuses a message.
  pub forward_packet_lem :
      (packet : Packet) (c : ProxyConnection lib) (a : SystemAddress)
      → from_system_address p (lib.get_system_address_from_index 0 c.client).0 ≡ ok a
      → ((forward_packet lib p packet c ≡ panic unwrap_err) × Refuses lib)
        ⊎ ((d : ProxyConnection lib) × (forward_packet lib p packet c ≡ ok (tt, d))
            × Forwards packet a c d)
  unfolding forward_packet get_system_address_from_index rak_peer_get_system_address_from_index
  forward_packet_lem packet c a e =
      let looked = sending.lookup_keeps 0 c.client in
      elim (Bool-cases (is_unassigned_address a)) [
        | inl waits ↦ inr (
          record (after_lookup c) { messages = c.messages ++ packet.bytes ∷ [] },
          rw (e, waits),
          (refl, refl, rw waits (refl, looked ∙ sym (append-nil (sent c.client)))),
        )
        | inr connected ↦ elim (send_all_cases packet.bytes (after_lookup c)) [
          | inl (k, refused) ↦ inl (rw (e, connected, k), refused)
          | inr (client, k, logged) ↦ inr (
            record c { client = client; messages = [] },
            rw (e, connected, k),
            (
              refl,
              refl,
              rw connected (
                refl,
                logged
                    ∙ ap (λ log. log ++ map (broadcast_args p) (c.messages ++ packet.bytes ∷ []))
                        looked,
              ),
            ),
          )
        ]
      ]
