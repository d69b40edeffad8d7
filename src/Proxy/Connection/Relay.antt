-- ===== src/Proxy/Connection/Relay.antt =====
-- `ProxyConnection::serve` and `handle_packet` of examples/proxy.rs: what the game server sent is handed
-- on, the notifications of the library itself are not.
use raknet_sys.Prelude.{
  ℕ, ◌<◌, ◌≡◌, ◌≢◌, refl, ◌↔◌, ◌⊎◌, Bool, false, none, some, List, [], ◌∷◌, Bytes, length, leb,
  arith, if◌then◌else◌, All, Bool-cases, inl, inr,
}
use raknet_sys.Prelude.Outcome.{ok, panic, out_of_range, traverse}
use raknet_sys.Native.Platform.{Platform}
use raknet_sys.Peer.Interface.{RakNet}
use raknet_sys.MessageId.{id_advertise_system, message_id_byte}
use raknet_sys.Wrapper.Packet.{Packet, from_packet}
use raknet_sys.Wrapper.Receive.Contract.{Queueing}
use raknet_sys.Wrapper.Receive.Drain.{receive_all_drains}
use raknet_sys.Proxy.Connection.{ProxyConnection, handle_packet, handle_packets, serve}

-- The packet is one of a program, and not a notification of the library.
abbrev pub is_message : Packet → Bool
is_message packet = elim packet.bytes [
  | [] ↦ false
  | b ∷ bs ↦ leb (message_id_byte id_advertise_system) b
]

abbrev pub relayed : List Packet → List Bytes
relayed [] = []
relayed (x ∷ xs) = if is_message x then x.bytes ∷ relayed xs else relayed xs

list_cases : (xs : Bytes) → (xs ≡ []) ⊎ (xs ≢ [])
list_cases [] = inl refl
list_cases (x ∷ xs) = inr (λ h. cc)

handle_packet_cases :
    (packet : Packet)
    → packet.bytes ≢ []
    → handle_packet packet ≡ ok (if is_message packet then some packet.bytes else none)
unfolding handle_packet
handle_packet_cases packet h = ground arith

abbrev pub NotEmpty : Packet → Type 0
NotEmpty packet = packet.bytes ≢ []

handle_packet_empty :
    (packet : Packet) → packet.bytes ≡ [] → handle_packet packet ≡ panic out_of_range
unfolding handle_packet
handle_packet_empty packet h = rw h

handle_packets-NotEmpty :
    (packets : List Packet) → All NotEmpty packets → handle_packets packets ≡ ok (relayed packets)
unfolding handle_packets
handle_packets-NotEmpty [] h = refl
handle_packets-NotEmpty (x ∷ xs) (h, hs) =
    rw (handle_packet_cases x h, handle_packets-NotEmpty xs hs)
      elim (Bool-cases (is_message x)) [ inl e ↦ rw e | inr e ↦ rw e ]

handle_packets_decided :
    (packets : List Packet)
    → All NotEmpty packets
      ⊎ ((handle_packets packets ≡ panic out_of_range) × ¬ All NotEmpty packets)
unfolding handle_packets
handle_packets_decided [] = inl tt
handle_packets_decided (x ∷ xs) = elim (list_cases x.bytes) [
  | inl e ↦ inr (rw (handle_packet_empty x e), λ h. h.0 e)
  | inr n ↦ elim (handle_packets_decided xs) [
    | inl hs ↦ inl (n, hs)
    | inr (panics, nhs) ↦ inr (rw (handle_packet_cases x n, panics), λ h. nhs h.1)
  ]
]

-- If no packet is empty, those whose first byte is the number of an advertisement or a greater one
-- are handed on, in their order, and no others. If some packet is empty, the call panics. These are
-- the only ways in which it ends.
pub handle_packets_lem :
    (packets : List Packet)
    → ((ys : List Bytes)
        → (handle_packets packets ≡ ok ys) ↔ (All NotEmpty packets × (relayed packets ≡ ys)))
      × ((handle_packets packets ≡ panic out_of_range) ↔ (¬ All NotEmpty packets))
handle_packets_lem packets = elim (handle_packets_decided packets) [
  | inl h ↦
      let r = handle_packets-NotEmpty packets h in
      (λ ys. ground (arith, r, h), ground (arith, r, h))
  | inr (r, n) ↦ (λ ys. ground (arith, r, n), ground (arith, r, n))
]

module _ (lib : RakNet) (p : Platform) (q : Queueing lib) where
  -- If every packet that waits at the client can be converted and none of them is empty, `serve`
  -- returns the messages among them in the order of the queue, and leaves the queue empty and the
  -- queued messages of the connection as they were. One round for each packet and one more are enough.
  pub serve_relays :
      (fuel : ℕ) (c : ProxyConnection lib) (packets : List Packet)
      → length (q.waiting c.client) < fuel
      → traverse (from_packet p) (q.waiting c.client) ≡ ok packets
      → All NotEmpty packets
      → (client : lib.Peer) × (serve lib p fuel c
          ≡ ok (relayed packets, record c { client = client }))
        × (q.waiting client ≡ [])
  unfolding serve
  serve_relays fuel c packets m e h =
      let (client, r, empty, _) = receive_all_drains lib p q fuel c.client packets m e in
      (client, rw (r, handle_packets-NotEmpty packets h), empty)
