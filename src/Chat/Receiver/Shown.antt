-- ===== src/Chat/Receiver/Shown.antt =====
-- What the chat programs of examples print of what is received, and of each other's messages.
use raknet_sys.Prelude.{
  ltb, Bool-cases, ◌↔◌, ℕ, ◌<◌, ◌≡◌, ◌≢◌, refl, ap, ◌∙◌, ◌⊎◌, inl, inr, true, [], ◌∷◌, ◌++◌, Bytes,
  All, length, arith,
}
use raknet_sys.Prelude.Outcome.{
  Outcome, ok, panic, undefined, out_of_fuel, out_of_range, map_ok, traverse, ◌>>=◌,
}
use raknet_sys.Prelude.State.{continue, lift}
use raknet_sys.Prelude.Texts.{codes}
use raknet_sys.Native.Platform.{Platform}
use raknet_sys.Peer.Interface.{RakNet}
use raknet_sys.MessageId.{id_user_packet_enum, message_id_byte}
use raknet_sys.Wrapper.Packet.{Packet, from_packet}
use raknet_sys.Wrapper.Receive.{receive_all}
use raknet_sys.Wrapper.Receive.Contract.{Queueing}
use raknet_sys.Wrapper.Receive.Outcomes.{receive_all-traverse}
use raknet_sys.Wrapper.Text.{is_utf8}
use raknet_sys.Wrapper.Text.Utf8.{Chars, IsChar, encode_char, as_bytes, as_bytes-is_utf8}
use raknet_sys.Chat.Console.{Program, server, client, message_bytes}
use raknet_sys.Chat.Receiver.{Received, text, message_of, show_packet, poll}

-- What is printed of a packet that has a byte, as a text.
abbrev pub shown_as_text : Packet → ℕ → Received
shown_as_text packet packet_id = record {
  system_address = packet.system_address;
  local = packet.local;
  packet_id = packet_id;
  data_len = length packet.bytes;
  bitsize = packet.bitsize;
  message = text packet.bytes;
}

message_bytes-is_utf8 :
    (program : Program) (cs : Chars) → All IsChar cs → is_utf8 (message_bytes program cs) ≡ true
unfolding message_bytes as_bytes
message_bytes-is_utf8 server cs h =
    let ascii : (c : ℕ) → c < 0x80 → IsChar c = λ c k. inl (omega arith) in
    as_bytes-is_utf8 (codes "Server: " ++ cs) (
      ascii 83 (omega arith),
      (
        ascii 101 (omega arith),
        (
          ascii 114 (omega arith),
          (
            ascii 118 (omega arith),
            (
              ascii 101 (omega arith),
              (ascii 114 (omega arith), (ascii 58 (omega arith), (ascii 32 (omega arith), h))),
            ),
          ),
        ),
      ),
    )
message_bytes-is_utf8 client cs h = as_bytes-is_utf8 cs h

encode_char-ne-nil : (c : ℕ) (bs : Bytes) → encode_char c ++ bs ≢ []
encode_char-ne-nil c bs = ground arith

message_bytes-nil :
    (program : Program) (cs : Chars)
    → message_bytes program cs ≡ []
    → (program ≡ client) × (cs ≡ [])
unfolding message_bytes as_bytes
message_bytes-nil server cs e = cc
message_bytes-nil client [] e = (refl, refl)
message_bytes-nil client (c ∷ cs) e = absurd (encode_char-ne-nil c (as_bytes cs) e)

shown_bytes :
    (packet : Packet) (bytes : Bytes)
    → packet.bytes ≡ bytes
    → is_utf8 packet.bytes ≡ true
    → ((bytes ≡ []) × (show_packet packet ≡ panic out_of_range))
      ⊎ ((b : ℕ) × (bs : Bytes) × (bytes ≡ b ∷ bs)
          × (show_packet packet ≡ ok (shown_as_text packet b)))
unfolding show_packet message_of
shown_bytes packet [] e u = inl (refl, rw e)
shown_bytes packet (b ∷ bs) e u = inr (b, bs, refl, rw u (ground (arith, e)))

-- A message of a chat program that arrives as it was sent is printed as a text, with its own first
-- byte as the identifier and its own length; or it is an empty line of the client, at which the
-- program that receives it panics.
pub message_shown :
    (program : Program) (cs : Chars) (packet : Packet)
    → All IsChar cs
    → packet.bytes ≡ message_bytes program cs
    → ((program ≡ client) × (cs ≡ []) × (show_packet packet ≡ panic out_of_range))
      ⊎ ((b : ℕ) × (bs : Bytes) × (message_bytes program cs ≡ b ∷ bs)
          × (show_packet packet ≡ ok (shown_as_text packet b)))
message_shown program cs packet h e =
    elim (shown_bytes packet (message_bytes program cs) e
      (rw e (message_bytes-is_utf8 program cs h))) [
        | inl (empty, panics) ↦
            let (c, none) = message_bytes-nil program cs empty in inl (c, none, panics)
        | inr shown ↦ inr shown
      ]

-- The first byte of a character is below the identifiers for programs exactly if it is an ASCII one.
encode_char-first :
    (c b : ℕ) (rest bs : Bytes)
    → encode_char c ++ rest ≡ b ∷ bs
    → (b < message_id_byte id_user_packet_enum) ↔ (c < 0x80)
unfolding message_id_byte
encode_char-first c b rest bs e = elim (Bool-cases (ltb c 0x80)) [
  | inl ascii ↦ ground (arith, e, ascii)
  | inr other ↦ ground (arith, e, other)
]

abbrev pub StartsAscii : Chars → Type 0
StartsAscii cs = (c : ℕ) × (rest : Chars) × (cs ≡ c ∷ rest) × (c < 0x80)

first_reserved :
    (program : Program) (cs : Chars) (b : ℕ) (bs : Bytes)
    → message_bytes program cs ≡ b ∷ bs
    → (b < message_id_byte id_user_packet_enum) ↔ ((program ≡ server) ⊎ StartsAscii cs)
unfolding message_bytes as_bytes message_id_byte
first_reserved server cs b bs e = (λ h. inl refl, λ h. ground (arith, e))
first_reserved client [] b bs e = cc
first_reserved client (c ∷ cs) b bs e =
    let (to_ascii, from_ascii) = encode_char-first c b (as_bytes cs) bs e in
    (
      λ h. inr (c, cs, refl, to_ascii h),
      λ h. elim h [
        | inl is_server ↦ cc
        | inr (d, rest, same, ascii) ↦ from_ascii (ground (arith, same, ascii))
      ],
    )

-- A message of a chat program that arrives as it was sent is printed with an identifier, unless it
-- is an empty line of the client, at which the receiver panics. The identifier is below the first
-- one for programs, and so one of RakNet's own, exactly if the message is the server's or the line
-- starts with an ASCII character.
pub message_identifier :
    (program : Program) (cs : Chars) (packet : Packet)
    → All IsChar cs
    → packet.bytes ≡ message_bytes program cs
    → ((program ≡ client) × (cs ≡ []) × (show_packet packet ≡ panic out_of_range))
      ⊎ ((received : Received) × (show_packet packet ≡ ok received)
          × ((received.packet_id < message_id_byte id_user_packet_enum)
              ↔ ((program ≡ server) ⊎ StartsAscii cs)))
message_identifier program cs packet h e = elim (message_shown program cs packet h e) [
  | inl panics ↦ inl panics
  | inr (b, bs, sent, shown) ↦
      inr (shown_as_text packet b, shown, first_reserved program cs b bs sent)
]

lifted : {S B : Type 0} (r : Outcome B) (s : S) → map_ok (λ x. x.0) (lift r s) ≡ r
lifted (ok b) s = refl
lifted (panic e) s = refl
lifted (undefined u) s = refl
lifted out_of_fuel s = refl

-- The value of a computation and a step after it that does not touch the object.
continue-lift :
    {S A B : Type 0} (m : Outcome (A × S)) (f : A → Outcome B)
    → map_ok (λ r. r.0) (continue m (λ a. lift (f a))) ≡ (map_ok (λ r. r.0) m >>= f)
continue-lift (ok (a, s)) f = lifted (f a) s
continue-lift (panic e) f = refl
continue-lift (undefined u) f = refl
continue-lift out_of_fuel f = refl

module _ (lib : RakNet) (p : Platform) (q : Queueing lib) where
  -- With more fuel than packets that wait, one round of the loop is the conversion of the waiting
  -- packets and then the printing of each, in the order of the queue; where one of these panics,
  -- so does the round, all conversions before any printing.
  pub poll_lem :
      (fuel : ℕ) (s : lib.Peer)
      → length (q.waiting s) < fuel
      → map_ok (λ r. r.0) (poll lib p fuel s)
        ≡ (traverse (from_packet p) (q.waiting s) >>= traverse show_packet)
  unfolding poll
  poll_lem fuel s m =
      continue-lift (receive_all lib p fuel s) (traverse show_packet)
      ∙ ap (λ r. r >>= traverse show_packet) (receive_all-traverse lib p q fuel s m)
