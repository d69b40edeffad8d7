-- ===== src/Wrapper/Text/Utf8.antt =====
-- Texts by their characters, and the bytes that `as_bytes` gives for them: what the chat programs of
-- examples send, and what `String::from_utf8` takes.
use raknet_sys.Prelude.{
  ℕ, ◌+◌, ◌/◌, ◌%◌, ◌≤◌, ◌<◌, ◌≡◌, refl, ◌∙◌, ◌⊎◌, ◌≢◌, ◌==◌, inl, inr, true, false, leb, List, [],
  ◌∷◌, ◌++◌, Bytes, All, ltb, arith, if◌then◌else◌, Bool-cases,
}
use native.Mathlib.Decide.{dec_lt, ℕ_discrete}
use raknet_sys.Wrapper.Text.{lead, is_utf8, is_utf8_from}

-- Code points.
abbrev pub Chars : Type 0
Chars = List ℕ

-- One character in UTF-8.
abbrev pub encode_char : ℕ → Bytes
encode_char c =
    if ltb c 0x80
    then c ∷ []
    else if ltb c 0x800
    then (0xC0 + c / 64) ∷ (0x80 + c % 64) ∷ []
    else if ltb c 0x10000
    then (0xE0 + c / 4096) ∷ (0x80 + c / 64 % 64) ∷ (0x80 + c % 64) ∷ []
    else (0xF0 + c / 262144) ∷ (0x80 + c / 4096 % 64) ∷ (0x80 + c / 64 % 64) ∷ (0x80 + c % 64) ∷ []

-- `str::as_bytes`
unfoldable pub as_bytes : Chars → Bytes
as_bytes [] = []
as_bytes (c ∷ cs) = encode_char c ++ as_bytes cs

-- A `char`: a code point that is no surrogate.
abbrev pub IsChar : ℕ → Type 0
IsChar c = (c < 0xD800) ⊎ ((0xE000 ≤ c) × (c < 0x110000))

is_utf8_from_start : (l h l' h' : ℕ) (bs : Bytes) → is_utf8_from 0 l h bs ≡ is_utf8_from 0 l' h' bs
unfolding is_utf8_from
is_utf8_from_start l h l' h' [] = refl
is_utf8_from_start l h l' h' (b ∷ bs) = refl

-- The bytes of a character are taken, and the rest is what was before it.
one_byte : (c l h : ℕ) (bs : Bytes) → c < 0x80 → is_utf8_from 0 l h (c ∷ bs) ≡ is_utf8_from 0 0 0 bs
unfolding is_utf8_from
one_byte c l h bs k = ground arith

-- A first byte, a next one in the range that it asks for, and those that follow these.
module _ (b d lo hi l h : ℕ) (bs : Bytes) (lower : lo ≤ d) (upper : d ≤ hi) where
  next_low : leb lo d ≡ true
  next_low = ground arith

  next_high : leb d hi ≡ true
  next_high = ground arith

  two_bytes :
      lead b ≡ (1, lo, hi, true) → is_utf8_from 0 l h (b ∷ d ∷ bs) ≡ is_utf8_from 0 0x80 0xBF bs
  unfolding is_utf8_from
  two_bytes e = rw (e, next_low, next_high)

  three_bytes :
      (x : ℕ)
      → lead b ≡ (2, lo, hi, true)
      → x < 64
      → is_utf8_from 0 l h (b ∷ d ∷ (0x80 + x) ∷ bs) ≡ is_utf8_from 0 0x80 0xBF bs
  unfolding is_utf8_from
  three_bytes x e k =
      let low : leb 0x80 (0x80 + x) ≡ true = ground arith in
      let high : leb (0x80 + x) 0xBF ≡ true = ground arith in rw (e, next_low, next_high, low, high)

  four_bytes :
      (x y : ℕ)
      → lead b ≡ (3, lo, hi, true)
      → x < 64
      → y < 64
      → is_utf8_from 0 l h (b ∷ d ∷ (0x80 + x) ∷ (0x80 + y) ∷ bs) ≡ is_utf8_from 0 0x80 0xBF bs
  unfolding is_utf8_from
  four_bytes x y e k k' =
      let low : leb 0x80 (0x80 + x) ≡ true = ground arith in
      let high : leb (0x80 + x) 0xBF ≡ true = ground arith in
      let low' : leb 0x80 (0x80 + y) ≡ true = ground arith in
      let high' : leb (0x80 + y) 0xBF ≡ true = ground arith in
      rw (e, next_low, next_high, low, high, low', high')

-- What the first bytes ask for that have no special range.
lead_two : (b : ℕ) → 0xC2 ≤ b → b < 0xE0 → lead b ≡ (1, 0x80, 0xBF, true)
lead_two b k1 k2 =
    let ascii : ltb b 0x80 ≡ false = ground arith in
    let from : leb 0xC2 b ≡ true = ground arith in
    let until : leb b 0xDF ≡ true = ground arith in rw (ascii, from, until)

lead_three : (b : ℕ) → 0xE0 < b → b < 0xF0 → b ≢ 0xED → lead b ≡ (2, 0x80, 0xBF, true)
lead_three b k1 k2 k3 =
    let ascii : ltb b 0x80 ≡ false = ground arith in
    let from : leb 0xC2 b ≡ true = ground arith in
    let until : leb b 0xDF ≡ false = ground arith in
    let first : (b == 0xE0) ≡ false = ground arith in
    let surrogates : (b == 0xED) ≡ false = ground arith in
    let from' : leb 0xE1 b ≡ true = ground arith in
    let until' : leb b 0xEF ≡ true = ground arith in
    rw (ascii, from, until, first, surrogates, from', until')

lead_four : (b : ℕ) → 0xF0 < b → b < 0xF4 → lead b ≡ (3, 0x80, 0xBF, true)
lead_four b k1 k2 =
    let ascii : ltb b 0x80 ≡ false = ground arith in
    let from : leb 0xC2 b ≡ true = ground arith in
    let until : leb b 0xDF ≡ false = ground arith in
    let first : (b == 0xE0) ≡ false = ground arith in
    let surrogates : (b == 0xED) ≡ false = ground arith in
    let from' : leb 0xE1 b ≡ true = ground arith in
    let until' : leb b 0xEF ≡ false = ground arith in
    let planes : (b == 0xF0) ≡ false = ground arith in
    let from'' : leb 0xF1 b ≡ true = ground arith in
    let until'' : leb b 0xF3 ≡ true = ground arith in
    rw (ascii, from, until, first, surrogates, from', until', planes, from'', until'')

below_surrogates : (c : ℕ) → c / 4096 ≡ 13 → IsChar c → 0x80 + c / 64 % 64 ≤ 0x9F
below_surrogates c e (inl k) = omega arith
below_surrogates c e (inr (k, _)) = absurd (omega arith)

three_byte_char :
    (c l h : ℕ) (bs : Bytes)
    → 0x800 ≤ c
    → c < 0x10000
    → IsChar c
    → is_utf8_from 0 l h ((0xE0 + c / 4096) ∷ (0x80 + c / 64 % 64) ∷ (0x80 + c % 64) ∷ bs)
      ≡ is_utf8_from 0 0x80 0xBF bs
three_byte_char c l h bs k1 k2 char = elim (dec_lt c 0x1000) [
  | yes low ↦
      let b : 0xE0 + c / 4096 ≡ 0xE0 = omega arith in
      rw b (
        three_bytes 0xE0 (0x80 + c / 64 % 64) 0xA0 0xBF l h bs (omega arith) (omega arith) (c % 64)
          refl (omega arith))
  | no high ↦ elim (ℕ_discrete (c / 4096) 13) [
    | yes surrogates ↦
        let b : 0xE0 + c / 4096 ≡ 0xED = omega arith in
        rw b (
          three_bytes 0xED (0x80 + c / 64 % 64) 0x80 0x9F l h bs (omega arith)
            (below_surrogates c surrogates char) (c % 64) refl (omega arith))
    | no others ↦
        three_bytes (0xE0 + c / 4096) (0x80 + c / 64 % 64) 0x80 0xBF l h bs (omega arith)
          (omega arith) (c % 64)
          (lead_three (0xE0 + c / 4096) (omega arith) (omega arith) (λ e. others (omega arith)))
          (omega arith)
  ]
]

four_byte_char :
    (c l h : ℕ) (bs : Bytes)
    → 0x10000 ≤ c
    → c < 0x110000
    → is_utf8_from 0 l h
        ((0xF0 + c / 262144) ∷ (0x80 + c / 4096 % 64) ∷ (0x80 + c / 64 % 64) ∷ (0x80 + c % 64) ∷ bs)
      ≡ is_utf8_from 0 0x80 0xBF bs
four_byte_char c l h bs k1 k2 = elim (dec_lt c 0x40000) [
  | yes low ↦
      let b : 0xF0 + c / 262144 ≡ 0xF0 = omega arith in
      rw b (
        four_bytes 0xF0 (0x80 + c / 4096 % 64) 0x90 0xBF l h bs (omega arith) (omega arith)
          (c / 64 % 64) (c % 64) refl (omega arith) (omega arith))
  | no more ↦ elim (dec_lt c 0x100000) [
    | yes middle ↦
        four_bytes (0xF0 + c / 262144) (0x80 + c / 4096 % 64) 0x80 0xBF l h bs (omega arith)
          (omega arith) (c / 64 % 64) (c % 64)
          (lead_four (0xF0 + c / 262144) (omega arith) (omega arith)) (omega arith) (omega arith)
    | no last ↦
        let b : 0xF0 + c / 262144 ≡ 0xF4 = omega arith in
        rw b (
          four_bytes 0xF4 (0x80 + c / 4096 % 64) 0x80 0x8F l h bs (omega arith) (omega arith)
            (c / 64 % 64) (c % 64) refl (omega arith) (omega arith))
  ]
]

-- The bytes of a character are taken, and the rest is what was before it.
encode_char-is_utf8 :
    (c l h : ℕ) (bs : Bytes)
    → IsChar c
    → is_utf8_from 0 l h (encode_char c ++ bs) ≡ is_utf8_from 0 0x80 0xBF bs
encode_char-is_utf8 c l h bs char = elim (Bool-cases (ltb c 0x80)) [
  | inl e ↦ rw e (one_byte c l h bs (ground (arith, e)) ∙ is_utf8_from_start 0 0 0x80 0xBF bs)
  | inr n ↦ elim (Bool-cases (ltb c 0x800)) [
    | inl e ↦
        rw (n, e)
          (two_bytes (0xC0 + c / 64) (0x80 + c % 64) 0x80 0xBF l h bs (omega arith) (omega arith)
            (lead_two (0xC0 + c / 64) (ground (arith, n)) (ground (arith, e))))
    | inr n' ↦ elim (Bool-cases (ltb c 0x10000)) [
      | inl e ↦
          rw (n, n', e) (three_byte_char c l h bs (ground (arith, n')) (ground (arith, e)) char)
      | inr n'' ↦
          rw (n, n', n'') (four_byte_char c l h bs (ground (arith, n'')) (ground (arith, char)))
    ]
  ]
]

-- The bytes of a text of characters are a text: `String::from_utf8` takes them.
pub as_bytes-is_utf8 : (cs : Chars) → All IsChar cs → is_utf8 (as_bytes cs) ≡ true
unfolding is_utf8 as_bytes is_utf8_from
as_bytes-is_utf8 [] h = refl
as_bytes-is_utf8 (c ∷ cs) (k, ks) =
    encode_char-is_utf8 c 0 0 (as_bytes cs) k
    ∙ is_utf8_from_start 0x80 0xBF 0 0 (as_bytes cs)
    ∙ as_bytes-is_utf8 cs ks
