-- ===== src/Wrapper/Text/Numbers.antt =====
-- Numbers as `Display` and `LowerHex` print them, for the texts that src/rakpeer.rs and the programs of
-- examples make.
use raknet_sys.Prelude.{
  ℕ, zero, suc, ◌+◌, ◌-◌, ◌*◌, ◌/◌, ◌%◌, ◌<◌, ◌^◌, ◌≡◌, refl, sym, append-nil, ◌∙◌, ap, List, [],
  ◌∷◌, ◌++◌, Bytes, All, Bool, true, false, ◌&&◌, ltb, leb, arith, if◌then◌else◌, Bool-cases, inl,
  inr,
}

-- The digits of a number, the highest first; each takes one unit of fuel.
unfoldable pub decimal_from : ℕ → ℕ → Bytes
decimal_from zero n = []
decimal_from (suc fuel) n =
    let rest = decimal_from fuel (n / 10) in
    if ltb n 10 then (48 + n) ∷ [] else rest ++ (48 + n % 10) ∷ []

-- A number of up to 64 bits has at most twenty digits.
unfoldable pub decimal : ℕ → Bytes
decimal n = decimal_from 20 n

abbrev lower_digit : ℕ → ℕ
lower_digit d = if ltb d 10 then 48 + d else 87 + d

-- `{:x}`
unfoldable pub lower_hex_from : ℕ → ℕ → Bytes
lower_hex_from zero n = []
lower_hex_from (suc fuel) n =
    let rest = lower_hex_from fuel (n / 16) in
    if ltb n 16 then lower_digit n ∷ [] else rest ++ lower_digit (n % 16) ∷ []

-- The numbers between the characters of a text that are no digits.
abbrev pub is_digit : ℕ → Bool
is_digit c = leb 48 c && leb c 57

unfoldable pub numbers_from : ℕ → Bytes → List ℕ
numbers_from n [] = n ∷ []
numbers_from n (c ∷ cs) =
    let more = numbers_from (n * 10 + (c - 48)) cs in
    let next = numbers_from 0 cs in if is_digit c then more else n ∷ next

-- The numbers that so many digits can write.
abbrev capacity : ℕ → ℕ
capacity zero = 1
capacity (suc digits) = 10 * capacity digits

abbrev value : ℕ → Bytes → ℕ
value n [] = n
value n (c ∷ cs) = value (n * 10 + (c - 48)) cs

abbrev IsDigit : ℕ → Type 0
IsDigit c = is_digit c ≡ true

value-append : (n : ℕ) (xs : Bytes) (c : ℕ) → value n (xs ++ c ∷ []) ≡ value n xs * 10 + (c - 48)
value-append n [] c = refl
value-append n (x ∷ xs) c = value-append (n * 10 + (x - 48)) xs c

All-append : (xs : Bytes) (c : ℕ) → All IsDigit xs → IsDigit c → All IsDigit (xs ++ c ∷ [])
All-append [] c h k = (k, tt)
All-append (x ∷ xs) c (d, h) k = (d, All-append xs c h k)

-- A text of digits is read up to the next character.
numbers_from-append :
    (n : ℕ) (xs rest : Bytes)
    → All IsDigit xs
    → numbers_from n (xs ++ rest) ≡ numbers_from (value n xs) rest
unfolding numbers_from
numbers_from-append n [] rest h = refl
numbers_from-append n (x ∷ xs) rest (d, h) =
    rw d (numbers_from-append (n * 10 + (x - 48)) xs rest h)

decimal_from-value :
    (fuel n : ℕ)
    → n < capacity fuel
    → All IsDigit (decimal_from fuel n) × (value 0 (decimal_from fuel n) ≡ n)
unfolding decimal_from
decimal_from-value zero n h = (tt, omega arith)
decimal_from-value (suc fuel) n h = elim (Bool-cases (ltb n 10)) [
  | inl small ↦ rw small ((ground arith, tt), omega arith)
  | inr large ↦
      let (digits, same) = decimal_from-value fuel (n / 10) (omega arith) in
      rw large (
        All-append (decimal_from fuel (n / 10)) (48 + n % 10) digits (ground arith),
        value-append 0 (decimal_from fuel (n / 10)) (48 + n % 10) ∙ omega (arith, same),
      )
]

-- A number before a character that is no digit, and at the end.
pub numbers-decimal :
    (n c : ℕ) (rest : Bytes)
    → n < 2 ^ 64
    → is_digit c ≡ false
    → numbers_from 0 (decimal n ++ c ∷ rest) ≡ n ∷ numbers_from 0 rest
unfolding decimal numbers_from
numbers-decimal n c rest h other =
    let (digits, same) = decimal_from-value 20 n (omega arith) in
    numbers_from-append 0 (decimal_from 20 n) (c ∷ rest) digits ∙ rw (other, same) refl

pub numbers-decimal_end : (n : ℕ) → n < 2 ^ 64 → numbers_from 0 (decimal n) ≡ n ∷ []
unfolding decimal numbers_from
numbers-decimal_end n h =
    let (digits, same) = decimal_from-value 20 n (omega arith) in
    ap (numbers_from 0) (sym (append-nil (decimal_from 20 n)))
    ∙ numbers_from-append 0 (decimal_from 20 n) [] digits
    ∙ rw same refl
