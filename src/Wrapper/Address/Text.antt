-- ===== src/Wrapper/Address/Text.antt =====
-- `ToString for RakNetGUID` of src/rakpeer.rs: the number in hexadecimal digits, sixteen wide.
use raknet_sys.Prelude.{
  ℕ, zero, suc, ◌+◌, ◌-◌, ◌*◌, ◌/◌, ◌%◌, ◌^◌, ◌≤◌, ◌<◌, ◌≡◌, ◌≢◌, ◌↔◌, refl, ◌∙◌, [], ◌∷◌, ◌++◌,
  Bytes, length, length-append, length-replicate, replicate, ltb, arith, if◌then◌else◌, ◌==◌, true,
  Bool-cases, inl, inr,
}
use raknet_sys.Wrapper.Address.{RakNetGuid, guid_eq, hash_guid}

abbrev hex_digit : ℕ → ℕ
hex_digit d = if ltb d 10 then 48 + d else 55 + d

-- The digits of a number, the highest first; each takes one unit of fuel.
unfoldable pub hex : ℕ → ℕ → Bytes
hex zero n = []
hex (suc fuel) n =
    let rest = hex fuel (n / 16) in
    if ltb n 16 then hex_digit n ∷ [] else rest ++ hex_digit (n % 16) ∷ []

-- `format!("{:16X}", self.g)`: shorter texts are filled with spaces on the left.
unfoldable pub guid_to_string : RakNetGuid → Bytes
unfolding hex
guid_to_string self = let digits = hex 16 self.g in replicate (16 - length digits) 32 ++ digits

-- The number that a text of spaces and hexadecimal digits stands for.
abbrev digit_value : ℕ → ℕ
digit_value c = if ltb c 58 then c - 48 else c - 55

abbrev pub read_from : ℕ → Bytes → ℕ
read_from n [] = n
read_from n (c ∷ cs) = if c == 32 then read_from n cs else read_from (n * 16 + digit_value c) cs

-- The numbers that so many digits can write.
abbrev capacity : ℕ → ℕ
capacity zero = 1
capacity (suc digits) = 16 * capacity digits

read_from-append :
    (n : ℕ) (xs : Bytes) (c : ℕ)
    → c ≢ 32
    → read_from n (xs ++ c ∷ []) ≡ read_from n xs * 16 + digit_value c
read_from-append n [] c h = ground arith
read_from-append n (x ∷ xs) c h = elim (Bool-cases (x == 32)) [
  | inl space ↦ rw space (read_from-append n xs c h)
  | inr digit ↦ rw digit (read_from-append (n * 16 + digit_value x) xs c h)
]

digit_read : (d : ℕ) → d < 16 → (hex_digit d ≢ 32) × (digit_value (hex_digit d) ≡ d)
digit_read d h = (ground arith, ground arith)

read_from-hex : (fuel n : ℕ) → n < capacity fuel → read_from 0 (hex fuel n) ≡ n
unfolding hex
read_from-hex zero n h = omega arith
read_from-hex (suc fuel) n h = elim (Bool-cases (ltb n 16)) [
  | inl small ↦ rw small (ground (arith, digit_read n))
  | inr large ↦
      let (digit, value) = digit_read (n % 16) (omega arith) in
      let rest = read_from-hex fuel (n / 16) (omega arith) in
      rw large (
        read_from-append 0 (hex fuel (n / 16)) (hex_digit (n % 16)) digit
        ∙ omega (arith, rest, value))
]

length-hex : (fuel n : ℕ) → length (hex fuel n) ≤ fuel
unfolding hex
length-hex zero n = omega arith
length-hex (suc fuel) n = elim (Bool-cases (ltb n 16)) [
  | inl small ↦ rw small (omega arith)
  | inr large ↦ rw large (
      omega (
        arith,
        length-append (hex fuel (n / 16)) (hex_digit (n % 16) ∷ []),
        length-hex fuel (n / 16),
      ))
]

read_from-spaces : (k : ℕ) (xs : Bytes) → read_from 0 (replicate k 32 ++ xs) ≡ read_from 0 xs
read_from-spaces zero xs = refl
read_from-spaces (suc k) xs = read_from-spaces k xs

-- The text of a GUID whose number is below 2 ^ 64 is sixteen bytes long, and the number can be
-- read back from it.
pub guid_to_string_lem :
    (self : RakNetGuid)
    → self.g < 2 ^ 64
    → (length (guid_to_string self) ≡ 16) × (read_from 0 (guid_to_string self) ≡ self.g)
unfolding guid_to_string
guid_to_string_lem self h =
    let digits = hex 16 self.g in
    let k : ℕ = 16 - length digits in
    (
      omega (
        arith,
        length-append (replicate k 32) digits,
        length-replicate {A = ℕ} k 32,
        length-hex 16 self.g,
      ),
      read_from-spaces k digits ∙ read_from-hex 16 self.g (omega arith),
    )

-- Two GUIDs are equal exactly if the hasher is fed with the same number and their indices are the same:
-- equal keys of a map have one hash, and one number with two indices is two keys.
pub hash_guid_lem :
    (x y : RakNetGuid)
    → (guid_eq x y ≡ true) ↔ ((hash_guid x ≡ hash_guid y) × (x.system_index ≡ y.system_index))
unfolding guid_eq hash_guid
hash_guid_lem x y = ground arith
