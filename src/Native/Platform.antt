-- ===== src/Native/Platform.antt =====
-- What src/rakpeer.rs takes from the machine it is built for: the byte order, and the address
-- families of the system headers, which the generated bindings name `AF_INET` and `AF_INET6`.
use raknet_sys.Prelude.{ℕ, ◌+◌, ◌*◌, ◌/◌, ◌%◌, ◌^◌, Bool, [], ◌∷◌, Bytes, if◌then◌else◌}

pub record Platform : Type 0 where
  pub little_endian : Bool
  pub af_inet : ℕ
  pub af_inet6 : ℕ

unfoldable pub swap_bytes16 : ℕ → ℕ
swap_bytes16 x = x % 256 * 256 + x / 256 % 256

unfoldable pub swap_bytes32 : ℕ → ℕ
swap_bytes32 x =
    x % 256 * 2 ^ 24 + x / 256 % 256 * 2 ^ 16 + x / 2 ^ 16 % 256 * 256 + x / 2 ^ 24 % 256

-- `u16::to_be` and `u32::to_be`
unfoldable pub to_be16 : Platform → ℕ → ℕ
unfolding swap_bytes16
to_be16 platform x = if platform.little_endian then swap_bytes16 x else x

unfoldable pub to_be32 : Platform → ℕ → ℕ
unfolding swap_bytes32
to_be32 platform x = if platform.little_endian then swap_bytes32 x else x

-- The bytes of a number in memory, lowest address first.
unfoldable pub memory16 : Platform → ℕ → Bytes
memory16 platform x =
    let low : ℕ = x % 256 in
    let high : ℕ = x / 256 % 256 in
    if platform.little_endian then low ∷ high ∷ [] else high ∷ low ∷ []

unfoldable pub memory32 : Platform → ℕ → Bytes
memory32 platform x =
    let b0 : ℕ = x % 256 in
    let b1 : ℕ = x / 256 % 256 in
    let b2 : ℕ = x / 2 ^ 16 % 256 in
    let b3 : ℕ = x / 2 ^ 24 % 256 in
    if platform.little_endian then b0 ∷ b1 ∷ b2 ∷ b3 ∷ [] else b3 ∷ b2 ∷ b1 ∷ b0 ∷ []
