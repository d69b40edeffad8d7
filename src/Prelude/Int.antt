-- ===== src/Prelude/Int.antt =====
-- Signed integers over the native numbers: the values of `int`, `i8` and `i32`.
use Prim.Native.Nat.{ℕ, ◌-◌, ◌<◌, ◌^◌}
use Prim.Native.Nat.{◌%◌}
use mathlib.Core.Path.{◌≡◌}
use mathlib.Core.Bool.{Bool, false}
use native.Mathlib.Omega.{arith}
use raknet_sys.Prelude.Tests.{ltb, ◌==◌, if◌then◌else◌}

-- `negsuc n` is -(n + 1).
pub data ℤ : Type 0 where
  pos : ℕ → ℤ
  negsuc : ℕ → ℤ

infix 50 ◌==ℤ◌
abbrev pub ◌==ℤ◌ : ℤ → ℤ → Bool
pos m ==ℤ pos n = m == n
pos m ==ℤ negsuc n = false
negsuc m ==ℤ pos n = false
negsuc m ==ℤ negsuc n = m == n

-- `x as i8` for a byte, and back: the bit pattern stays.
abbrev pub as_i8 : ℕ → ℤ
as_i8 b = if ltb b 128 then pos b else negsuc (255 - b)

abbrev pub as_u8 : ℤ → ℕ
as_u8 (pos n) = n
as_u8 (negsuc n) = 255 - n

-- `x as i32` for an unsigned number of any width.
abbrev pub as_i32 : ℕ → ℤ
as_i32 n = let w = n % 2 ^ 32 in if ltb w (2 ^ 31) then pos w else negsuc (2 ^ 32 - 1 - w)

pub as_u8-as_i8 : (b : ℕ) → b < 256 → as_u8 (as_i8 b) ≡ b
as_u8-as_i8 b h = ground arith

pub as_i32-small : (n : ℕ) → n < 2 ^ 31 → as_i32 n ≡ pos n
as_i32-small n h = ground arith
