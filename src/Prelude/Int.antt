-- ===== src/Prelude/Int.antt =====
-- The `int` fields of a frame, as signed integers over the native numbers, with the two
-- conversions that the code makes of them: to `uint8_t`, and to the bits of a 32-bit word.
use tcp_1553_bus_analyzer.Prelude.Tests.{ltb, ◌==◌}
use Prim.Native.Nat.{ℕ, suc, ◌-◌, ◌%◌, ◌^◌, ◌<◌}
use mathlib.Core.Bool.{Bool, true, false}
use mathlib.Core.Path.{◌≡◌}
use native.Mathlib.Omega.{arith}

-- `negsuc n` is -(n + 1).
pub data ℤ : Type 0 where
  pos : ℕ → ℤ
  negsuc : ℕ → ℤ

-- The value modulo 2 ^ w: what a conversion to an unsigned type of w bits keeps.
abbrev pub wrap : ℕ → ℤ → ℕ
wrap m (pos n) = n % m
wrap m (negsuc n) = m - suc (n % m)

abbrev pub to_u8 : ℤ → ℕ
to_u8 = wrap 256

abbrev pub to_u32 : ℤ → ℕ
to_u32 = wrap (2 ^ 32)

abbrev pub is_zero : ℤ → Bool
is_zero (pos n) = n == 0
is_zero (negsuc n) = false

pub to_u8-lt : (z : ℤ) → to_u8 z < 256
to_u8-lt (pos n) = omega arith
to_u8-lt (negsuc n) = omega arith

-- `z < 0`.
abbrev pub is_negative : ℤ → Bool
is_negative (pos n) = false
is_negative (negsuc n) = true

abbrev pub minus_one : ℤ
minus_one = negsuc 0

-- `m < z`, for a number m.
abbrev pub above : ℕ → ℤ → Bool
above m (pos n) = ltb m n
above m (negsuc n) = false

-- `y == z`.
abbrev pub eq_int : ℤ → ℤ → Bool
eq_int (pos m) (pos n) = m == n
eq_int (negsuc m) (negsuc n) = m == n
eq_int (pos m) (negsuc n) = false
eq_int (negsuc m) (pos n) = false

pub eq_int_self : (z : ℤ) → eq_int z z ≡ true
eq_int_self z = ground arith

pub eq_int-eq : (y z : ℤ) → eq_int y z ≡ true → y ≡ z
eq_int-eq y z h = ground arith
