-- ===== src/Prelude/Bits.antt =====
-- `|` of fields that do not overlap and `&` with a mask of low ones, as arithmetic.
use Prim.Native.Nat.{
  ℕ, zero, suc, ◌+◌, ◌*◌, ◌/◌, ◌%◌, ◌^◌, ◌≤◌, ◌<◌, min, max, digits, bitwise, bit_and, bit_or,
  bit_and-bitwise, bit_or-bitwise,
}
use mathlib.Core.Path.{◌≡◌, refl, ap, subst}
use native.Mathlib.Nat.{pow-suc}
use native.Mathlib.Omega.{arith}

-- More fuel than the first number changes no digit.
enough_fuel :
    (z : ℕ → ℕ) (f : ℕ → ℕ → ℕ) (k l x y : ℕ) → x ≤ k → x ≤ l → digits z f k x y ≡ digits z f l x y
enough_fuel z f zero zero x y hk hl = refl
enough_fuel z f zero (suc l) zero y hk hl = refl
enough_fuel z f zero (suc l) (suc x) y hk hl = absurd (omega arith)
enough_fuel z f (suc k) zero zero y hk hl = refl
enough_fuel z f (suc k) zero (suc x) y hk hl = absurd (omega arith)
enough_fuel z f (suc k) (suc l) zero y hk hl = refl
enough_fuel z f (suc k) (suc l) (suc x) y hk hl =
    rw (enough_fuel z f k l (suc x / 2) (y / 2) (omega arith) (omega arith))

lowest_digit :
    (z : ℕ → ℕ) (f : ℕ → ℕ → ℕ) (x y : ℕ)
    → bitwise z f (suc x) y ≡ bitwise z f (suc x / 2) (y / 2) * 2 + f (suc x % 2) (y % 2)
lowest_digit z f x y =
    omega (arith, enough_fuel z f x (suc x / 2) (suc x / 2) (y / 2) (omega arith) (omega arith))

bit_or_digit : (x y : ℕ) → bit_or x y ≡ bit_or (x / 2) (y / 2) * 2 + max (x % 2) (y % 2)
bit_or_digit zero y = simp bit_or-bitwise (omega arith)
bit_or_digit (suc x) y = simp bit_or-bitwise (lowest_digit (λ d. d) max x y)

bit_and_digit : (x y : ℕ) → bit_and x y ≡ bit_and (x / 2) (y / 2) * 2 + min (x % 2) (y % 2)
bit_and_digit zero y = simp bit_and-bitwise (omega arith)
bit_and_digit (suc x) y = simp bit_and-bitwise (lowest_digit (λ d. 0) min x y)

bit_or-zero_below : (k x : ℕ) → x ≤ k → bit_or x 0 ≡ x
bit_or-zero_below k zero h = refl
bit_or-zero_below zero (suc x) h = absurd (omega arith)
bit_or-zero_below (suc k) (suc x) h =
    omega (arith, bit_or_digit (suc x) 0, bit_or-zero_below k (suc x / 2) (omega arith))

bit_and-zero_below : (k x : ℕ) → x ≤ k → bit_and x 0 ≡ 0
bit_and-zero_below k zero h = refl
bit_and-zero_below zero (suc x) h = absurd (omega arith)
bit_and-zero_below (suc k) (suc x) h =
    omega (arith, bit_and_digit (suc x) 0, bit_and-zero_below k (suc x / 2) (omega arith))

pub zero-bit_or : (y : ℕ) → bit_or 0 y ≡ y
zero-bit_or y = simp bit_or-bitwise (omega arith)

-- A high field joined with a low one that it leaves room for.
pub bit_or-disjoint : (k q r : ℕ) → r < 2 ^ k → bit_or (q * 2 ^ k) r ≡ q * 2 ^ k + r
bit_or-disjoint zero q r h = ground (arith, bit_or-zero_below q q)
bit_or-disjoint (suc k) q r h = ground (
  arith,
  bit_or_digit (q * 2 ^ suc k) r,
  ap (λ (t : ℕ). q * t) (pow-suc 2 k),
  bit_or-disjoint k q (r / 2) (omega arith),
)

pub bit_and-one : (x : ℕ) → bit_and x 1 ≡ x % 2
bit_and-one x = omega (arith, bit_and_digit x 1, bit_and-zero_below (x / 2) (x / 2) (omega arith))

-- `x & 0x1F`, the mask of the five-bit fields of a command word.
pub bit_and-five_bits : (x : ℕ) → bit_and x 0x1f ≡ x % 32
bit_and-five_bits x = omega (
  arith,
  bit_and_digit x 31,
  bit_and_digit (x / 2) 15,
  bit_and_digit (x / 2 / 2) 7,
  bit_and_digit (x / 2 / 2 / 2) 3,
  bit_and-one (x / 2 / 2 / 2 / 2),
)

-- The same where the high part is given as a multiple.
pub bit_or-aligned : (k x r : ℕ) → x / 2 ^ k * 2 ^ k ≡ x → r < 2 ^ k → bit_or x r ≡ x + r
bit_or-aligned k x r e h =
    subst (λ (t : ℕ). bit_or t r ≡ t + r) e (bit_or-disjoint k (x / 2 ^ k) r h)
