-- ===== src/Base/Int.antt =====
-- The C type `int`: integers, with the wrap-around of 32-bit two's complement written out. The
-- program is compiled without optimisation (`ppos.h` refuses any), where gcc's `int` wraps.
use Prim.Native.Nat.{ℕ, suc, ◌+◌, ◌-◌, ◌*◌, ◌/◌, ◌%◌, ◌^◌, ◌≤◌, ◌<◌}
use mathlib.Core.Path.{◌≡◌, refl}
use mathlib.Core.Bool.{Bool, false}
use native.Mathlib.Omega.{arith}
use native.Mathlib.Decide.{dec_lt}
use package.ping_pong_so.Base.Tests.{ltb, leb, ◌==◌, if◌then◌else◌}

-- `negsuc n` is -(n + 1).
pub data ℤ : Type 0 where
  pos : ℕ → ℤ
  negsuc : ℕ → ℤ

abbrev pub pos_part : ℤ → ℕ
pos_part (pos n) = n
pos_part (negsuc n) = 0

abbrev pub neg_part : ℤ → ℕ
neg_part (pos n) = 0
neg_part (negsuc n) = suc n

-- a - b, as an integer.
abbrev pub sub_ℕ : ℕ → ℕ → ℤ
sub_ℕ a b = if leb b a then pos (a - b) else negsuc (b - a - 1)

infix 50 ◌≤ℤ◌ ◌<ℤ◌
abbrev pub ◌≤ℤ◌ : ℤ → ℤ → Type 0
a ≤ℤ b = pos_part a + neg_part b ≤ pos_part b + neg_part a

abbrev pub ◌<ℤ◌ : ℤ → ℤ → Type 0
a <ℤ b = pos_part a + neg_part b < pos_part b + neg_part a

abbrev pub ltb_ℤ : ℤ → ℤ → Bool
ltb_ℤ a b = ltb (pos_part a + neg_part b) (pos_part b + neg_part a)

abbrev pub leb_ℤ : ℤ → ℤ → Bool
leb_ℤ a b = leb (pos_part a + neg_part b) (pos_part b + neg_part a)

abbrev pub eq_ℤ : ℤ → ℤ → Bool
eq_ℤ a b = (pos_part a + neg_part b) == (pos_part b + neg_part a)

-- The values of an `int`.
abbrev pub IsInt : ℤ → Type 0
IsInt a = (pos_part a < 2 ^ 31) × (neg_part a ≤ 2 ^ 31)

-- The bit pattern of an integer, reduced to 32 bits.
abbrev pub bits : ℤ → ℕ
bits (pos n) = n % 2 ^ 32
bits (negsuc n) = 2 ^ 32 - 1 - n % 2 ^ 32

-- The `int` with a bit pattern.
abbrev pub of_bits : ℕ → ℤ
of_bits u = if ltb u (2 ^ 31) then pos u else negsuc (2 ^ 32 - 1 - u)

-- Conversion to `int`, by dropping the upper bits.
unfoldable pub to_int : ℤ → ℤ
to_int a = of_bits (bits a)

unfoldable pub add_int : ℤ → ℤ → ℤ
unfolding to_int
add_int a b = to_int (sub_ℕ (pos_part a + pos_part b) (neg_part a + neg_part b))

unfoldable pub sub_int : ℤ → ℤ → ℤ
unfolding to_int
sub_int a b = to_int (sub_ℕ (pos_part a + neg_part b) (neg_part a + pos_part b))

unfoldable pub mul_int : ℤ → ℤ → ℤ
unfolding to_int
mul_int a b = to_int (
    sub_ℕ (pos_part a * pos_part b + neg_part a * neg_part b)
      (pos_part a * neg_part b + neg_part a * pos_part b))

-- C's division and remainder truncate toward zero. Callers rule out a divisor of zero.
abbrev pub div_ℤ : ℤ → ℤ → ℤ
div_ℤ (pos a) (pos b) = pos (a / b)
div_ℤ (pos a) (negsuc b) = sub_ℕ 0 (a / suc b)
div_ℤ (negsuc a) (pos b) = sub_ℕ 0 (suc a / b)
div_ℤ (negsuc a) (negsuc b) = pos (suc a / suc b)

abbrev pub rem_ℤ : ℤ → ℤ → ℤ
rem_ℤ (pos a) (pos b) = pos (a % b)
rem_ℤ (pos a) (negsuc b) = pos (a % suc b)
rem_ℤ (negsuc a) (pos b) = sub_ℕ 0 (suc a % b)
rem_ℤ (negsuc a) (negsuc b) = sub_ℕ 0 (suc a % suc b)

unfoldable pub div_int : ℤ → ℤ → ℤ
unfolding to_int
div_int a b = to_int (div_ℤ a b)

-- `abs` of stdlib.h.
unfoldable pub abs : ℤ → ℤ
unfolding to_int
abs (pos n) = pos n
abs (negsuc n) = to_int (pos (suc n))

pub to_int-id : (a : ℤ) → IsInt a → to_int a ≡ a
unfolding to_int
to_int-id (pos n) h = ground arith
to_int-id (negsuc n) h = ground arith

pub to_int-IsInt : (a : ℤ) → IsInt (to_int a)
unfolding to_int
to_int-IsInt (pos n) = ground arith
to_int-IsInt (negsuc n) = ground arith

-- On natural numbers the operations are exact where the result fits.
pub add_int-pos : (a b : ℕ) → a + b < 2 ^ 31 → add_int (pos a) (pos b) ≡ pos (a + b)
unfolding add_int
add_int-pos a b h = ground arith

pub mul_int-pos : (a b : ℕ) → a * b < 2 ^ 31 → mul_int (pos a) (pos b) ≡ pos (a * b)
unfolding mul_int
mul_int-pos a b h = ground arith

pub div_int-pos : (a b : ℕ) → a / b < 2 ^ 31 → div_int (pos a) (pos b) ≡ pos (a / b)
unfolding div_int
div_int-pos a b h = ground arith

-- The distance of two numbers.
abbrev pub dist : ℕ → ℕ → ℕ
dist a b = (a - b) + (b - a)

pub sub_int-pos : (a b : ℕ) → ¬ (a < b) → a < 2 ^ 31 → sub_int (pos a) (pos b) ≡ pos (a - b)
unfolding sub_int
sub_int-pos a b p h = ground arith

pub sub_int-neg : (a b : ℕ) → a < b → b < 2 ^ 31 → sub_int (pos a) (pos b) ≡ negsuc (b - a - 1)
unfolding sub_int
sub_int-neg a b p h = ground arith

pub abs-sub_int :
    (a b : ℕ) → a < 2 ^ 31 → b < 2 ^ 31 → abs (sub_int (pos a) (pos b)) ≡ pos (dist a b)
unfolding abs
abs-sub_int a b ha hb = elim (dec_lt a b) [
  | yes p ↦ rw (sub_int-neg a b p hb) (ground arith)
  | no p ↦ rw (sub_int-pos a b p ha) (ground arith)
]

pub pos_of_nonneg : (a : ℤ) → neg_part a ≡ 0 → a ≡ pos (pos_part a)
pos_of_nonneg (pos n) h = refl
pos_of_nonneg (negsuc n) h = absurd (omega arith)

pub neg_part-eq-zero : (a : ℤ) → pos 0 ≤ℤ a → neg_part a ≡ 0
neg_part-eq-zero (pos n) h = refl
neg_part-eq-zero (negsuc n) h = absurd (omega arith)

pub ltb_ℤ-false : (a b : ℤ) → b ≤ℤ a → ltb_ℤ a b ≡ false
ltb_ℤ-false a b h = ground arith

-- Conversion to `short`.
unfoldable pub to_short : ℤ → ℤ
to_short a = let u = bits a % 2 ^ 16 in if ltb u (2 ^ 15) then pos u else negsuc (2 ^ 16 - 1 - u)

pub ltb_ℤ-irrefl : (a : ℤ) → ltb_ℤ a a ≡ false
ltb_ℤ-irrefl a = ground arith
