-- ===== src/Base/Int.antt =====
-- Signed integers over the native numbers, for Go's `int64` identifiers and amounts.
use Prim.Native.Nat.{ℕ, zero, suc, ◌+◌, ◌-◌, ◌/◌, ◌%◌, ◌^◌}
use mathlib.Core.Path.{◌≡◌, refl}
use mathlib.Core.Logic.{◌↔◌}
use mathlib.Core.Bool.{Bool, true, false}
use native.Mathlib.Omega.{arith}
use ddash.Base.Tests.{eqb, leb, ltb, if◌then◌else◌}

-- `negsuc n` is -(n + 1).
pub data ℤ : Type 0 where
  pos : ℕ → ℤ
  negsuc : ℕ → ℤ

-- `a == b` on `int64`.
unfoldable pub int_eq : ℤ → ℤ → Bool
int_eq (pos a) (pos b) = eqb a b
int_eq (negsuc a) (negsuc b) = eqb a b
int_eq _ _ = false

pub int_eq_iff : (a b : ℤ) → (int_eq a b ≡ true) ↔ (a ≡ b)
unfolding int_eq
int_eq_iff a b = ground arith

pub int_eq_refl : (a : ℤ) → int_eq a a ≡ true
int_eq_refl a = (int_eq_iff a a).1 refl

-- `a <= 0` on `int64`.
abbrev pub nonpos : ℤ → Bool
nonpos (pos zero) = true
nonpos (pos (suc n)) = false
nonpos (negsuc n) = true

-- `a <= b` on `int64`.
unfoldable pub int_le : ℤ → ℤ → Bool
int_le (pos a) (pos b) = leb a b
int_le (pos a) (negsuc b) = false
int_le (negsuc a) (pos b) = true
int_le (negsuc a) (negsuc b) = leb b a

abbrev pub pos_part : ℤ → ℕ
pos_part (pos n) = n
pos_part (negsuc n) = 0

abbrev pub neg_part : ℤ → ℕ
neg_part (pos n) = 0
neg_part (negsuc n) = suc n

-- a - b, as an integer.
abbrev pub sub_ℕ : ℕ → ℕ → ℤ
sub_ℕ a b = if leb b a then pos (a - b) else negsuc (b - a - 1)

infixl 65 ◌+ℤ◌
unfoldable pub ◌+ℤ◌ : ℤ → ℤ → ℤ
a +ℤ b = sub_ℕ (pos_part a + pos_part b) (neg_part a + neg_part b)

abbrev below_half : ℕ → ℤ
below_half m = if ltb m (2 ^ 63) then pos m else negsuc (2 ^ 64 - 1 - m)

abbrev above_half : ℕ → ℤ
above_half m = if ltb m (2 ^ 63) then negsuc m else pos (2 ^ 64 - 1 - m)

-- The `int64` that an integer wraps around to.
unfoldable pub wrap64 : ℤ → ℤ
wrap64 (pos n) = below_half (n % 2 ^ 64)
wrap64 (negsuc n) = above_half (n % 2 ^ 64)

abbrev negated : ℕ → ℤ
negated zero = pos 0
negated (suc n) = negsuc n

-- `a / d` on `int64` for a positive divisor: the quotient is cut off towards zero.
unfoldable pub div64 : ℤ → ℕ → ℤ
div64 (pos n) d = pos (n / d)
div64 (negsuc n) d = negated (suc n / d)
