-- ===== src/Shared/Ints.antt =====
-- Arithmetic of math/big on integers.
use Prim.Native.Nat.{ℕ, suc, ◌+◌, ◌-◌, ◌*◌}
use mathlib.Core.Path.{◌≡◌}
use native.Mathlib.Omega.{arith}
use go_pevm.Shared.Basics.{ℤ, pos, negsuc, leb, if◌then◌else◌}

abbrev pub pos_part : ℤ → ℕ
pos_part (pos n) = n
pos_part (negsuc n) = 0

abbrev pub neg_part : ℤ → ℕ
neg_part (pos n) = 0
neg_part (negsuc n) = suc n

-- a - b, as an integer
abbrev pub sub_ℕ : ℕ → ℕ → ℤ
sub_ℕ a b = if leb b a then pos (a - b) else negsuc (b - a - 1)

abbrev pub neg_int : ℤ → ℤ
neg_int a = sub_ℕ (neg_part a) (pos_part a)

infixl 65 ◌+ℤ◌ ◌-ℤ◌
infixl 70 ◌*ℤ◌
unfoldable pub ◌+ℤ◌ : ℤ → ℤ → ℤ
a +ℤ b = sub_ℕ (pos_part a + pos_part b) (neg_part a + neg_part b)

unfoldable pub ◌-ℤ◌ : ℤ → ℤ → ℤ
a -ℤ b = sub_ℕ (pos_part a + neg_part b) (neg_part a + pos_part b)

unfoldable pub ◌*ℤ◌ : ℤ → ℤ → ℤ
a *ℤ b =
    sub_ℕ (pos_part a * pos_part b + neg_part a * neg_part b)
      (pos_part a * neg_part b + neg_part a * pos_part b)

pub sub-neg : (a b : ℤ) → a -ℤ neg_int b ≡ a +ℤ b
unfolding ◌-ℤ◌ ◌+ℤ◌
sub-neg a b = ground arith

-- What one account loses and another gains keeps their sum.
pub transfer_sum : (a b v : ℤ) → (a -ℤ v) +ℤ (b -ℤ neg_int v) ≡ a +ℤ b
unfolding ◌-ℤ◌ ◌+ℤ◌
transfer_sum (pos a) (pos b) (pos v) = ground arith
transfer_sum a b v = ground arith
