-- ===== src/Base/Int.antt =====
-- Signed integers over the native numbers, under the library's names.
use crypto_price_aggregator.Base.Tests.{ltb, leb, if◌then◌else◌}
use Prim.Native.Nat.{ℕ, suc, ◌+◌, ◌-◌, ◌*◌, ◌/◌}
use mathlib.Core.Path.{◌≡◌}
use mathlib.Core.Bool.{Bool}
use native.Mathlib.Omega.{arith}

-- `negsuc n` is -(n + 1).
pub data ℤ : Type 0 where
  pos : ℕ → ℤ
  negsuc : ℕ → ℤ

abbrev pub pos_part : ℤ → ℕ
pos_part (pos n) = n
pos_part (negsuc n) = 0

abbrev pub neg_part : ℤ → ℕ
neg_part (pos n) = 0
neg_part (negsuc n) = suc n

-- a - b, as an integer.
abbrev pub sub_ℕ : ℕ → ℕ → ℤ
sub_ℕ a b = if leb b a then pos (a - b) else negsuc (b - a - 1)

abbrev pub ltb_ℤ : ℤ → ℤ → Bool
ltb_ℤ a b = ltb (pos_part a + neg_part b) (pos_part b + neg_part a)

infixl 65 ◌+ℤ◌ ◌-ℤ◌
infixl 70 ◌*ℤ◌
abbrev pub ◌+ℤ◌ : ℤ → ℤ → ℤ
a +ℤ b = sub_ℕ (pos_part a + pos_part b) (neg_part a + neg_part b)

abbrev pub ◌-ℤ◌ : ℤ → ℤ → ℤ
a -ℤ b = sub_ℕ (pos_part a + neg_part b) (neg_part a + pos_part b)

abbrev pub ◌*ℤ◌ : ℤ → ℤ → ℤ
a *ℤ b =
    sub_ℕ (pos_part a * pos_part b + neg_part a * neg_part b)
      (pos_part a * neg_part b + neg_part a * pos_part b)

abbrev pub abs : ℤ → ℤ
abs a = pos (pos_part a + neg_part a)

-- The quotient, rounded towards zero.
abbrev pub div : ℤ → ℤ → ℤ
div (pos a) (pos b) = pos (a / b)
div (pos a) (negsuc b) = sub_ℕ 0 (a / suc b)
div (negsuc a) (pos b) = sub_ℕ 0 (suc a / b)
div (negsuc a) (negsuc b) = pos (suc a / suc b)

pub ltb_ℤ_irrefl : (a : ℤ) → ltb_ℤ a a ≡ Bool.false
ltb_ℤ_irrefl a = ground arith

pub ltb_ℤ_trans :
    (a b c : ℤ) → ltb_ℤ a b ≡ Bool.true → ltb_ℤ b c ≡ Bool.true → ltb_ℤ a c ≡ Bool.true
ltb_ℤ_trans a b c h k = ground arith
