-- ===== src/Domain/FixedPoint.antt =====
-- Numbers with four decimals, at which the development's theorems are applied: `pos 15000` is 1.5.
use crypto_price_aggregator.Base.{
  ℕ, ◌*◌, ◌+◌, ◌/◌, ◌≡◌, refl, Bool, true, false, not, Option, some, none, if◌then◌else◌, arith,
  ◌==◌, is_some,
}
use crypto_price_aggregator.Base.Int.{
  ℤ, pos, negsuc, pos_part, neg_part, ◌+ℤ◌, ◌-ℤ◌, ◌*ℤ◌, abs, div, ltb_ℤ, ltb_ℤ_irrefl, ltb_ℤ_trans,
}
use crypto_price_aggregator.Base.Sort.{IsWeakOrder}
use crypto_price_aggregator.Domain.Numeric.{
  Decimal, Float, Conversion, DecimalLaws, FloatLaws, MeanLaws,
}

abbrev pub scale : ℕ
scale = 10_000

abbrev is_zero : ℤ → Bool
is_zero a = pos_part a + neg_part a == 0

abbrev quotient : ℤ → ℤ → Option ℤ
quotient a b = if is_zero b then none else some (div (a *ℤ pos scale) b)

instance abbrev pub fixed_decimal : Decimal ℤ
fixed_decimal = record {
  zero = pos 0;
  from_int = λ n. pos (n * scale);
  add = ◌+ℤ◌;
  sub = ◌-ℤ◌;
  mul = λ a b. div (a *ℤ b) (pos scale);
  div = quotient;
  abs = abs;
  less_than = ltb_ℤ;
  greater_than = λ a b. ltb_ℤ b a;
  less_or_equal = λ a b. not (ltb_ℤ b a);
  greater_or_equal = λ a b. not (ltb_ℤ a b);
  is_zero = is_zero;
  is_negative = λ a. ltb_ℤ a (pos 0);
}

instance abbrev pub fixed_float : Float ℤ
fixed_float = record {
  of_int = λ n. pos (n * scale);
  add = ◌+ℤ◌;
  sub = ◌-ℤ◌;
  mul = λ a b. div (a *ℤ b) (pos scale);
  div = λ a b. div (a *ℤ pos scale) b;
  neg = λ a. pos 0 -ℤ a;
  gt = λ a b. ltb_ℤ b a;
  le = λ a b. not (ltb_ℤ b a);
  neg_inf = negsuc 1_000_000_000;
  to_int = λ a. pos_part a / scale;
  is_finite = λ a. true;
}

instance abbrev pub fixed_conversion : Conversion ℤ ℤ
fixed_conversion = record { from_float = λ a. a; to_float = λ a. a }

ltb_ℤ-IsWeakOrder : IsWeakOrder ltb_ℤ
ltb_ℤ-IsWeakOrder = record {
  asymmetric = λ a b h. ground arith;
  transitive = λ a b c h k. ground arith;
}

quotient_defined : (a b : ℤ) → is_zero b ≡ false → is_some (quotient a b) ≡ true
quotient_defined a b h = ground arith

pub fixed-DecimalLaws : DecimalLaws ℤ
fixed-DecimalLaws = record {
  order = ltb_ℤ-IsWeakOrder;
  greater_than-eq = λ a b. refl;
  less_or_equal-eq = λ a b. refl;
  greater_or_equal-eq = λ a b. refl;
  div_defined = quotient_defined;
  zero_is_zero = refl;
  two_nonzero = refl;
}

pub fixed-FloatLaws : FloatLaws ℤ
fixed-FloatLaws = record { gt_irrefl = ltb_ℤ_irrefl; gt_trans = λ a b c h k. ltb_ℤ_trans c b a k h }

abbrev half : ℤ → ℤ
half a = div (a *ℤ pos scale) (pos 20_000)

half_mono : (a b : ℤ) → ltb_ℤ a b ≡ false → ltb_ℤ (half a) (half b) ≡ false
half_mono (pos a) (pos b) h = ground arith
half_mono (pos a) (negsuc b) h = ground arith
half_mono (negsuc a) (pos b) h = ground arith
half_mono (negsuc a) (negsuc b) h = ground arith

sum_mono : (a b c d : ℤ) → ltb_ℤ a c ≡ false → ltb_ℤ b d ≡ false → ltb_ℤ (a +ℤ b) (c +ℤ d) ≡ false
sum_mono a b c d h k = ground arith

same_half : (a m : ℤ) → quotient a (pos 20_000) ≡ some m → half a ≡ m
same_half a m e = ground arith

mean_mono :
    (a b c d m n : ℤ)
    → ltb_ℤ a c ≡ false
    → ltb_ℤ b d ≡ false
    → quotient (a +ℤ b) (pos 20_000) ≡ some m
    → quotient (c +ℤ d) (pos 20_000) ≡ some n
    → ltb_ℤ m n ≡ false
mean_mono a b c d m n h k e f =
    let halves = half_mono (a +ℤ b) (c +ℤ d) (sum_mono a b c d h k) in
    cc (halves, same_half (a +ℤ b) m e, same_half (c +ℤ d) n f)

pub fixed-MeanLaws : MeanLaws ℤ
fixed-MeanLaws = record { mean_mono = mean_mono }
