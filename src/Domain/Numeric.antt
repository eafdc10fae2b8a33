-- ===== src/Domain/Numeric.antt =====
-- What the program uses of github.com/shopspring/decimal and of float64: parameters of the model,
-- with the laws of their documentation. `div` is `none` where `Decimal.Div` panics.
use crypto_price_aggregator.Base.{
  ℕ, ◌≡◌, if◌then◌else◌, none, Bool, true, false, not, Option, some, is_some,
}
use crypto_price_aggregator.Base.Sort.{IsWeakOrder}

pub record Decimal (D : Type 0) : Type 0 where
  pub zero : D
  pub from_int : ℕ → D
  pub add : D → D → D
  pub sub : D → D → D
  pub mul : D → D → D
  pub div : D → D → Option D
  pub abs : D → D
  pub less_than : D → D → Bool
  pub greater_than : D → D → Bool
  pub less_or_equal : D → D → Bool
  pub greater_or_equal : D → D → Bool
  pub is_zero : D → Bool
  pub is_negative : D → Bool

-- Float64 arithmetic; the literal 0.3 is `div (of_int 3) (of_int 10)`, which rounds to it.
pub record Float (F : Type 0) : Type 0 where
  pub of_int : ℕ → F
  pub add : F → F → F
  pub sub : F → F → F
  pub mul : F → F → F
  pub div : F → F → F
  pub neg : F → F
  pub gt : F → F → Bool
  pub le : F → F → Bool
  pub neg_inf : F
  -- `int64(x)`, for an x that is not negative
  pub to_int : F → ℕ
  -- neither NaN nor infinite
  pub is_finite : F → Bool

-- `decimal.NewFromFloat` on a number that is finite, as the numbers of JSON are, and `Decimal.InexactFloat64`.
pub record Conversion (D F : Type 0) : Type 0 where
  pub from_float : F → D
  pub to_float : D → F

-- `decimal.NewFromFloat`, which panics on NaN and on the infinities.
abbrev pub new_from_float : {D F : Type 0} ⦃fl : Float F⦄ ⦃cv : Conversion D F⦄ → F → Option D
new_from_float ⦃fl⦄ ⦃cv⦄ f = if fl.is_finite f then some (cv.from_float f) else none

-- The comparisons are those of one order by value, in which two representations of a number may
-- stand together, and division fails only at zero.
pub record DecimalLaws (D : Type 0) ⦃dec : Decimal D⦄ : Type 0 where
  pub order : IsWeakOrder dec.less_than
  pub greater_than-eq : (a b : D) → dec.greater_than a b ≡ dec.less_than b a
  pub less_or_equal-eq : (a b : D) → dec.less_or_equal a b ≡ not (dec.less_than b a)
  pub greater_or_equal-eq : (a b : D) → dec.greater_or_equal a b ≡ not (dec.less_than a b)
  pub div_defined : (a b : D) → dec.is_zero b ≡ false → is_some (dec.div a b) ≡ true
  pub zero_is_zero : dec.is_zero dec.zero ≡ true
  pub two_nonzero : dec.is_zero (dec.from_int 2) ≡ false

-- True of IEEE 754 numbers, NaN included.
pub record FloatLaws (F : Type 0) ⦃fl : Float F⦄ : Type 0 where
  pub gt_irrefl : (a : F) → fl.gt a a ≡ false
  pub gt_trans : (a b c : F) → fl.gt a b ≡ true → fl.gt b c ≡ true → fl.gt a c ≡ true

-- Halving a sum is monotone: `Decimal.Add` is exact and `Decimal.Div` rounds to 16 decimal places, half away
-- from zero.
pub record MeanLaws (D : Type 0) ⦃dec : Decimal D⦄ : Type 0 where
  pub mean_mono :
      (a b c d m n : D)
      → dec.less_than a c ≡ false
      → dec.less_than b d ≡ false
      → dec.div (dec.add a b) (dec.from_int 2) ≡ some m
      → dec.div (dec.add c d) (dec.from_int 2) ≡ some n
      → dec.less_than m n ≡ false

module _ {D : Type 0} ⦃dec : Decimal D⦄ where
  -- Half of twice the number is the number: it has at most the decimal places that division keeps.
  abbrev pub IsHalved : D → Type 0
  IsHalved a =
      (h : D) × (dec.div (dec.add a a) (dec.from_int 2) ≡ some h)
      × (dec.less_than h a ≡ false)
      × (dec.less_than a h ≡ false)
