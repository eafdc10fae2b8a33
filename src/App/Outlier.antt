-- ===== src/App/Outlier.antt =====
-- internal/app/outlier.go: whether a price lies too far from a consensus price. `none` is a panic.
use mathlib.Core.Option
use crypto_price_aggregator.Base.{
  ◌≡◌, Bool, true, false, Option, some, if◌then◌else◌, ◌>>=◌, arith, is_some,
}
use crypto_price_aggregator.Domain.{Price}
use crypto_price_aggregator.Domain.Numeric.{Decimal, Float, Conversion, DecimalLaws, new_from_float}
use crypto_price_aggregator.App.Deviation.{deviation, deviation_defined}

pub record OutlierDetector (F : Type 0) : Type 0 where
  pub max_deviation_percent : F

module _ {D F : Type 0} ⦃dec : Decimal D⦄ ⦃fl : Float F⦄ ⦃cv : Conversion D F⦄ where
  unfoldable pub is_outlier : OutlierDetector F → Price D F → D → Option Bool
  is_outlier d price consensus = if dec.is_zero consensus then some false else do
    dev ← deviation price.value consensus
    max_dev ← new_from_float d.max_deviation_percent
    some (dec.greater_than dev max_dev)

  pub is_outlier_defined :
      DecimalLaws D
      → (d : OutlierDetector F) → fl.is_finite d.max_deviation_percent ≡ true
      → (price : Price D F) (consensus : D) → is_some (is_outlier d price consensus) ≡ true
  unfolding is_outlier
  is_outlier_defined laws d fin price consensus =
      ground (arith, fin, deviation_defined laws price.value consensus)

module _ {D F : Type 0} ⦃dec : Decimal D⦄ ⦃fl : Float F⦄ ⦃cv : Conversion D F⦄ where
  unfoldable pub deviation_of : Price D F → D → Option F
  deviation_of price consensus =
      if dec.is_zero consensus
      then some (fl.of_int 0)
      else Option.map cv.to_float (deviation price.value consensus)
