-- ===== src/App/Consensus.antt =====
-- internal/app/consensus.go: the agreed price of several providers. `none` is a panic.
pub mod Median
pub mod Split
pub mod Compute
use crypto_price_aggregator.Base.{
  ℕ, zero, suc, ◌-◌, ◌/◌, ◌%◌, Bool, true, false, ◌||◌, not, String, List, [], ◌∷◌, Option, none,
  some, if◌then◌else◌, ltb, leb, ◌==◌, length, get_elem?, ◌>>=◌,
}
use crypto_price_aggregator.Base.Sort.{sort_slice}
use crypto_price_aggregator.Domain.{Price, Result, ok, err, Error, no_healthy_provider}
use crypto_price_aggregator.Domain.Numeric.{Decimal, Float, Conversion, new_from_float}
use crypto_price_aggregator.App.Deviation.{deviation}

pub record ConsensusConfig (F : Type 0) : Type 0 where
  pub enabled : Bool
  pub min_providers : ℕ
  pub max_deviation : F
  pub timeout : ℕ

pub record ConsensusResult (D F : Type 0) : Type 0 where
  pub median_price : D
  pub prices : List (Price D F)
  pub outliers : List (Price D F)
  pub confidence : F

module _ {D F : Type 0} ⦃dec : Decimal D⦄ where
  abbrev pub cheaper : Price D F → Price D F → Bool
  cheaper p q = dec.less_than p.value q.value

  -- `prices[i].Value`, which panics out of range.
  abbrev pub value_at : List (Price D F) → ℕ → Option D
  value_at prices i = do p ← get_elem? prices i; some p.value

  unfoldable pub median : List (Price D F) → Option D
  median prices =
      let n = length prices in
      if n == 0 then some dec.zero else if n % 2 == 1 then value_at prices (n / 2) else do
        a ← value_at prices (n / 2 - 1)
        b ← value_at prices (n / 2)
        dec.div (dec.add a b) (dec.from_int 2)

  -- The loop over the prices: those that agree with the median, and the outliers, each in order.
  unfoldable pub split : D → D → List (Price D F) → Option (List (Price D F) × List (Price D F))
  split mid max_dev [] = some ([], [])
  split mid max_dev (p ∷ ps) = do
    dev ← deviation p.value mid
    (valid, outliers) ← split mid max_dev ps
    some (if dec.greater_than dev max_dev then (valid, p ∷ outliers) else (p ∷ valid, outliers))

module _ {D F : Type 0} ⦃dec : Decimal D⦄ ⦃fl : Float F⦄ ⦃cv : Conversion D F⦄ where
  unfoldable pub compute_result :
      ConsensusConfig F → List (Price D F) → Option (ConsensusResult D F)
  compute_result cfg prices = do
    let sorted = sort_slice cheaper prices
    mid ← median sorted
    if dec.is_zero mid
        then some (record {
          median_price = mid;
          prices = sorted;
          outliers = [];
          confidence = fl.of_int 0;
        })
        else do
          max_dev ← new_from_float cfg.max_deviation
          (valid, outliers) ← split mid max_dev sorted
          some (record {
            median_price = mid;
            prices = sorted;
            outliers = outliers;
            confidence = fl.div (fl.of_int (length valid)) (fl.of_int (length sorted));
          })
