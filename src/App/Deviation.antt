-- ===== src/App/Deviation.antt =====
-- The formula that validator.go, outlier.go and consensus.go share: how far a value lies from a
-- reference, in percent of the reference. `none` is a panic.
use mathlib.Core.Option
use crypto_price_aggregator.Base.{◌≡◌, true, false, Option, is_some, arith}
use crypto_price_aggregator.Domain.Numeric.{Decimal, DecimalLaws}

module _ {D : Type 0} ⦃dec : Decimal D⦄ where
  -- `value.Sub(ref).Abs().Div(ref).Mul(decimal.NewFromInt(100))`
  unfoldable pub deviation : D → D → Option D
  deviation value ref =
      Option.map (λ q. dec.mul q (dec.from_int 100)) (dec.div (dec.abs (dec.sub value ref)) ref)

  pub deviation_defined :
      DecimalLaws D
      → (value ref : D) → dec.is_zero ref ≡ false
      → is_some (deviation value ref) ≡ true
  unfolding deviation
  deviation_defined laws value ref h =
      ground (arith, laws.div_defined (dec.abs (dec.sub value ref)) ref)
