-- ===== src/App/Validator/Verdict.antt =====
-- internal/app/validator.go: what the validator accepts.

use crypto_price_aggregator.Base.{
  ℕ, ◌+◌, ◌≤◌, ◌≡◌, ◌↔◌, ◌⊎◌, true, false, String, Option, none, some, arith, is_some,
}
use crypto_price_aggregator.Domain.{Price}
use crypto_price_aggregator.Domain.Numeric.{Decimal, Float, Conversion, DecimalLaws}
use crypto_price_aggregator.App.Deviation.{deviation_defined}
use crypto_price_aggregator.App.Validator.{
  PriceValidatorConfig, max_deviation_for_coin, validate, validate_against_reference,
}

module _ {D F : Type 0} ⦃dec : Decimal D⦄ where
  abbrev pub IsPositive : Price D F → Type 0
  IsPositive p = (dec.is_zero p.value ≡ false) × (dec.is_negative p.value ≡ false)

  -- A price is fresh if there is no limit, if it bears no time, or if it is no older than the limit.
  abbrev pub IsFresh : ℕ → PriceValidatorConfig F → Price D F → Type 0
  IsFresh now v p =
      (v.max_staleness ≡ 0) ⊎ ((p.timestamp ≡ 0) ⊎ (now ≤ p.timestamp + v.max_staleness))

  -- An enabled validator accepts a price exactly when its value is neither zero nor negative and it is
  -- fresh; one that is not enabled accepts every price.
  pub validate_iff :
      (now : ℕ) (v : PriceValidatorConfig F) (p : Price D F)
      → (validate now v p ≡ none) ↔ ((v.enabled ≡ false) ⊎ (IsPositive p × IsFresh now v p))
  unfolding validate
  validate_iff now v p = ground arith

module _ {F : Type 0} ⦃fl : Float F⦄ where
  -- No deviation of the configuration is NaN or infinite.
  pub record AllFinite (v : PriceValidatorConfig F) : Type 0 where
    pub from_cache : fl.is_finite v.max_deviation_from_cache ≡ true
    pub stablecoin : fl.is_finite v.stablecoin_deviation ≡ true
    pub major_coin : fl.is_finite v.major_coin_deviation ≡ true
    pub altcoin : fl.is_finite v.altcoin_deviation ≡ true

  max_deviation-finite :
      (v : PriceValidatorConfig F)
      → AllFinite v
      → (coin : String) → fl.is_finite (max_deviation_for_coin v coin) ≡ true
  unfolding max_deviation_for_coin
  max_deviation-finite v fin coin =
      ground (arith, fin.from_cache, fin.stablecoin, fin.major_coin, fin.altcoin)

module _ {D F : Type 0} ⦃dec : Decimal D⦄ ⦃fl : Float F⦄ ⦃cv : Conversion D F⦄ where
  -- A check against a reference does not panic, if no deviation of the configuration is NaN or infinite: it
  -- divides only by a reference that is not zero.
  -- Decimal numbers obey their laws.
  pub validate_against_reference_defined :
      DecimalLaws D
      → (now : ℕ) (v : PriceValidatorConfig F) → AllFinite v
      → (p : Price D F) (ref : Option (Price D F))
      → is_some (validate_against_reference now v p ref) ≡ true
  unfolding validate_against_reference
  validate_against_reference_defined laws now v fin p none = ground arith
  validate_against_reference_defined laws now v fin p (some ref) =
      ground (arith, max_deviation-finite v fin p.coin_id, deviation_defined laws p.value ref.value)
