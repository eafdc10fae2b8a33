-- ===== src/App/Validator.antt =====
-- internal/app/validator.go: the checks of one price, and of a price against a reference.
pub mod Verdict
use crypto_price_aggregator.Base.{
  ℕ, ◌*◌, ◌≡◌, Bool, true, false, not, ◌&&◌, ◌||◌, String, List, [], ◌∷◌, Option, none, some,
  if◌then◌else◌, ◌>>=◌, ltb, ◌==◌, str_eq,
}
use crypto_price_aggregator.Domain.{
  Error, price_zero, price_stale, invalid_price, wrapped, Price, since_exceeds,
}
use crypto_price_aggregator.Domain.Numeric.{Decimal, Float, Conversion, new_from_float}
use crypto_price_aggregator.App.Deviation.{deviation}

pub record PriceValidatorConfig (F : Type 0) : Type 0 where
  pub enabled : Bool
  pub max_staleness : ℕ
  pub max_deviation_from_cache : F
  pub stablecoin_deviation : F
  pub major_coin_deviation : F
  pub altcoin_deviation : F

-- Membership in a `map[string]bool` whose values are all true.
unfoldable pub contains : String → List String → Bool
contains k [] = false
contains k (j ∷ m) = str_eq j k || contains k m

abbrev pub stablecoins : List String
stablecoins = "tether" ∷ "usd-coin" ∷ "dai" ∷ "binance-usd" ∷ "trueusd" ∷ "frax" ∷ "usdd" ∷ []

abbrev pub major_coins : List String
major_coins =
    "bitcoin" ∷ "ethereum" ∷ "binancecoin" ∷ "solana" ∷ "cardano" ∷ "ripple" ∷ "polkadot"
    ∷ "avalanche-2" ∷ []

module _ {F : Type 0} ⦃fl : Float F⦄ where
  unfoldable pub max_deviation_for_coin : PriceValidatorConfig F → String → F
  max_deviation_for_coin v coin =
      if fl.gt v.stablecoin_deviation (fl.of_int 0) && contains coin stablecoins
      then v.stablecoin_deviation
      else if fl.gt v.major_coin_deviation (fl.of_int 0) && contains coin major_coins
      then v.major_coin_deviation
      else if fl.gt v.altcoin_deviation (fl.of_int 0)
      then v.altcoin_deviation
      else v.max_deviation_from_cache

module _ {D F : Type 0} ⦃dec : Decimal D⦄ where
  -- `none` is a nil error.
  unfoldable pub validate : ℕ → PriceValidatorConfig F → Price D F → Option Error
  validate now v price =
      if not v.enabled
      then none
      else if dec.is_zero price.value || dec.is_negative price.value
      then some price_zero
      else if ltb 0 v.max_staleness
          && not (price.timestamp == 0)
          && since_exceeds now price.timestamp v.max_staleness
      then some price_stale
      else none

module _ {D F : Type 0} ⦃dec : Decimal D⦄ ⦃fl : Float F⦄ ⦃cv : Conversion D F⦄ where
  -- The last step: the deviation, and the error that says it is too high (without its two numbers).
  unfoldable pub compare_with :
      PriceValidatorConfig F → Price D F → Price D F → Option (Option Error)
  compare_with v price reference = do
    dev ← deviation price.value reference.value
    max_dev ← new_from_float (max_deviation_for_coin v price.coin_id)
    some (
        if dec.greater_than dev max_dev
        then some (wrapped "deviation exceeds max" invalid_price)
        else none)

  -- The outer `none` is a panic, the inner one a nil error; so is the reference that is not there.
  unfoldable pub validate_against_reference :
      ℕ → PriceValidatorConfig F → Price D F → Option (Price D F) → Option (Option Error)
  unfolding compare_with
  validate_against_reference now v price none = some none
  validate_against_reference now v price (some reference) =
      if not v.enabled || fl.le v.max_deviation_from_cache (fl.of_int 0)
      then some none
      else if dec.is_zero reference.value
      then some none
      else if ltb 0 v.max_staleness
          && not (reference.received_at == 0)
          && since_exceeds now reference.received_at (v.max_staleness * 2)
      then some none
      else compare_with v price reference
