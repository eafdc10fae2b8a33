-- ===== src/App/Request/Sourced.antt =====
-- internal/app/price_service.go: where the price that `GetPrice` returns is from, and when it returns none.
use crypto_price_aggregator.Base.{◌≡◌, ◌⊎◌, String, Option, none, some}
use crypto_price_aggregator.Domain.{Price, Error, ok, err}
use crypto_price_aggregator.Domain.Numeric.{Decimal, Float, Conversion}
use crypto_price_aggregator.Domain.Ports.{Cache, PriceStore, Answers}
use crypto_price_aggregator.App.Validator.{PriceValidatorConfig, validate}
use crypto_price_aggregator.App.Consensus.{ConsensusConfig}
use crypto_price_aggregator.App.PriceService.{PriceService, Returned, cached}
use crypto_price_aggregator.App.PriceService.Loop.{IsGiven}
use crypto_price_aggregator.App.Request.Agreed.{IsConsensusOf}

module _ {R C S D F : Type 0} ⦃ps : PriceStore S D F⦄ where
  -- The latest price in the store, if the service has one and it answers.
  abbrev pub stored : String → String → PriceService R C S D F → Option (Price D F)
  stored coin currency s = elim s.store [
    | none ↦ none
    | some st ↦ elim (ps.get_latest coin currency st) [ ok found ↦ found | err e ↦ none ]
  ]

module _ {R C S D F : Type 0} ⦃dec : Decimal D⦄ ⦃fl : Float F⦄ ⦃cv : Conversion D F⦄
    (answers : Answers D F) where
  -- An agreed price: in the consensus mode, for the coin and currency, under the name of the consensus, and
  -- with a value that enough providers' prices agree on.
  abbrev pub IsAgreed : String → String → PriceService R C S D F → Price D F → Type 0
  IsAgreed coin currency s p =
      (s.response_mode ≡ "consensus")
      × (p.provider ≡ "consensus")
      × (p.coin_id ≡ coin)
      × (p.currency ≡ currency)
      × ((cfg : ConsensusConfig F) × (s.consensus ≡ some cfg)
          × IsConsensusOf answers cfg coin currency p.value)

module _ {R C S D F : Type 0} ⦃ca : Cache C D F⦄ ⦃ps : PriceStore S D F⦄ ⦃dec : Decimal D⦄
    ⦃fl : Float F⦄ ⦃cv : Conversion D F⦄ (answers : Answers D F) where
  -- Where a price is from, when a request leads from one state to another: the cache; the consensus; a
  -- provider, whose price the validator accepts; or the store.
  abbrev pub IsSource :
      String → String → PriceService R C S D F → PriceService R C S D F → Price D F → Type 0
  IsSource coin currency s s' p =
      (cached coin currency s ≡ some p)
      ⊎ (IsAgreed answers coin currency s p
          ⊎ ((IsGiven answers coin currency p
                × ((v : PriceValidatorConfig F)
                    → s.validator ≡ some v
                    → validate s'.now v p ≡ none))
              ⊎ (stored coin currency s' ≡ some p)))

  -- What a request returns: a price with its source, or an error where the cache and the store have none.
  abbrev pub IsServed :
      String → String → PriceService R C S D F → PriceService R C S D F → Returned D F → Type 0
  IsServed coin currency s s' returned =
      ((p : Price D F) × (returned ≡ (some p, none)) × IsSource coin currency s s' p)
      ⊎ ((x : Error) × (returned ≡ (none, some x))
          × (cached coin currency s ≡ none)
          × (stored coin currency s' ≡ none))
