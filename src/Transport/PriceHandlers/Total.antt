-- ===== src/Transport/PriceHandlers/Total.antt =====
-- internal/adapter/transport/http/handler_price.go: HandleGetPrice on each of its branches.
use crypto_price_aggregator.Base.{◌≡◌, ◌≢◌, ◌⊎◌, true, false, Option, none, some}
use crypto_price_aggregator.Domain.{
  Price, Error, coin_not_found, no_healthy_provider, budget_exhausted,
}
use crypto_price_aggregator.Domain.Numeric.{Decimal, Float}
use crypto_price_aggregator.App.PriceService.{PriceService}
use crypto_price_aggregator.Transport.Handlers.{unwrapped}
use crypto_price_aggregator.Transport.Replies.{Reply, failure}
use crypto_price_aggregator.Transport.PriceHandlers.{PriceBody}

module _ {D : Type 0} ⦃dec : Decimal D⦄ where
  -- An amount that is left out when it is zero.
  abbrev pub ShowsAmount : D → Option D → Type 0
  ShowsAmount d o = ((dec.is_zero d ≡ true) × (o ≡ none)) ⊎ ((dec.is_zero d ≡ false) × (o ≡ some d))

module _ {D F : Type 0} ⦃dec : Decimal D⦄ ⦃fl : Float F⦄ where
  pub record Shows (p : Price D F) (b : PriceBody D F) : Type 0 where
    pub coin : b.coin ≡ p.coin_id
    pub currency : b.currency ≡ p.currency
    pub price : b.price ≡ p.value
    pub provider : b.provider ≡ p.provider
    pub timestamp : b.timestamp ≡ p.timestamp
    pub market_cap : ShowsAmount p.market_cap b.market_cap
    pub volume : ShowsAmount p.volume_24h b.volume_24h

module _ {B : Type 0} where
  -- The status and code for an error, by the error that it is or wraps.
  abbrev pub Reports : Error → Reply B → Type 0
  Reports e reply =
      ((unwrapped e ≡ coin_not_found) × (reply ≡ failure 404 "COIN_NOT_FOUND"))
      ⊎ (((unwrapped e ≡ no_healthy_provider) × (reply ≡ failure 503 "NO_HEALTHY_PROVIDER"))
          ⊎ (((unwrapped e ≡ budget_exhausted) × (reply ≡ failure 503 "BUDGET_EXHAUSTED"))
              ⊎ ((unwrapped e ≢ coin_not_found)
                  × (unwrapped e ≢ no_healthy_provider)
                  × (unwrapped e ≢ budget_exhausted)
                  × (reply ≡ failure 500 "INTERNAL_ERROR"))))
