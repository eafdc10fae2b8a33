-- ===== src/Wiring.antt =====
-- cmd/server/wiring.go: the providers and the strategy that the configuration asks for. Logs are left out.
pub mod Decoders
pub mod Cases
pub mod Contract
pub mod Registered
use crypto_price_aggregator.Base.{
  ℕ, String, List, [], ◌∷◌, Option, none, some, str_eq, if◌then◌else◌, ltb,
}
use crypto_price_aggregator.Base.Int.{ℤ, pos, negsuc}
use crypto_price_aggregator.Base.Dict.{lookup}
use crypto_price_aggregator.Domain.{ProviderTier, tier_free, tier_paid, Price}
use crypto_price_aggregator.Domain.Numeric.{Decimal, Float, Conversion}
use crypto_price_aggregator.Router.Multi.{Strategy, ProviderRegistration}
use crypto_price_aggregator.Router.Smart.{SmartWeights}
use crypto_price_aggregator.Providers.Adapter.{Provider, new, Runtime}
use crypto_price_aggregator.Providers.Interface.{PriceProvider}
use crypto_price_aggregator.Settings.{ProviderConfig, RoutingConfig}
use crypto_price_aggregator.Wiring.Decoders.{JsonDecoders}
use crypto_price_aggregator.Wiring.Cases.{Case, cases}

-- OnPriceUpdate of multiListener: each listener, in order. `S` holds the state of them all.
unfoldable pub notify_all : {P S : Type 0} → List (P → S → S) → P → S → S
notify_all [] price s = s
notify_all (listener ∷ listeners) price s = notify_all listeners price (listener price s)

-- An adapter as `New` leaves it, with its operations.
pub record Created (W D F : Type 0) : Type 0 where
  pub state : Provider
  pub operations : PriceProvider W D F

unfoldable pub tier_of : String → ProviderTier
tier_of tier = if str_eq tier "paid" then tier_paid else tier_free

-- A setting that is positive, or else its default.
unfoldable pub positive_or : ℕ → ℤ → ℕ
positive_or default (pos n) = if ltb 0 n then n else default
positive_or default (negsuc n) = default

-- `rest` is what the other entries of the map make.
module _ {W D F : Type 0} ⦃dec : Decimal D⦄ where
  unfoldable pub registration : ProviderConfig → Created W D F → ProviderRegistration D
  unfolding tier_of positive_or
  registration pcfg c = record {
    provider = c.operations.name;
    tier = tier_of pcfg.tier;
    priority = pcfg.priority;
    rate_limit = pcfg.rate_limit;
    rate_window = 60_000_000_000;
    cb_threshold = positive_or 5 pcfg.circuit_breaker.failure_threshold;
    cb_timeout = positive_or 60_000_000_000 pcfg.circuit_breaker.recovery_timeout;
    cost_per_call = dec.zero;
  }

module _ {W D F : Type 0} where
  unfoldable pub created : ProviderConfig → Option (Case W D F) → Option (Created W D F)
  unfolding new
  created pcfg none = none
  created pcfg (some c) = some record { state = new (c.settings pcfg); operations = c.operations }

module _ {W D F : Type 0} ⦃dec : Decimal D⦄ ⦃fl : Float F⦄ ⦃conv : Conversion D F⦄
    (go : Runtime W D F) (d : JsonDecoders F) where
  unfoldable pub create_provider : String → ProviderConfig → Option (Created W D F)
  unfolding created
  create_provider name pcfg = created pcfg (lookup name (cases go d))

  -- The registrations in an order in which the loop over the map may take its entries.
  unfoldable pub build_provider_registrations :
      List (String × ProviderConfig) → List (ProviderRegistration D)
  unfolding registration create_provider
  build_provider_registrations [] = []
  build_provider_registrations ((name, pcfg) ∷ entries) =
      let rest = build_provider_registrations entries in
      if pcfg.enabled
      then elim (create_provider name pcfg) [ none ↦ rest | some c ↦ registration pcfg c ∷ rest ]
      else rest

unfoldable pub build_strategy : {F : Type 0} → RoutingConfig F → Strategy F
build_strategy rcfg =
    if str_eq rcfg.strategy "priority"
    then Strategy.priority rcfg.allow_paid
    else if str_eq rcfg.strategy "roundrobin"
    then Strategy.round_robin 0 rcfg.allow_paid
    else Strategy.smart
        record {
          rate_remaining = rcfg.weights.rate_remaining;
          latency = rcfg.weights.latency;
          cost = rcfg.weights.cost;
        }
        rcfg.allow_paid
