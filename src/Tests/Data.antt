-- ===== src/Tests/Data.antt =====
-- Test data: providers, prices and services, with fixed-point numbers.
use crypto_price_aggregator.Base.{ℕ, true, String, List, [], ◌∷◌, none, some, str_eq, if◌then◌else◌}
use crypto_price_aggregator.Base.Int.{ℤ, pos}
use crypto_price_aggregator.Domain.{Price, ok, err, provider_down, tier_free}
use crypto_price_aggregator.Domain.FixedPoint.{fixed_decimal, fixed_float, fixed_conversion}
use crypto_price_aggregator.Domain.Ports.{Answers}
use crypto_price_aggregator.Router.Multi.{
  ProviderRegistration, MultiRouter, Strategy, new_multi_router, new_provider_state,
}
use crypto_price_aggregator.Router.Provider.{ProviderState}
use crypto_price_aggregator.Router.Smart.{SmartWeights}
use crypto_price_aggregator.App.Validator.{PriceValidatorConfig}
use crypto_price_aggregator.App.PriceService.{PriceService}
use crypto_price_aggregator.Storage.Memory.Cache.{Entries}
use crypto_price_aggregator.Storage.Memory.Store.{Prices}

abbrev pub registration : String → ℕ → ProviderRegistration ℤ
registration name number = record {
  provider = name;
  tier = tier_free;
  priority = number;
  rate_limit = 3;
  rate_window = 1_000;
  cb_threshold = 2;
  cb_timeout = 500;
  cost_per_call = pos 0;
}

abbrev pub kraken : ProviderState ℤ ℤ
kraken = new_provider_state 100 (registration "kraken" 2)

abbrev pub coinbase : ProviderState ℤ ℤ
coinbase = new_provider_state 100 (registration "coinbase" 1)

abbrev pub two_providers : List (ProviderState ℤ ℤ)
two_providers = kraken ∷ coinbase ∷ []

abbrev pub router_with : Strategy ℤ → MultiRouter ℤ ℤ
router_with strategy =
    new_multi_router 100 strategy (registration "kraken" 2 ∷ registration "coinbase" 1 ∷ [])

abbrev pub weights : SmartWeights ℤ
weights = record { rate_remaining = pos 4_000; latency = pos 3_000; cost = pos 3_000 }

-- A price of so many ten-thousandths.
abbrev pub price : String → ℕ → ℕ → Price ℤ ℤ
price coin value at = record {
  coin_id = coin;
  currency = "usd";
  value = pos value;
  provider = "kraken";
  timestamp = at;
  received_at = at;
  market_cap = pos 0;
  volume_24h = pos 0;
  change_24h = pos 0;
}

abbrev pub validator : PriceValidatorConfig ℤ
validator = record {
  enabled = true;
  max_staleness = 10_000;
  max_deviation_from_cache = pos 100_000;
  stablecoin_deviation = pos 0;
  major_coin_deviation = pos 0;
  altcoin_deviation = pos 0;
}

-- `coinbase` is down; `kraken` answers.
abbrev pub answers : Answers ℤ ℤ
answers now name coin currency =
    if str_eq name "coinbase" then (err provider_down, 5) else (ok (price coin 15_000 now), 7)

abbrev pub service : {R : Type 0} → R → PriceService R (Entries ℤ ℤ) (Prices ℤ ℤ) ℤ ℤ
service router = record {
  router = router;
  cache = some [];
  store = some [];
  cache_ttl = 60;
  max_retries = 3;
  listens = true;
  validator = some validator;
  consensus = none;
  response_mode = "";
  request_count = 0;
  cache_hit_count = 0;
  start_time = 100;
  now = 200;
  notified = [];
  asked = [];
}
