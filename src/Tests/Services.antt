-- ===== src/Tests/Services.antt =====
-- The services' theorems at concrete inputs.
use crypto_price_aggregator.Base.{
  ◌≡◌, ◌↔◌, ◌⊎◌, refl, true, false, List, [], ◌∷◌, none, some, arith, is_some,
}
use crypto_price_aggregator.Base.Int.{ℤ, pos}
use crypto_price_aggregator.Base.Dict.{lookup}
use crypto_price_aggregator.Domain.{Price}
use crypto_price_aggregator.Domain.FixedPoint.{
  fixed_decimal, fixed_float, fixed_conversion, fixed-DecimalLaws, fixed-MeanLaws,
}
use crypto_price_aggregator.Router.Single
use crypto_price_aggregator.Router.Interface.{single_provider_router, multi_provider_router}
use crypto_price_aggregator.Storage.Memory.Cache.{Entries, memory_cache, memory-CacheLaws}
use crypto_price_aggregator.Storage.Memory.Cache
use crypto_price_aggregator.Storage.Memory.Store.{Prices, memory_store}
use crypto_price_aggregator.App.Validator.{validate, validate_against_reference, contains}
use crypto_price_aggregator.App.Validator.Verdict.{IsPositive, IsFresh, validate_iff}
use crypto_price_aggregator.App.Consensus.{ConsensusConfig, ConsensusResult, compute_result}
use crypto_price_aggregator.App.Consensus.Median.{within}
use crypto_price_aggregator.App.Consensus.Split.{compute_result-within}
use crypto_price_aggregator.App.PriceService.{
  PriceService, deliver, ask_provider, accept_price, try_providers, cached,
}
use crypto_price_aggregator.App.PriceService.Attempts.{Outcome}
use crypto_price_aggregator.App.PriceService.Loop.{Asks, try_providers-Outcome, try_providers-Asks}
use crypto_price_aggregator.App.Request.{get_price}
use crypto_price_aggregator.App.Request.Total.{HasFinite, get_price_defined}
use crypto_price_aggregator.App.Request.Served.{deliver-get_price}
use crypto_price_aggregator.Base.{get_elem?}
use crypto_price_aggregator.Base.Dict.{insert}
use crypto_price_aggregator.Domain.{price_zero, ok}
use crypto_price_aggregator.Domain.Ports.{Answers}
use crypto_price_aggregator.Router.CircuitBreaker.{new_circuit_breaker, state_closed}
use crypto_price_aggregator.Router.Provider.{ProviderState}
use crypto_price_aggregator.Router.Multi.{MultiRouter, new_multi_router, priority}
use crypto_price_aggregator.App.PriceService.Rejected.{rejected-state_closed}
use crypto_price_aggregator.Tests.Data.{kraken, router_with}
use crypto_price_aggregator.Tests.Data.{price, validator, answers, service}

abbrev Service : Type 0
Service = PriceService Single.SingleRouter (Entries ℤ ℤ) (Prices ℤ ℤ) ℤ ℤ

abbrev start : Service
start = service (Single.new_single_router "kraken")

abbrev bitcoin : Price ℤ ℤ
bitcoin = price "bitcoin" 15_000 200

-- After `kraken` has answered.
abbrev served : Service
served = deliver bitcoin (record start {
  router = Single.report_success (Single.new_single_router "kraken");
  now = 207;
  asked = "kraken" ∷ [];
})

loop_serves :
    try_providers answers 3 "bitcoin" "usd" [] none start ≡ some (served, (some bitcoin, none))
unfolding try_providers ask_provider accept_price validate validate_against_reference cached
    contains Single.select Single.report_success Single.new_single_router Cache.get lookup deliver
loop_serves = refl

try_providers-Outcome_example : Outcome start served (some bitcoin, none)
try_providers-Outcome_example =
    try_providers-Outcome answers 2 "bitcoin" "usd" start served (some bitcoin, none) loop_serves

try_providers-Asks_example : Asks answers 3 [] start served
try_providers-Asks_example =
    try_providers-Asks answers 3 "bitcoin" "usd" [] none start served (some bitcoin, none)
      loop_serves

start-HasFinite : HasFinite start
start-HasFinite = record {
  validator =
      λ v h. record { from_cache = refl; stablecoin = refl; major_coin = refl; altcoin = refl };
  consensus = λ cfg h. refl;
}

get_price_defined_example : is_some (get_price answers "bitcoin" "usd" start) ≡ true
get_price_defined_example =
    get_price_defined answers fixed-DecimalLaws "bitcoin" "usd" start start-HasFinite

abbrev counted : Service
counted = record start { request_count = 1 }

abbrev served_counted : Service
served_counted = record served { request_count = 1 }

abbrev later_start : Service
later_start = record (deliver bitcoin start) { now = 250 }

deliver-get_price_example :
    get_price answers "bitcoin" "usd" later_start
    ≡ some (record later_start { request_count = 1; cache_hit_count = 1 }, (some bitcoin, none))
deliver-get_price_example =
    deliver-get_price answers memory-CacheLaws bitcoin [] 250 start refl (omega arith)

validate_iff_example :
    (validate 207 validator bitcoin ≡ none)
    ↔ ((validator.enabled ≡ false) ⊎ (IsPositive bitcoin × IsFresh 207 validator bitcoin))
validate_iff_example = validate_iff 207 validator bitcoin

abbrev consensus_config : ConsensusConfig ℤ
consensus_config = record {
  enabled = true;
  min_providers = 2;
  max_deviation = pos 50_000;
  timeout = 1_000;
}

-- One of three prices is far off.
abbrev three_prices : List (Price ℤ ℤ)
three_prices =
    price "bitcoin" 15_000 200 ∷ price "bitcoin" 990_000 200 ∷ price "bitcoin" 15_100 200 ∷ []

compute_result-within_example :
    (r : ConsensusResult ℤ ℤ) × (compute_result consensus_config three_prices ≡ some r)
    × (within (pos 15_000) (pos 15_200) r.median_price ≡ true)
compute_result-within_example =
    compute_result-within consensus_config refl fixed-DecimalLaws fixed-MeanLaws (pos 15_000)
      (pos 15_200) (pos 15_000, refl, refl, refl) (pos 15_200, refl, refl, refl) three_prices
      (omega arith)

-- A provider that answers with a price of zero.
abbrev zero_answers : Answers ℤ ℤ
zero_answers now name coin currency = (ok (price coin 0 now), 7)

abbrev with_two : PriceService (MultiRouter ℤ ℤ) (Entries ℤ ℤ) (Prices ℤ ℤ) ℤ ℤ
with_two = service (router_with (priority true))

rejected-state_closed_example :
    (s' : PriceService (MultiRouter ℤ ℤ) (Entries ℤ ℤ) (Prices ℤ ℤ) ℤ ℤ) × (q : ProviderState ℤ ℤ)
    × (ask_provider zero_answers "bitcoin" "usd" "kraken" with_two
        ≡ some (s', (none, some price_zero)))
    × (get_elem? s'.router.ordered 0 ≡ some q)
    × (q.circuit_breaker.state ≡ state_closed)
unfolding validate new_multi_router new_circuit_breaker lookup insert
rejected-state_closed_example =
    rejected-state_closed zero_answers "bitcoin" "usd" "kraken" with_two validator
      (price "bitcoin" 0 200) 7 price_zero 0 kraken refl refl refl refl refl (omega arith)
