-- ===== src/Tests/Routers.antt =====
-- The router's theorems at concrete inputs.
use crypto_price_aggregator.Base.{
  ℕ, ◌*◌, ◌≤◌, ◌≡◌, refl, true, not, String, List, [], ◌∷◌, none, arith,
}
use crypto_price_aggregator.Domain.{provider_down, ProviderStatus, tier_free}
use crypto_price_aggregator.Domain.FixedPoint.{
  fixed_decimal, fixed_float, fixed_conversion, fixed-FloatLaws,
}
use crypto_price_aggregator.Router.CircuitBreaker.{new_circuit_breaker, allow_request}
use crypto_price_aggregator.Router.CircuitBreaker.History.{
  failure, run, blocks, allow_request-blocks,
}
use crypto_price_aggregator.Router.RateLimit.{
  is_exhausted, RateLimitTracker, new_rate_limit_tracker,
}
use crypto_price_aggregator.Router.RateLimit.Quota.{admitted, admitted-le-double, admitted-eq-min}
use crypto_price_aggregator.Router.Provider.{is_available}
use crypto_price_aggregator.Router.Priority.{select_priority}
use crypto_price_aggregator.Router.Priority.Lowest.{IsLowest, select_priority-IsLowest}
use crypto_price_aggregator.Router.RoundRobin.{select_round_robin}
use crypto_price_aggregator.Router.RoundRobin.Turns.{cyclic, next_index, select_round_robin-cyclic}
use crypto_price_aggregator.Router.Smart.{select_smart}
use crypto_price_aggregator.Router.Smart.Best.{IsBest, select_smart-IsBest}
use crypto_price_aggregator.Router.Walk.{
  avail_at, find_first, or_no_healthy, first_available, visit,
}
use crypto_price_aggregator.Base.Sort.{sort_slice}
use crypto_price_aggregator.Router.Multi.{priority, round_robin, select, new_multi_router}
use crypto_price_aggregator.Router.Multi.Claim.{IsClaim, select-IsClaim}
use crypto_price_aggregator.Router.Multi.Window.{
  Call, times_given, times_given-le-double, selecting, failed,
}
use crypto_price_aggregator.Tests.Data.{coinbase, two_providers, router_with, weights}

allow_request-blocks_example :
    (allow_request 450 (run (new_circuit_breaker 2 500) (failure 200 ∷ failure 100 ∷ []))).1
    ≡ not (blocks 2 500 (failure 200 ∷ failure 100 ∷ []) 450)
allow_request-blocks_example =
    allow_request-blocks 2 500 450 (failure 200 ∷ failure 100 ∷ []) (omega arith, (omega arith, tt))

abbrev tracker : RateLimitTracker
tracker = new_rate_limit_tracker 0 3 100

abbrev times : List ℕ
times = 90 ∷ 95 ∷ 101 ∷ 102 ∷ 190 ∷ []

admitted-le-double_example : admitted tracker times ≤ 2 * tracker.limit
unfolding new_rate_limit_tracker
admitted-le-double_example =
    admitted-le-double tracker 90 times (omega arith) (ground arith) (ground arith)

admitted-eq-min_example : admitted tracker (10 ∷ 20 ∷ 30 ∷ 40 ∷ []) ≡ 3
unfolding new_rate_limit_tracker
admitted-eq-min_example = admitted-eq-min tracker (10 ∷ 20 ∷ 30 ∷ 40 ∷ []) (ground arith)

select_priority-IsLowest_example :
    IsLowest true 200 two_providers (select_priority true 200 two_providers).1
select_priority-IsLowest_example = select_priority-IsLowest true 200 two_providers

select_round_robin-cyclic_example :
    let found = find_first (avail_at true 200 two_providers) (cyclic 2 1 2 0) in
    let r = select_round_robin true 200 1 two_providers in
    (r.1 ≡ next_index 2 1 found) × (r.2 ≡ or_no_healthy found)
select_round_robin-cyclic_example = select_round_robin-cyclic true 200 1 two_providers

select_smart-IsBest_example :
    IsBest true weights 200 two_providers (select_smart true weights 200 two_providers).1
select_smart-IsBest_example = select_smart-IsBest true weights 200 fixed-FloatLaws two_providers

select-IsClaim_example :
    IsClaim true 200
      (router_with (priority true)).ordered
      (select 200 (router_with (priority true))).0.ordered
      "coinbase"
unfolding select new_multi_router select_priority sort_slice first_available visit is_available
    is_exhausted allow_request new_circuit_breaker new_rate_limit_tracker
select-IsClaim_example = select-IsClaim 200 (router_with (priority true)) "coinbase" refl

abbrev status : String → ProviderStatus
status name = record {
  name = name;
  healthy = true;
  remaining_rate = 0;
  reset_at = 0;
  avg_latency = 0;
  tier = tier_free;
  last_error = none;
  last_success_at = 0;
}

abbrev calls : List (ℕ × Call)
calls = (1_050, selecting) ∷ (1_060, failed "kraken" provider_down) ∷ (1_900, selecting) ∷ []

times_given-le-double_example : times_given status 1 (router_with (round_robin 0 true)) calls ≤ 6
unfolding new_multi_router new_rate_limit_tracker
times_given-le-double_example =
    times_given-le-double status 1_000 1 coinbase (router_with (round_robin 0 true)) calls refl
      (ground arith) (ground arith)
