-- ===== src/Router/Provider.antt =====
-- internal/router/strategy.go: what the router keeps of each provider. A provider is known to the
-- router by its name; what it answers is outside the router.
pub mod Score
use crypto_price_aggregator.Base.{
  ℕ, ◌+◌, ◌≡◌, refl, Bool, true, false, not, ◌&&◌, String, ltb, ◌==◌, if◌then◌else◌, arith,
}
use crypto_price_aggregator.Domain.{ProviderTier, is_paid}
use crypto_price_aggregator.Domain.Numeric.{Decimal, Float, Conversion}
use crypto_price_aggregator.Router.CircuitBreaker.{CircuitBreaker, allow_request}
use crypto_price_aggregator.Router.RateLimit.{RateLimitTracker, is_exhausted, remaining_ratio}

pub record LatencyTracker (F : Type 0) : Type 0 where
  pub avg : F
  pub alpha : F
  pub count : ℕ

pub record ProviderState (D F : Type 0) : Type 0 where
  pub provider : String
  pub tier : ProviderTier
  pub priority : ℕ
  pub rate_limit : RateLimitTracker
  pub circuit_breaker : CircuitBreaker
  pub avg_latency : LatencyTracker F
  pub cost_per_call : D
  pub enabled : Bool
  pub accuracy_score : F
  pub outlier_count : ℕ
  pub total_responses : ℕ
  pub accurate_count : ℕ

pub record ProviderSnapshot (F : Type 0) : Type 0 where
  pub accuracy_score : F
  pub total_responses : ℕ
  pub avg_latency_ms : F
  pub remaining_ratio : F
  pub cost_per_call : F

module _ {F : Type 0} ⦃fl : Float F⦄ where
  unfoldable pub new_latency_tracker : LatencyTracker F
  new_latency_tracker = record {
    avg = fl.of_int 0;
    alpha = fl.div (fl.of_int 3) (fl.of_int 10);
    count = 0;
  }

  unfoldable pub record_latency : F → LatencyTracker F → LatencyTracker F
  record_latency ms lt =
      let smoothed = fl.add (fl.mul lt.alpha ms) (fl.mul (fl.sub (fl.of_int 1) lt.alpha) lt.avg) in
      record lt { avg = if lt.count == 0 then ms else smoothed; count = lt.count + 1 }

module _ {D F : Type 0} where
  -- The last two checks of `IsAvailable`.
  unfoldable pub has_quota : ℕ → ProviderState D F → ProviderState D F × Bool
  has_quota now ps =
      let (rl, exhausted) = is_exhausted now ps.rate_limit in
      let ps' = record ps { rate_limit = rl } in
      if exhausted then (ps', false) else (ps', ltb ps'.outlier_count 5)

  -- The checks run in this order, and one that fails ends it. The breaker and the rate limit may move
  -- on when they are asked.
  unfoldable pub is_available : Bool → ℕ → ProviderState D F → ProviderState D F × Bool
  unfolding has_quota
  is_available allow_paid now ps =
      if not ps.enabled
      then (ps, false)
      else if not allow_paid && is_paid ps.tier
      then (ps, false)
      else let (cb, allowed) = allow_request now ps.circuit_breaker in
        let ps' = record ps { circuit_breaker = cb } in
        if not allowed then (ps', false) else has_quota now ps'

module _ {D F : Type 0} ⦃fl : Float F⦄ where
  unfoldable pub record_accurate : ProviderState D F → ProviderState D F
  record_accurate ps =
      let total = ps.total_responses + 1 in
      let accurate = ps.accurate_count + 1 in
      record ps {
        total_responses = total;
        accurate_count = accurate;
        outlier_count = 0;
        accuracy_score = fl.div (fl.of_int accurate) (fl.of_int total);
      }

  unfoldable pub record_outlier : ProviderState D F → ProviderState D F
  record_outlier ps =
      let total = ps.total_responses + 1 in
      record ps {
        total_responses = total;
        outlier_count = ps.outlier_count + 1;
        accuracy_score = fl.div (fl.of_int ps.accurate_count) (fl.of_int total);
      }

module _ {D F : Type 0} ⦃fl : Float F⦄ ⦃cv : Conversion D F⦄ where
  unfoldable pub snapshot : ℕ → ProviderState D F → ProviderState D F × ProviderSnapshot F
  snapshot now ps =
      let (rl, ratio) = remaining_ratio now ps.rate_limit in
      (
        record ps { rate_limit = rl },
        record {
          accuracy_score = ps.accuracy_score;
          total_responses = ps.total_responses;
          avg_latency_ms = ps.avg_latency.avg;
          remaining_ratio = ratio;
          cost_per_call = cv.to_float ps.cost_per_call;
        },
      )
