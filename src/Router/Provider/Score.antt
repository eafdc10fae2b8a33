-- ===== src/Router/Provider/Score.antt =====
-- internal/router/strategy.go: when a provider is available.
use crypto_price_aggregator.Base.{ℕ, ◌<◌, ◌≡◌, ◌↔◌, ◌⊎◌, Bool, true, false, arith}
use crypto_price_aggregator.Domain.{is_paid}
use crypto_price_aggregator.Router.CircuitBreaker.{allow_request}
use crypto_price_aggregator.Router.RateLimit.{remaining_now, is_exhausted}
use crypto_price_aggregator.Router.Provider.{ProviderState, is_available}

module _ {D F : Type 0} where
  -- A provider is available exactly when it is enabled, is not a paid one that may not be used, its
  -- breaker allows a request, it has a request left in the window, and fewer than five outliers in a
  -- row are on record.
  pub is_available_iff :
      (allow_paid : Bool) (now : ℕ) (ps : ProviderState D F)
      → ((is_available allow_paid now ps).1 ≡ true) ↔ (
          (ps.enabled ≡ true)
          × ((allow_paid ≡ true) ⊎ (is_paid ps.tier ≡ false))
          × ((allow_request now ps.circuit_breaker).1 ≡ true)
          × (0 < (remaining_now now ps.rate_limit).1)
          × (ps.outlier_count < 5))
  unfolding is_available is_exhausted
  is_available_iff allow_paid now ps = ground arith

  -- Asking twice at one time gives the same answer, and changes nothing more.
  pub is_available_twice :
      (allow_paid : Bool) (now : ℕ) (ps : ProviderState D F)
      → is_available allow_paid now (is_available allow_paid now ps).0
        ≡ is_available allow_paid now ps
  unfolding is_available is_exhausted allow_request
  is_available_twice allow_paid now ps = ground arith
