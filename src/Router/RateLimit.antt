-- ===== src/Router/RateLimit.antt =====
-- internal/router/ratelimit.go. A method takes the time at which it runs, and returns the new tracker.
pub mod Quota
use crypto_price_aggregator.Base.{ℕ, ◌+◌, ◌-◌, Bool, ltb, leb, ◌==◌, if◌then◌else◌}
use crypto_price_aggregator.Domain.Numeric.{Float}

pub record RateLimitTracker : Type 0 where
  pub limit : ℕ
  pub remaining : ℕ
  pub window : ℕ
  pub reset_at : ℕ

unfoldable pub new_rate_limit_tracker : ℕ → ℕ → ℕ → RateLimitTracker
new_rate_limit_tracker now limit window = record {
  limit = limit;
  remaining = limit;
  window = window;
  reset_at = now + window;
}

unfoldable pub check_reset : ℕ → RateLimitTracker → RateLimitTracker
check_reset now r =
    if ltb r.reset_at now then record r { remaining = r.limit; reset_at = now + r.window } else r

unfoldable pub consume : ℕ → RateLimitTracker → RateLimitTracker
unfolding check_reset
consume now r =
    let r' = check_reset now r in
    if ltb 0 r'.remaining then record r' { remaining = r'.remaining - 1 } else r'

unfoldable pub remaining_now : ℕ → RateLimitTracker → RateLimitTracker × ℕ
unfolding check_reset
remaining_now now r = let r' = check_reset now r in (r', r'.remaining)

unfoldable pub is_exhausted : ℕ → RateLimitTracker → RateLimitTracker × Bool
unfolding remaining_now
is_exhausted now r = let (r', left) = remaining_now now r in (r', leb left 0)

unfoldable pub remaining_ratio :
    {F : Type 0} ⦃fl : Float F⦄ → ℕ → RateLimitTracker → RateLimitTracker × F
unfolding check_reset
remaining_ratio ⦃fl⦄ now r =
    let r' = check_reset now r in
    if r'.limit == 0
    then (r', fl.of_int 0)
    else (r', fl.div (fl.of_int r'.remaining) (fl.of_int r'.limit))
