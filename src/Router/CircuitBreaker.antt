-- ===== src/Router/CircuitBreaker.antt =====
-- internal/router/circuitbreaker.go. A method takes the time at which it runs, and returns the new
-- breaker.
pub mod History
use crypto_price_aggregator.Base.{ℕ, ◌+◌, Bool, true, false, ◌&&◌, ◌||◌, leb, if◌then◌else◌}
use crypto_price_aggregator.Domain.{since_exceeds}

pub data CbState : Type 0 where
  state_closed state_open state_half_open : CbState

abbrev pub is_half_open : CbState → Bool
is_half_open state_half_open = true
is_half_open _ = false

abbrev pub is_open : CbState → Bool
is_open state_open = true
is_open _ = false

pub record CircuitBreaker : Type 0 where
  pub state : CbState
  pub fail_count : ℕ
  pub failure_threshold : ℕ
  pub recovery_timeout : ℕ
  pub last_fail_at : ℕ

unfoldable pub new_circuit_breaker : ℕ → ℕ → CircuitBreaker
new_circuit_breaker failure_threshold recovery_timeout = record {
  state = state_closed;
  fail_count = 0;
  failure_threshold = failure_threshold;
  recovery_timeout = recovery_timeout;
  last_fail_at = 0;
}

unfoldable pub allow_request : ℕ → CircuitBreaker → CircuitBreaker × Bool
allow_request now cb = elim cb.state [
  | state_closed ↦ (cb, true)
  | state_open ↦
      if since_exceeds now cb.last_fail_at cb.recovery_timeout
      then (record cb { state = state_half_open }, true)
      else (cb, false)
  | state_half_open ↦ (cb, true)
]

unfoldable pub record_success : CircuitBreaker → CircuitBreaker
record_success cb = record cb { fail_count = 0; state = state_closed }

unfoldable pub record_failure : ℕ → CircuitBreaker → CircuitBreaker
record_failure now cb =
    let count = cb.fail_count + 1 in
    record cb {
      fail_count = count;
      last_fail_at = now;
      state =
          if is_half_open cb.state || leb cb.failure_threshold count then state_open else cb.state;
    }

-- `State()`, which may move an open breaker on.
unfoldable pub current_state : ℕ → CircuitBreaker → CircuitBreaker × CbState
current_state now cb =
    if is_open cb.state && since_exceeds now cb.last_fail_at cb.recovery_timeout
    then (record cb { state = state_half_open }, state_half_open)
    else (cb, cb.state)
