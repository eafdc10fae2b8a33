-- ===== src/Router/CircuitBreaker/History.antt =====
-- internal/router/circuitbreaker.go: the breaker against the history of the calls that it has seen.
use Prim.Native.Nat.{max}
use native.Mathlib.Nat.{le_refl}
use crypto_price_aggregator.Base.{
  ℕ, ◌+◌, ◌-◌, ◌≤◌, ◌<◌, ◌≡◌, refl, Bool, true, not, ◌&&◌, List, [], ◌∷◌, leb, arith, ◌↔◌,
}
use crypto_price_aggregator.Router.CircuitBreaker.{
  state_closed, state_open, state_half_open, CircuitBreaker, new_circuit_breaker, allow_request,
  record_success, record_failure, current_state,
}

-- A call of one of the breaker's methods, with its time.
pub data Call : Type 0 where
  success : Call
  failure allowing reading : ℕ → Call

pub step : Call → CircuitBreaker → CircuitBreaker
step success cb = record_success cb
step (failure t) cb = record_failure t cb
step (allowing t) cb = (allow_request t cb).0
step (reading t) cb = (current_state t cb).0

-- A history is a list of calls, newest first.
pub run : CircuitBreaker → List Call → CircuitBreaker
run cb [] = cb
run cb (c ∷ h) = step c (run cb h)

abbrev pub failures_since_success : List Call → ℕ
failures_since_success [] = 0
failures_since_success (success ∷ h) = 0
failures_since_success (failure t ∷ h) = failures_since_success h + 1
failures_since_success (allowing t ∷ h) = failures_since_success h
failures_since_success (reading t ∷ h) = failures_since_success h

abbrev pub last_failure : List Call → ℕ
last_failure [] = 0
last_failure (success ∷ h) = last_failure h
last_failure (failure t ∷ h) = t
last_failure (allowing t ∷ h) = last_failure h
last_failure (reading t ∷ h) = last_failure h

-- The clock does not go back: no time of the history is after `now`, nor after a newer one.
abbrev pub IsTimed : ℕ → List Call → Type 0
IsTimed now [] = Unit {0}
IsTimed now (success ∷ h) = IsTimed now h
IsTimed now (failure t ∷ h) = (t ≤ now) × IsTimed t h
IsTimed now (allowing t ∷ h) = (t ≤ now) × IsTimed t h
IsTimed now (reading t ∷ h) = (t ≤ now) × IsTimed t h

-- Enough failures in a row, and the last of them not longer ago than the timeout.
pub blocks : ℕ → ℕ → List Call → ℕ → Bool
blocks threshold timeout h now =
    leb (max 1 threshold) (failures_since_success h) && leb (now - last_failure h) timeout

-- The time of a call, for a call that has one.
abbrev IsAt : Call → ℕ → Type 0
IsAt success s = Unit {0}
IsAt (failure t) s = t ≡ s
IsAt (allowing t) s = t ≡ s
IsAt (reading t) s = t ≡ s

record Tracks (threshold timeout now : ℕ) (h : List Call) (cb : CircuitBreaker) : Type 0 where
  count : cb.fail_count ≡ failures_since_success h
  last : cb.last_fail_at ≡ last_failure h
  same_threshold : cb.failure_threshold ≡ threshold
  same_timeout : cb.recovery_timeout ≡ timeout
  closed_below : cb.state ≡ state_closed → cb.fail_count < max 1 threshold
  open_above : cb.state ≡ state_open → max 1 threshold ≤ cb.fail_count
  half_above : cb.state ≡ state_half_open → max 1 threshold ≤ cb.fail_count
  half_late : cb.state ≡ state_half_open → timeout < now - cb.last_fail_at

-- A call at time `s`, seen from a later time.
step-Tracks :
    (th to s now : ℕ) (c : Call) (h : List Call) (cb : CircuitBreaker)
    → Tracks th to s h cb
    → s ≤ now
    → IsAt c s
    → Tracks th to now (c ∷ h) (step c cb)
unfolding step allow_request record_success record_failure current_state
step-Tracks th to s now success h cb k le e = ground arith
step-Tracks th to s now (failure t) h cb k le e = ground arith
step-Tracks th to s now (allowing t) h cb k le e = ground arith
step-Tracks th to s now (reading t) h cb k le e = ground arith

run-Tracks :
    (th to now : ℕ) (h : List Call)
    → IsTimed now h
    → Tracks th to now h (run (new_circuit_breaker th to) h)
unfolding run new_circuit_breaker
run-Tracks th to now [] t = ground arith
run-Tracks th to now (success ∷ h) t =
    step-Tracks th to now now success h _ (run-Tracks th to now h t) (le_refl now) tt
run-Tracks th to now (failure s ∷ h) t =
    step-Tracks th to s now (failure s) h _ (run-Tracks th to s h t.1) t.0 refl
run-Tracks th to now (allowing s ∷ h) t =
    step-Tracks th to s now (allowing s) h _ (run-Tracks th to s h t.1) t.0 refl
run-Tracks th to now (reading s ∷ h) t =
    step-Tracks th to s now (reading s) h _ (run-Tracks th to s h t.1) t.0 refl

allow_request-Tracks :
    (th to now : ℕ) (h : List Call) (cb : CircuitBreaker)
    → Tracks th to now h cb
    → (allow_request now cb).1 ≡ not (blocks th to h now)
unfolding allow_request blocks
allow_request-Tracks th to now h cb k = ground arith

-- A new breaker that has seen the calls of a history, made at times that do not go back, allows a
-- request exactly when not both hold: there were at least `max 1 threshold` failures since the last
-- success, and the last failure is at most the recovery timeout ago.
pub allow_request-blocks :
    (threshold timeout now : ℕ) (h : List Call)
    → IsTimed now h
    → (allow_request now (run (new_circuit_breaker threshold timeout) h)).1
      ≡ not (blocks threshold timeout h now)
allow_request-blocks th to now h t = allow_request-Tracks th to now h _ (run-Tracks th to now h t)

state-Tracks :
    (th to now : ℕ) (h : List Call) (cb : CircuitBreaker)
    → Tracks th to now h cb
    → ((current_state now cb).1 ≡ state_open) ↔ (blocks th to h now ≡ true)
unfolding current_state blocks
state-Tracks th to now h cb k = ground arith

-- So `State()` reports an open breaker exactly when such a history blocks.
pub current_state-blocks :
    (threshold timeout now : ℕ) (h : List Call)
    → IsTimed now h
    → ((current_state now (run (new_circuit_breaker threshold timeout) h)).1 ≡ state_open)
      ↔ (blocks threshold timeout h now ≡ true)
current_state-blocks th to now h t = state-Tracks th to now h _ (run-Tracks th to now h t)

-- A call that is followed by `record_success` and then one `record_failure` leaves the breaker
-- closed with one failure, if its threshold is at least 2, however many failures came before.
pub success_then_failure :
    (t : ℕ) (cb : CircuitBreaker)
    → 2 ≤ cb.failure_threshold
    → (record_failure t (record_success cb)).state ≡ state_closed
unfolding record_failure record_success
success_then_failure t cb h = ground arith
