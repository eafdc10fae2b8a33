-- ===== src/Router/RateLimit/Quota.antt =====
-- internal/router/ratelimit.go: how many requests a tracker admits. A router asks `IsExhausted` and then consumes.
use Prim.Native.Nat.{min}
use native.Mathlib.Decide.{dec_lt}
use crypto_price_aggregator.Base.{
  ℕ, ◌+◌, ◌*◌, ◌≤◌, ◌<◌, ◌≡◌, Bool, true, false, List, [], ◌∷◌, if◌then◌else◌, arith, All, length,
}
use crypto_price_aggregator.Router.RateLimit.{RateLimitTracker, consume, is_exhausted}

-- One request: the state after it, and whether it was admitted.
pub admit : ℕ → RateLimitTracker → RateLimitTracker × Bool
admit now r =
    let (r', exhausted) = is_exhausted now r in
    if exhausted then (r', false) else (consume now r', true)

-- How many requests at these times, in this order, are admitted.
pub admitted : RateLimitTracker → List ℕ → ℕ
admitted r [] = 0
admitted r (t ∷ ts) =
    let (r', done) = admit t r in if done then admitted r' ts + 1 else admitted r' ts

abbrev pub IsValid : RateLimitTracker → Type 0
IsValid r = r.remaining ≤ r.limit

-- One request before the reset time.
admit_early :
    (t : ℕ) (r : RateLimitTracker)
    → t ≤ r.reset_at
    → ((admit t r).0.reset_at ≡ r.reset_at)
      × ((if (admit t r).1 then 1 else 0) + (admit t r).0.remaining ≡ r.remaining)
      × ((admit t r).0.limit ≡ r.limit)
      × ((admit t r).0.window ≡ r.window)
unfolding admit is_exhausted consume
admit_early t r h = ground arith

-- One request after it.
admit_late :
    (t : ℕ) (r : RateLimitTracker)
    → r.reset_at < t
    → ((admit t r).0.reset_at ≡ t + r.window)
      × ((if (admit t r).1 then 1 else 0) + (admit t r).0.remaining ≡ r.limit)
      × ((admit t r).0.limit ≡ r.limit)
      × ((admit t r).0.window ≡ r.window)
unfolding admit is_exhausted consume
admit_late t r h = ground arith

All-below : (a b : ℕ) (ts : List ℕ) → a ≤ b → All (λ t. t ≤ a) ts → All (λ t. t ≤ b) ts
All-below a b [] h p = tt
All-below a b (t ∷ ts) h p = (omega arith, All-below a b ts h p.1)

admitted_step :
    (r : RateLimitTracker) (t : ℕ) (ts : List ℕ)
    → admitted r (t ∷ ts) ≡ (if (admit t r).1 then 1 else 0) + admitted (admit t r).0 ts
unfolding admitted
admitted_step r t ts = ground arith

-- Before its reset time a tracker admits no more than it has left.
admitted-le-remaining :
    (r : RateLimitTracker) (ts : List ℕ)
    → All (λ t. t ≤ r.reset_at) ts
    → admitted r ts ≤ r.remaining
admitted-le-remaining r [] h = unfold admitted in omega arith
admitted-le-remaining r (t ∷ ts) h =
    let e = admit_early t r h.0 in
    omega (
      arith,
      e,
      admitted_step r t ts,
      admitted-le-remaining (admit t r).0 ts (All-below _ _ ts (omega arith) h.1),
    )

admitted-le :
    (r : RateLimitTracker) (from : ℕ) (ts : List ℕ)
    → All (λ t. from ≤ t) ts
    → All (λ t. t ≤ from + r.window) ts
    → admitted r ts ≤ r.remaining + r.limit
admitted-le r from [] lo hi = unfold admitted in omega arith
admitted-le r from (t ∷ ts) lo hi = elim (dec_lt r.reset_at t) [
  | yes late ↦
      let e = admit_late t r late in
      omega (
        arith,
        e,
        admitted_step r t ts,
        admitted-le-remaining (admit t r).0 ts (All-below _ _ ts (omega arith) hi.1),
      )
  | no early ↦
      let e = admit_early t r (omega arith) in
      omega (
        arith,
        e,
        admitted_step r t ts,
        admitted-le (admit t r).0 from ts lo.1 (All-below _ _ ts (omega arith) hi.1),
      )
]

-- Requests whose times all lie in one interval of the window's length, in any order: at most twice
-- the limit are admitted, wherever the tracker's own windows begin, if its remaining count is at most
-- the limit.
pub admitted-le-double :
    (r : RateLimitTracker) (from : ℕ) (ts : List ℕ)
    → IsValid r
    → All (λ t. from ≤ t) ts
    → All (λ t. t ≤ from + r.window) ts
    → admitted r ts ≤ 2 * r.limit
admitted-le-double r from ts v lo hi = omega (arith, admitted-le r from ts lo hi)

admit_refuses :
    (t : ℕ) (r : RateLimitTracker) → t ≤ r.reset_at → 0 < r.remaining → (admit t r).1 ≡ true
unfolding admit is_exhausted
admit_refuses t r h k = ground arith

-- Up to its reset time a tracker admits exactly as many requests as it has left, or all of them if
-- they are fewer.
pub admitted-eq-min :
    (r : RateLimitTracker) (ts : List ℕ)
    → All (λ t. t ≤ r.reset_at) ts
    → admitted r ts ≡ min (length ts) r.remaining
admitted-eq-min r [] h = unfold admitted in omega arith
admitted-eq-min r (t ∷ ts) h =
    let e = admit_early t r h.0 in
    let rest = admitted-eq-min (admit t r).0 ts (All-below _ _ ts (omega arith) h.1) in
    ground (arith, e, admitted_step r t ts, rest, admit_refuses t r)

-- Both operations of a tracker keep its count within the limit, and so does every request.
pub admit-IsValid : (t : ℕ) (r : RateLimitTracker) → IsValid r → IsValid (admit t r).0
unfolding admit is_exhausted consume
admit-IsValid t r v = ground arith
