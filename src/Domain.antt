-- ===== src/Domain.antt =====
-- internal/domain/model: prices, providers, alerts and the errors that the components return.
-- Times are nanoseconds since Go's zero time, so that `IsZero` is a test for 0; durations are
-- nanoseconds and not negative.
pub mod Numeric
pub mod Ports
pub mod FixedPoint
use crypto_price_aggregator.Base.{
  ℕ, ◌-◌, ◌≡◌, refl, Bool, List, Option, none, some, String, ltb, ◌==◌, ◌⊎◌, inl, inr,
}

-- errors.go, and the errors that the validator adds. `message` is an error made by `fmt.Errorf`,
-- `wrapped` one that wraps another.
pub data Error : Type 0 where
  rate_limited provider_down coin_not_found unauthorized : Error
  no_healthy_provider budget_exhausted store_unavailable : Error
  invalid_price price_stale price_zero : Error
  message : String → Error
  wrapped : String → Error → Error

pub data Result {ℓ} (A : Type ℓ) : Type ℓ where
  ok : A → Result A
  err : Error → Result A

abbrev pub map_err {ℓ} : {A : Type ℓ} → (Error → Error) → Result A → Result A
map_err f (ok a) = ok a
map_err f (err e) = err (f e)

abbrev pub is_ok {ℓ} : {A : Type ℓ} → Result A → Bool
is_ok (ok a) = Bool.true
is_ok (err e) = Bool.false

pub Result-cases {ℓ} :
    {A : Type ℓ} (r : Result A) → ((a : A) × (r ≡ ok a)) ⊎ ((e : Error) × (r ≡ err e))
Result-cases (ok a) = inl (a, refl)
Result-cases (err e) = inr (e, refl)

pub data ProviderTier : Type 0 where
  tier_free tier_paid : ProviderTier

abbrev pub is_paid : ProviderTier → Bool
is_paid tier_free = Bool.false
is_paid tier_paid = Bool.true

pub record ProviderStatus : Type 0 where
  pub name : String
  pub healthy : Bool
  pub remaining_rate : ℕ
  pub reset_at : ℕ
  pub avg_latency : ℕ
  pub tier : ProviderTier
  pub last_error : Option Error
  pub last_success_at : ℕ

pub record Price (D F : Type 0) : Type 0 where
  pub coin_id : String
  pub currency : String
  pub value : D
  pub provider : String
  pub timestamp : ℕ
  pub received_at : ℕ
  pub market_cap : D
  pub volume_24h : D
  pub change_24h : F

-- `time.Since(t) > d`, for a duration that is not negative.
abbrev pub since_exceeds : ℕ → ℕ → ℕ → Bool
since_exceeds now t d = ltb d (now - t)

unfoldable pub is_stale : {D F : Type 0} → ℕ → Price D F → ℕ → Bool
is_stale now p ttl = since_exceeds now p.received_at ttl

unfoldable pub age : {D F : Type 0} → ℕ → Price D F → ℕ
age now p = now - p.received_at

-- The constants of `AlertCondition`; `other` is any other number of that type.
pub data AlertCondition : Type 0 where
  condition_above condition_below : AlertCondition
  other : ℕ → AlertCondition

unfoldable pub condition_string : AlertCondition → String
condition_string condition_above = "above"
condition_string condition_below = "below"
condition_string (other n) = "unknown"

pub record Alert (D : Type 0) : Type 0 where
  pub id : String
  pub coin_id : String
  pub currency : String
  pub condition : AlertCondition
  pub threshold : D
  pub webhook_url : String
  pub active : Bool
  pub created_at : ℕ
  pub triggered_at : Option ℕ

pub record Ohlc (D : Type 0) : Type 0 where
  pub time : ℕ
  pub «open» : D
  pub high : D
  pub low : D
  pub close : D
