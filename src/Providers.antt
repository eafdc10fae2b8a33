-- ===== src/Providers.antt =====
-- internal/adapter/provider/common/base.go: what the exchanges' adapters share. The network's answer to a GET is a
-- parameter: no answer, or a response with its status. Making the request may fail too.
pub mod Adapter
pub mod Reading
pub mod Quotes
pub mod Interface
pub mod Token
use crypto_price_aggregator.Base.{
  ℕ, ◌≡◌, ◌≢◌, refl, ◌⊎◌, inl, inr, Bool, true, false, ◌||◌, not, String, Option, none, some,
  Option-cases, if◌then◌else◌, leb, ◌==◌, arith,
}
use crypto_price_aggregator.Domain.{
  ProviderTier, ProviderStatus, Result, ok, err, Error, message, wrapped, rate_limited,
  provider_down, coin_not_found, unauthorized,
}

pub record BaseProvider : Type 0 where
  pub provider_name : String
  pub tier : ProviderTier
  pub healthy : Bool
  pub last_error : Option Error
  pub last_success_at : ℕ

unfoldable pub new_base_provider : String → ProviderTier → BaseProvider
new_base_provider name tier = record {
  provider_name = name;
  tier = tier;
  healthy = true;
  last_error = none;
  last_success_at = 0;
}

-- The fields that the source leaves out are zero.
unfoldable pub status : BaseProvider → ProviderStatus
status b = record {
  name = b.provider_name;
  healthy = b.healthy;
  remaining_rate = 0;
  reset_at = 0;
  avg_latency = 0;
  tier = b.tier;
  last_error = b.last_error;
  last_success_at = b.last_success_at;
}

unfoldable pub record_good : ℕ → BaseProvider → BaseProvider
record_good now b = record b { healthy = true; last_error = none; last_success_at = now }

unfoldable pub record_error : Error → BaseProvider → BaseProvider
record_error e b = record b { healthy = false; last_error = some e }

-- The error of a response's status, if it is one; the number in the last text is left out.
unfoldable pub status_error : ℕ → Option Error
status_error code =
    if code == 429
    then some rate_limited
    else if code == 401 || code == 403
    then some unauthorized
    else if code == 404
    then some coin_not_found
    else if leb 500 code
    then some provider_down
    else if not (code == 200)
    then some (message "unexpected status")
    else none

-- `made` is the error of making the request, and `answer` the client's.
unfoldable pub do_request : Option Error → Option ℕ → BaseProvider → BaseProvider × Result ℕ
unfolding record_error status_error
do_request (some e) answer b = (b, err (wrapped "creating request" e))
do_request none none b = (record_error provider_down b, err provider_down)
do_request none (some code) b = elim (status_error code) [
  | some e ↦ (record_error e b, err e)
  | none ↦ (b, ok code)
]

-- A request that was sent gives a response exactly if its status is 200, and then changes nothing. In any
-- other case its error is what the provider's status shows from then on, as unhealthy, with the time of
-- the last success kept.
pub status-do_request :
    (answer : Option ℕ) (b : BaseProvider)
    → ((answer ≡ some 200) × (do_request none answer b ≡ (b, ok 200)))
      ⊎ ((answer ≢ some 200)
          × (e : Error) × ((do_request none answer b).1 ≡ err e)
          × (status (do_request none answer b).0
              ≡ record (status b) { healthy = false; last_error = some e }))
unfolding do_request status status_error record_error
status-do_request none b = inr (cc, provider_down, refl, refl)
status-do_request (some code) b = elim (Option-cases (status_error code)) [
  | inl n ↦ inl (ground (arith, n), ground (arith, n))
  | inr (e, n) ↦ inr (ground (arith, n), e, ground (arith, n), ground (arith, n))
]
