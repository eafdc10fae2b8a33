-- ===== src/Router/Single.antt =====
-- internal/router/single.go: a router over one provider, which gives up after a run of failures.
use crypto_price_aggregator.Base.{
  ℕ, ◌+◌, ◌≡◌, refl, Bool, true, false, String, leb, if◌then◌else◌, arith, List, [], ◌∷◌,
}
use crypto_price_aggregator.Domain.{Result, ok, err, no_healthy_provider}

pub record SingleRouter : Type 0 where
  pub provider : String
  pub fail_count : ℕ
  pub failure_threshold : ℕ

abbrev pub default_failure_threshold : ℕ
default_failure_threshold = 5

unfoldable pub new_single_router : String → SingleRouter
new_single_router provider = record {
  provider = provider;
  fail_count = 0;
  failure_threshold = default_failure_threshold;
}

unfoldable pub select : SingleRouter → Result String
select r = if leb r.failure_threshold r.fail_count then err no_healthy_provider else ok r.provider

unfoldable pub report_success : SingleRouter → SingleRouter
report_success r = record r { fail_count = 0 }

unfoldable pub report_failure : SingleRouter → SingleRouter
report_failure r = record r { fail_count = r.fail_count + 1 }

-- Reports, newest first: `true` for a success.
unfoldable pub run : SingleRouter → List Bool → SingleRouter
run r [] = r
run r (true ∷ h) = report_success (run r h)
run r (false ∷ h) = report_failure (run r h)

abbrev pub failures_since_success : List Bool → ℕ
failures_since_success [] = 0
failures_since_success (true ∷ h) = 0
failures_since_success (false ∷ h) = failures_since_success h + 1

run-count :
    (name : String) (h : List Bool)
    → let r = run (new_single_router name) h in
      (r.fail_count ≡ failures_since_success h) × (r.failure_threshold ≡ 5) × (r.provider ≡ name)
unfolding run report_success report_failure new_single_router
run-count name [] = (refl, refl, refl)
run-count name (true ∷ h) = ground (arith, run-count name h)
run-count name (false ∷ h) = ground (arith, run-count name h)

-- A new single router gives its provider after a history of reports exactly when fewer than five
-- failures came since the last success; else it fails with "no healthy provider".
pub select-run :
    (name : String) (h : List Bool)
    → select (run (new_single_router name) h)
      ≡ (if leb 5 (failures_since_success h) then err no_healthy_provider else ok name)
unfolding select
select-run name h = ground (arith, run-count name h)
