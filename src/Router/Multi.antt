-- ===== src/Router/Multi.antt =====
-- internal/router/multi.go: the router over all registered providers. `ordered` holds them; the map
-- `providers` holds, for each name, the position of the provider of that name that was registered
-- last, where the source holds a pointer to it.
pub mod Selection
pub mod Claim
pub mod Moves
pub mod Window
use crypto_price_aggregator.Base.{
  ℕ, suc, ◌+◌, ◌*◌, Bool, true, false, String, List, [], ◌∷◌, ◌++◌, Option, none, some, length,
  get_elem?, set, map,
}
use crypto_price_aggregator.Base.Dict.{lookup, insert}
use crypto_price_aggregator.Domain.{
  Result, ok, err, Error, no_healthy_provider, ProviderTier, ProviderStatus,
}
use crypto_price_aggregator.Domain.Numeric.{Float, Conversion}
use crypto_price_aggregator.Router.CircuitBreaker.{
  new_circuit_breaker, record_success, record_failure,
}
use crypto_price_aggregator.Router.RateLimit.{new_rate_limit_tracker, consume, remaining_now}
use crypto_price_aggregator.Router.Provider.{
  ProviderState, new_latency_tracker, record_latency, record_accurate, record_outlier,
}
use crypto_price_aggregator.Router.Priority.{select_priority}
use crypto_price_aggregator.Router.RoundRobin.{select_round_robin}
use crypto_price_aggregator.Router.Smart.{SmartWeights, select_smart}

-- The implementations of the interface `Strategy`, with their fields.
pub data Strategy (F : Type 0) : Type 0 where
  smart : SmartWeights F → Bool → Strategy F
  priority : Bool → Strategy F
  round_robin : ℕ → Bool → Strategy F

pub record ProviderRegistration (D : Type 0) : Type 0 where
  pub provider : String
  pub tier : ProviderTier
  pub priority : ℕ
  pub rate_limit : ℕ
  pub rate_window : ℕ
  pub cb_threshold : ℕ
  pub cb_timeout : ℕ
  pub cost_per_call : D

pub record MultiRouter (D F : Type 0) : Type 0 where
  pub strategy : Strategy F
  pub providers : List (String × ℕ)
  pub ordered : List (ProviderState D F)

module _ {D F : Type 0} ⦃fl : Float F⦄ where
  unfoldable pub new_provider_state : ℕ → ProviderRegistration D → ProviderState D F
  new_provider_state now reg = record {
    provider = reg.provider;
    tier = reg.tier;
    priority = reg.priority;
    rate_limit = new_rate_limit_tracker now reg.rate_limit reg.rate_window;
    circuit_breaker = new_circuit_breaker reg.cb_threshold reg.cb_timeout;
    avg_latency = new_latency_tracker;
    cost_per_call = reg.cost_per_call;
    enabled = true;
    accuracy_score = fl.of_int 0;
    outlier_count = 0;
    total_responses = 0;
    accurate_count = 0;
  }

  -- The loop over the registrations.
  unfoldable pub register : ℕ → List (ProviderRegistration D) → MultiRouter D F → MultiRouter D F
  unfolding new_provider_state
  register now [] r = r
  register now (reg ∷ regs) r = register now regs (record r {
    providers = insert reg.provider (length r.ordered) r.providers;
    ordered = r.ordered ++ new_provider_state now reg ∷ [];
  })

  unfoldable pub new_multi_router : ℕ → Strategy F → List (ProviderRegistration D) → MultiRouter D F
  unfolding register
  new_multi_router now strategy regs =
      register now regs (record { strategy = strategy; providers = []; ordered = [] })

module _ {D F : Type 0} where
  -- `ps.RateLimit.Consume()`, and the provider's name. No strategy gives a position out of range.
  unfoldable pub claim : ℕ → MultiRouter D F → Result ℕ → MultiRouter D F × Result String
  claim now r (err e) = (r, err e)
  claim now r (ok i) = elim (get_elem? r.ordered i) [
    | none ↦ (r, err no_healthy_provider)
    | some ps ↦ (
      record r { ordered = set r.ordered i (record ps { rate_limit = consume now ps.rate_limit }) },
      ok ps.provider,
    )
  ]

module _ {D F : Type 0} ⦃fl : Float F⦄ ⦃cv : Conversion D F⦄ where
  -- `r.strategy.Select(r.ordered)`
  unfoldable pub run_strategy :
      ℕ → Strategy F → List (ProviderState D F) → List (ProviderState D F) × Strategy F × Result ℕ
  run_strategy now (smart w allow_paid) st =
      let (st', found) = select_smart allow_paid w now st in (st', smart w allow_paid, found)
  run_strategy now (priority allow_paid) st =
      let (st', found) = select_priority allow_paid now st in (st', priority allow_paid, found)
  run_strategy now (round_robin index allow_paid) st =
      let (st', index', found) = select_round_robin allow_paid now index st in
      (st', round_robin index' allow_paid, found)

  unfoldable pub select : ℕ → MultiRouter D F → MultiRouter D F × Result String
  unfolding run_strategy claim
  select now r =
      let (st', strategy', found) = run_strategy now r.strategy r.ordered in
      claim now (record r { strategy = strategy'; ordered = st' }) found

module _ {D F : Type 0} where
  -- `ps, ok := r.providers[provider]; if !ok { return }`, and a change of that provider.
  unfoldable pub update_provider :
      String → (ProviderState D F → ProviderState D F) → MultiRouter D F → MultiRouter D F
  update_provider name f r = elim (lookup name r.providers) [
    | none ↦ r
    | some i ↦ elim (get_elem? r.ordered i) [
      | none ↦ r
      | some ps ↦ record r { ordered = set r.ordered i (f ps) }
    ]
  ]

  -- `ps.RateLimit.Remaining()` may begin a new window.
  abbrev pub read_rate : ℕ → ProviderState D F → ProviderState D F
  read_rate now ps = record ps { rate_limit = (remaining_now now ps.rate_limit).0 }

  unfoldable pub report_failure : ℕ → String → Error → MultiRouter D F → MultiRouter D F
  unfolding update_provider
  report_failure now name e =
      update_provider name
        (λ ps. record ps { circuit_breaker = record_failure now ps.circuit_breaker })

module _ {D F : Type 0} ⦃fl : Float F⦄ where
  -- The latency in milliseconds, `latency.Milliseconds()`.
  unfoldable pub report_success : String → ℕ → MultiRouter D F → MultiRouter D F
  unfolding update_provider
  report_success name latency_ms = update_provider name λ ps. record ps {
    circuit_breaker = record_success ps.circuit_breaker;
    avg_latency = record_latency (fl.of_int latency_ms) ps.avg_latency;
  }

  unfoldable pub report_accurate : String → MultiRouter D F → MultiRouter D F
  unfolding update_provider
  report_accurate name = update_provider name record_accurate

  unfoldable pub report_outlier : String → MultiRouter D F → MultiRouter D F
  unfolding update_provider
  report_outlier name = update_provider name record_outlier

  -- One status of `ProviderStatuses`; what `Provider.Status()` says is given.
  unfoldable pub status_of : ℕ → (String → ProviderStatus) → ProviderState D F → ProviderStatus
  status_of now status ps =
      let given = status ps.provider in
      record given {
        remaining_rate = (remaining_now now ps.rate_limit).1;
        avg_latency = fl.to_int ps.avg_latency.avg * 1_000_000;
      }

  unfoldable pub provider_statuses :
      ℕ → (String → ProviderStatus) → MultiRouter D F → MultiRouter D F × List ProviderStatus
  unfolding status_of
  provider_statuses now status r =
      (record r { ordered = map (read_rate now) r.ordered }, map (status_of now status) r.ordered)
