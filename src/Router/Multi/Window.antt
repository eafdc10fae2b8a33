-- ===== src/Router/Multi/Window.antt =====
-- internal/router/multi.go: how often a provider is given out in a window, over any calls of the router.
use crypto_price_aggregator.Base.{
  ℕ, ◌+◌, ◌*◌, ◌≤◌, ◌≡◌, refl, sym, ap, inl, inr, String, List, [], ◌∷◌, some, arith, get_elem?,
  All, subst,
}
use crypto_price_aggregator.Domain.{Error, ProviderStatus}
use crypto_price_aggregator.Domain.Numeric.{Float, Conversion}
use crypto_price_aggregator.Router.RateLimit.{remaining_now}
use crypto_price_aggregator.Router.Provider.{ProviderState, record_accurate, record_outlier}
use crypto_price_aggregator.Router.Smart.Asked.{get-map}
use crypto_price_aggregator.Router.Multi.{
  MultiRouter, run_strategy, select, report_success, report_failure, report_accurate,
  report_outlier, read_rate, provider_statuses,
}
use crypto_price_aggregator.Router.Multi.Selection.{allows_paid, run_strategy-IsChoice}
use crypto_price_aggregator.Router.Multi.Moves.{
  bound, Evolves-bound, given_to, Moved, claim-Moved, update_provider-Moved,
}

-- A method call of the router; a latency is in milliseconds.
pub data Call : Type 0 where
  selecting reading : Call
  succeeded : String → ℕ → Call
  failed : String → Error → Call
  accurate outlying : String → Call

module _ {D F : Type 0} ⦃fl : Float F⦄ ⦃cv : Conversion D F⦄
    (status : String → ProviderStatus) where
  pub step : ℕ → Call → MultiRouter D F → MultiRouter D F
  step t selecting r = (select t r).0
  step t reading r = (provider_statuses t status r).0
  step t (succeeded name ms) r = report_success name ms r
  step t (failed name e) r = report_failure t name e r
  step t (accurate name) r = report_accurate name r
  step t (outlying name) r = report_outlier name r

  -- Whether a call gives out the provider at position `k`.
  pub given : ℕ → ℕ → Call → MultiRouter D F → ℕ
  given k t selecting r = given_to (run_strategy t r.strategy r.ordered).2 k
  given k t _ r = 0

  -- How often calls, in their order, give out that provider.
  pub times_given : ℕ → MultiRouter D F → List (ℕ × Call) → ℕ
  times_given k r [] = 0
  times_given k r ((t, c) ∷ cs) = given k t c r + times_given k (step t c r) cs

  step-Moved :
      (t k : ℕ) (ps : ProviderState D F) (c : Call) (r : MultiRouter D F)
      → get_elem? r.ordered k ≡ some ps
      → Moved t (given k t c r) ps (get_elem? (step t c r).ordered k)
  unfolding step given select report_success report_failure report_accurate report_outlier
      provider_statuses
  step-Moved t k ps selecting r e =
      claim-Moved t k ps (allows_paid r.strategy) r.ordered _ _
        (run_strategy-IsChoice t r.strategy r.ordered) e
  step-Moved t k ps reading r e = (
    read_rate t ps,
    ground (arith, get-map (read_rate t) r.ordered k),
    unfold remaining_now in inr (inl (refl, refl)),
  )
  step-Moved t k ps (succeeded name ms) r e = update_provider-Moved t k ps name _ r (λ q. refl) e
  step-Moved t k ps (failed name x) r e = update_provider-Moved t k ps name _ r (λ q. refl) e
  step-Moved t k ps (accurate name) r e =
      update_provider-Moved t k ps name _ r (λ q. unfold record_accurate in refl) e
  step-Moved t k ps (outlying name) r e =
      update_provider-Moved t k ps name _ r (λ q. unfold record_outlier in refl) e

  given_step :
      (from k t : ℕ) (ps : ProviderState D F) (c : Call) (r : MultiRouter D F)
      → get_elem? r.ordered k ≡ some ps
      → from ≤ t
      → t ≤ from + ps.rate_limit.window
      → (ps' : ProviderState D F) × (get_elem? (step t c r).ordered k ≡ some ps')
        × (bound (from + ps.rate_limit.window) ps'.rate_limit + given k t c r
            ≤ bound (from + ps.rate_limit.window) ps.rate_limit)
        × (ps'.rate_limit.window ≡ ps.rate_limit.window)
  given_step from k t ps c r e a b =
      let (ps', e', ev) = step-Moved t k ps c r e in
      let h = Evolves-bound from t (given k t c r) ps.rate_limit ps'.rate_limit a b ev in
      (ps', e', h.0, h.1)

  times_given-le-bound :
      (from k : ℕ) (ps : ProviderState D F) (r : MultiRouter D F) (cs : List (ℕ × Call))
      → get_elem? r.ordered k ≡ some ps
      → All (λ c. (from ≤ c.0) × (c.0 ≤ from + ps.rate_limit.window)) cs
      → times_given k r cs ≤ bound (from + ps.rate_limit.window) ps.rate_limit
  unfolding times_given
  times_given-le-bound from k ps r [] e h = omega arith
  times_given-le-bound from k ps r ((t, c) ∷ cs) e h =
      let (ps', e', b, w) = given_step from k t ps c r e h.0.0 h.0.1 in
      let rest =
        times_given-le-bound from k ps' (step t c r) cs e'
          (subst (λ (n : ℕ). All (λ d. (from ≤ d.0) × (d.0 ≤ from + n)) cs) (sym w) h.1) in
      let now : bound (from + ps'.rate_limit.window) ps'.rate_limit
          ≡ bound (from + ps.rate_limit.window) ps'.rate_limit =
        ap (λ (n : ℕ). bound (from + n) ps'.rate_limit) w in
      omega (arith, b, rest, now)

  -- Whatever the strategy and the calls in between, requests at times that all lie in one interval of
  -- the length of a provider's rate window are given to that provider at most twice its limit many
  -- times, if its remaining count is at most its limit; wherever its own windows begin.
  pub times_given-le-double :
      (from k : ℕ) (ps : ProviderState D F) (r : MultiRouter D F) (cs : List (ℕ × Call))
      → get_elem? r.ordered k ≡ some ps
      → ps.rate_limit.remaining ≤ ps.rate_limit.limit
      → All (λ c. (from ≤ c.0) × (c.0 ≤ from + ps.rate_limit.window)) cs
      → times_given k r cs ≤ 2 * ps.rate_limit.limit
  times_given-le-double from k ps r cs e v h =
      ground (arith, times_given-le-bound from k ps r cs e h)
