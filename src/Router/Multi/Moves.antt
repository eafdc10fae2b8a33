-- ===== src/Router/Multi/Moves.antt =====
-- internal/router/multi.go: what one call of the router does to the rate tracker of one provider.
use mathlib.Core.Option
use mathlib.Core.Option.{some-injective}
use native.Mathlib.Decide.{ℕ_discrete}
use crypto_price_aggregator.Base.{
  ℕ, ◌+◌, ◌<◌, ◌≤◌, ◌≡◌, ◌≢◌, refl, sym, ap, ◌∙◌, ◌⊎◌, inl, inr, Bool, true, String, List, Option,
  none, some, arith, get_elem?, Option-cases, get_elem?-set_self, get_elem?-set_ne,
  lt-length_of_get, if◌then◌else◌, leb, ◌==◌,
}
use crypto_price_aggregator.Base.Dict.{lookup}
use crypto_price_aggregator.Domain.{Result, ok, err}
use crypto_price_aggregator.Router.RateLimit.{RateLimitTracker, check_reset, consume, is_exhausted}
use crypto_price_aggregator.Router.Provider.{ProviderState, is_available}
use crypto_price_aggregator.Router.Walk.Touch.{touch, Same}
use crypto_price_aggregator.Router.Multi.{MultiRouter, claim, update_provider}
use crypto_price_aggregator.Router.Multi.Selection.{IsChoice}

-- What a call at time `t` does to one tracker, with the number of requests that it takes.
abbrev pub Evolves : ℕ → ℕ → RateLimitTracker → RateLimitTracker → Type 0
Evolves t n rl rl' =
    ((rl' ≡ rl) × (n ≡ 0))
    ⊎ (((rl' ≡ check_reset t rl) × (n ≡ 0))
        ⊎ ((rl' ≡ consume t rl) × (0 < (check_reset t rl).remaining) × (n ≡ 1)))

-- How many requests the tracker may still admit up to the time `until`.
abbrev pub bound : ℕ → RateLimitTracker → ℕ
bound until rl = if leb until rl.reset_at then rl.remaining else rl.remaining + rl.limit

pub Evolves-bound :
    (from t n : ℕ) (rl rl' : RateLimitTracker)
    → from ≤ t
    → t ≤ from + rl.window
    → Evolves t n rl rl'
    → (bound (from + rl.window) rl' + n ≤ bound (from + rl.window) rl) × (rl'.window ≡ rl.window)
unfolding check_reset consume
Evolves-bound from t n rl rl' a b (inl e) = ground arith
Evolves-bound from t n rl rl' a b (inr (inl e)) = ground arith
Evolves-bound from t n rl rl' a b (inr (inr e)) = ground arith

module _ {D F : Type 0} (t : ℕ) where
  touch-Evolves :
      (allow_paid : Bool) (ps : ProviderState D F)
      → Evolves t 0 ps.rate_limit (touch allow_paid t ps).rate_limit
  unfolding is_available is_exhausted
  touch-Evolves allow_paid ps = ground arith

  claimed-Evolves :
      (allow_paid : Bool) (ps : ProviderState D F)
      → (is_available allow_paid t ps).1 ≡ true
      → Evolves t 1 ps.rate_limit (consume t (touch allow_paid t ps).rate_limit)
  unfolding is_available is_exhausted consume
  claimed-Evolves allow_paid ps h = inr (inr (ground arith, ground arith, refl))

abbrev pub given_to : Result ℕ → ℕ → ℕ
given_to (err e) k = 0
given_to (ok i) k = if i == k then 1 else 0

-- The provider at a position after a change, and what the change did to its tracker.
abbrev pub Moved : {D F : Type 0} → ℕ → ℕ → ProviderState D F → Option (ProviderState D F) → Type 0
Moved {D} {F} t n ps new =
    (ps' : ProviderState D F) × (new ≡ some ps') × Evolves t n ps.rate_limit ps'.rate_limit

module _ {D F : Type 0} (t k : ℕ) (ps : ProviderState D F) where
  Same-Moved :
      (allow_paid : Bool) (st st' : List (ProviderState D F))
      → Same allow_paid t st st'
      → get_elem? st k ≡ some ps
      → Moved t 0 ps (get_elem? st' k)
  Same-Moved allow_paid st st' s e = elim (s k) [
    | inl p ↦ (ps, p ∙ e, inl (refl, refl))
    | inr p ↦ (
      touch allow_paid t ps,
      p ∙ ap (Option.map (touch allow_paid t)) e,
      touch-Evolves t allow_paid ps,
    )
  ]

  pub claim-Moved :
      (allow_paid : Bool) (st : List (ProviderState D F)) (r : MultiRouter D F) (found : Result ℕ)
      → IsChoice allow_paid t st r.ordered found
      → get_elem? st k ≡ some ps
      → Moved t (given_to found k) ps (get_elem? (claim t r found).0.ordered k)
  unfolding claim
  claim-Moved allow_paid st r (err x) c e = Same-Moved allow_paid st r.ordered c.same e
  claim-Moved allow_paid st r (ok i) c e = elim (Option-cases (get_elem? r.ordered i)) [
    | inl gone ↦ absurd (no_gap gone)
    | inr (qs, stands) ↦ elim (ℕ_discrete i k) [
      | yes same ↦ here qs stands same
      | no other ↦ there qs stands other
    ]
  ]
    where
      no_gap : get_elem? r.ordered i ≡ none → ⊥
      no_gap gone = elim (Option-cases (get_elem? st i)) [
        | inl n ↦ ground (arith, n, c.available i refl)
        | inr (ps', s) ↦ ground (arith, s, c.touched i refl)
      ]

      here :
          (qs : ProviderState D F)
          → get_elem? r.ordered i ≡ some qs
          → i ≡ k
          → Moved t (given_to (ok i) k) ps (get_elem? (claim t r (ok i)).0.ordered k)
      here qs stands same =
          let bound' = lt-length_of_get r.ordered i qs stands in
          let new : ProviderState D F = record qs { rate_limit = consume t qs.rate_limit } in
          let was : get_elem? st i ≡ some ps = ap (get_elem? st) same ∙ e in
          let asked : qs ≡ touch allow_paid t ps =
            some-injective _ _
              (sym stands ∙ c.touched i refl ∙ ap (Option.map (touch allow_paid t)) was) in
          let free : (is_available allow_paid t ps).1 ≡ true =
            ground (arith, was, c.available i refl) in
          let one : given_to (ok i) k ≡ 1 = ground arith in
          let stands' : get_elem? (claim t r (ok i)).0.ordered i ≡ some new =
            rw (stands, claim) (get_elem?-set_self r.ordered i new bound') in
          (
            new,
            ap (get_elem? (claim t r (ok i)).0.ordered) (sym same) ∙ stands',
            rw (one, asked) (claimed-Evolves t allow_paid ps free),
          )

      there :
          (qs : ProviderState D F)
          → get_elem? r.ordered i ≡ some qs
          → i ≢ k
          → Moved t (given_to (ok i) k) ps (get_elem? (claim t r (ok i)).0.ordered k)
      there qs stands other =
          let new : ProviderState D F = record qs { rate_limit = consume t qs.rate_limit } in
          let kept : get_elem? (claim t r (ok i)).0.ordered k ≡ get_elem? r.ordered k =
            rw (stands, claim) (get_elem?-set_ne r.ordered new other) in
          let zero_given : given_to (ok i) k ≡ 0 = ground arith in
          rw (zero_given, kept) (Same-Moved allow_paid st r.ordered c.same e)

  pub update_provider-Moved :
      (name : String) (f : ProviderState D F → ProviderState D F) (r : MultiRouter D F)
      → ((q : ProviderState D F) → (f q).rate_limit ≡ q.rate_limit)
      → get_elem? r.ordered k ≡ some ps
      → Moved t 0 ps (get_elem? (update_provider name f r).ordered k)
  unfolding update_provider
  update_provider-Moved name f r keeps e = elim (Option-cases (lookup name r.providers)) [
    | inl n ↦ rw (n, update_provider) (ps, e, inl (refl, refl))
    | inr (i, n) ↦
        rw (n, update_provider)
          (elim (Option-cases (get_elem? r.ordered i)) [
            | inl gone ↦ (ps, ground arith, inl (refl, refl))
            | inr (qs, stands) ↦ elim (ℕ_discrete i k) [
              | yes same ↦
                  let h =
                    get_elem?-set_self r.ordered i (f qs)
                      (lt-length_of_get r.ordered i qs stands) in
                  (f ps, ground (arith, stands, h), inl (keeps ps, refl))
              | no other ↦ (
                ps,
                ground (arith, stands, get_elem?-set_ne r.ordered (f qs) other),
                inl (refl, refl),
              )
            ]
          ])
  ]
