-- ===== src/Router/Multi/Claim.antt =====
-- internal/router/multi.go: which tokens `Select` takes.
use mathlib.Core.Option
use crypto_price_aggregator.Base.{
  ℕ, ◌+◌, ◌≡◌, ◌≢◌, refl, ap, ◌∙◌, inl, inr, ◌⊎◌, Bool, true, String, List, some, arith, get_elem?,
  Option-cases, get_elem?-set_self, get_elem?-set_ne, lt-length_of_get,
}
use crypto_price_aggregator.Domain.{Result, ok, err}
use crypto_price_aggregator.Domain.Numeric.{Float, Conversion}
use crypto_price_aggregator.Router.RateLimit.{consume, remaining_now, is_exhausted}
use crypto_price_aggregator.Router.Provider.{ProviderState, is_available}
use crypto_price_aggregator.Router.Walk.{avail_at}
use crypto_price_aggregator.Router.Walk.Touch.{touch, touch_at}
use crypto_price_aggregator.Router.Multi.{MultiRouter, run_strategy, claim, select}
use crypto_price_aggregator.Router.Multi.Selection.{allows_paid, IsChoice, run_strategy-IsChoice}

abbrev pub left_now : {D F : Type 0} → ℕ → ProviderState D F → ℕ
left_now now ps = (remaining_now now ps.rate_limit).1

-- The state of the provider that was chosen.
abbrev claimed : {D F : Type 0} → Bool → ℕ → ProviderState D F → ProviderState D F
claimed allow_paid now ps =
    let ps' = touch allow_paid now ps in record ps' { rate_limit = consume now ps'.rate_limit }

claimed-left :
    {D F : Type 0} (allow_paid : Bool) (now : ℕ) (ps : ProviderState D F)
    → (is_available allow_paid now ps).1 ≡ true
    → left_now now (claimed allow_paid now ps) + 1 ≡ left_now now ps
unfolding is_available is_exhausted consume remaining_now
claimed-left allow_paid now ps h = ground arith

is_available-provider :
    {D F : Type 0} (allow_paid : Bool) (now : ℕ) (ps : ProviderState D F)
    → (is_available allow_paid now ps).0.provider ≡ ps.provider
unfolding is_available
is_available-provider allow_paid now ps = ground arith

-- What a call that gives a provider has done: `i` is its position, and `ps` what it was before.
pub record IsClaim {D F : Type 0} (allow_paid : Bool) (now : ℕ) (st st' : List (ProviderState D F))
    (name : String) : Type 0 where
  pub i : ℕ
  pub before : ProviderState D F
  pub after : ProviderState D F
  pub stood : get_elem? st i ≡ some before
  pub available : (is_available allow_paid now before).1 ≡ true
  pub named : name ≡ before.provider
  pub stands : get_elem? st' i ≡ some after
  pub paid : left_now now after + 1 ≡ left_now now before
  pub others :
      (j : ℕ)
      → i ≢ j
      → (get_elem? st' j ≡ get_elem? st j) ⊎ (get_elem? st' j ≡ touch_at allow_paid now st j)

module _ {D F : Type 0} (allow_paid : Bool) (now : ℕ) where
  available_stands :
      (st : List (ProviderState D F)) (i : ℕ)
      → avail_at allow_paid now st i ≡ true
      → (ps : ProviderState D F) × (get_elem? st i ≡ some ps)
        × ((is_available allow_paid now ps).1 ≡ true)
  available_stands st i h = elim (Option-cases (get_elem? st i)) [
    | inl e ↦ ground arith
    | inr (ps, e) ↦ (ps, e, ground arith)
  ]

  claim-IsClaim :
      (st : List (ProviderState D F)) (r : MultiRouter D F) (found : Result ℕ) (name : String)
      → IsChoice allow_paid now st r.ordered found
      → (claim now r found).1 ≡ ok name
      → IsClaim allow_paid now st (claim now r found).0.ordered name
  unfolding claim
  claim-IsClaim st r (err e) name c h = cc
  claim-IsClaim st r (ok i) name c h =
      let (ps, stood, available) = available_stands st i (c.available i refl) in
      let stands : get_elem? r.ordered i ≡ some (touch allow_paid now ps) =
        c.touched i refl ∙ ap (Option.map (touch allow_paid now)) stood in
      let new = claimed allow_paid now ps in
      let bound = lt-length_of_get r.ordered i (touch allow_paid now ps) stands in
      let name_of : name ≡ ps.provider =
        ground (arith, stands, h, is_available-provider allow_paid now ps) in
      record {
        i = i;
        before = ps;
        after = new;
        stood = stood;
        available = available;
        named = name_of;
        stands = rw (stands, claim) (get_elem?-set_self r.ordered i new bound);
        paid = claimed-left allow_paid now ps available;
        others = λ j ne.
            let kept : get_elem? (claim now r (ok i)).0.ordered j ≡ get_elem? r.ordered j =
              rw (stands, claim) (get_elem?-set_ne r.ordered new ne) in
            rw kept (c.same j);
      }

module _ {D F : Type 0} ⦃fl : Float F⦄ ⦃cv : Conversion D F⦄ (now : ℕ) (r : MultiRouter D F) where
  -- When `Select` gives a provider, under any strategy, there is a position in the router whose
  -- provider bears that name and was available at the time of the call; that provider has exactly one
  -- request less in its window than before, and every other provider is as it was, but for having
  -- been asked whether it is available.
  pub select-IsClaim :
      (name : String)
      → (select now r).1 ≡ ok name
      → IsClaim (allows_paid r.strategy) now r.ordered (select now r).0.ordered name
  unfolding select
  select-IsClaim name h =
      let (st', s', found) = run_strategy now r.strategy r.ordered in
      claim-IsClaim (allows_paid r.strategy) now r.ordered
        (record r { strategy = s'; ordered = st' }) found name
        (run_strategy-IsChoice now r.strategy r.ordered) h
