-- ===== src/Router/Smart/Best.antt =====
-- internal/router/smart.go: what the smart strategy picks.
use crypto_price_aggregator.Base.{
  ℕ, zero, suc, ◌+◌, ◌≡◌, refl, sym, ap, ◌∙◌, ◌⊎◌, inl, inr, Bool, true, false, List, [], ◌∷◌,
  Option, none, some, get_elem?, arith, All, map, subst, is_some, Bool-cases, Option-cases,
}
use crypto_price_aggregator.Domain.{Result, ok, err, no_healthy_provider}
use crypto_price_aggregator.Domain.Numeric.{Float, Conversion, FloatLaws}
use crypto_price_aggregator.Router.Provider.{ProviderState}
use crypto_price_aggregator.Router.Walk.{avail_at, or_no_healthy}
use crypto_price_aggregator.Router.Smart.{SmartWeights, rate, better, scan, select_smart}

module _ {F : Type 0} ⦃fl : Float F⦄ where
  -- The loop on scores alone.
  pick : ℕ → Option ℕ × F → List (Option F) → Option ℕ × F
  pick i best [] = best
  pick i best (s ∷ rest) = pick (suc i) (better best i s) rest

  abbrev pub NotAbove : F → Option F → Type 0
  NotAbove v none = Unit {0}
  NotAbove v (some s) = fl.gt s v ≡ false

  -- The best after the loop: as before it, or a score of the list that is above it.
  abbrev Improves : ℕ → Option ℕ × F → List (Option F) → Option ℕ × F → Type 0
  Improves i best xs best' =
      (best' ≡ best)
      ⊎ ((j : ℕ) × (best'.0 ≡ some (i + j))
          × (get_elem? xs j ≡ some (some best'.1))
          × (fl.gt best'.1 best.1 ≡ true))

  module _ (laws : FloatLaws F) where
    open laws use {gt_irrefl, gt_trans}

    shift :
        (i : ℕ) (best b' : Option ℕ × F) (s : Option F) (xs : List (Option F))
        → Improves (suc i) (better best i s) xs b'
        → Improves i best (s ∷ xs) b'
    shift i best b' none xs (inl e) = inl e
    shift i best b' none xs (inr (j, a, b, c)) = inr (suc j, a ∙ ap some (omega arith), b, c)
    shift i best b' (some s) xs h = elim (Bool-cases (fl.gt s best.1)) [
      | inl up ↦ replaced up (rw (up, better) at h)
      | inr stay ↦ kept (rw (stay, better) at h)
    ]
      where
        replaced :
            fl.gt s best.1 ≡ true
            → Improves (suc i) (some i, s) xs b'
            → Improves i best (some s ∷ xs) b'
        replaced up (inl e) =
            inr (0, ap (λ q. q.0) e ∙ ap some (omega arith), ap (λ q. some (some q.1)) (sym e), cc)
        replaced up (inr (j, a, b, c)) =
            inr (suc j, a ∙ ap some (omega arith), b, gt_trans _ _ _ c up)

        kept : Improves (suc i) best xs b' → Improves i best (some s ∷ xs) b'
        kept (inl e) = inl e
        kept (inr (j, a, b, c)) = inr (suc j, a ∙ ap some (omega arith), b, c)

    pick-Improves :
        (i : ℕ) (best : Option ℕ × F) (xs : List (Option F)) → Improves i best xs (pick i best xs)
    unfolding pick
    pick-Improves i best [] = inl refl
    pick-Improves i best (s ∷ xs) = shift i best _ s xs (pick-Improves (suc i) (better best i s) xs)

    -- What is not above one value is not above a higher one.
    not_above :
        (i : ℕ) (best b' : Option ℕ × F) (s : Option F) (xs : List (Option F))
        → Improves (suc i) (better best i s) xs b'
        → NotAbove b'.1 s
    not_above i best b' none xs h = tt
    not_above i best b' (some s) xs h = ground (
      arith,
      gt_irrefl s,
      gt_irrefl b'.1,
      gt_trans b'.1 s b'.1,
      gt_trans s b'.1 s,
      gt_trans s b'.1 best.1,
      gt_trans b'.1 best.1 b'.1,
    )

    pick-NotAbove :
        (i : ℕ) (best : Option ℕ × F) (xs : List (Option F)) → All (NotAbove (pick i best xs).1) xs
    unfolding pick
    pick-NotAbove i best [] = tt
    pick-NotAbove i best (s ∷ xs) =
        let later = pick-Improves (suc i) (better best i s) xs in
        (not_above i best _ s xs later, pick-NotAbove (suc i) (better best i s) xs)

module _ {D F : Type 0} ⦃fl : Float F⦄ ⦃cv : Conversion D F⦄ (allow_paid : Bool)
    (w : SmartWeights F) (now : ℕ) where
  scores : List (ProviderState D F) → List (Option F)
  scores = map (λ ps. (rate allow_paid w now ps).1)

  scan-pick :
      (i : ℕ) (best : Option ℕ × F) (st : List (ProviderState D F))
      → (scan allow_paid w now i best st).1 ≡ pick i best (scores st)
  unfolding scan pick scores
  scan-pick i best [] = refl
  scan-pick i best (ps ∷ st) = scan-pick (suc i) (better best i (rate allow_paid w now ps).1) st

  -- The score of a provider at the time of the call, if it is available.
  abbrev pub score_at : List (ProviderState D F) → ℕ → Option F
  score_at st i = elim (get_elem? st i) [ none ↦ none | some ps ↦ (rate allow_paid w now ps).1 ]

  get-scores :
      (st : List (ProviderState D F)) (i : ℕ) (s : F)
      → get_elem? (scores st) i ≡ some (some s)
      → score_at st i ≡ some s
  unfolding scores
  get-scores [] i s e = cc
  get-scores (ps ∷ st) zero s e = cc
  get-scores (ps ∷ st) (suc i) s e = get-scores st i s e

  score-NotAbove :
      (v : F) (st : List (ProviderState D F)) (i : ℕ)
      → All (NotAbove v) (scores st)
      → NotAbove v (score_at st i)
  unfolding scores
  score-NotAbove v [] i h = tt
  score-NotAbove v (ps ∷ st) zero h = h.0
  score-NotAbove v (ps ∷ st) (suc i) h = score-NotAbove v st i h.1

  -- Only an available provider has a score, and each of them has one.
  pub score_at-avail_at :
      (st : List (ProviderState D F)) (i : ℕ)
      → is_some (score_at st i) ≡ avail_at allow_paid now st i
  unfolding rate
  score_at-avail_at st i = elim (Option-cases (get_elem? st i)) [
    | inl e ↦ ground arith
    | inr (ps, e) ↦ ground arith
  ]

  abbrev pub IsBest : List (ProviderState D F) → Result ℕ → Type 0
  IsBest st (ok i) = (s : F) × (score_at st i ≡ some s) × ((j : ℕ) → NotAbove s (score_at st j))
  IsBest st (err e) = (e ≡ no_healthy_provider) × ((j : ℕ) → NotAbove fl.neg_inf (score_at st j))

  IsBest-found :
      (laws : FloatLaws F) (st : List (ProviderState D F)) (best : Option ℕ × F)
      → Improves 0 (none, fl.neg_inf) (scores st) best
      → All (NotAbove best.1) (scores st)
      → IsBest st (or_no_healthy best.0)
  IsBest-found laws st best (inl e) h = rw (ap (λ q. q.0) e) (
    refl,
    λ j. subst (λ v. NotAbove v (score_at st j)) (ap (λ q. q.1) e) (score-NotAbove best.1 st j h),
  )
  IsBest-found laws st best (inr (i, a, b, c)) h =
      let found : best.0 ≡ some i = a ∙ ap some (omega arith) in
      rw found (best.1, get-scores st i best.1 b, λ j. score-NotAbove best.1 st j h)

  -- The smart strategy picks an available provider whose score no available provider's score is
  -- above; it fails, with "no healthy provider", only if no available provider has a score above
  -- minus infinity. Scores are those of the call's time; the comparison of floats need only be
  -- irreflexive and transitive.
  pub select_smart-IsBest :
      FloatLaws F → (st : List (ProviderState D F)) → IsBest st (select_smart allow_paid w now st).1
  unfolding select_smart
  select_smart-IsBest laws st = rw (scan-pick 0 (none, fl.neg_inf) st) (
      IsBest-found laws st _ (pick-Improves laws 0 (none, fl.neg_inf) (scores st))
        (pick-NotAbove laws 0 (none, fl.neg_inf) (scores st)))
