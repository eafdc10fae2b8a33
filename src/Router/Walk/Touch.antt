-- ===== src/Router/Walk/Touch.antt =====
-- internal/router/strategy.go: what asking for availability does to the providers.
use mathlib.Core.Option
use native.Mathlib.Decide.{ℕ_discrete}
use crypto_price_aggregator.Base.{
  ℕ, ◌≡◌, refl, ◌∙◌, ap, ◌⊎◌, Bool, List, [], ◌∷◌, Option, some, arith, inl, inr, get_elem?,
  get_elem?-set_self, get_elem?-set_ne, lt-length_of_get, Option-cases, Bool-cases,
}
use crypto_price_aggregator.Router.Provider.{ProviderState, is_available}
use crypto_price_aggregator.Router.Provider.Score.{is_available_twice}
use crypto_price_aggregator.Router.Walk.{visit, first_available}

module _ {D F : Type 0} (allow_paid : Bool) (now : ℕ) where
  -- The provider after it was asked.
  abbrev pub touch : ProviderState D F → ProviderState D F
  touch ps = (is_available allow_paid now ps).0

  abbrev pub touch_at : List (ProviderState D F) → ℕ → Option (ProviderState D F)
  touch_at st i = Option.map touch (get_elem? st i)

  -- Each provider of the second list stands as in the first, or as it does there after being asked.
  abbrev pub Same : List (ProviderState D F) → List (ProviderState D F) → Type 0
  Same st st' = (j : ℕ) → (get_elem? st' j ≡ get_elem? st j) ⊎ (get_elem? st' j ≡ touch_at st j)

  touch_at_touched :
      (st st' : List (ProviderState D F)) (j : ℕ)
      → get_elem? st' j ≡ touch_at st j
      → touch_at st' j ≡ touch_at st j
  touch_at_touched st st' j e = elim (Option-cases (get_elem? st j)) [
    | inl n ↦ ground arith
    | inr (ps, s) ↦ ground (arith, is_available_twice allow_paid now ps)
  ]

  Same-trans : (a b c : List (ProviderState D F)) → Same a b → Same b c → Same a c
  Same-trans a b c h k j = elim (h j) [
    | inl p ↦ elim (k j) [ inl q ↦ inl (q ∙ p) | inr q ↦ inr (q ∙ ap (Option.map touch) p) ]
    | inr p ↦ elim (k j) [ inl q ↦ inr (q ∙ p) | inr q ↦ inr (q ∙ touch_at_touched a b j p) ]
  ]

  visit-Same : (i : ℕ) (st : List (ProviderState D F)) → Same st (visit allow_paid now i st).0
  unfolding visit
  visit-Same i st j = elim (Option-cases (get_elem? st i)) [
    | inl e ↦ inl (ground arith)
    | inr (ps, e) ↦
        let ps' = (is_available allow_paid now ps).0 in
        elim (ℕ_discrete i j) [
          | yes same ↦
              let h = get_elem?-set_self st i ps' (lt-length_of_get st i ps e) in
              inr (ground (arith, e, h))
          | no other ↦ let h = get_elem?-set_ne st ps' other in inl (ground (arith, e, h))
        ]
  ]

  visit_touches :
      (i : ℕ) (st : List (ProviderState D F))
      → get_elem? (visit allow_paid now i st).0 i ≡ touch_at st i
  unfolding visit
  visit_touches i st = elim (Option-cases (get_elem? st i)) [
    | inl e ↦ ground arith
    | inr (ps, e) ↦
        let ps' = (is_available allow_paid now ps).0 in
        let h = get_elem?-set_self st i ps' (lt-length_of_get st i ps e) in ground (arith, e, h)
  ]

  touch_at-visit :
      (k i : ℕ) (st : List (ProviderState D F))
      → touch_at (visit allow_paid now k st).0 i ≡ touch_at st i
  touch_at-visit k i st = elim (visit-Same k st i) [
    | inl e ↦ ap (Option.map touch) e
    | inr e ↦ touch_at_touched st _ i e
  ]

  pub first_available-Same :
      (order : List ℕ) (st : List (ProviderState D F))
      → Same st (first_available allow_paid now order st).0
  unfolding first_available
  first_available-Same [] st = λ j. inl refl
  first_available-Same (i ∷ is) st =
      let st' = (visit allow_paid now i st).0 in
      elim (Bool-cases (visit allow_paid now i st).1) [
        | inl e ↦ rw (e, first_available) (visit-Same i st)
        | inr e ↦
            rw (e, first_available)
              (Same-trans st st' _ (visit-Same i st) (first_available-Same is st'))
      ]

  -- The provider that the walk picks stands as it was left when asked.
  pub first_available_touches :
      (order : List ℕ) (st : List (ProviderState D F)) (i : ℕ)
      → (first_available allow_paid now order st).1 ≡ some i
      → get_elem? (first_available allow_paid now order st).0 i ≡ touch_at st i
  unfolding first_available
  first_available_touches [] st i e = cc
  first_available_touches (k ∷ is) st i e =
      let st' = (visit allow_paid now k st).0 in
      elim (Bool-cases (visit allow_paid now k st).1) [
        | inl t ↦ ground (arith, t, visit_touches k st)
        | inr f ↦ ground (arith, f, first_available_touches is st' i, touch_at-visit k i st)
      ]
