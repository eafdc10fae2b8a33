-- ===== src/Router/Priority/Lowest.antt =====
-- internal/router/priority.go: what the priority strategy picks.
use crypto_price_aggregator.Base.{
  ℕ, ◌≤◌, ◌≡◌, refl, Bool, true, false, List, [], ◌∷◌, Option, none, some, arith, length, All,
  Bool-cases, inl, inr, All-imp, sym,
}
use crypto_price_aggregator.Base.Sort.{
  sort_slice, IsSorted, IsWeakOrder, sort_slice-IsSorted, All-of_sort_slice,
}
use crypto_price_aggregator.Domain.{Result, ok, err, no_healthy_provider}
use crypto_price_aggregator.Router.Provider.{ProviderState}
use crypto_price_aggregator.Router.Walk.{
  avail_at, find_first, positions, or_no_healthy, find_first-passes, find_first-fails,
  All-positions, avail_at-bound, All-unavailable, first_available-find_first,
}
use crypto_price_aggregator.Router.Priority.{priority_at, lower_priority, select_priority}

module _ {D F : Type 0} where
  lower_priority-IsWeakOrder : (st : List (ProviderState D F)) → IsWeakOrder (lower_priority st)
  lower_priority-IsWeakOrder st = record {
    asymmetric = λ a b h. ground arith;
    transitive = λ a b c h k. ground arith;
  }

  -- In an order with no element less than one before it, the first that passes is a least one.
  find_first-least :
      (st : List (ProviderState D F)) (p : ℕ → Bool) (i : ℕ) (xs : List ℕ)
      → IsSorted (lower_priority st) xs
      → find_first p xs ≡ some i
      → All (λ j. p j ≡ true → priority_at st i ≤ priority_at st j) xs
  find_first-least st p i [] s e = tt
  find_first-least st p i (x ∷ xs) s e = elim (Bool-cases (p x)) [
    | inl t ↦
        let same : x ≡ i = ground arith in
        (λ _. ground arith, All-imp _ _ xs (λ j n _. ground arith) s.0)
    | inr f ↦
        let later : find_first p xs ≡ some i = ground arith in
        (λ t. ground arith, find_first-least st p i xs s.1 later)
  ]

module _ {D F : Type 0} (allow_paid : Bool) (now : ℕ) where
  abbrev pub IsLowest : List (ProviderState D F) → Result ℕ → Type 0
  IsLowest st (ok i) =
      (avail_at allow_paid now st i ≡ true)
      × ((j : ℕ) → avail_at allow_paid now st j ≡ true → priority_at st i ≤ priority_at st j)
  IsLowest st (err e) = (e ≡ no_healthy_provider) × ((j : ℕ) → avail_at allow_paid now st j ≡ false)

  IsLowest-found :
      (st : List (ProviderState D F)) (found : Option ℕ)
      → find_first
          (avail_at allow_paid now st)
          (sort_slice (lower_priority st) (positions (length st) 0))
        ≡ found
      → IsLowest st (or_no_healthy found)
  IsLowest-found st none e = (
    refl,
    All-unavailable allow_paid now st
        (All-of_sort_slice (lower_priority st) _ _ (find_first-fails _ _ e)),
  )
  IsLowest-found st (some i) e =
      let least = All-of_sort_slice (lower_priority st) _ _ (
        find_first-least st _ i _
          (sort_slice-IsSorted (lower_priority st) (lower_priority-IsWeakOrder st) _) e) in
      (
        find_first-passes (avail_at allow_paid now st) i
            (sort_slice (lower_priority st) (positions (length st) 0)) e,
        λ j t.
            All-positions
              (λ k. avail_at allow_paid now st k ≡ true → priority_at st i ≤ priority_at st k)
              (length st) 0 j least (omega arith)
              (omega (arith, avail_at-bound allow_paid now st j t)) t,
      )

  -- The priority strategy picks an available provider such that no available one has a lower priority
  -- number, and fails, with "no healthy provider", exactly when none is available. Availability is
  -- that at the time of the call, before it.
  pub select_priority-IsLowest :
      (st : List (ProviderState D F)) → IsLowest st (select_priority allow_paid now st).1
  unfolding select_priority
  select_priority-IsLowest st =
      IsLowest-found st _ (sym (first_available-find_first allow_paid now _ st))
