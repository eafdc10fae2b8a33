-- ===== src/Router/Priority.antt =====
-- internal/router/priority.go: the available provider of the lowest priority number.
pub mod Lowest
use native.Mathlib.Decide.{ℕ_discrete}
use crypto_price_aggregator.Base.{
  ℕ, zero, suc, ◌+◌, ◌<◌, ◌≤◌, ◌≡◌, refl, ap, Bool, true, false, List, [], ◌∷◌, Option, none, some,
  arith, ltb, leb, if◌then◌else◌, length, get_elem?, All, Option-cases, Bool-cases, inl, inr,
  All-imp, subst, sym, lt-length_of_get,
}
use crypto_price_aggregator.Base.Sort.{
  sort_slice, IsSorted, IsWeakOrder, sort_slice-IsSorted, All-of_sort_slice,
}
use crypto_price_aggregator.Domain.{Result, ok, err, Error, no_healthy_provider}
use crypto_price_aggregator.Router.Provider.{ProviderState, is_available}
use crypto_price_aggregator.Router.Walk.{
  first_available, positions, or_no_healthy, avail_at, find_first, first_available-find_first,
  avail_at-first_available,
}

module _ {D F : Type 0} where
  abbrev pub priority_at : List (ProviderState D F) → ℕ → ℕ
  priority_at st i = elim (get_elem? st i) [ none ↦ 0 | some ps ↦ ps.priority ]

  abbrev pub lower_priority : List (ProviderState D F) → ℕ → ℕ → Bool
  lower_priority st i j = ltb (priority_at st i) (priority_at st j)

  unfoldable pub select_priority :
      Bool → ℕ → List (ProviderState D F) → List (ProviderState D F) × Result ℕ
  select_priority allow_paid now st =
      let sorted = sort_slice (lower_priority st) (positions (length st) 0) in
      let (st', found) = first_available allow_paid now sorted st in (st', or_no_healthy found)
