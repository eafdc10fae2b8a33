-- ===== src/Router/Multi/Selection.antt =====
-- internal/router/multi.go: what `MultiRouter.Select` does to the providers, whatever the strategy.
use crypto_price_aggregator.Base.{ℕ, ◌≡◌, sym, ◌∙◌, Bool, true, List, Option, none, some, get_elem?}
use crypto_price_aggregator.Domain.{Result, ok}
use crypto_price_aggregator.Domain.Numeric.{Float, Conversion}
use crypto_price_aggregator.Router.Provider.{ProviderState}
use crypto_price_aggregator.Router.Walk.{
  avail_at, first_available, or_no_healthy, first_available-find_first, find_first-passes,
}
use crypto_price_aggregator.Router.Walk.Touch.{
  touch, touch_at, Same, first_available-Same, first_available_touches,
}
use crypto_price_aggregator.Router.Priority.{select_priority}
use crypto_price_aggregator.Router.RoundRobin.Turns.{select_round_robin-first_available}
use crypto_price_aggregator.Router.Smart.{SmartWeights, scan, select_smart}
use crypto_price_aggregator.Router.Smart.Asked.{scan-touch, scan-available, Same-map-touch, get-map}
use crypto_price_aggregator.Router.Multi.{Strategy, smart, priority, round_robin, run_strategy}

abbrev pub allows_paid : {F : Type 0} → Strategy F → Bool
allows_paid (smart w allow_paid) = allow_paid
allows_paid (priority allow_paid) = allow_paid
allows_paid (round_robin index allow_paid) = allow_paid

ok-or_no_healthy : (o : Option ℕ) (i : ℕ) → or_no_healthy o ≡ ok i → o ≡ some i
ok-or_no_healthy none i e = cc
ok-or_no_healthy (some j) i e = cc

module _ {D F : Type 0} (allow_paid : Bool) (now : ℕ) where
  -- A choice: the providers are as they were but for being asked, and a chosen one was available and
  -- has been asked.
  pub record IsChoice (st st' : List (ProviderState D F)) (found : Result ℕ) : Type 0 where
    pub same : Same allow_paid now st st'
    pub available : (i : ℕ) → found ≡ ok i → avail_at allow_paid now st i ≡ true
    pub touched : (i : ℕ) → found ≡ ok i → get_elem? st' i ≡ touch_at allow_paid now st i

  first_available-IsChoice :
      (order : List ℕ) (st : List (ProviderState D F))
      → let (st', found) = first_available allow_paid now order st in
        IsChoice st st' (or_no_healthy found)
  first_available-IsChoice order st =
      let (st', found) = first_available allow_paid now order st in
      record {
        same = first_available-Same allow_paid now order st;
        available = λ i e.
            find_first-passes _ i order (
              sym (first_available-find_first allow_paid now order st)
              ∙ ok-or_no_healthy found i e);
        touched =
            λ i e. first_available_touches allow_paid now order st i (ok-or_no_healthy found i e);
      }

module _ {D F : Type 0} ⦃fl : Float F⦄ ⦃cv : Conversion D F⦄ (now : ℕ) where
  select_smart-IsChoice :
      (allow_paid : Bool) (w : SmartWeights F) (st : List (ProviderState D F))
      → let (st', found) = select_smart allow_paid w now st in IsChoice allow_paid now st st' found
  unfolding select_smart
  select_smart-IsChoice allow_paid w st =
      let best = (scan allow_paid w now 0 (none, fl.neg_inf) st).1 in
      let asked = scan-touch allow_paid w now 0 (none, fl.neg_inf) st in
      record {
        same = rw asked (Same-map-touch allow_paid now st);
        available = λ i e. scan-available allow_paid w now st i (ok-or_no_healthy best.0 i e);
        touched = λ i e. rw asked (get-map (touch allow_paid now) st i);
      }

  pub run_strategy-IsChoice :
      (s : Strategy F) (st : List (ProviderState D F))
      → let (st', s', found) = run_strategy now s st in IsChoice (allows_paid s) now st st' found
  unfolding run_strategy
  run_strategy-IsChoice (smart w allow_paid) st = select_smart-IsChoice allow_paid w st
  run_strategy-IsChoice (priority allow_paid) st =
      unfold select_priority in first_available-IsChoice allow_paid now _ st
  run_strategy-IsChoice (round_robin index allow_paid) st =
      rw (select_round_robin-first_available allow_paid now index st)
        (first_available-IsChoice allow_paid now _ st)
