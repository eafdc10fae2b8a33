-- ===== src/Router/RoundRobin/Turns.antt =====
-- internal/router/roundrobin.go: the search for the next provider, as a walk over positions.
use crypto_price_aggregator.Base.{
  ℕ, zero, suc, ◌+◌, ◌%◌, ◌≡◌, refl, Bool, List, [], ◌∷◌, Option, none, some, length, arith,
  Bool-cases, inl, inr,
}
use crypto_price_aggregator.Router.Provider.{ProviderState}
use crypto_price_aggregator.Router.Walk.{
  visit, first_available, first_available-find_first, avail_at, find_first, or_no_healthy,
}
use crypto_price_aggregator.Router.RoundRobin.{select_from, select_round_robin}

-- The positions of the next `left` rounds.
abbrev pub cyclic : ℕ → ℕ → ℕ → ℕ → List ℕ
cyclic n index zero i = []
cyclic n index (suc left) i = (index + i) % n ∷ cyclic n index left (i + 1)

-- The index for the next search.
abbrev pub next_index : ℕ → ℕ → Option ℕ → ℕ
next_index n index none = index
next_index n index (some i) = (i + 1) % n

module _ {D F : Type 0} (allow_paid : Bool) (now : ℕ) where
  -- The search is a walk in that order.
  select_from-first_available :
      (n index left i : ℕ) (st : List (ProviderState D F))
      → let (st', found) = first_available allow_paid now (cyclic n index left i) st in
        select_from allow_paid now n index left i st
        ≡ (st', next_index n index found, or_no_healthy found)
  unfolding select_from first_available
  select_from-first_available n index zero i st = refl
  select_from-first_available n index (suc left) i st =
      let idx = (index + i) % n in
      let st' = (visit allow_paid now idx st).0 in
      let ih = select_from-first_available n index left (i + 1) st' in
      elim (Bool-cases (visit allow_paid now idx st).1) [ inl e ↦ rw e | inr e ↦ rw e ih ]

  pub select_round_robin-first_available :
      (index : ℕ) (st : List (ProviderState D F))
      → let n = length st in
        let (st', found) = first_available allow_paid now (cyclic n index n 0) st in
        select_round_robin allow_paid now index st
        ≡ (st', next_index n index found, or_no_healthy found)
  unfolding select_round_robin
  select_round_robin-first_available index [] = unfold first_available in refl
  select_round_robin-first_available index (p ∷ ps) =
      let n = length (p ∷ ps) in ground (arith, select_from-first_available n index n 0 (p ∷ ps))

  -- The round-robin strategy picks the first provider, in cyclic order from its index, that is
  -- available at the time of the call, and its next search begins behind that one; if none is
  -- available it fails with "no healthy provider" and its index stays. With no providers at all it
  -- fails too.
  pub select_round_robin-cyclic :
      (index : ℕ) (st : List (ProviderState D F))
      → let n = length st in
        let found = find_first (avail_at allow_paid now st) (cyclic n index n 0) in
        let r = select_round_robin allow_paid now index st in
        (r.1 ≡ next_index n index found) × (r.2 ≡ or_no_healthy found)
  select_round_robin-cyclic index st =
      let n = length st in
      rw (select_round_robin-first_available index st)
        (rw (first_available-find_first allow_paid now (cyclic n index n 0) st) (refl, refl))
