-- ===== src/Router/Walk.antt =====
-- The loop that the strategies share (priority.go, roundrobin.go): ask each provider of an order
-- whether it is available, and stop at the first that is. Providers are held by pointers in the
-- source: the model keeps them in one list, and a pointer is a position in it.
pub mod Touch
use native.Mathlib.Decide.{ℕ_discrete}
use crypto_price_aggregator.Base.{
  ℕ, ◌<◌, ◌≡◌, refl, ◌∙◌, inl, inr, Bool, true, false, List, [], ◌∷◌, Option, none, some, arith,
  if◌then◌else◌, length, get_elem?, set, get_elem?-set_self, get_elem?-set_ne, lt-length_of_get,
  Option-cases, Bool-cases, All, subst, ◌+◌, ◌≤◌, zero, suc,
}
use crypto_price_aggregator.Domain.{Result, ok, err, no_healthy_provider}
use crypto_price_aggregator.Router.Provider.{ProviderState, is_available}
use crypto_price_aggregator.Router.Provider.Score.{is_available_twice}

module _ {D F : Type 0} (allow_paid : Bool) (now : ℕ) where
  -- `ps.IsAvailable(allowPaid)` for the provider that a pointer names.
  unfoldable pub visit : ℕ → List (ProviderState D F) → List (ProviderState D F) × Bool
  visit i st = elim (get_elem? st i) [
    | none ↦ (st, false)
    | some ps ↦ (set st i (is_available allow_paid now ps).0, (is_available allow_paid now ps).1)
  ]

  unfoldable pub first_available :
      List ℕ → List (ProviderState D F) → List (ProviderState D F) × Option ℕ
  first_available [] st = (st, none)
  first_available (i ∷ is) st =
      let rest = first_available is (visit i st).0 in
      if (visit i st).1 then ((visit i st).0, some i) else rest

  -- Whether the provider at a position is available, as a question that changes nothing.
  abbrev pub avail_at : List (ProviderState D F) → ℕ → Bool
  avail_at st i = elim (get_elem? st i) [
    | none ↦ false
    | some ps ↦ (is_available allow_paid now ps).1
  ]

  pub avail_at-visit :
      (i j : ℕ) (st : List (ProviderState D F)) → avail_at (visit i st).0 j ≡ avail_at st j
  unfolding visit
  avail_at-visit i j st = elim (Option-cases (get_elem? st i)) [
    | inl e ↦ ground arith
    | inr (ps, e) ↦
        let ps' = (is_available allow_paid now ps).0 in
        elim (ℕ_discrete i j) [
          | yes same ↦
              let h = get_elem?-set_self st i ps' (lt-length_of_get st i ps e) in
              ground (arith, e, h, is_available_twice allow_paid now ps)
          | no other ↦ let h = get_elem?-set_ne st ps' other in ground (arith, e, h)
        ]
  ]

  pub visit-avail_at : (i : ℕ) (st : List (ProviderState D F)) → (visit i st).1 ≡ avail_at st i
  unfolding visit
  visit-avail_at i st = elim (Option-cases (get_elem? st i)) [
    | inl e ↦ ground arith
    | inr (ps, e) ↦ ground arith
  ]

-- The first position of an order that passes a test.
abbrev pub find_first : (ℕ → Bool) → List ℕ → Option ℕ
find_first p [] = none
find_first p (i ∷ is) = if p i then some i else find_first p is

pub find_first_ext :
    (p q : ℕ → Bool) → ((i : ℕ) → p i ≡ q i) → (is : List ℕ) → find_first p is ≡ find_first q is
find_first_ext p q h [] = refl
find_first_ext p q h (i ∷ is) = ground (arith, h i, find_first_ext p q h is)

module _ {D F : Type 0} (allow_paid : Bool) (now : ℕ) where
  -- The walk, which changes providers as it asks, picks the first provider of the order that was
  -- available before it began.
  pub first_available-find_first :
      (order : List ℕ) (st : List (ProviderState D F))
      → (first_available allow_paid now order st).1 ≡ find_first (avail_at allow_paid now st) order
  unfolding first_available
  first_available-find_first [] st = refl
  first_available-find_first (i ∷ is) st =
      let st' = (visit allow_paid now i st).0 in
      let later =
        find_first_ext (avail_at allow_paid now st') (avail_at allow_paid now st)
          (λ j. avail_at-visit allow_paid now i j st) is in
      ground (arith, visit-avail_at allow_paid now i st, first_available-find_first is st', later)

  -- And it changes no provider's availability.
  pub avail_at-first_available :
      (order : List ℕ) (st : List (ProviderState D F)) (j : ℕ)
      → avail_at allow_paid now (first_available allow_paid now order st).0 j
        ≡ avail_at allow_paid now st j
  unfolding first_available
  avail_at-first_available [] st j = refl
  avail_at-first_available (i ∷ is) st j =
      let st' = (visit allow_paid now i st).0 in
      elim (Bool-cases (visit allow_paid now i st).1) [
        | inl e ↦ rw e (avail_at-visit allow_paid now i j st)
        | inr e ↦ rw e (avail_at-first_available is st' j ∙ avail_at-visit allow_paid now i j st)
      ]

-- The positions from `i` on, of so many providers.
abbrev pub positions : ℕ → ℕ → List ℕ
positions zero i = []
positions (suc n) i = i ∷ positions n (suc i)

-- A position, or the error of a strategy that finds none.
abbrev pub or_no_healthy : Option ℕ → Result ℕ
or_no_healthy none = err no_healthy_provider
or_no_healthy (some i) = ok i

pub find_first-passes : (p : ℕ → Bool) (i : ℕ) (xs : List ℕ) → find_first p xs ≡ some i → p i ≡ true
find_first-passes p i [] e = cc
find_first-passes p i (x ∷ xs) e = elim (Bool-cases (p x)) [
  | inl t ↦ let same : x ≡ i = ground arith in ground arith
  | inr f ↦ let later : find_first p xs ≡ some i = ground arith in find_first-passes p i xs later
]

pub find_first-fails :
    (p : ℕ → Bool) (xs : List ℕ) → find_first p xs ≡ none → All (λ j. p j ≡ false) xs
find_first-fails p [] e = tt
find_first-fails p (x ∷ xs) e = elim (Bool-cases (p x)) [
  | inl t ↦ ground arith
  | inr f ↦ let later : find_first p xs ≡ none = ground arith in (f, find_first-fails p xs later)
]

pub All-positions : (P : ℕ → Type 0) (n i j : ℕ) → All P (positions n i) → i ≤ j → j < i + n → P j
All-positions P zero i j h a b = absurd (omega arith)
All-positions P (suc n) i j h a b = elim (ℕ_discrete i j) [
  | yes e ↦ subst P e h.0
  | no ne ↦ All-positions P n (suc i) j h.1 (omega arith) (omega arith)
]

module _ {D F : Type 0} (allow_paid : Bool) (now : ℕ) where
  pub avail_at-bound :
      (st : List (ProviderState D F)) (j : ℕ) → avail_at allow_paid now st j ≡ true → j < length st
  avail_at-bound st j h = elim (Option-cases (get_elem? st j)) [
    | inl e ↦ ground arith
    | inr (ps, e) ↦ lt-length_of_get st j ps e
  ]

  -- What a test of availability says of every provider, it says of every position.
  pub All-unavailable :
      (st : List (ProviderState D F))
      → All (λ j. avail_at allow_paid now st j ≡ false) (positions (length st) 0)
      → (j : ℕ) → avail_at allow_paid now st j ≡ false
  All-unavailable st h j = elim (Bool-cases (avail_at allow_paid now st j)) [
    | inl t ↦
        All-positions (λ k. avail_at allow_paid now st k ≡ false) (length st) 0 j h (omega arith)
          (omega (arith, avail_at-bound st j t))
    | inr f ↦ f
  ]
