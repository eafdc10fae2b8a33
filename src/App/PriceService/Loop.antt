-- ===== src/App/PriceService/Loop.antt =====
-- internal/app/price_service.go: the whole loop of `GetPrice` over the providers.
use crypto_price_aggregator.Base.{
  ℕ, zero, suc, ◌≤◌, ◌≡◌, refl, sym, ap, ◌∙◌, ◌⊎◌, inl, inr, true, false, ◌||◌, String, List, [],
  ◌∷◌, ◌++◌, Option, none, some, arith, is_some, Option-cases, Bool-cases, length, length-append,
  All-append, eq_iff, str_eq, All,
}
use mathlib.Core.List.{append_assoc}
use crypto_price_aggregator.Domain.{Price, ok, Error, Result-cases}
use crypto_price_aggregator.Domain.Numeric.{Decimal, Float, Conversion, DecimalLaws}
use crypto_price_aggregator.Domain.Ports.{ProviderRouter, Cache, PriceStore, Answers}
use crypto_price_aggregator.App.Validator.{contains}
use crypto_price_aggregator.App.PriceService.{PriceService, Returned, ask_provider, try_providers}
use crypto_price_aggregator.App.PriceService.Attempts.{
  Outcome, IsTurn, FiniteValidator, ask_provider-given, ask_provider-IsTurn, ask_provider_defined,
}

-- No name stands twice.
abbrev pub IsDistinct : List String → Type 0
IsDistinct [] = Unit
IsDistinct (x ∷ xs) = (contains x xs ≡ false) × IsDistinct xs

-- None of the names is in a list.
abbrev pub Avoids : List String → List String → Type 0
Avoids tried = All (λ x. contains x tried ≡ false)

module _ {D F : Type 0} where
  -- The price is what a provider answered to this coin and currency.
  abbrev pub IsGiven : Answers D F → String → String → Price D F → Type 0
  IsGiven answers coin currency p =
      (now : ℕ) × (name : String) × ((answers now name coin currency).0 ≡ ok p)

contains-snoc :
    (x y : String) (xs : List String) → contains x (xs ++ y ∷ []) ≡ contains x xs || str_eq x y
unfolding contains
contains-snoc x y [] = ground (arith, eq_iff x y, eq_iff y x)
contains-snoc x y (z ∷ xs) = ground (arith, contains-snoc x y xs)

IsDistinct-snoc :
    (y : String) (xs : List String)
    → IsDistinct xs
    → All (λ x. contains x (y ∷ []) ≡ false) xs
    → IsDistinct (xs ++ y ∷ [])
unfolding contains
IsDistinct-snoc y [] d a = ground (arith, contains)
IsDistinct-snoc y (x ∷ xs) d a = (
  ground (arith, contains-snoc x y xs, eq_iff x y, eq_iff y x, d, a),
  IsDistinct-snoc y xs d.1 a.1,
)

Avoids-cons :
    (y : String) (tried xs : List String)
    → Avoids (y ∷ tried) xs
    → Avoids tried xs × Avoids (y ∷ []) xs
unfolding contains
Avoids-cons y tried [] a = (tt, tt)
Avoids-cons y tried (x ∷ xs) a = ground (arith, a, contains, Avoids-cons y tried xs a.1)

module _ {R C S D F : Type 0} ⦃rt : ProviderRouter R⦄ ⦃ca : Cache C D F⦄ ⦃ps : PriceStore S D F⦄
    ⦃dec : Decimal D⦄ ⦃fl : Float F⦄ ⦃cv : Conversion D F⦄ (answers : Answers D F) where
  -- The loop does not panic, whatever the providers answer and the router selects, if no deviation of the
  -- validator is NaN or infinite: no validation divides by zero. It is a function by recursion on the attempts left, so it also ends.
  pub try_providers_defined :
      (laws : DecimalLaws D) (left : ℕ) (coin currency : String) (tried : List String)
      (last_err : Option Error) (s : PriceService R C S D F)
      → FiniteValidator s
      → is_some (try_providers answers left coin currency tried last_err s) ≡ true
  unfolding try_providers
  try_providers_defined laws zero coin currency tried last_err s fin = refl
  try_providers_defined laws (suc left) coin currency tried last_err s fin =
      elim (Result-cases (rt.select s.now coin s.router).1) [
        | inl (name, a) ↦
            let selected : PriceService R C S D F = record s {
              router = (rt.select s.now coin s.router).0;
            } in
            elim (Option-cases (ask_provider answers coin currency name selected)) [
              | inl n ↦
                  ground
                    (arith, a, n, ask_provider_defined answers laws coin currency name selected fin)
              | inr ((s1, turn), n) ↦
                  let same =
                    (ask_provider-IsTurn answers coin currency name selected s1 turn
                      n).same_validator in
                  ground (
                    arith,
                    a,
                    n,
                    try_providers_defined laws left coin currency (name ∷ tried) turn.1 s1
                        (λ v h. fin v (sym same ∙ h)),
                  )
            ]
        | inr (x, a) ↦ ground (arith, a)
      ]

  -- The state in which a provider is asked.
  abbrev selected : String → PriceService R C S D F → PriceService R C S D F
  selected coin s = record s { router = (rt.select s.now coin s.router).0 }

  -- How a round of the loop ends: with no provider asked, with a price, or in the next round.
  try_providers-suc :
      (left : ℕ) (coin currency : String) (tried : List String) (last_err : Option Error)
      (s s' : PriceService R C S D F) (returned : Returned D F)
      → try_providers answers (suc left) coin currency tried last_err s ≡ some (s', returned)
      → ((s' ≡ selected coin s)
          × (((e : Error) × (returned ≡ (none, some e)))
              ⊎ ((name : String) × (contains name tried ≡ true) × (returned ≡ (none, last_err)))))
        ⊎ ((name : String) × (s1 : PriceService R C S D F) × (turn : Returned D F) × (contains name
                tried
              ≡ false)
            × (ask_provider answers coin currency name (selected coin s) ≡ some (s1, turn))
            × (((p : Price D F) × (turn.0 ≡ some p) × (s' ≡ s1) × (returned ≡ (some p, none)))
                ⊎ ((turn.0 ≡ none)
                    × (try_providers answers left coin currency (name ∷ tried) turn.1 s1
                        ≡ some (s', returned)))))
  unfolding try_providers
  try_providers-suc left coin currency tried last_err s s' returned e =
      elim (Result-cases (rt.select s.now coin s.router).1) [
        | inr (x, a) ↦ inl (ground (arith, a), inl (x, ground (arith, a)))
        | inl (name, a) ↦ elim (Bool-cases (contains name tried)) [
          | inl old ↦ inl (ground (arith, a, old), inr (name, old, ground (arith, a, old)))
          | inr fresh ↦
              elim (Option-cases (ask_provider answers coin currency name (selected coin s))) [
                | inl n ↦ absurd (ground (arith, a, fresh, n))
                | inr ((s1, (p, x)), n) ↦ inr (
                  name,
                  s1,
                  (p, x),
                  fresh,
                  n,
                  elim (Option-cases p) [
                    | inl np ↦ inr (np, ground (arith, a, fresh, n, np))
                    | inr (q, np) ↦
                        inl
                          (q, np, ground (arith, a, fresh, n, np), ground (arith, a, fresh, n, np))
                  ],
                )
              ]
        ]
      ]

  -- The providers that a loop asks beyond those that were asked before.
  pub record Asks (limit : ℕ) (tried : List String) (s s' : PriceService R C S D F) : Type 0 where
    pub asks : List String
    pub asked_then : s'.asked ≡ asks ++ s.asked
    pub bounded : length asks ≤ limit
    pub distinct : IsDistinct asks
    pub new : Avoids tried asks

  -- One more step of the loop before it goes on.
  Asks-suc :
      (left : ℕ) (name : String) (tried : List String) (s s1 s' : PriceService R C S D F)
      → contains name tried ≡ false
      → s1.asked ≡ name ∷ s.asked
      → Asks left (name ∷ tried) s1 s'
      → Asks (suc left) tried s s'
  Asks-suc left name tried s s1 s' fresh e rest = record {
    asks = rest.asks ++ name ∷ [];
    asked_then = cc (rest.asked_then, e, append_assoc rest.asks (name ∷ []) s.asked);
    bounded = omega (arith, length-append rest.asks (name ∷ []), rest.bounded);
    distinct =
        IsDistinct-snoc name rest.asks rest.distinct (Avoids-cons name tried rest.asks rest.new).1;
    new =
        All-append (λ x. contains x tried ≡ false) rest.asks (name ∷ [])
          (Avoids-cons name tried rest.asks rest.new).0 (fresh, tt);
  }

  -- A loop with so many attempts left asks at most so many providers, each of them once, and none
  -- of those that it counts as tried.
  pub try_providers-Asks :
      (left : ℕ) (coin currency : String) (tried : List String) (last_err : Option Error)
      (s s' : PriceService R C S D F) (returned : Returned D F)
      → try_providers answers left coin currency tried last_err s ≡ some (s', returned)
      → Asks left tried s s'
  unfolding try_providers
  try_providers-Asks zero coin currency tried last_err s s' returned e = record {
    asks = [];
    asked_then = ground arith;
    bounded = omega arith;
    distinct = tt;
    new = tt;
  }
  try_providers-Asks (suc left) coin currency tried last_err s s' returned e =
      elim (try_providers-suc left coin currency tried last_err s s' returned e) [
        | inl (same, _) ↦ record {
          asks = [];
          asked_then = ap (λ x. x.asked) same;
          bounded = omega arith;
          distinct = tt;
          new = tt;
        }
        | inr (name, s1, turn, fresh, ask, rest) ↦
            let asked_once =
              ask_provider-IsTurn answers coin currency name (selected coin s) s1 turn ask in
            Asks-suc left name tried s s1 s' fresh asked_once.logged (elim rest [
              | inl (p, np, same, r) ↦ record {
                asks = [];
                asked_then = ap (λ x. x.asked) same;
                bounded = omega arith;
                distinct = tt;
                new = tt;
              }
              | inr (np, go) ↦
                  try_providers-Asks left coin currency (name ∷ tried) turn.1 s1 s' returned go
            ])
      ]

  -- A turn and the rest of its round, from what becomes of the rounds after a failure.
  turn-Outcome :
      (left : ℕ) (coin currency name : String) (tried : List String)
      (s s1 s' : PriceService R C S D F) (turn returned : Returned D F)
      → IsTurn answers name (selected coin s) s1 turn
      → ((p : Price D F) × (turn.0 ≡ some p) × (s' ≡ s1) × (returned ≡ (some p, none)))
        ⊎ ((turn.0 ≡ none)
            × (try_providers answers left coin currency (name ∷ tried) turn.1 s1
                ≡ some (s', returned)))
      → ((last : Error)
          → try_providers answers left coin currency (name ∷ tried) (some last) s1
            ≡ some (s', returned)
          → Outcome s1 s' returned)
      → Outcome s s' returned
  turn-Outcome left coin currency name tried s s1 s' turn returned taken (inl (p, np, same, r))
        later =
      elim taken.outcome [
        | inl (q, is, valid) ↦ inl (p, r, λ v h. ground (arith, valid v h, same, np, is))
        | inr (x, is) ↦ absurd (ground (arith, is, np))
      ]
  turn-Outcome left coin currency name tried s s1 s' turn returned taken (inr (np, go)) later =
      elim taken.outcome [
        | inl (q, is, valid) ↦ absurd (ground (arith, is, np))
        | inr (x, is) ↦ elim (later x (ground (arith, is, go))) [
          | inl (p, r, valid) ↦ inl (p, r, λ v h. valid v (taken.same_validator ∙ h))
          | inr failed ↦ inr failed
        ]
      ]

  -- After a failure the loop ends with a validated price or an error.
  pub failed_before-Outcome :
      (left : ℕ) (coin currency : String) (tried : List String) (last : Error)
      (s s' : PriceService R C S D F) (returned : Returned D F)
      → try_providers answers left coin currency tried (some last) s ≡ some (s', returned)
      → Outcome s s' returned
  unfolding try_providers
  failed_before-Outcome zero coin currency tried last s s' returned e = inr (last, ground arith)
  failed_before-Outcome (suc left) coin currency tried last s s' returned e =
      elim (try_providers-suc left coin currency tried (some last) s s' returned e) [
        | inl (same, inl failed) ↦ inr failed
        | inl (same, inr (name, old, r)) ↦ inr (last, r)
        | inr (name, s1, turn, fresh, ask, rest) ↦
            turn-Outcome left coin currency name tried s s1 s' turn returned
              (ask_provider-IsTurn answers coin currency name (selected coin s) s1 turn ask) rest
              (λ x go. failed_before-Outcome left coin currency (name ∷ tried) x s1 s' returned go)
      ]

  -- A loop that starts with an attempt left ends with one of a price and an error, never both or
  -- neither. The price passes the service's validator, if there is one, at the time it is returned.
  pub try_providers-Outcome :
      (left : ℕ) (coin currency : String) (s s' : PriceService R C S D F) (returned : Returned D F)
      → try_providers answers (suc left) coin currency [] none s ≡ some (s', returned)
      → Outcome s s' returned
  unfolding contains
  try_providers-Outcome left coin currency s s' returned e =
      elim (try_providers-suc left coin currency [] none s s' returned e) [
        | inl (same, inl failed) ↦ inr failed
        | inl (same, inr (name, old, r)) ↦ absurd (ground (arith, old, contains))
        | inr (name, s1, turn, fresh, ask, rest) ↦
            turn-Outcome left coin currency name [] s s1 s' turn returned
              (ask_provider-IsTurn answers coin currency name (selected coin s) s1 turn ask) rest
              (λ x go. failed_before-Outcome left coin currency (name ∷ []) x s1 s' returned go)
      ]

  pub try_providers-IsGiven :
      (left : ℕ) (coin currency : String) (tried : List String) (last_err : Option Error)
      (s s' : PriceService R C S D F) (p : Price D F) (x : Option Error)
      → try_providers answers left coin currency tried last_err s ≡ some (s', (some p, x))
      → IsGiven answers coin currency p
  unfolding try_providers
  try_providers-IsGiven zero coin currency tried last_err s s' p x e = absurd (ground arith)
  try_providers-IsGiven (suc left) coin currency tried last_err s s' p x e =
      elim (try_providers-suc left coin currency tried last_err s s' (some p, x) e) [
        | inl (same, inl (y, r)) ↦ absurd (ground (arith, r))
        | inl (same, inr (name, old, r)) ↦ absurd (ground (arith, r))
        | inr (name, s1, (q, y), fresh, ask, inl (p', np, same, r)) ↦
            let given : q ≡ some p = ground (arith, np, r) in
            (
              (selected coin s).now,
              name,
              ask_provider-given answers coin currency name (selected coin s) s1 p y
                  (ask ∙ ap (λ o. some (s1, (o, y))) given),
            )
        | inr (name, s1, (q, y), fresh, ask, inr (np, go)) ↦
            try_providers-IsGiven left coin currency (name ∷ tried) y s1 s' p x go
      ]
