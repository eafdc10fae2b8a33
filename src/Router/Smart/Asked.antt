-- ===== src/Router/Smart/Asked.antt =====
-- internal/router/smart.go: what the smart strategy does to the providers it scores.
use mathlib.Core.Option
use crypto_price_aggregator.Base.{
  ℕ, zero, suc, ◌+◌, ◌≡◌, refl, ◌⊎◌, inl, inr, Bool, true, List, [], ◌∷◌, Option, none, some, arith,
  get_elem?, map,
}
use crypto_price_aggregator.Domain.Numeric.{Float, Conversion}
use crypto_price_aggregator.Router.RateLimit.{is_exhausted, remaining_ratio}
use crypto_price_aggregator.Router.Provider.{ProviderState, is_available, snapshot}
use crypto_price_aggregator.Router.Walk.{avail_at}
use crypto_price_aggregator.Router.Walk.Touch.{touch, Same}
use crypto_price_aggregator.Router.Smart.{SmartWeights, rate, better, scan}

pub get-map :
    {A B : Type 0} (f : A → B) (xs : List A) (i : ℕ)
    → get_elem? (map f xs) i ≡ Option.map f (get_elem? xs i)
get-map f [] i = refl
get-map f (x ∷ xs) zero = refl
get-map f (x ∷ xs) (suc i) = get-map f xs i

module _ {D F : Type 0} (allow_paid : Bool) (now : ℕ) where
  pub Same-map-touch :
      (st : List (ProviderState D F)) → Same allow_paid now st (map (touch allow_paid now) st)
  Same-map-touch st j = inr (get-map (touch allow_paid now) st j)

module _ {D F : Type 0} ⦃fl : Float F⦄ ⦃cv : Conversion D F⦄ (allow_paid : Bool)
    (w : SmartWeights F) (now : ℕ) where
  -- The snapshot begins no window that asking did not begin.
  rate-touch : (ps : ProviderState D F) → (rate allow_paid w now ps).0 ≡ touch allow_paid now ps
  unfolding rate is_available is_exhausted snapshot remaining_ratio
  rate-touch ps = ground arith

  pub scan-touch :
      (i : ℕ) (best : Option ℕ × F) (st : List (ProviderState D F))
      → (scan allow_paid w now i best st).0 ≡ map (touch allow_paid now) st
  unfolding scan
  scan-touch i best [] = refl
  scan-touch i best (ps ∷ st) =
      cc (rate-touch ps, scan-touch (suc i) (better best i (rate allow_paid w now ps).1) st)

  rate-available :
      (i k : ℕ) (best : Option ℕ × F) (ps : ProviderState D F)
      → (better best i (rate allow_paid w now ps).1).0 ≡ some k
      → (best.0 ≡ some k) ⊎ ((k ≡ i) × ((is_available allow_paid now ps).1 ≡ true))
  unfolding rate
  rate-available i k best ps e = ground arith

  scan_available :
      (i k : ℕ) (best : Option ℕ × F) (st : List (ProviderState D F))
      → (scan allow_paid w now i best st).1.0 ≡ some k
      → (best.0 ≡ some k) ⊎ ((j : ℕ) × (k ≡ i + j) × (avail_at allow_paid now st j ≡ true))
  unfolding scan
  scan_available i k best [] e = inl e
  scan_available i k best (ps ∷ st) e =
      elim (scan_available (suc i) k (better best i (rate allow_paid w now ps).1) st e) [
        | inl h ↦ elim (rate-available i k best ps h) [
          | inl old ↦ inl old
          | inr (same, a) ↦ inr (0, omega arith, a)
        ]
        | inr (j, at, a) ↦ inr (suc j, omega arith, a)
      ]

  pub scan-available :
      (st : List (ProviderState D F)) (k : ℕ)
      → (scan allow_paid w now 0 (none, fl.neg_inf) st).1.0 ≡ some k
      → avail_at allow_paid now st k ≡ true
  scan-available st k e = elim (scan_available 0 k (none, fl.neg_inf) st e) [
    | inl h ↦ cc
    | inr (j, at, a) ↦ let same : k ≡ j = omega arith in rw same a
  ]
