-- ===== src/Base/Sort.antt =====
-- `sort.Slice`: the result is a permutation in order. The model inserts each element before the
-- first one that is not less, so that equal elements keep their order; Go may order those otherwise.
use crypto_price_aggregator.Base.Tests.{if◌then◌else◌, Bool-cases}
use crypto_price_aggregator.Base.Lists.{All}
use mathlib.Core.Path.{◌≡◌}
use mathlib.Core.Logic.{inl, inr}
use mathlib.Core.Bool.{Bool, true, false}
use mathlib.Core.List.{List, [], ◌∷◌, Perm}
use mathlib.Core.List.Perm
use native.Mathlib.Omega.{arith}

module _ {ℓ} {A : Type ℓ} (less : A → A → Bool) where
  unfoldable pub place : A → List A → List A
  place a [] = a ∷ []
  place a (x ∷ xs) = if less x a then x ∷ place a xs else a ∷ x ∷ xs

  unfoldable pub sort_slice : List A → List A
  unfolding place
  sort_slice [] = []
  sort_slice (x ∷ xs) = place x (sort_slice xs)

  -- No element is less than one before it.
  abbrev pub IsSorted : List A → Type ℓ
  IsSorted [] = Unit
  IsSorted (x ∷ xs) = All (λ y. less y x ≡ false) xs × IsSorted xs

  -- What the sort relies on: a comparison is not both ways, and "not less" is transitive.
  pub record IsWeakOrder : Type ℓ where
    pub asymmetric : (a b : A) → less a b ≡ true → less b a ≡ false
    pub transitive : (a b c : A) → less b a ≡ false → less c b ≡ false → less c a ≡ false

  All-place {κ} : (P : A → Type κ) (a : A) (xs : List A) → P a → All P xs → All P (place a xs)
  unfolding place
  All-place P a [] p ps = (p, tt)
  All-place P a (x ∷ xs) p ps = ground (arith, All-place P a xs p ps.1)

  pub place-perm : (a : A) (xs : List A) → Perm (place a xs) (a ∷ xs)
  unfolding place
  place-perm a [] = Perm.refl _
  place-perm a (x ∷ xs) = elim (Bool-cases (less x a)) [
    | inl e ↦ rw e (Perm.trans (Perm.cons x (place-perm a xs)) (Perm.swap a x xs))
    | inr e ↦ rw e (Perm.refl _)
  ]

  pub sort_slice-perm : (xs : List A) → Perm (sort_slice xs) xs
  unfolding sort_slice
  sort_slice-perm [] = Perm.refl _
  sort_slice-perm (x ∷ xs) =
      Perm.trans (place-perm x (sort_slice xs)) (Perm.cons x (sort_slice-perm xs))

  All-not_less :
      (w : IsWeakOrder) (a x : A) (xs : List A)
      → less x a ≡ false
      → All (λ y. less y x ≡ false) xs
      → All (λ y. less y a ≡ false) xs
  All-not_less w a x [] e h = tt
  All-not_less w a x (y ∷ ys) e h = (w.transitive a x y e h.0, All-not_less w a x ys e h.1)

  place-IsSorted : IsWeakOrder → (a : A) (xs : List A) → IsSorted xs → IsSorted (place a xs)
  unfolding place
  place-IsSorted w a [] s = (tt, tt)
  place-IsSorted w a (x ∷ xs) s = elim (Bool-cases (less x a)) [
    | inl e ↦
        rw e (
          All-place (λ y. less y x ≡ false) a xs (w.asymmetric x a e) s.0,
          place-IsSorted w a xs s.1,
        )
    | inr e ↦ rw e ((e, All-not_less w a x xs e s.0), s)
  ]

  pub sort_slice-IsSorted : IsWeakOrder → (xs : List A) → IsSorted (sort_slice xs)
  unfolding sort_slice
  sort_slice-IsSorted w [] = tt
  sort_slice-IsSorted w (x ∷ xs) = place-IsSorted w x (sort_slice xs) (sort_slice-IsSorted w xs)

  pub All-sort_slice {κ} : (P : A → Type κ) (xs : List A) → All P xs → All P (sort_slice xs)
  unfolding sort_slice
  All-sort_slice P [] h = tt
  All-sort_slice P (x ∷ xs) h = All-place P x (sort_slice xs) h.0 (All-sort_slice P xs h.1)

  All-unplace {κ} : (P : A → Type κ) (a : A) (xs : List A) → All P (place a xs) → P a × All P xs
  unfolding place
  All-unplace P a [] h = (h.0, tt)
  All-unplace P a (x ∷ xs) h = elim (Bool-cases (less x a)) [
    | inl e ↦
        let k : All P (x ∷ place a xs) = rw e at h in
        let rest = All-unplace P a xs k.1 in (rest.0, (k.0, rest.1))
    | inr e ↦ let k : All P (a ∷ x ∷ xs) = rw e at h in (k.0, k.1)
  ]

  -- What holds of the sorted elements holds of the elements.
  pub All-of_sort_slice {κ} : (P : A → Type κ) (xs : List A) → All P (sort_slice xs) → All P xs
  unfolding sort_slice
  All-of_sort_slice P [] h = tt
  All-of_sort_slice P (x ∷ xs) h =
      let k = All-unplace P x (sort_slice xs) h in (k.0, All-of_sort_slice P xs k.1)
