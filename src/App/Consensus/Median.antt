-- ===== src/App/Consensus/Median.antt =====
-- internal/app/consensus.go: where the median lies.
use crypto_price_aggregator.Base.{
  ℕ, zero, suc, ◌+◌, ◌-◌, ◌*◌, ◌/◌, ◌%◌, ◌<◌, ◌≤◌, ◌≡◌, refl, ap, ◌∙◌, inl, inr, Bool, true, false,
  ◌&&◌, not, List, [], ◌∷◌, some, if◌then◌else◌, arith, ◌==◌, length, All, Bool-cases, Option-cases,
  get_of_lt-length,
}
use crypto_price_aggregator.Base.Sort.{sort_slice, place, IsSorted}
use crypto_price_aggregator.Domain.{Price}
use crypto_price_aggregator.Domain.Numeric.{Decimal, DecimalLaws, MeanLaws, IsHalved}
use crypto_price_aggregator.App.Consensus.{cheaper, value_at, median}

module _ {A : Type 0} (p : A → Bool) where
  abbrev pub count_if : List A → ℕ
  count_if [] = 0
  count_if (x ∷ xs) = (if p x then 1 else 0) + count_if xs

  count_if-place :
      (less : A → A → Bool) (a : A) (xs : List A) → count_if (place less a xs) ≡ count_if (a ∷ xs)
  unfolding place
  count_if-place less a [] = refl
  count_if-place less a (x ∷ xs) = elim (Bool-cases (less x a)) [
    | inl e ↦ rw e (omega (arith, count_if-place less a xs))
    | inr e ↦ rw e
  ]

  pub count_if-sort_slice :
      (less : A → A → Bool) (xs : List A) → count_if (sort_slice less xs) ≡ count_if xs
  unfolding sort_slice
  count_if-sort_slice less [] = refl
  count_if-sort_slice less (x ∷ xs) =
      omega (arith, count_if-place less x (sort_slice less xs), count_if-sort_slice less xs)

length-place :
    {A : Type 0} (less : A → A → Bool) (a : A) (xs : List A)
    → length (place less a xs) ≡ suc (length xs)
unfolding place
length-place less a [] = refl
length-place less a (x ∷ xs) = elim (Bool-cases (less x a)) [
  | inl e ↦ rw e (ap suc (length-place less a xs))
  | inr e ↦ rw e
]

pub length-sort_slice :
    {A : Type 0} (less : A → A → Bool) (xs : List A) → length (sort_slice less xs) ≡ length xs
unfolding sort_slice
length-sort_slice less [] = refl
length-sort_slice less (x ∷ xs) =
    length-place less x (sort_slice less xs) ∙ ap suc (length-sort_slice less xs)

-- The value lies between the two bounds.
abbrev pub within : {D : Type 0} ⦃dec : Decimal D⦄ → D → D → D → Bool
within ⦃dec⦄ lo hi v = not (dec.less_than v lo) && not (dec.less_than hi v)

module _ {D F : Type 0} ⦃dec : Decimal D⦄ where
  abbrev pub in_range : D → D → Price D F → Bool
  in_range lo hi p = within lo hi p.value

module _ {D F : Type 0} ⦃dec : Decimal D⦄ where
  pub value_at_defined :
      (xs : List (Price D F)) (k : ℕ) → k < length xs → (m : D) × (value_at xs k ≡ some m)
  value_at_defined xs k h = let (p, e) = get_of_lt-length xs k h in (p.value, ground (arith, e))

module _ {D F : Type 0} ⦃dec : Decimal D⦄ (laws : DecimalLaws D) (lo hi : D) where
  none_above :
      (m : D) (xs : List (Price D F))
      → dec.less_than hi m ≡ true
      → All (λ y. dec.less_than y.value m ≡ false) xs
      → count_if (in_range lo hi) xs ≡ 0
  none_above m [] h a = refl
  none_above m (y ∷ ys) h a =
      ground (arith, laws.order.transitive m y.value hi, none_above m ys h a.1)

  count-above :
      (k : ℕ) (m : D) (xs : List (Price D F))
      → IsSorted cheaper xs
      → value_at xs k ≡ some m
      → dec.less_than hi m ≡ true
      → count_if (in_range lo hi) xs ≤ k
  count-above k m [] s e h = cc
  count-above zero m (x ∷ xs) s e h =
      let same : x.value ≡ m = ground arith in ground (arith, none_above x.value xs (rw same h) s.0)
  count-above (suc k) m (x ∷ xs) s e h = ground (arith, count-above k m xs s.1 e h)

  not_less_at :
      (k : ℕ) (m v : D) (xs : List (Price D F))
      → All (λ y. dec.less_than y.value v ≡ false) xs
      → value_at xs k ≡ some m
      → dec.less_than m v ≡ false
  not_less_at k m v [] a e = cc
  not_less_at zero m v (x ∷ xs) a e = ground arith
  not_less_at (suc k) m v (x ∷ xs) a e = not_less_at k m v xs a.1 e

  count-le : (xs : List (Price D F)) → count_if (in_range lo hi) xs ≤ length xs
  count-le [] = omega arith
  count-le (x ∷ xs) = ground (arith, count-le xs)

  count-below :
      (k : ℕ) (m : D) (xs : List (Price D F))
      → IsSorted cheaper xs
      → value_at xs k ≡ some m
      → dec.less_than m lo ≡ true
      → count_if (in_range lo hi) xs + suc k ≤ length xs
  count-below k m [] s e h = cc
  count-below zero m (x ∷ xs) s e h =
      let same : x.value ≡ m = ground arith in ground (arith, count-le xs)
  count-below (suc k) m (x ∷ xs) s e h =
      let after = not_less_at k m x.value xs s.0 e in
      ground (arith, laws.order.transitive lo x.value m, count-below k m xs s.1 e h)

  -- An element at or around the middle, when more than half of the elements are in range.
  middle-within :
      (k : ℕ) (m : D) (xs : List (Price D F))
      → IsSorted cheaper xs
      → value_at xs k ≡ some m
      → k < count_if (in_range lo hi) xs
      → length xs ≤ count_if (in_range lo hi) xs + k
      → (dec.less_than m lo ≡ false) × (dec.less_than hi m ≡ false)
  middle-within k m xs s e above below =
      ground (arith, count-above k m xs s e, count-below k m xs s e)

  mean-within :
      (mean : MeanLaws D) (low : IsHalved lo) (high : IsHalved hi) (xs : List (Price D F)) (a b : D)
      → 0 < length xs
      → length xs % 2 ≡ 0
      → value_at xs (length xs / 2 - 1) ≡ some a
      → value_at xs (length xs / 2) ≡ some b
      → (dec.less_than a lo ≡ false) × (dec.less_than hi a ≡ false)
      → (dec.less_than b lo ≡ false) × (dec.less_than hi b ≡ false)
      → (m : D) × (median xs ≡ some m) × (within lo hi m ≡ true)
  unfolding median
  mean-within mean low high xs a b some_in even ea eb left right =
      elim (Option-cases (dec.div (dec.add a b) (dec.from_int 2))) [
        | inl e ↦
            let d = laws.div_defined (dec.add a b) (dec.from_int 2) laws.two_nonzero in
            absurd (ground arith)
        | inr (m, e) ↦
            let (l, el, kl, _) = low in
            let (h, eh, _, kh) = high in
            let above =
              laws.order.transitive lo l m kl (mean.mean_mono a b lo lo m l left.0 right.0 e el) in
            let below =
              laws.order.transitive m h hi (mean.mean_mono hi hi a b h m left.1 right.1 eh e) kh in
            (m, ground (arith, ea, eb, e), ground (arith, above, below))
      ]

  pub median-within :
      (mean : MeanLaws D) (low : IsHalved lo) (high : IsHalved hi) (xs : List (Price D F))
      → IsSorted cheaper xs
      → length xs < 2 * count_if (in_range lo hi) xs
      → (m : D) × (median xs ≡ some m) × (within lo hi m ≡ true)
  unfolding median
  median-within mean low high xs s h =
      let some_in : 0 < length xs = omega (arith, count-le xs) in
      let (b, eb) = value_at_defined xs (length xs / 2) (omega arith) in
      let (a, ea) = value_at_defined xs (length xs / 2 - 1) (omega arith) in
      let right = middle-within (length xs / 2) b xs s eb (omega arith) (omega arith) in
      elim (Bool-cases (length xs % 2 == 1)) [
        | inl odd ↦ (b, ground arith, ground (arith, right))
        | inr even ↦
            let halves : length xs % 2 ≡ 0 = ground arith in
            let left = middle-within (length xs / 2 - 1) a xs s ea (omega arith) (omega arith) in
            mean-within mean low high xs a b (omega arith) halves ea eb left right
      ]
