-- ===== src/App/Consensus/Split.antt =====
-- internal/app/consensus.go: what a consensus result says of the prices that it is made of.
use mathlib.Core.List.{Perm}
use mathlib.Core.Bool.{true≢false}
use crypto_price_aggregator.Base.{
  ℕ, ◌+◌, ◌-◌, ◌*◌, ◌/◌, ◌<◌, ◌≡◌, refl, sym, ◌∙◌, inl, inr, Bool, true, false, List, [], ◌∷◌, none,
  some, arith, length, is_some, Bool-cases, Option-cases, keep_if,
}
use crypto_price_aggregator.Base.Sort.{
  sort_slice, IsSorted, IsWeakOrder, sort_slice-IsSorted, sort_slice-perm,
}
use crypto_price_aggregator.Domain.{Price}
use crypto_price_aggregator.Domain.Numeric.{
  Decimal, Float, Conversion, DecimalLaws, MeanLaws, IsHalved,
}
use crypto_price_aggregator.App.Deviation.{deviation_defined}
use crypto_price_aggregator.App.Outlier.{is_outlier}
use crypto_price_aggregator.App.Consensus.{
  ConsensusConfig, ConsensusResult, cheaper, median, split, compute_result,
}
use crypto_price_aggregator.App.Consensus.Median.{
  count_if, count_if-sort_slice, length-sort_slice, within, in_range, value_at_defined,
  median-within,
}

module _ {D F : Type 0} ⦃dec : Decimal D⦄ (laws : DecimalLaws D) where
  cheaper-IsWeakOrder : IsWeakOrder {A = Price D F} cheaper
  cheaper-IsWeakOrder = record {
    asymmetric = λ a b h. laws.order.asymmetric a.value b.value h;
    transitive = λ a b c h k. laws.order.transitive a.value b.value c.value h k;
  }

  median_defined : (xs : List (Price D F)) → is_some (median xs) ≡ true
  unfolding median
  median_defined [] = refl
  median_defined (x ∷ xs) =
      let (b, eb) = value_at_defined (x ∷ xs) (length (x ∷ xs) / 2) (omega arith) in
      let (a, ea) = value_at_defined (x ∷ xs) (length (x ∷ xs) / 2 - 1) (omega arith) in
      ground (arith, ea, eb, laws.div_defined (dec.add a b) (dec.from_int 2) laws.two_nonzero)

  split_defined :
      (mid max_dev : D) (xs : List (Price D F))
      → dec.is_zero mid ≡ false
      → is_some (split mid max_dev xs) ≡ true
  unfolding split
  split_defined mid max_dev [] h = refl
  split_defined mid max_dev (x ∷ xs) h =
      ground (arith, deviation_defined laws x.value mid h, split_defined mid max_dev xs h)

module _ {D F : Type 0} ⦃dec : Decimal D⦄ ⦃fl : Float F⦄ ⦃cv : Conversion D F⦄
    (cfg : ConsensusConfig F) where
  -- Whether the outlier detector, with the same limit, flags a price.
  abbrev pub flagged : D → Price D F → Bool
  flagged mid p = elim (is_outlier (record { max_deviation_percent = cfg.max_deviation }) p mid) [
    | none ↦ false
    | some b ↦ b
  ]

  -- What the result of a consensus over some prices is.
  pub record IsConsensus (prices : List (Price D F)) (r : ConsensusResult D F) : Type 0 where
    pub sorted : IsSorted cheaper r.prices
    pub same_prices : Perm r.prices prices
    pub middle : median r.prices ≡ some r.median_price
    pub flags :
        dec.is_zero r.median_price ≡ false → r.outliers ≡ keep_if (flagged r.median_price) r.prices
    pub agreement :
        dec.is_zero r.median_price ≡ false
        → (n : ℕ) × (n + length r.outliers ≡ length r.prices)
          × (r.confidence ≡ fl.div (fl.of_int n) (fl.of_int (length r.prices)))
    pub no_agreement : dec.is_zero r.median_price ≡ true → r.confidence ≡ fl.of_int 0

module _ {D F : Type 0} ⦃dec : Decimal D⦄ ⦃fl : Float F⦄ ⦃cv : Conversion D F⦄
    (cfg : ConsensusConfig F) (fin : fl.is_finite cfg.max_deviation ≡ true) where
  split-flagged :
      (mid : D) (xs valid outliers : List (Price D F))
      → dec.is_zero mid ≡ false
      → split mid (cv.from_float cfg.max_deviation) xs ≡ some (valid, outliers)
      → (outliers ≡ keep_if (flagged cfg mid) xs) × (length valid + length outliers ≡ length xs)
  unfolding split is_outlier
  split-flagged mid [] valid outliers h e = ground arith
  split-flagged mid (x ∷ xs) valid outliers h e =
      elim (Option-cases (split mid (cv.from_float cfg.max_deviation) xs)) [
        | inl n ↦ absurd (ground (arith, n, fin))
        | inr ((v, o), s) ↦ ground (arith, s, fin, split-flagged mid xs v o h s)
      ]

  module _ (laws : DecimalLaws D) where
    abbrev Computes : List (Price D F) → D → Type 0
    Computes prices mid =
        (r : ConsensusResult D F) × (compute_result cfg prices ≡ some r)
        × IsConsensus cfg prices r
        × (r.median_price ≡ mid)

    zero-Computes :
        (prices : List (Price D F)) (mid : D)
        → median (sort_slice cheaper prices) ≡ some mid
        → dec.is_zero mid ≡ true
        → Computes prices mid
    unfolding compute_result
    zero-Computes prices mid e z =
        let sorted = sort_slice cheaper prices in
        let r : ConsensusResult D F = record {
          median_price = mid;
          prices = sorted;
          outliers = [];
          confidence = fl.of_int 0;
        } in
        (
          r,
          ground (arith, e, z),
          record {
            sorted = sort_slice-IsSorted cheaper (cheaper-IsWeakOrder laws) prices;
            same_prices = sort_slice-perm cheaper prices;
            middle = e;
            flags = λ n. absurd (true≢false (sym z ∙ n));
            agreement = λ n. absurd (true≢false (sym z ∙ n));
            no_agreement = λ _. refl;
          },
          refl,
        )

    split-Computes :
        (prices valid outliers : List (Price D F)) (mid : D)
        → median (sort_slice cheaper prices) ≡ some mid
        → dec.is_zero mid ≡ false
        → split mid (cv.from_float cfg.max_deviation) (sort_slice cheaper prices)
          ≡ some (valid, outliers)
        → Computes prices mid
    unfolding compute_result
    split-Computes prices valid outliers mid e z s =
        let sorted = sort_slice cheaper prices in
        let parts = split-flagged mid sorted valid outliers z s in
        let r : ConsensusResult D F = record {
          median_price = mid;
          prices = sorted;
          outliers = outliers;
          confidence = fl.div (fl.of_int (length valid)) (fl.of_int (length sorted));
        } in
        (
          r,
          ground (arith, e, z, s, fin),
          record {
            sorted = sort_slice-IsSorted cheaper (cheaper-IsWeakOrder laws) prices;
            same_prices = sort_slice-perm cheaper prices;
            middle = e;
            flags = λ _. parts.0;
            agreement = λ _. (length valid, parts.1, refl);
            no_agreement = λ n. absurd (true≢false (sym n ∙ z));
          },
          refl,
        )

    median-Computes :
        (prices : List (Price D F)) (mid : D)
        → median (sort_slice cheaper prices) ≡ some mid
        → Computes prices mid
    median-Computes prices mid e = elim (Bool-cases (dec.is_zero mid)) [
      | inl z ↦ zero-Computes prices mid e z
      | inr z ↦
          elim (Option-cases
            (split mid (cv.from_float cfg.max_deviation) (sort_slice cheaper prices))) [
              | inl n ↦
                  let d =
                    split_defined laws mid (cv.from_float cfg.max_deviation)
                      (sort_slice cheaper prices) z in
                  absurd (ground arith)
              | inr ((v, o), s) ↦ split-Computes prices v o mid e z s
            ]
    ]

    pub compute_result-IsConsensus :
        (prices : List (Price D F))
        → (r : ConsensusResult D F) × (compute_result cfg prices ≡ some r)
          × IsConsensus cfg prices r
    compute_result-IsConsensus prices = elim (Option-cases (median (sort_slice cheaper prices))) [
      | inl n ↦ let d = median_defined laws (sort_slice cheaper prices) in absurd (ground arith)
      | inr (mid, e) ↦ let (r, c, k, _) = median-Computes prices mid e in (r, c, k)
    ]

    -- If more than half of the prices lie between two bounds, the consensus price does too, whatever
    -- the others are. The bounds have no more decimal places than division keeps, so that half of
    -- twice a bound is the bound; the prices may have more. The limit for outliers is not NaN or
    -- infinite. Decimal numbers obey their laws, and halving a sum is monotone.
    pub compute_result-within :
        MeanLaws D
        → (lo hi : D) → IsHalved lo
        → IsHalved hi
        → (prices : List (Price D F)) → length prices < 2 * count_if (in_range lo hi) prices
        → (r : ConsensusResult D F) × (compute_result cfg prices ≡ some r)
          × (within lo hi r.median_price ≡ true)
    compute_result-within mean lo hi low high prices h =
        let sorted = sort_slice cheaper prices in
        let (mid, e, w) =
          median-within laws lo hi mean low high sorted
            (sort_slice-IsSorted cheaper (cheaper-IsWeakOrder laws) prices)
            (omega (
              arith,
              length-sort_slice cheaper prices,
              count_if-sort_slice (in_range lo hi) cheaper prices,
              h,
            )) in
        let (r, c, k, same) = median-Computes prices mid e in (r, c, rw same w)
