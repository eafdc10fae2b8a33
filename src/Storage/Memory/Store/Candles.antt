-- ===== src/Storage/Memory/Store/Candles.antt =====
-- internal/adapter/storage/memory/store.go: the candles of `GetOHLC`.
use crypto_price_aggregator.Base.{
  ℕ, ◌≡◌, inl, inr, false, Bool-cases, String, List, [], ◌∷◌, map, if◌then◌else◌, arith, All,
}
use crypto_price_aggregator.Base.Sort.{IsSorted, IsWeakOrder, sort_slice-IsSorted, All-sort_slice}
use crypto_price_aggregator.Domain.{Price, Ohlc}
use crypto_price_aggregator.Domain.Numeric.{Decimal, DecimalLaws}
use crypto_price_aggregator.Storage.Memory.Store.{
  Prices, extremes, last, candle, get_ohlc, earlier_candle, Buckets,
}

earlier_candle-IsWeakOrder : {D : Type 0} → IsWeakOrder (earlier_candle {D = D})
earlier_candle-IsWeakOrder = record {
  asymmetric = λ a b h. ground arith;
  transitive = λ a b c h k. ground arith;
}

module _ {D : Type 0} ⦃dec : Decimal D⦄ where
  -- A candle's open and close lie between its low and its high.
  pub record IsCandle (c : Ohlc D) : Type 0 where
    open_high : dec.less_than c.high c.«open» ≡ false
    open_low : dec.less_than c.«open» c.low ≡ false
    close_high : dec.less_than c.high c.close ≡ false
    close_low : dec.less_than c.close c.low ≡ false

module _ {D : Type 0} ⦃dec : Decimal D⦄ (laws : DecimalLaws D) where
  irreflexive : (a : D) → dec.less_than a a ≡ false
  irreflexive a = elim (Bool-cases (dec.less_than a a)) [
    | inl e ↦ laws.order.asymmetric a a e
    | inr e ↦ e
  ]

  raise-ge :
      (v high : D)
      → (dec.less_than (if dec.greater_than v high then v else high) high ≡ false)
        × (dec.less_than (if dec.greater_than v high then v else high) v ≡ false)
  raise-ge v high = ground (
    arith,
    laws.greater_than-eq v high,
    laws.order.asymmetric high v,
    irreflexive v,
    irreflexive high,
  )

  lower-le :
      (v low : D)
      → (dec.less_than low (if dec.less_than v low then v else low) ≡ false)
        × (dec.less_than v (if dec.less_than v low then v else low) ≡ false)
  lower-le v low = ground (arith, laws.order.asymmetric v low, irreflexive v, irreflexive low)

module _ {D F : Type 0} ⦃dec : Decimal D⦄ where
  -- No value in the list is above `high` or below `low`.
  abbrev Bounds : D → D → List (Price D F) → Type 0
  Bounds high low =
      All (λ p. (dec.less_than high p.value ≡ false) × (dec.less_than p.value low ≡ false))

module _ {D F : Type 0} ⦃dec : Decimal D⦄ (laws : DecimalLaws D) where
  -- The extremes only widen.
  extremes-widen :
      (high low : D) (ps : List (Price D F))
      → (dec.less_than (extremes high low ps).0 high ≡ false)
        × (dec.less_than low (extremes high low ps).1 ≡ false)
  unfolding extremes
  extremes-widen high low [] = (irreflexive laws high, irreflexive laws low)
  extremes-widen high low (p ∷ ps) =
      let higher = if dec.greater_than p.value high then p.value else high in
      let lower = if dec.less_than p.value low then p.value else low in
      let rest = extremes-widen higher lower ps in
      (
        laws.order.transitive _ _ _ (raise-ge laws p.value high).0 rest.0,
        laws.order.transitive _ _ _ rest.1 (lower-le laws p.value low).0,
      )

  extremes-Bounds :
      (high low : D) (ps : List (Price D F))
      → Bounds (extremes high low ps).0 (extremes high low ps).1 ps
  unfolding extremes
  extremes-Bounds high low [] = tt
  extremes-Bounds high low (p ∷ ps) =
      let higher = if dec.greater_than p.value high then p.value else high in
      let lower = if dec.less_than p.value low then p.value else low in
      let rest = extremes-widen higher lower ps in
      (
        (
          laws.order.transitive _ _ _ (raise-ge laws p.value high).1 rest.0,
          laws.order.transitive _ _ _ rest.1 (lower-le laws p.value low).1,
        ),
        extremes-Bounds higher lower ps,
      )

  All_of_last :
      (P : Price D F → Type 0) (p : Price D F) (ps : List (Price D F))
      → P p
      → All P ps
      → P (last p ps)
  unfolding last
  All_of_last P p [] h hs = h
  All_of_last P p (q ∷ qs) h hs = All_of_last P q qs hs.0 hs.1

  candle-IsCandle : (b : ℕ × Price D F × List (Price D F)) → IsCandle (candle b)
  unfolding candle
  candle-IsCandle (t, p, ps) =
      let bounds = extremes-Bounds p.value p.value (p ∷ ps) in
      let ends =
        All_of_last
          (λ q.
            (dec.less_than (extremes p.value p.value (p ∷ ps)).0 q.value ≡ false)
            × (dec.less_than q.value (extremes p.value p.value (p ∷ ps)).1 ≡ false))
          p ps bounds.0 bounds.1 in
      record {
        open_high = bounds.0.0;
        open_low = bounds.0.1;
        close_high = ends.0;
        close_low = ends.1;
      }

  map-candle-All : (bs : Buckets D F) → All IsCandle (map candle bs)
  map-candle-All [] = tt
  map-candle-All (b ∷ bs) = (candle-IsCandle b, map-candle-All bs)

  -- The candles stand in the order of their times, and in each the open and the close lie between
  -- the low and the high. Decimal numbers obey their laws.
  pub get_ohlc-IsCandle :
      (coin currency : String) (from to interval : ℕ) (s : Prices D F)
      → IsSorted earlier_candle (get_ohlc coin currency from to interval s)
        × All IsCandle (get_ohlc coin currency from to interval s)
  unfolding get_ohlc
  get_ohlc-IsCandle coin currency from to interval s = (
    sort_slice-IsSorted earlier_candle earlier_candle-IsWeakOrder _,
    All-sort_slice earlier_candle _ _ (map-candle-All _),
  )
