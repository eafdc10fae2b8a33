-- ===== src/Storage/Memory/Store.antt =====
-- internal/adapter/storage/memory/store.go: every price that was saved, by coin and currency, in the order of
-- saving. No operation returns an error. A bucket of `GetOHLC` is its first price and the later ones.
pub mod Reads
pub mod Candles
use crypto_price_aggregator.Base.{
  ℕ, ◌+◌, ◌-◌, ◌%◌, ◌==◌, Bool, not, ◌&&◌, String, List, [], ◌∷◌, ◌++◌, map, Option, none, some,
  if◌then◌else◌, ltb, keep_if,
}
use crypto_price_aggregator.Base.Dict.{append_to, entries_at}
use crypto_price_aggregator.Base.Sort.{sort_slice}
use crypto_price_aggregator.Domain.{Price, Ohlc, Result, ok}
use crypto_price_aggregator.Domain.Numeric.{Decimal}
use crypto_price_aggregator.Domain.Ports
use crypto_price_aggregator.Storage.Key.{pair_key}

-- `Store.prices`
abbrev pub Prices : Type 0 → Type 0 → Type 0
Prices D F = List (String × List (Price D F))

module _ {D F : Type 0} where
  unfoldable pub save : Price D F → Prices D F → Prices D F
  save price = append_to (pair_key price.coin_id price.currency) price

  unfoldable pub save_batch : List (Price D F) → Prices D F → Prices D F
  unfolding save
  save_batch [] s = s
  save_batch (p ∷ ps) s = save_batch ps (save p s)

  -- The loop over `entries[1:]`.
  unfoldable pub later : Price D F → List (Price D F) → Price D F
  later latest [] = latest
  later latest (e ∷ es) = later (if ltb latest.received_at e.received_at then e else latest) es

  -- `none` is a nil price.
  unfoldable pub get_latest : String → String → Prices D F → Option (Price D F)
  unfolding later
  get_latest coin currency s = elim (entries_at (pair_key coin currency) s) [
    | [] ↦ none
    | e ∷ es ↦ some (later e es)
  ]

  abbrev pub in_window : ℕ → ℕ → Price D F → Bool
  in_window from to e = not (ltb e.received_at from) && ltb e.received_at to

  abbrev pub received_before : Price D F → Price D F → Bool
  received_before p q = ltb p.received_at q.received_at

  unfoldable pub get_history : String → String → ℕ → ℕ → Prices D F → List (Price D F)
  get_history coin currency from to s =
      sort_slice received_before
        (keep_if (in_window from to) (entries_at (pair_key coin currency) s))

-- `t.Truncate(d)`, which leaves `t` alone when `d` is 0.
abbrev pub truncate : ℕ → ℕ → ℕ
truncate t d = if d == 0 then t else t - t % d

-- `buckets`, by their time.
abbrev pub Buckets : Type 0 → Type 0 → Type 0
Buckets D F = List (ℕ × Price D F × List (Price D F))

module _ {D F : Type 0} where
  unfoldable pub add_to_bucket : ℕ → Price D F → Buckets D F → Buckets D F
  add_to_bucket t p [] = (t, p, []) ∷ []
  add_to_bucket t p ((u, q, qs) ∷ bs) =
      if u == t then (u, q, qs ++ p ∷ []) ∷ bs else (u, q, qs) ∷ add_to_bucket t p bs

  unfoldable pub fill_buckets : ℕ → Buckets D F → List (Price D F) → Buckets D F
  unfolding add_to_bucket
  fill_buckets interval bs [] = bs
  fill_buckets interval bs (p ∷ ps) =
      fill_buckets interval (add_to_bucket (truncate p.received_at interval) p bs) ps

  -- `prices[len(prices)-1]`
  unfoldable pub last : Price D F → List (Price D F) → Price D F
  last p [] = p
  last p (q ∷ qs) = last q qs

module _ {D F : Type 0} ⦃dec : Decimal D⦄ where
  -- The loop over a bucket's prices, from the highest and lowest value so far.
  unfoldable pub extremes : D → D → List (Price D F) → D × D
  extremes high low [] = (high, low)
  extremes high low (p ∷ ps) =
      extremes (if dec.greater_than p.value high then p.value else high)
        (if dec.less_than p.value low then p.value else low) ps

  unfoldable pub candle : ℕ × Price D F × List (Price D F) → Ohlc D
  unfolding extremes last
  candle (t, p, ps) =
      let found = extremes p.value p.value (p ∷ ps) in
      record {
        time = t;
        «open» = p.value;
        high = found.0;
        low = found.1;
        close = (last p ps).value;
      }

abbrev pub earlier_candle : {D : Type 0} → Ohlc D → Ohlc D → Bool
earlier_candle a b = ltb a.time b.time

module _ {D F : Type 0} ⦃dec : Decimal D⦄ where
  unfoldable pub get_ohlc : String → String → ℕ → ℕ → ℕ → Prices D F → List (Ohlc D)
  unfolding fill_buckets candle
  get_ohlc coin currency from to interval s =
      let filtered = keep_if (in_window from to) (entries_at (pair_key coin currency) s) in
      sort_slice earlier_candle
        (map candle (fill_buckets interval [] (sort_slice received_before filtered)))

  instance abbrev pub memory_store : Ports.PriceStore (Prices D F) D F
  memory_store = record {
    save = λ p s. (save p s, none);
    save_batch = λ ps s. (save_batch ps s, none);
    get_latest = λ coin currency s. ok (get_latest coin currency s);
    get_history = λ coin currency from to s. ok (get_history coin currency from to s);
    get_ohlc = λ coin currency from to interval s. ok (get_ohlc coin currency from to interval s);
  }
