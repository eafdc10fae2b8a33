-- ===== src/Tests/Stores.antt =====
-- The stores' theorems at concrete inputs.
use Prim.Native.Char.{code}
use crypto_price_aggregator.Base.{
  ℕ, ◌≤◌, ◌≡◌, ◌⊎◌, inl, ap, eq_iff, Bool, true, List, [], ◌∷◌, ◌++◌, none, some, arith, All,
}
use crypto_price_aggregator.Base.Int.{ℤ}
use crypto_price_aggregator.Base.Dict.{entries_at}
use crypto_price_aggregator.Base.Sort.{IsSorted}
use crypto_price_aggregator.Domain.{Price}
use crypto_price_aggregator.Domain.FixedPoint.{fixed_decimal, fixed-DecimalLaws}
use crypto_price_aggregator.Storage.Key.{pair_key}
use crypto_price_aggregator.Storage.Memory.Cache.{get, set, get-set_ne}
use crypto_price_aggregator.Storage.Memory.Store.{
  Prices, save, get_latest, get_ohlc, earlier_candle,
}
use crypto_price_aggregator.Storage.Memory.Store.Reads.{
  NotAfter, get_latest-NotAfter, get_latest-save,
}
use crypto_price_aggregator.Storage.Memory.Store.Candles.{IsCandle, get_ohlc-IsCandle}
use crypto_price_aggregator.Storage.BatchBuffer.{Buffering, add, flush_due, start}
use crypto_price_aggregator.Tests.Data.{price}

get-set_ne_example : get 200 "e" "usd" (set 150 (price "b" 15_000 150) 60 []) ≡ get 200 "e" "usd" []
get-set_ne_example =
    get-set_ne 200 150 60 "e" "usd" (price "b" 15_000 150) [] (λ e. omega (arith, ap code e), tt)
      (λ e. omega (arith, ap code e), tt) (inl (λ e. ground (arith, eq_iff "b" "e", e)))

abbrev saved : Prices ℤ ℤ
saved =
    (
      pair_key "bitcoin" "usd",
      price "bitcoin" 15_000 150 ∷ price "bitcoin" 14_000 120 ∷ price "bitcoin" 16_000 130 ∷ [],
    )
    ∷ []

get_latest-NotAfter_example :
    ((get_latest "bitcoin" "usd" saved ≡ none) × (entries_at (pair_key "bitcoin" "usd") saved ≡ []))
    ⊎ ((p : Price ℤ ℤ) × (get_latest "bitcoin" "usd" saved ≡ some p)
        × NotAfter p.received_at (entries_at (pair_key "bitcoin" "usd") saved))
get_latest-NotAfter_example = get_latest-NotAfter "bitcoin" "usd" saved

get_latest-save_example :
    (q : Price ℤ ℤ) × (get_latest "bitcoin" "usd" (save (price "bitcoin" 15_000 140) saved)
      ≡ some q)
    × (140 ≤ q.received_at)
get_latest-save_example = get_latest-save (price "bitcoin" 15_000 140) saved

get_ohlc-IsCandle_example :
    IsSorted earlier_candle (get_ohlc "bitcoin" "usd" 100 200 60 saved)
    × All IsCandle (get_ohlc "bitcoin" "usd" 100 200 60 saved)
get_ohlc-IsCandle_example = get_ohlc-IsCandle fixed-DecimalLaws "bitcoin" "usd" 100 200 60 saved

-- A sink that takes every batch.
abbrev sink : List ℕ → List ℕ → List ℕ × Bool
sink batch w = (w ++ batch, true)

-- The second price fills the buffer; its flush has begun, and not ended, when a third is added.
abbrev filled : Buffering ℕ (List ℕ)
filled = add 4 (add 3 (start 2 (1 ∷ 2 ∷ [])))

abbrev flushing : Buffering ℕ (List ℕ)
flushing = flush_due filled

abbrev overtaken : Buffering ℕ (List ℕ)
overtaken = add 5 flushing
