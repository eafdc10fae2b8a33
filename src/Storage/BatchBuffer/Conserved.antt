-- ===== src/Storage/BatchBuffer/Conserved.antt =====
-- internal/adapter/storage/clickhouse/buffer.go: where the prices that were added are, with any number of goroutines.
use crypto_price_aggregator.Base.{
  ℕ, ◌+◌, ◌<◌, ◌≡◌, ◌⊎◌, Bool, true, false, List, [], ◌∷◌, ◌++◌, if◌then◌else◌, length,
}
use crypto_price_aggregator.Storage.BatchBuffer.{Flight, Buffering}

module _ {P : Type 0} (test : P → Bool) where
  -- How many of the prices pass a test.
  abbrev pub tally : List P → ℕ
  tally [] = 0
  tally (p ∷ ps) = (if test p then 1 else 0) + tally ps

  abbrev pub tally_flights : List (Flight P) → ℕ
  tally_flights [] = 0
  tally_flights (f ∷ fs) = tally f.batch + tally_flights fs

module _ {P W : Type 0} (flush_fn : List P → W → W × Bool) (contents : W → List P) where
  -- A flush function writes a whole batch, or fails and writes nothing.
  pub record Writes : Type 0 where
    pub success :
        (batch : List P) (w : W)
        → (flush_fn batch w).1 ≡ true
        → contents (flush_fn batch w).0 ≡ contents w ++ batch
    pub failure :
        (batch : List P) (w : W)
        → (flush_fn batch w).1 ≡ false
        → contents (flush_fn batch w).0 ≡ contents w

  module _ (works : Writes) (first : W) (test : P → Bool) where
    -- The prices that pass a test: those written at first and those added are those written, lost, in
    -- flight and buffered now.
    abbrev pub IsConserved : Buffering P W → Type 0
    IsConserved s =
        tally test (contents first) + tally test s.added
        ≡ tally test (contents s.written)
          + tally test s.lost
          + tally_flights test s.in_flight
          + tally test s.buffer.prices

  -- The buffer is below its limit, or a call of Add is yet to flush.
  abbrev pub IsBelow : ℕ → Buffering P W → Type 0
  IsBelow max_size s =
      (s.buffer.max_size ≡ max_size) × ((0 < s.due) ⊎ (length s.buffer.prices < max_size))
