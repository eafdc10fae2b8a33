-- ===== src/Storage/BatchBuffer.antt =====
-- internal/adapter/storage/clickhouse/buffer.go: prices that are stored in batches. The lock is held for one append and for
-- one exchange of the slice, and the flush function, ClickHouse's, is called without it, so a flush is three
-- steps or more, between which other goroutines come in. What a flush writes to is a state `W`.
pub mod Conserved
use crypto_price_aggregator.Base.{
  ℕ, ◌+◌, ◌-◌, ◌<◌, ◌≡◌, Bool, true, false, List, [], ◌∷◌, ◌++◌, if◌then◌else◌, leb, length,
}

pub record BatchBuffer (P : Type 0) : Type 0 where
  pub prices : List P
  pub max_size : ℕ
  pub flush_errors : ℕ
  pub flush_count : ℕ

unfoldable pub new_batch_buffer : {P : Type 0} → ℕ → BatchBuffer P
new_batch_buffer max_size = record {
  prices = [];
  max_size = max_size;
  flush_errors = 0;
  flush_count = 0;
}

-- A batch that a call of `flush` has taken out of the buffer and not yet written or given up, and whether its
-- first attempt has failed.
pub record Flight (P : Type 0) : Type 0 where
  pub batch : List P
  pub retried : Bool

-- The buffer with the goroutines that use it: how many calls of Add are yet to flush, and the batches of the
-- flushes under way. `added` and `lost` keep the prices that were added, and those of batches given up.
pub record Buffering (P W : Type 0) : Type 0 where
  pub buffer : BatchBuffer P
  pub due : ℕ
  pub in_flight : List (Flight P)
  pub written : W
  pub added : List P
  pub lost : List P

module _ {P : Type 0} where
  -- What Add does under the lock: the buffer, and `shouldFlush`.
  unfoldable pub append_price : P → BatchBuffer P → BatchBuffer P × Bool
  append_price price b =
      let prices = b.prices ++ price ∷ [] in
      (record b { prices = prices }, leb b.max_size (length prices))

  -- What flush does under the lock: the buffer, and the batch that it takes, which is empty where it returns.
  unfoldable pub take_batch : BatchBuffer P → BatchBuffer P × List P
  take_batch b = (record b { prices = [] }, b.prices)

  unfoldable pub flush_stats : BatchBuffer P → ℕ × ℕ
  flush_stats b = (b.flush_count, b.flush_errors)

  abbrev pub flight_of : List P → List (Flight P) → List (Flight P)
  flight_of [] flights = flights
  flight_of (p ∷ ps) flights = (record { batch = p ∷ ps; retried = false }) ∷ flights

module _ {P W : Type 0} where
  unfoldable pub add : P → Buffering P W → Buffering P W
  unfolding append_price
  add price s =
      let (b, should_flush) = append_price price s.buffer in
      record s {
        buffer = b;
        due = if should_flush then s.due + 1 else s.due;
        added = price ∷ s.added;
      }

  unfoldable pub start_flush : Buffering P W → Buffering P W
  unfolding take_batch
  start_flush s =
      let (b, batch) = take_batch s.buffer in
      record s { buffer = b; in_flight = flight_of batch s.in_flight }

  -- The flush that a call of Add makes when the buffer was full.
  unfoldable pub flush_due : Buffering P W → Buffering P W
  unfolding start_flush
  flush_due s = record (start_flush s) { due = s.due - 1 }

module _ {P W : Type 0} where
  abbrev pub start : ℕ → W → Buffering P W
  start max_size w = record {
    buffer = new_batch_buffer max_size;
    due = 0;
    in_flight = [];
    written = w;
    added = [];
    lost = [];
  }

module _ {P W : Type 0} (flush_fn : List P → W → W × Bool) where
  -- One call of the flush function by a flush under way, which is one of the list: it is done, or tries
  -- again, or gives its batch up.
  unfoldable pub attempt :
      List (Flight P) → Flight P → List (Flight P) → Buffering P W → Buffering P W
  attempt before f after s =
      let (w, fine) = flush_fn f.batch s.written in
      if fine
      then record s {
        written = w;
        in_flight = before ++ after;
        buffer = record s.buffer { flush_count = s.buffer.flush_count + 1 };
      }
      else if f.retried
      then record s {
        written = w;
        in_flight = before ++ after;
        buffer = record s.buffer { flush_errors = s.buffer.flush_errors + 1 };
        lost = f.batch ++ s.lost;
      }
      else record s {
        written = w;
        in_flight = before ++ (record { batch = f.batch; retried = true }) ∷ after;
      }

  -- A step of some goroutine. `ticks` is a flush of the ticker's goroutine, or the last one, of Stop.
  pub data Step : Buffering P W → Buffering P W → Type 0 where
    adds : (s : Buffering P W) (price : P) → Step s (add price s)
    flushes_due : (s : Buffering P W) → 0 < s.due → Step s (flush_due s)
    ticks : (s : Buffering P W) → Step s (start_flush s)
    attempts :
        (s : Buffering P W) (before after : List (Flight P)) (f : Flight P)
        → s.in_flight ≡ before ++ f ∷ after
        → Step s (attempt before f after s)

  -- The states of a new buffer after steps of goroutines in any order.
  pub data Reachable (max_size : ℕ) (w : W) : Buffering P W → Type 0 where
    started : Reachable max_size w (start max_size w)
    then_step :
        (s s' : Buffering P W) → Reachable max_size w s → Step s s' → Reachable max_size w s'
