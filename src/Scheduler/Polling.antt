-- ===== src/Scheduler/Polling.antt =====
-- internal/scheduler/poller.go: the goroutines of `poll` beside the poller's map. A goroutine is started by
-- Subscribe, requests its price at once and at each tick of its ticker, and ends when it sees that its
-- context is cancelled; when a tick is ready too, Go may take either. The price service's answer is only
-- logged, so a state keeps the requests. The context of the whole poller is not cancelled here.
pub mod Cancelled
mod OneToOne
pub mod Steps
use crypto_price_aggregator.Base.{ℕ, ◌≡◌, ◌⊎◌, true, String, List, [], ◌∷◌, ◌==◌, if◌then◌else◌}
use crypto_price_aggregator.Scheduler.{
  Subscription, ActiveSub, Poller, new_poller, clamp, subscribe, unsubscribe, stop, is_cancelled,
}

pub record Polling : Type 0 where
  pub poller : Poller
  -- The goroutines, with their subscriptions and contexts, and the subscriptions whose price was requested.
  pub running : List ActiveSub
  pub requests : List Subscription

abbrev pub Runs : ActiveSub → List ActiveSub → Type 0
Runs a [] = ⊥
Runs a (b ∷ running) = (a ≡ b) ⊎ Runs a running

unfoldable pub fetch_once : Subscription → Polling → Polling
fetch_once sub s = record s { requests = sub ∷ s.requests }

-- Subscribe, with the goroutine that it starts.
unfoldable pub begin : Subscription → Polling → Polling
begin sub s =
    let sub' = clamp s.poller.min_interval sub in
    fetch_once sub' (record s {
      poller = subscribe sub s.poller;
      running = (record { sub = sub'; context = s.poller.next_context }) ∷ s.running;
    })

-- The goroutines but for the one with a context.
unfoldable pub without : ℕ → List ActiveSub → List ActiveSub
without c [] = []
without c (a ∷ running) = if a.context == c then running else a ∷ without c running

pub data Step : Polling → Polling → Type 0 where
  subscribes : (s : Polling) (sub : Subscription) → Step s (begin sub s)
  unsubscribes :
      (s : Polling) (coin currency : String)
      → Step s (record s { poller = (unsubscribe coin currency s.poller).0 })
  stops : (s : Polling) → Step s (record s { poller = stop s.poller })
  ticks : (s : Polling) (a : ActiveSub) → Runs a s.running → Step s (fetch_once a.sub s)
  ends :
      (s : Polling) (a : ActiveSub)
      → Runs a s.running
      → is_cancelled a.context s.poller.cancelled ≡ true
      → Step s (record s { running = without a.context s.running })

unfoldable pub start : ℕ → Polling
unfolding new_poller
start min_interval = record { poller = new_poller min_interval; running = []; requests = [] }

-- The states that the poller's calls and goroutines reach, in any order.
pub data Reachable (min_interval : ℕ) : Polling → Type 0 where
  started : Reachable min_interval (start min_interval)
  then_step : (s s' : Polling) → Reachable min_interval s → Step s s' → Reachable min_interval s'
