-- ===== src/Tests/Polls.antt =====
-- The theorem on polling goroutines in a concrete state.
use crypto_price_aggregator.Base.{ℕ, String, ◌≡◌, ◌↔◌, false, some}
use crypto_price_aggregator.Scheduler.{Subscription, ActiveSub, is_cancelled, polled}
use crypto_price_aggregator.Scheduler.Polling.{
  Polling, Runs, begin, start, Reachable, started, then_step, subscribes,
}
use crypto_price_aggregator.Scheduler.Polling.Cancelled.{HaveOwnContexts}
use crypto_price_aggregator.Scheduler.Polling.Steps.{Runs-polled}

abbrev sub : String → ℕ → Subscription
sub coin interval = record { coin_id = coin; currency = "usd"; interval = interval }

-- Bitcoin is subscribed to, then Ethereum, then Bitcoin with another interval.
abbrev first : Polling
first = begin (sub "bitcoin" 20) (start 10)

abbrev second : Polling
second = begin (sub "ethereum" 5) first

abbrev third : Polling
third = begin (sub "bitcoin" 30) second

third-Reachable : Reachable 10 third
third-Reachable =
    then_step _ _
      (then_step _ _ (then_step _ _ started (subscribes (start 10) (sub "bitcoin" 20)))
        (subscribes first (sub "ethereum" 5)))
      (subscribes second (sub "bitcoin" 30))

abbrev newest : ActiveSub
newest = record { sub = sub "bitcoin" 30; context = 2 }

Runs-polled_example :
    HaveOwnContexts third.running
    × ((Runs newest third.running × (is_cancelled 2 third.poller.cancelled ≡ false))
        ↔ (polled "bitcoin" "usd" third.poller ≡ some newest))
Runs-polled_example = Runs-polled 10 third third-Reachable newest
