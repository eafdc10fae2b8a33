-- ===== src/Scheduler/Polling/Steps.antt =====
-- internal/scheduler/poller.go: every order of calls, ticks and ends.
use crypto_price_aggregator.Base.{
  ℕ, ◌+◌, ◌≡◌, ◌↔◌, inl, inr, refl, sym, subst, false, String, ◌∷◌, some, Option-cases, arith,
}
use crypto_price_aggregator.Base.Dict.{lookup, insert, erase}
use crypto_price_aggregator.Storage.Key.{pair_key}
use crypto_price_aggregator.Scheduler.{
  Subscription, ActiveSub, Poller, new_poller, clamp, subscribe, unsubscribe, stop, is_cancelled,
  cancel_existing, polled,
}
use crypto_price_aggregator.Scheduler.Polling.{
  Polling, Runs, begin, fetch_once, Step, subscribes, unsubscribes, stops, ticks, ends, start,
  Reachable, started, then_step,
}
use crypto_price_aggregator.Scheduler.Polling.Cancelled.{HaveOwnContexts, not_both, none-some}
use crypto_price_aggregator.Scheduler.Polling.OneToOne.{
  key_of, IsOneToOne, subscribed-IsOneToOne, removed-IsOneToOne, stopped-IsOneToOne,
  ended-IsOneToOne, absent-Cancels, present-Cancels,
}

abbrev Valid : Polling → Type 0
Valid s = IsOneToOne s.poller.subs s.running s.poller.next_context s.poller.cancelled

key_of-clamp :
    (least c : ℕ) (sub : Subscription)
    → pair_key sub.coin_id sub.currency ≡ key_of record { sub = clamp least sub; context = c }
key_of-clamp least c sub = ground arith

begin-Valid : (sub : Subscription) (s : Polling) → Valid s → Valid (begin sub s)
unfolding begin subscribe fetch_once
begin-Valid sub s o =
    let key = pair_key sub.coin_id sub.currency in
    let a : ActiveSub = record {
      sub = clamp s.poller.min_interval sub;
      context = s.poller.next_context;
    } in
    let named = key_of-clamp s.poller.min_interval s.poller.next_context sub in
    elim (Option-cases (lookup key s.poller.subs)) [
      | inl n ↦
          subst
            (λ x.
              IsOneToOne (insert key a s.poller.subs) (a ∷ s.running) (s.poller.next_context + 1)
                (cancel_existing x s.poller.cancelled))
            (sym n)
            (subscribed-IsOneToOne o key a s.poller.cancelled refl named (absent-Cancels o key n))
      | inr (b, n) ↦
          subst
            (λ x.
              IsOneToOne (insert key a s.poller.subs) (a ∷ s.running) (s.poller.next_context + 1)
                (cancel_existing x s.poller.cancelled))
            (sym n)
            (subscribed-IsOneToOne o key a (b.context ∷ s.poller.cancelled) refl named
              (present-Cancels o key b n))
    ]

unsubscribe-Valid :
    (coin currency : String) (s : Polling)
    → Valid s
    → Valid (record s { poller = (unsubscribe coin currency s.poller).0 })
unfolding unsubscribe
unsubscribe-Valid coin currency s o =
    let key = pair_key coin currency in
    elim (Option-cases (lookup key s.poller.subs)) [
      | inl n ↦
          let q : s.poller ≡ (unsubscribe coin currency s.poller).0 = ground (arith, n) in
          subst (λ (p : Poller). Valid record s { poller = p }) q o
      | inr (b, n) ↦
          let p' : Poller = record s.poller {
            subs = erase key s.poller.subs;
            cancelled = b.context ∷ s.poller.cancelled;
          } in
          let q : p' ≡ (unsubscribe coin currency s.poller).0 = ground (arith, n) in
          subst (λ (p : Poller). Valid record s { poller = p }) q
            (removed-IsOneToOne o key (b.context ∷ s.poller.cancelled) (present-Cancels o key b n))
    ]

Step-Valid : (s s' : Polling) → Step s s' → Valid s → Valid s'
unfolding stop fetch_once
Step-Valid _ _ (subscribes s sub) o = begin-Valid sub s o
Step-Valid _ _ (unsubscribes s coin currency) o = unsubscribe-Valid coin currency s o
Step-Valid _ _ (stops s) o = stopped-IsOneToOne o
Step-Valid _ _ (ticks s a r) o = o
Step-Valid _ _ (ends s a r c) o = ended-IsOneToOne o a c

start-Valid : (least : ℕ) → Valid (start least)
unfolding start new_poller lookup is_cancelled
start-Valid least = record {
  runs = λ k a h. absurd (none-some h);
  subscribed = λ a r h. absurd r;
  old_cancelled = λ c h. absurd (not_both _ h refl);
  old_running = λ a r. absurd r;
  distinct = λ a b r q e. absurd r;
  dict = tt;
  own = tt;
}

Reachable-Valid : (least : ℕ) (s : Polling) → Reachable least s → Valid s
Reachable-Valid least _ started = start-Valid least
Reachable-Valid least _ (then_step s s' r t) = Step-Valid s s' t (Reachable-Valid least s r)

-- In every state that a new poller reaches by calls of Subscribe, Unsubscribe and Stop, ticks and ends of
-- goroutines, in any order, no two goroutines have the same context, and a goroutine runs with a context
-- that is not cancelled exactly if it is the one of the map's entry for its coin and currency. So each
-- subscription is polled by one goroutine, and any other goroutine that runs is cancelled.
pub Runs-polled :
    (least : ℕ) (s : Polling)
    → Reachable least s
    → (a : ActiveSub)
    → HaveOwnContexts s.running
      × ((Runs a s.running × (is_cancelled a.context s.poller.cancelled ≡ false))
          ↔ (polled a.sub.coin_id a.sub.currency s.poller ≡ some a))
Runs-polled least s r a =
    let o = Reachable-Valid least s r in
    (
      o.own,
      (
        λ (h : Runs a s.running × (is_cancelled a.context s.poller.cancelled ≡ false)).
            o.subscribed a h.0 h.1,
        λ h. (let (q, u, e) = o.runs (key_of a) a h in (q, u)),
      ),
    )
