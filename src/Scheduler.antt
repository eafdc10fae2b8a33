-- ===== src/Scheduler.antt =====
-- internal/scheduler and internal/app/subscription_service.go: the subscriptions that are polled. A context
-- is a number, and cancelling one puts it on a list.
pub mod Polling
use crypto_price_aggregator.Base.{
  ℕ, ◌+◌, ◌≤◌, ◌≡◌, subst, ◌⊎◌, inl, inr, Bool, true, false, String, List, [], ◌∷◌, map, Option,
  none, some, Option-cases, if◌then◌else◌, ltb, arith, All, eq_refl,
}
use crypto_price_aggregator.Base.Dict.{
  lookup, insert, erase, IsDict, lookup-insert, lookup-erase_self,
}
use crypto_price_aggregator.Domain.{Error, message}
use crypto_price_aggregator.Storage.Key.{pair_key}

pub record Subscription : Type 0 where
  pub coin_id : String
  pub currency : String
  pub interval : ℕ

pub record ActiveSub : Type 0 where
  pub sub : Subscription
  pub context : ℕ

pub record Poller : Type 0 where
  pub min_interval : ℕ
  pub subs : List (String × ActiveSub)
  -- The next context, and those that are cancelled.
  pub next_context : ℕ
  pub cancelled : List ℕ

unfoldable pub new_poller : ℕ → Poller
new_poller min_interval = record {
  min_interval = min_interval;
  subs = [];
  next_context = 0;
  cancelled = [];
}

unfoldable pub cancel_all : List (String × ActiveSub) → List ℕ → List ℕ
cancel_all [] cancelled = cancelled
cancel_all ((key, active) ∷ subs) cancelled = cancel_all subs (active.context ∷ cancelled)

unfoldable pub stop : Poller → Poller
unfolding cancel_all
stop p = record p { subs = []; cancelled = cancel_all p.subs p.cancelled }

abbrev pub clamp : ℕ → Subscription → Subscription
clamp min_interval sub =
    if ltb sub.interval min_interval then record sub { interval = min_interval } else sub

-- `existing.cancel()`, if there is one.
abbrev pub cancel_existing : Option ActiveSub → List ℕ → List ℕ
cancel_existing none cancelled = cancelled
cancel_existing (some existing) cancelled = existing.context ∷ cancelled

unfoldable pub subscribe : Subscription → Poller → Poller
subscribe sub p =
    let sub' = clamp p.min_interval sub in
    let key = pair_key sub.coin_id sub.currency in
    record p {
      subs = insert key (record { sub = sub'; context = p.next_context }) p.subs;
      next_context = p.next_context + 1;
      cancelled = cancel_existing (lookup key p.subs) p.cancelled;
    }

unfoldable pub unsubscribe : String → String → Poller → Poller × Option Error
unsubscribe coin currency p = elim (lookup (pair_key coin currency) p.subs) [
  | none ↦ (p, some (message "subscription not found"))
  | some active ↦ (
    record p {
      subs = erase (pair_key coin currency) p.subs;
      cancelled = active.context ∷ p.cancelled;
    },
    none,
  )
]

unfoldable pub subscriptions : Poller → List Subscription
subscriptions p = map (λ (entry : String × ActiveSub). entry.1.sub) p.subs

unfoldable pub is_cancelled : ℕ → List ℕ → Bool
is_cancelled c [] = false
is_cancelled c (d ∷ ds) =
    if ltb c d then is_cancelled c ds else if ltb d c then is_cancelled c ds else true

-- The subscription of a coin and currency that a poller polls, if there is one.
abbrev pub polled : String → String → Poller → Option ActiveSub
polled coin currency p = lookup (pair_key coin currency) p.subs

-- Every subscription's interval is at least the poller's least one, so that its ticker starts.
abbrev pub IsClamped : ℕ → List (String × ActiveSub) → Type 0
IsClamped least = All (λ (entry : String × ActiveSub). least ≤ entry.1.sub.interval)

insert-IsClamped :
    (least : ℕ) (key : String) (a : ActiveSub) (subs : List (String × ActiveSub))
    → least ≤ a.sub.interval
    → IsClamped least subs
    → IsClamped least (insert key a subs)
unfolding insert
insert-IsClamped least key a [] h c = (h, tt)
insert-IsClamped least key a ((j, b) ∷ subs) h c =
    ground (arith, insert-IsClamped least key a subs h c.1)

erase-IsClamped :
    (least : ℕ) (key : String) (subs : List (String × ActiveSub))
    → IsClamped least subs
    → IsClamped least (erase key subs)
unfolding erase
erase-IsClamped least key [] c = tt
erase-IsClamped least key ((j, b) ∷ subs) c = ground (arith, erase-IsClamped least key subs c.1)

-- Subscribing and unsubscribing keep every interval at least the poller's least one.
pub subscribe-IsClamped :
    (sub : Subscription) (coin currency : String) (p : Poller)
    → IsClamped p.min_interval p.subs
    → IsClamped p.min_interval (subscribe sub p).subs
      × IsClamped p.min_interval (unsubscribe coin currency p).0.subs
unfolding subscribe unsubscribe
subscribe-IsClamped sub coin currency p c = (
  insert-IsClamped p.min_interval (pair_key sub.coin_id sub.currency)
      (record { sub = clamp p.min_interval sub; context = p.next_context }) p.subs (ground arith) c,
  elim (Option-cases (lookup (pair_key coin currency) p.subs)) [
    | inl n ↦ subst (IsClamped p.min_interval) (ground (arith, n)) c
    | inr (a, n) ↦
        subst (IsClamped p.min_interval) (ground (arith, n))
          (erase-IsClamped p.min_interval (pair_key coin currency) p.subs c)
  ],
)

-- Subscribing cancels the polling that the coin and currency had, and starts one with a new context, at
-- the clamped interval.
pub subscribe-cancels :
    (sub : Subscription) (p : Poller)
    → (polled sub.coin_id sub.currency (subscribe sub p)
        ≡ some (record { sub = clamp p.min_interval sub; context = p.next_context }))
      × ((old : ActiveSub)
          → polled sub.coin_id sub.currency p ≡ some old
          → is_cancelled old.context (subscribe sub p).cancelled ≡ true)
unfolding subscribe is_cancelled
subscribe-cancels sub p =
    let key = pair_key sub.coin_id sub.currency in
    (
      ground (
        arith,
        lookup-insert key key (record { sub = clamp p.min_interval sub; context = p.next_context })
            p.subs,
        eq_refl key,
      ),
      λ old e. ground (arith, e),
    )

-- Unsubscribing a pair that is polled cancels its polling, and the pair is polled no more; for any
-- other pair it is an error that changes nothing. The map of subscriptions has one entry for each
-- pair.
pub unsubscribe-cancels :
    (coin currency : String) (p : Poller)
    → IsDict p.subs
    → ((polled coin currency p ≡ none)
        × (unsubscribe coin currency p ≡ (p, some (message "subscription not found"))))
      ⊎ ((active : ActiveSub) × (p' : Poller) × (polled coin currency p ≡ some active)
          × (unsubscribe coin currency p ≡ (p', none))
          × (is_cancelled active.context p'.cancelled ≡ true)
          × (polled coin currency p' ≡ none))
unfolding unsubscribe is_cancelled
unsubscribe-cancels coin currency p d =
    let key = pair_key coin currency in
    elim (Option-cases (lookup key p.subs)) [
      | inl n ↦ inl (n, ground (arith, n))
      | inr (a, n) ↦ inr (
        a,
        record p { subs = erase key p.subs; cancelled = a.context ∷ p.cancelled },
        n,
        ground (arith, n),
        ground arith,
        lookup-erase_self key p.subs d,
      )
    ]
