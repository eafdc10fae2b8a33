-- ===== src/Scheduler/Polling/OneToOne.antt =====
-- internal/scheduler/poller.go: the correspondence of the map's entries and the goroutines whose contexts are
-- not cancelled, over the operations on each.
use crypto_price_aggregator.Base.{
  ℕ, ◌+◌, ◌<◌, ◌≡◌, ◌≢◌, inl, inr, sym, ap, ◌∙◌, subst, true, false, String, List, [], ◌∷◌, some,
  none, arith,
}
use crypto_price_aggregator.Base.Dict.{
  lookup, insert, erase, IsDict, lookup-erase_self, lookup-erase_ne, insert-IsDict, erase-IsDict,
}
use crypto_price_aggregator.Storage.Key.{pair_key}
use crypto_price_aggregator.Scheduler.{ActiveSub, is_cancelled, cancel_all}
use crypto_price_aggregator.Scheduler.Polling.{Runs, without}
use crypto_price_aggregator.Scheduler.Polling.Cancelled.{
  HaveOwnContexts, All-Runs, without-HaveOwnContexts, is_cancelled-cons, uncancelled,
  uncancelled_before, not_both, Bool-either, cancel_all-keeps, cancel_all-lookup, Runs-without,
  without-Runs, context_of, eq_or_ne, eq_iff_or, none-some, some_inj, the_same, cancelled_before,
  lookup-insert_self, lookup-insert_ne, entries-All, cancel_all-old,
}

abbrev pub key_of : ActiveSub → String
key_of a = pair_key a.sub.coin_id a.sub.currency

-- The entries of the map and the goroutines that are not cancelled correspond, and contexts are new.
pub record IsOneToOne (subs : List (String × ActiveSub)) (running : List ActiveSub) (next : ℕ)
    (cancelled : List ℕ) : Type 0 where
  pub runs :
      (k : String) (a : ActiveSub)
      → lookup k subs ≡ some a
      → Runs a running × (is_cancelled a.context cancelled ≡ false) × (k ≡ key_of a)
  pub subscribed :
      (a : ActiveSub)
      → Runs a running
      → is_cancelled a.context cancelled ≡ false
      → lookup (key_of a) subs ≡ some a
  pub old_cancelled : (c : ℕ) → is_cancelled c cancelled ≡ true → c < next
  pub old_running : (a : ActiveSub) → Runs a running → a.context < next
  pub distinct : (a b : ActiveSub) → Runs a running → Runs b running → a.context ≡ b.context → a ≡ b
  pub dict : IsDict subs
  pub own : HaveOwnContexts running

-- How the cancelled contexts change when the entry of a key, if there is one, is cancelled.
pub record Cancels (key : String) (subs : List (String × ActiveSub)) (next : ℕ)
    (before after : List ℕ) : Type 0 where
  pub still : (c : ℕ) → is_cancelled c after ≡ false → is_cancelled c before ≡ false
  pub others :
      (k : String) (a : ActiveSub)
      → k ≢ key
      → lookup k subs ≡ some a
      → is_cancelled a.context after ≡ false
  pub gone : (a : ActiveSub) → lookup key subs ≡ some a → is_cancelled a.context after ≡ true
  pub old : (c : ℕ) → is_cancelled c after ≡ true → c < next

module _ {subs : List (String × ActiveSub)} {running : List ActiveSub} {next : ℕ}
    {cancelled : List ℕ} (o : IsOneToOne subs running next cancelled) where
  pub entries-distinct :
      (j k : String) (a b : ActiveSub)
      → lookup j subs ≡ some a
      → lookup k subs ≡ some b
      → a.context ≡ b.context
      → j ≡ k
  entries-distinct j k a b h g e =
      let (ra, ca, ja) = o.runs j a h in
      let (rb, cb, kb) = o.runs k b g in ja ∙ ap key_of (o.distinct a b ra rb e) ∙ sym kb

  pub absent-Cancels :
      (key : String) → lookup key subs ≡ none → Cancels key subs next cancelled cancelled
  absent-Cancels key n = record {
    still = λ c h. h;
    others = λ k a ne h. (o.runs k a h).1;
    gone = λ a h. cc (h, n);
    old = o.old_cancelled;
  }

  pub present-Cancels :
      (key : String) (b : ActiveSub)
      → lookup key subs ≡ some b
      → Cancels key subs next cancelled (b.context ∷ cancelled)
  present-Cancels key b g = record {
    still = λ c h. (uncancelled_before c b.context cancelled h).0;
    others = λ k a ne h.
        uncancelled a.context b.context cancelled (o.runs k a h).1
          (λ e. ne (entries-distinct k key a b h g e));
    gone = λ a h.
        ground (arith, is_cancelled-cons a.context b.context cancelled, the_same key subs a b h g);
    old = λ c h. elim (eq_or_ne c b.context) [
      | inl e ↦ subst (λ d. d < next) (sym e) (o.old_running b (o.runs key b g).0)
      | inr n ↦ o.old_cancelled c (cancelled_before c b.context cancelled h n)
    ];
  }

  pub subscribed-IsOneToOne :
      (key : String) (a : ActiveSub) (after : List ℕ)
      → a.context ≡ next
      → key ≡ key_of a
      → Cancels key subs next cancelled after
      → IsOneToOne (insert key a subs) (a ∷ running) (next + 1) after
  subscribed-IsOneToOne key a after new named c =
      let new_running : (b : ActiveSub) → Runs b running → b.context ≡ next → ⊥ =
        λ b r e. (let l = o.old_running b r in omega (arith, e)) in
      let uncancelled_new : (b : ActiveSub)
          → b.context ≡ next
          → is_cancelled b.context after ≡ false =
        λ b e. elim (Bool-either (is_cancelled b.context after)) [
          | inl g ↦ absurd (let l = c.old b.context g in omega (arith, e))
          | inr g ↦ g
        ] in
      record {
        runs = λ k b h. elim (eq_iff_or key k) [
          | inl e ↦
              (let same : b ≡ a = some_inj (sym h ∙ lookup-insert_self key k a subs e) in
                (
                  inl same,
                  uncancelled_new b (ap context_of same ∙ new),
                  sym e ∙ named ∙ ap key_of (sym same),
                ))
          | inr n ↦
              (let before : lookup k subs ≡ some b = sym (lookup-insert_ne key k a subs n) ∙ h in
                (
                  inr (o.runs k b before).0,
                  c.others k b (λ e. n (sym e)) before,
                  (o.runs k b before).2,
                ))
        ];
        subscribed = λ b r h. elim r [
          | inl e ↦
              lookup-insert_self key (key_of b) a subs (named ∙ ap key_of (sym e)) ∙ ap some (sym e)
          | inr r' ↦
              (let before = o.subscribed b r' (c.still b.context h) in
                lookup-insert_ne key (key_of b) a subs
                  (λ e. not_both _ (c.gone b (ap (λ j. lookup j subs) e ∙ before)) h)
                ∙ before)
        ];
        old_cancelled = λ d h. (let l = c.old d h in omega arith);
        old_running = λ b r. elim r [
          | inl e ↦ subst (λ (x : ActiveSub). x.context < next + 1) (sym e) (omega (arith, new))
          | inr r' ↦ (let l = o.old_running b r' in omega arith)
        ];
        distinct = λ b d r q e. elim r [
          | inl e1 ↦ elim q [
            | inl e2 ↦ e1 ∙ sym e2
            | inr q' ↦ absurd (new_running d q' (sym e ∙ ap context_of e1 ∙ new))
          ]
          | inr r' ↦ elim q [
            | inl e2 ↦ absurd (new_running b r' (e ∙ ap context_of e2 ∙ new))
            | inr q' ↦ o.distinct b d r' q' e
          ]
        ];
        dict = insert-IsDict key a subs o.dict;
        own = (
          All-Runs (λ b. b.context ≢ a.context) running (λ b r e. new_running b r (e ∙ new)),
          o.own,
        );
      }

  pub removed-IsOneToOne :
      (key : String) (after : List ℕ)
      → Cancels key subs next cancelled after
      → IsOneToOne (erase key subs) running next after
  removed-IsOneToOne key after c = record {
    runs = λ k b h. elim (eq_iff_or key k) [
      | inl e ↦ absurd (
          none-some
            (sym (lookup-erase_self key subs o.dict) ∙ ap (λ j. lookup j (erase key subs)) e ∙ h))
      | inr n ↦
          (let before : lookup k subs ≡ some b = sym (lookup-erase_ne key k subs n) ∙ h in
            ((o.runs k b before).0, c.others k b (λ e. n (sym e)) before, (o.runs k b before).2))
    ];
    subscribed = λ b r h.
        let before = o.subscribed b r (c.still b.context h) in
        lookup-erase_ne key (key_of b) subs
          (λ e. not_both _ (c.gone b (ap (λ j. lookup j subs) e ∙ before)) h)
        ∙ before;
    old_cancelled = c.old;
    old_running = o.old_running;
    distinct = o.distinct;
    dict = erase-IsDict key subs o.dict;
    own = o.own;
  }

  pub stopped-IsOneToOne : IsOneToOne [] running next (cancel_all subs cancelled)
  unfolding lookup
  stopped-IsOneToOne = record {
    runs = λ k b h. absurd (none-some h);
    subscribed = λ b r h. absurd (elim (Bool-either (is_cancelled b.context cancelled)) [
      | inl e ↦ not_both _ (cancel_all-keeps b.context subs cancelled e) h
      | inr e ↦ not_both _ (cancel_all-lookup (key_of b) b subs cancelled (o.subscribed b r e)) h
    ]);
    old_cancelled = λ d h.
        cancel_all-old next d subs cancelled
          (entries-All (λ a. a.context < next) subs o.dict
            (λ k a g. o.old_running a (o.runs k a g).0))
          o.old_cancelled h;
    old_running = o.old_running;
    distinct = o.distinct;
    dict = tt;
    own = o.own;
  }

  pub ended-IsOneToOne :
      (a : ActiveSub)
      → is_cancelled a.context cancelled ≡ true
      → IsOneToOne subs (without a.context running) next cancelled
  ended-IsOneToOne a g = record {
    runs = λ k b h.
        let (r, u, e) = o.runs k b h in
        (
          without-Runs b a.context running
              (λ e'. not_both _ g (ap (λ d. is_cancelled d cancelled) (sym e') ∙ u)) r,
          u,
          e,
        );
    subscribed = λ b r h. o.subscribed b (Runs-without b a.context running r) h;
    old_cancelled = o.old_cancelled;
    old_running = λ b r. o.old_running b (Runs-without b a.context running r);
    distinct = λ b d r q e.
        o.distinct b d (Runs-without b a.context running r) (Runs-without d a.context running q) e;
    dict = o.dict;
    own = without-HaveOwnContexts a.context running o.own;
  }
