-- ===== src/Scheduler/Polling/Cancelled.antt =====
-- internal/scheduler/poller.go: cancelled contexts, the map's entries and the goroutines, apart from any step.
use crypto_price_aggregator.Base.{
  ℕ, ◌<◌, ◌≡◌, ◌≢◌, ◌⊎◌, inl, inr, refl, sym, ap, ◌∙◌, subst, Bool, true, false, String, List, [],
  ◌∷◌, Option, some, ◌==◌, str_eq, eq_iff, eq_refl, if◌then◌else◌, arith, All,
}
use crypto_price_aggregator.Base.Dict.{lookup, insert, IsDict, lookup-insert}
use crypto_price_aggregator.Scheduler.{ActiveSub, is_cancelled, cancel_all}
use crypto_price_aggregator.Scheduler.Polling.{Runs, without}

-- What is cancelled when one more context is.
pub is_cancelled-cons :
    (c d : ℕ) (ds : List ℕ) → is_cancelled c (d ∷ ds) ≡ (if c == d then true else is_cancelled c ds)
unfolding is_cancelled
is_cancelled-cons c d ds = ground arith

-- A context that was not cancelled and is not the one that is cancelled now.
pub uncancelled :
    (c d : ℕ) (ds : List ℕ) → is_cancelled c ds ≡ false → c ≢ d → is_cancelled c (d ∷ ds) ≡ false
uncancelled c d ds h n = ground (arith, is_cancelled-cons c d ds)

pub uncancelled_before :
    (c d : ℕ) (ds : List ℕ)
    → is_cancelled c (d ∷ ds) ≡ false
    → (is_cancelled c ds ≡ false) × (c ≢ d)
uncancelled_before c d ds h =
    (ground (arith, is_cancelled-cons c d ds), λ e. ground (arith, is_cancelled-cons c d ds))

pub not_both : (b : Bool) → b ≡ true → b ≡ false → ⊥
not_both b h k = cc

pub Bool-either : (b : Bool) → (b ≡ true) ⊎ (b ≡ false)
Bool-either true = inl refl
Bool-either false = inr refl

pub cancel_all-keeps :
    (c : ℕ) (subs : List (String × ActiveSub)) (cs : List ℕ)
    → is_cancelled c cs ≡ true
    → is_cancelled c (cancel_all subs cs) ≡ true
unfolding cancel_all
cancel_all-keeps c [] cs h = h
cancel_all-keeps c ((k, a) ∷ subs) cs h =
    cancel_all-keeps c subs (a.context ∷ cs) (ground (arith, is_cancelled-cons c a.context cs))

pub cancel_all-lookup :
    (k : String) (a : ActiveSub) (subs : List (String × ActiveSub)) (cs : List ℕ)
    → lookup k subs ≡ some a
    → is_cancelled a.context (cancel_all subs cs) ≡ true
unfolding cancel_all lookup
cancel_all-lookup k a [] cs h = ground arith
cancel_all-lookup k a ((j, b) ∷ subs) cs h = elim (Bool-either (str_eq j k)) [
  | inl e ↦
      let same : b.context ≡ a.context = ground (arith, e, h) in
      cancel_all-keeps a.context subs (b.context ∷ cs)
        (ground (arith, is_cancelled-cons a.context b.context cs, same))
  | inr e ↦ cancel_all-lookup k a subs (b.context ∷ cs) (ground (arith, e, h))
]

pub Runs-without :
    (a : ActiveSub) (c : ℕ) (running : List ActiveSub) → Runs a (without c running) → Runs a running
unfolding without
Runs-without a c [] r = r
Runs-without a c (b ∷ running) r = ground (arith, Runs-without a c running)

pub without-Runs :
    (a : ActiveSub) (c : ℕ) (running : List ActiveSub)
    → a.context ≢ c
    → Runs a running
    → Runs a (without c running)
unfolding without
without-Runs a c [] n r = r
without-Runs a c (b ∷ running) n r = ground (arith, n, without-Runs a c running n)

abbrev pub context_of : ActiveSub → ℕ
context_of a = a.context

pub eq_or_ne : (c d : ℕ) → (c ≡ d) ⊎ (c ≢ d)
eq_or_ne c d = ground arith

pub eq_iff_or : (j k : String) → (j ≡ k) ⊎ (j ≢ k)
eq_iff_or j k = ground (arith, eq_iff j k)

pub none-some : {A : Type 0} {a : A} → Option.none ≡ some a → ⊥
none-some h = cc

pub some_inj : {A : Type 0} {a b : A} → some a ≡ some b → a ≡ b
some_inj h = cc

pub the_same :
    (k : String) (subs : List (String × ActiveSub)) (a b : ActiveSub)
    → lookup k subs ≡ some a
    → lookup k subs ≡ some b
    → a.context ≡ b.context
the_same k subs a b h g = ap context_of (some_inj (sym h ∙ g))

pub cancelled_before :
    (c d : ℕ) (ds : List ℕ) → is_cancelled c (d ∷ ds) ≡ true → c ≢ d → is_cancelled c ds ≡ true
cancelled_before c d ds h n = ground (arith, is_cancelled-cons c d ds)

pub lookup-insert_self :
    (key k : String) (a : ActiveSub) (subs : List (String × ActiveSub))
    → key ≡ k
    → lookup k (insert key a subs) ≡ some a
lookup-insert_self key k a subs e = ground (arith, lookup-insert key k a subs, eq_iff key k, e)

pub lookup-insert_ne :
    (key k : String) (a : ActiveSub) (subs : List (String × ActiveSub))
    → key ≢ k
    → lookup k (insert key a subs) ≡ lookup k subs
lookup-insert_ne key k a subs n = ground (arith, lookup-insert key k a subs, eq_iff key k, n)

-- What holds of every entry that a key is found with holds of every entry.
pub entries-All :
    (P : ActiveSub → Type 0) (subs : List (String × ActiveSub))
    → IsDict subs
    → ((k : String) (a : ActiveSub) → lookup k subs ≡ some a → P a)
    → All (λ (entry : String × ActiveSub). P entry.1) subs
unfolding lookup
entries-All P [] d h = tt
entries-All P ((j, b) ∷ subs) d h = (
  h j b (ground (arith, eq_refl j)),
  entries-All P subs d.1 (λ k a g. h k a (elim (eq_iff_or j k) [
    | inl e ↦ absurd (none-some (sym d.0 ∙ ap (λ i. lookup i subs) e ∙ g))
    | inr n ↦ ground (arith, eq_iff j k, n, g)
  ])),
)

pub cancel_all-old :
    (next d : ℕ) (subs : List (String × ActiveSub)) (cs : List ℕ)
    → All (λ (entry : String × ActiveSub). entry.1.context < next) subs
    → ((c : ℕ) → is_cancelled c cs ≡ true → c < next)
    → is_cancelled d (cancel_all subs cs) ≡ true
    → d < next
unfolding cancel_all
cancel_all-old next d [] cs a o h = o d h
cancel_all-old next d ((k, b) ∷ subs) cs a o h =
    cancel_all-old next d subs (b.context ∷ cs) a.1
      (λ c g. elim (eq_or_ne c b.context) [
        | inl e ↦ subst (λ i. i < next) (sym e) a.0
        | inr n ↦ o c (cancelled_before c b.context cs g n)
      ])
      h

-- No two goroutines have the same context.
abbrev pub HaveOwnContexts : List ActiveSub → Type 0
HaveOwnContexts [] = Unit
HaveOwnContexts (a ∷ running) = All (λ b. b.context ≢ a.context) running × HaveOwnContexts running

pub All-Runs :
    (P : ActiveSub → Type 0) (running : List ActiveSub)
    → ((a : ActiveSub) → Runs a running → P a)
    → All P running
All-Runs P [] h = tt
All-Runs P (a ∷ running) h = (h a (inl refl), All-Runs P running (λ b r. h b (inr r)))

All-without :
    (P : ActiveSub → Type 0) (c : ℕ) (running : List ActiveSub)
    → All P running
    → All P (without c running)
unfolding without
All-without P c [] h = tt
All-without P c (a ∷ running) h = ground (arith, h, All-without P c running h.1)

pub without-HaveOwnContexts :
    (c : ℕ) (running : List ActiveSub)
    → HaveOwnContexts running
    → HaveOwnContexts (without c running)
unfolding without
without-HaveOwnContexts c [] h = tt
without-HaveOwnContexts c (a ∷ running) h = ground (
  arith,
  h,
  without-HaveOwnContexts c running h.1,
  All-without (λ b. b.context ≢ a.context) c running h.0,
)
