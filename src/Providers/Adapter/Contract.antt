-- ===== src/Providers/Adapter/Contract.antt =====
-- internal/adapter/provider: what an adapter's call does to the health that it reports, for the pieces
-- that the adapters are made of.
use mathlib.Core.Path.{subst}
use crypto_price_aggregator.Base.{ℕ, ◌≡◌, refl, String, Option, none, some}
use crypto_price_aggregator.Domain.{Result, ok, err, Error, wrapped, provider_down}
use crypto_price_aggregator.Providers.Adapter.{
  Provider, succeeded, failed, Request, Answer, not_made, no_answer, answered, Runtime, Conn, Call,
  and_then, refuse, clock, succeed, decoded, checked, received, fetch,
}

-- A call that fails with `e` had its request refused by net/http, or it reports `e`, or an error that
-- `e` wraps, as the adapter's last.
pub data IsFailure (p : Provider) (e : Error) (q : Provider) : Type 0 where
  unsent : (reason : Error) → e ≡ wrapped "creating request" reason → q ≡ p → IsFailure p e q
  reported : q ≡ failed e p → IsFailure p e q
  reported_within : (t : String) (r : Error) → e ≡ wrapped t r → q ≡ failed r p → IsFailure p e q

-- A result with `Q` leaves the adapter in `G`, and any other is a failure.
module _ {W A : Type 0} where
  abbrev pub Outcome : (A → Type 0) → (Provider → Type 0) → Provider → Result A × Conn W → Type 0
  Outcome Q G p (ok a, s) = Q a × G s.provider
  Outcome Q G p (err e, s) = IsFailure p e s.provider

abbrev pub IsSuccess : Provider → Provider → Type 0
IsSuccess p q = (t : ℕ) × (q ≡ succeeded t p)

abbrev pub Anything : {A : Type 0} → A → Type 0
Anything a = Unit

module _ {W A B : Type 0} where
  pub and_then-Outcome :
      (Q : A → Type 0) (R : B → Type 0) (G : Provider → Provider → Type 0) (p : Provider)
      (x : Result A × Conn W) (f : A → Call W B)
      → Outcome Q (λ q. q ≡ p) p x
      → ((a : A) (s : Conn W) → Q a → Outcome R (G s.provider) s.provider (f a s))
      → Outcome R (G p) p (and_then x f)
  and_then-Outcome Q R G p (ok a, s) f h k = subst (λ q. Outcome R (G q) q (f a s)) h.1 (k a s h.0)
  and_then-Outcome Q R G p (err e, s) f h k = h

module _ {W : Type 0} where
  pub refuse-Outcome :
      {A : Type 0} (Q : A → Type 0) (G : Provider → Type 0) (e : Error) (s : Conn W)
      → Outcome Q G s.provider (refuse e e s)
  unfolding refuse
  refuse-Outcome Q G e s = reported refl

  pub refuse_within-Outcome :
      {A : Type 0} (Q : A → Type 0) (G : Provider → Type 0) (e : Error) (t : String) (s : Conn W)
      → Outcome Q G s.provider (refuse e (wrapped t e) s)
  unfolding refuse
  refuse_within-Outcome Q G e t s = reported_within t e refl refl

module _ {W D F : Type 0} (go : Runtime W D F) where
  pub clock-Outcome : (s : Conn W) → Outcome Anything (λ q. q ≡ s.provider) s.provider (clock go s)
  unfolding clock
  clock-Outcome s = (tt, refl)

  pub succeed-Outcome :
      {A : Type 0} (Q : A → Type 0) (a : A) (s : Conn W)
      → Q a
      → Outcome Q (IsSuccess s.provider) s.provider (succeed go a s)
  unfolding succeed
  succeed-Outcome Q a s h = (h, ((go.now s.world).0, refl))

  module _ {R : Type 0} (check : ℕ → Option Error) (decode : String → Result R) where
    decoded-Outcome :
        (r : Result R) (s : Conn W)
        → Outcome Anything (λ q. q ≡ s.provider) s.provider (decoded r s)
    unfolding decoded
    decoded-Outcome (ok r) s = (tt, refl)
    decoded-Outcome (err e) s =
        refuse_within-Outcome Anything (λ q. q ≡ s.provider) e "decoding response" s

    checked-Outcome :
        (o : Option Error) (r : Result R) (s : Conn W)
        → Outcome Anything (λ q. q ≡ s.provider) s.provider (checked o r s)
    unfolding checked
    checked-Outcome none r s = decoded-Outcome r s
    checked-Outcome (some e) r s = refuse-Outcome Anything (λ q. q ≡ s.provider) e s

    received-Outcome :
        (a : Answer) (s : Conn W)
        → Outcome Anything (λ q. q ≡ s.provider) s.provider (received check decode a s)
    unfolding received
    received-Outcome (not_made e) s = unsent e refl refl
    received-Outcome no_answer s = refuse-Outcome Anything (λ q. q ≡ s.provider) provider_down s
    received-Outcome (answered code body) s = checked-Outcome (check code) (decode body) s

    -- A request leaves the adapter as it is, or it fails and the adapter reports why.
    pub fetch-Outcome :
        (req : Request) (s : Conn W)
        → Outcome Anything (λ q. q ≡ s.provider) s.provider (fetch go check decode req s)
    unfolding fetch
    fetch-Outcome req s =
        received-Outcome (go.send req s.world).0 (record s { world = (go.send req s.world).1 })
