-- ===== src/Providers/Quotes/Asked.antt =====
-- internal/adapter/provider: what the packages return that take one coin, or all from one answer.
use crypto_price_aggregator.Base.{
  ℕ, ◌≡◌, refl, Bool, true, false, if◌then◌else◌, ap, String, List, [], ◌∷◌, Option, none, some,
  length, arith, suc,
}
use crypto_price_aggregator.Domain.{Price, Result, ok, err, Error, coin_not_found}
use crypto_price_aggregator.Providers.Reading.{Reading, found, skipped, refused}
use crypto_price_aggregator.Providers.Adapter.{
  Config, Provider, Request, Runtime, Conn, Call, pure, ◌>>=◌, and_then, clock, succeed, fetch,
  response_error,
}
use crypto_price_aggregator.Providers.Adapter.Contract.{
  Outcome, IsSuccess, Anything, and_then-Outcome, refuse-Outcome, clock-Outcome, succeed-Outcome,
  fetch-Outcome,
}
use crypto_price_aggregator.Providers.Quotes.{
  Exchange, taken, gather, with_first, finish, quote_all, caught, attempt, some_or_none, priced,
  ask_known, ask, one_by_one,
}
use crypto_price_aggregator.Providers.Quotes.Served.{
  IsQuote, AreQuotes, none_left, answers, IsReading, IsTurn, IsTurnFor, with_first-AreQuotes,
  refused-Outcome, taken-Outcome, gather-Outcome, AreServed, finish-Outcome, IsSound,
}

module _ {W D F R : Type 0} (go : Runtime W D F) (check : ℕ → Option Error) (x : Exchange D F R)
    (sound : IsSound x) where
  priced-Outcome :
      (c currency : String) (r : Reading (ℕ → Price D F)) (s : Conn W)
      → IsReading (IsQuote x.provider_name c currency) r
      → Outcome
          (IsQuote x.provider_name c currency)
          (IsSuccess s.provider)
          s.provider
          (priced go check x r s)
  unfolding priced
  priced-Outcome c currency (found price) s h =
      let Q = IsQuote x.provider_name c currency in
      and_then-Outcome Anything Q IsSuccess s.provider (clock go s) (λ now. succeed go (price now))
        (clock-Outcome go s) λ now t _. succeed-Outcome go Q (price now) t (h now)
  priced-Outcome c currency skipped s h =
      refuse-Outcome (IsQuote x.provider_name c currency) (IsSuccess s.provider) coin_not_found s
  priced-Outcome c currency (refused recorded returned) s h =
      refused-Outcome (IsQuote x.provider_name c currency) (IsSuccess s.provider) recorded returned
        s h

  ask_known-Outcome :
      (c currency : String) (sym : Option String) (s : Conn W)
      → Outcome
          (IsQuote x.provider_name c currency)
          (IsSuccess s.provider)
          s.provider
          (ask_known go check x c currency sym s)
  unfolding ask_known
  ask_known-Outcome c currency none s =
      refuse-Outcome (IsQuote x.provider_name c currency) (IsSuccess s.provider) coin_not_found s
  ask_known-Outcome c currency (some sym) s =
      and_then-Outcome Anything (IsQuote x.provider_name c currency) IsSuccess s.provider
        (fetch go check x.decode (x.request s.provider.cfg c currency sym) s)
        (λ raw. priced go check x (x.read c currency sym raw))
        (fetch-Outcome go check x.decode (x.request s.provider.cfg c currency sym) s)
        λ raw t _.
          priced-Outcome c currency (x.read c currency sym raw) t (sound c currency sym raw)

  pub ask-Outcome :
      (c currency : String) (s : Conn W)
      → Outcome
          (IsQuote x.provider_name c currency)
          (IsSuccess s.provider)
          s.provider
          (ask go check x c currency s)
  unfolding ask
  ask-Outcome c currency s = ask_known-Outcome c currency (x.symbol c) s

-- One answer for all coins.
module _ {W D F R : Type 0} (go : Runtime W D F) where
  pub quote_all-Outcome :
      (name currency : String) (request : Config → Request) (decode : String → Result R)
      (read : R → String → Reading (ℕ → Price D F))
      → ((raw : R) (c : String) → IsReading (IsQuote name c currency) (read raw c))
      → (cs : List String) (s : Conn W)
      → Outcome
          (AreServed name currency cs)
          (IsSuccess s.provider)
          s.provider
          (quote_all go request decode read cs s)
  unfolding quote_all
  quote_all-Outcome name currency request decode read sound cs s =
      let req = request s.provider.cfg in
      let turn : R → ℕ → String → Call W (Option (Price D F)) =
        λ raw now c. taken now (read raw c) in
      and_then-Outcome Anything (AreServed name currency cs) IsSuccess s.provider
        (fetch go response_error decode req s)
        (λ raw. clock go >>= λ now. gather (turn raw now) cs >>= finish go cs)
        (fetch-Outcome go response_error decode req s)
        λ raw s' _.
          and_then-Outcome Anything (AreServed name currency cs) IsSuccess s'.provider (clock go s')
            (λ now. gather (turn raw now) cs >>= finish go cs) (clock-Outcome go s')
            λ now t _.
              and_then-Outcome (AreQuotes name currency cs) (AreServed name currency cs) IsSuccess
                t.provider (gather (turn raw now) cs t) (finish go cs)
                (gather-Outcome name currency (turn raw now)
                  (λ c u. taken-Outcome (IsQuote name c currency) now (read raw c) u (sound raw c))
                  cs t)
                λ ps u quotes. finish-Outcome go name currency cs ps u quotes

-- A result has `Q`, if there is one.
module _ {W A : Type 0} where
  abbrev pub IsResult : (A → Type 0) → Result A × Conn W → Type 0
  IsResult Q (ok a, s) = Q a
  IsResult Q (err e, s) = Unit

  pub Outcome-IsResult :
      (Q : A → Type 0) (G : Provider → Type 0) (p : Provider) (x : Result A × Conn W)
      → Outcome Q G p x
      → IsResult Q x
  Outcome-IsResult Q G p (ok a, s) h = h.0
  Outcome-IsResult Q G p (err e, s) h = tt

  pub IsResult-imp :
      (Q R : A → Type 0) (x : Result A × Conn W)
      → ((a : A) → Q a → R a)
      → IsResult Q x
      → IsResult R x
  IsResult-imp Q R (ok a, s) f h = f a h
  IsResult-imp Q R (err e, s) f h = tt

module _ {W A B : Type 0} where
  pub and_then-IsResult :
      (Q : A → Type 0) (R : B → Type 0) (x : Result A × Conn W) (f : A → Call W B)
      → IsResult Q x
      → ((a : A) (s : Conn W) → Q a → IsResult R (f a s))
      → IsResult R (and_then x f)
  and_then-IsResult Q R (ok a, s) f h k = k a s h
  and_then-IsResult Q R (err e, s) f h k = tt

module _ {D F : Type 0} (name currency : String) where
  -- Prices for all of the coins.
  abbrev pub AreAll : List String → List (Price D F) → Type 0
  AreAll cs ps = AreQuotes name currency cs ps × (length ps ≡ length cs)

module _ {W D F : Type 0} (name currency : String) where
  one_by_one-AreAll :
      (get : String → Call W (Price D F))
      → ((c : String) (s : Conn W) → IsResult (IsQuote name c currency) (get c s))
      → (cs : List String) (s : Conn W) → IsResult (AreAll name currency cs) (one_by_one get cs s)
  unfolding one_by_one
  one_by_one-AreAll get h [] s = (none_left, refl)
  one_by_one-AreAll get h (c ∷ cs) s =
      and_then-IsResult (IsQuote name c currency) (AreAll name currency (c ∷ cs)) (get c s)
        (λ p. one_by_one get cs >>= λ ps. pure (p ∷ ps)) (h c s)
        λ p t q.
          and_then-IsResult (AreAll name currency cs) (AreAll name currency (c ∷ cs))
            (one_by_one get cs t) (λ ps. pure (p ∷ ps)) (one_by_one-AreAll get h cs t)
            λ ps u k. (answers q k.0, ap suc k.1)

  -- Prices for all are prices for one at least.
  pub one_by_one-AreServed :
      (get : String → Call W (Price D F))
      → ((c : String) (s : Conn W) → IsResult (IsQuote name c currency) (get c s))
      → (cs : List String) (s : Conn W)
      → IsResult (AreServed name currency cs) (one_by_one get cs s)
  one_by_one-AreServed get h cs s =
      IsResult-imp (AreAll name currency cs) (AreServed name currency cs) (one_by_one get cs s)
        (λ ps k. (k.0, λ pos. omega (arith, pos, k.1))) (one_by_one-AreAll get h cs s)

module _ {W P : Type 0} (Q : P → Type 0) (is_hard : Error → Bool) where
  caught-IsResult :
      (b : Bool) (e : Error) (s : Conn W)
      → IsResult (IsTurn Q) (if b then (err e, s) else (ok none, s))
  caught-IsResult true e s = tt
  caught-IsResult false e s = tt

  tried-IsResult : (x : Result P × Conn W) → IsResult Q x → IsResult (IsTurn Q) (caught is_hard x)
  tried-IsResult (ok p, s) h = h
  tried-IsResult (err e, s) h = caught-IsResult (is_hard e) e s

  attempt-IsResult :
      (m : Call W P) (s : Conn W) → IsResult Q (m s) → IsResult (IsTurn Q) (attempt is_hard m s)
  unfolding attempt
  attempt-IsResult m s h = tried-IsResult (m s) h

module _ {W D F : Type 0} (name currency : String) where
  gather-IsResult :
      (turn : String → Call W (Option (Price D F)))
      → ((c : String) (s : Conn W) → IsResult (IsTurnFor name currency c) (turn c s))
      → (cs : List String) (s : Conn W) → IsResult (AreQuotes name currency cs) (gather turn cs s)
  unfolding gather
  gather-IsResult turn h [] s = none_left
  gather-IsResult turn h (c ∷ cs) s =
      let Here = AreQuotes name currency (c ∷ cs) in
      and_then-IsResult (IsTurnFor name currency c) Here (turn c s)
        (λ p. gather turn cs >>= λ ps. pure (with_first p ps)) (h c s)
        λ p t turned.
          and_then-IsResult (AreQuotes name currency cs) Here (gather turn cs t)
            (λ ps. pure (with_first p ps)) (gather-IsResult turn h cs t)
            λ ps u quotes. with_first-AreQuotes name currency c p cs ps turned quotes

  some_or_none-IsResult :
      (good : List (Price D F) → Call W (List (Price D F)))
      → ((Q : List (Price D F) → Type 0) (ps : List (Price D F)) (s : Conn W)
          → Q ps
          → IsResult Q (good ps s))
      → (cs : List String) (ps : List (Price D F)) (s : Conn W) → AreQuotes name currency cs ps
      → IsResult (AreServed name currency cs) (some_or_none good cs ps s)
  unfolding some_or_none
  some_or_none-IsResult good h (c ∷ cs) [] s k = tt
  some_or_none-IsResult good h [] [] s k =
      h (AreServed name currency []) [] s (k, λ i. omega (arith, i))
  some_or_none-IsResult good h [] (p ∷ ps) s k =
      h (AreServed name currency []) (p ∷ ps) s (k, λ i. omega arith)
  some_or_none-IsResult good h (c ∷ cs) (p ∷ ps) s k =
      h (AreServed name currency (c ∷ cs)) (p ∷ ps) s (k, λ i. omega arith)

  -- The prices that are had one by one, if there is one.
  pub attempts-AreServed :
      (is_hard : Error → Bool) (get : String → Call W (Price D F))
      (good : List (Price D F) → Call W (List (Price D F)))
      → ((c : String) (s : Conn W) → IsResult (IsQuote name c currency) (get c s))
      → ((Q : List (Price D F) → Type 0) (ps : List (Price D F)) (s : Conn W)
          → Q ps
          → IsResult Q (good ps s))
      → (cs : List String) (s : Conn W)
      → IsResult
          (AreServed name currency cs)
          ((gather (λ c. attempt is_hard (get c)) cs >>= some_or_none good cs) s)
  attempts-AreServed is_hard get good h k cs s =
      and_then-IsResult (AreQuotes name currency cs) (AreServed name currency cs)
        (gather (λ c. attempt is_hard (get c)) cs s) (some_or_none good cs)
        (gather-IsResult (λ c. attempt is_hard (get c))
          (λ c t. attempt-IsResult (IsQuote name c currency) is_hard (get c) t (h c t)) cs s)
        λ ps t quotes. some_or_none-IsResult good k cs ps t quotes
