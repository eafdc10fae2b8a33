-- ===== src/Providers/Quotes/Served.antt =====
-- internal/adapter/provider: what GetPrice and GetPrices return in each shape.
use crypto_price_aggregator.Base.{
  ℕ, ◌≡◌, refl, sym, ap, ◌⊎◌, inl, inr, String, List, [], ◌∷◌, Option, none, some, ◌<◌, length,
  arith,
}
use crypto_price_aggregator.Domain.{Price, Result, ok, err, Error, wrapped, coin_not_found}
use crypto_price_aggregator.Providers.Reading.{Reading, found, skipped, refused}
use crypto_price_aggregator.Providers.Adapter.{
  Provider, failed, Runtime, Conn, Call, pure, ◌>>=◌, and_then, refuse, clock, fetch,
  response_error,
}
use crypto_price_aggregator.Providers.Adapter.Contract.{
  reported, reported_within, Outcome, IsSuccess, Anything, and_then-Outcome, refuse-Outcome,
  clock-Outcome, succeed-Outcome, fetch-Outcome,
}
use crypto_price_aggregator.Providers.Quotes.{
  Exchange, taken, with_first, gather, first_or, first_of, not_found, finish, quote, quote_each,
  quote_first,
}

-- A price from `name` for the coin and currency that were asked for, stamped once.
pub record IsQuote {D F : Type 0} (name coin currency : String) (p : Price D F) : Type 0 where
  pub for_coin : p.coin_id ≡ coin
  pub in_currency : p.currency ≡ currency
  pub from_provider : p.provider ≡ name
  pub stamped : p.received_at ≡ p.timestamp

-- The prices answer some of the coins, in their order and one price for a coin at most.
pub data AreQuotes {D F : Type 0} (name currency : String)
    : List String → List (Price D F) → Type 0 where
  none_left : AreQuotes name currency [] []
  left_out :
      (c : String) {cs : List String} {ps : List (Price D F)}
      → AreQuotes name currency cs ps
      → AreQuotes name currency (c ∷ cs) ps
  answers :
      {c : String} {cs : List String} {p : Price D F} {ps : List (Price D F)}
      → IsQuote name c currency p
      → AreQuotes name currency cs ps
      → AreQuotes name currency (c ∷ cs) (p ∷ ps)

-- A reading finds prices with `Q`.
module _ {P : Type 0} (Q : P → Type 0) where
  abbrev pub IsReading : Reading (ℕ → P) → Type 0
  IsReading (found price) = (now : ℕ) → Q (price now)
  IsReading skipped = Unit
  IsReading (refused recorded returned) =
      (returned ≡ recorded) ⊎ ((t : String) × (returned ≡ wrapped t recorded))

  -- The price of a turn, if there is one.
  abbrev pub IsTurn : Option P → Type 0
  IsTurn none = Unit
  IsTurn (some p) = Q p

module _ {W : Type 0} where
  pub refused-Outcome :
      {A : Type 0} (R : A → Type 0) (G : Provider → Type 0) (recorded returned : Error) (s : Conn W)
      → (returned ≡ recorded) ⊎ ((t : String) × (returned ≡ wrapped t recorded))
      → Outcome R G s.provider (refuse recorded returned s)
  unfolding refuse
  refused-Outcome R G recorded returned s (inl e) = reported (ap (λ d. failed d s.provider) (sym e))
  refused-Outcome R G recorded returned s (inr (t, e)) = reported_within t recorded e refl

module _ {W P : Type 0} (Q : P → Type 0) where
  pub taken-Outcome :
      (now : ℕ) (r : Reading (ℕ → P)) (s : Conn W)
      → IsReading Q r
      → Outcome (IsTurn Q) (λ q. q ≡ s.provider) s.provider (taken now r s)
  unfolding taken
  taken-Outcome now (found price) s h = (h now, refl)
  taken-Outcome now skipped s h = (tt, refl)
  taken-Outcome now (refused recorded returned) s h =
      refused-Outcome (IsTurn Q) (λ q. q ≡ s.provider) recorded returned s h

module _ {D F : Type 0} (name currency : String) where
  abbrev pub IsTurnFor : String → Option (Price D F) → Type 0
  IsTurnFor c = IsTurn (IsQuote name c currency)

  pub with_first-AreQuotes :
      (c : String) (p : Option (Price D F)) (cs : List String) (ps : List (Price D F))
      → IsTurnFor c p
      → AreQuotes name currency cs ps
      → AreQuotes name currency (c ∷ cs) (with_first p ps)
  with_first-AreQuotes c none cs ps h k = left_out c k
  with_first-AreQuotes c (some p) cs ps h k = answers h k

  only-IsQuote :
      {c : String} {p : Price D F} {ps : List (Price D F)}
      → AreQuotes name currency (c ∷ []) (p ∷ ps)
      → IsQuote name c currency p
  only-IsQuote (left_out c k) = elim k [ ]
  only-IsQuote (answers q k) = q

module _ {W D F : Type 0} (name currency : String) where
  -- The loop gives prices for the coins, if each turn gives one for its coin.
  pub gather-Outcome :
      (turn : String → Call W (Option (Price D F)))
      → ((c : String) (s : Conn W)
          → Outcome (IsTurnFor name currency c) (λ q. q ≡ s.provider) s.provider (turn c s))
      → (cs : List String) (s : Conn W)
      → Outcome (AreQuotes name currency cs) (λ q. q ≡ s.provider) s.provider (gather turn cs s)
  unfolding gather
  gather-Outcome turn h [] s = (none_left, refl)
  gather-Outcome turn h (c ∷ cs) s =
      let Here = AreQuotes name currency (c ∷ cs) in
      and_then-Outcome (IsTurnFor name currency c) Here (λ p q. q ≡ p) s.provider (turn c s)
        (λ p. gather turn cs >>= λ ps. pure (with_first p ps)) (h c s)
        λ p s' turned.
          and_then-Outcome (AreQuotes name currency cs) Here (λ p q. q ≡ p) s'.provider
            (gather turn cs s') (λ ps. pure (with_first p ps)) (gather-Outcome turn h cs s')
            λ ps t quotes. (with_first-AreQuotes name currency c p cs ps turned quotes, refl)

module _ {D F : Type 0} (name currency : String) where
  -- Prices for some of the coins, and for one of them at least.
  abbrev pub AreServed : List String → List (Price D F) → Type 0
  AreServed cs ps = AreQuotes name currency cs ps × (0 < length cs → 0 < length ps)

module _ {W D F : Type 0} (go : Runtime W D F) (name currency : String) where
  pub finish-Outcome :
      (cs : List String) (ps : List (Price D F)) (s : Conn W)
      → AreQuotes name currency cs ps
      → Outcome (AreServed name currency cs) (IsSuccess s.provider) s.provider (finish go cs ps s)
  unfolding finish
  finish-Outcome (c ∷ cs) [] s h =
      refuse-Outcome (AreServed name currency (c ∷ cs)) (IsSuccess s.provider) coin_not_found s
  finish-Outcome [] [] s h =
      succeed-Outcome go (AreServed name currency []) [] s (h, λ k. omega (arith, k))
  finish-Outcome [] (p ∷ ps) s h =
      succeed-Outcome go (AreServed name currency []) (p ∷ ps) s (h, λ k. omega arith)
  finish-Outcome (c ∷ cs) (p ∷ ps) s h =
      succeed-Outcome go (AreServed name currency (c ∷ cs)) (p ∷ ps) s (h, λ k. omega arith)

module _ {W D F : Type 0} (name currency : String) where
  first_or-Outcome :
      (missing : Call W (Price D F)) (G : Provider → Type 0) (c : String) (p : Provider)
      (x : Result (List (Price D F)) × Conn W)
      → Outcome (AreServed name currency (c ∷ [])) G p x
      → Outcome (IsQuote name c currency) G p (and_then x (first_or missing))
  unfolding first_or
  first_or-Outcome missing G c p (err e, s) h = h
  first_or-Outcome missing G c p (ok [], s) h = absurd (ground (arith, h.0.1 (omega arith)))
  first_or-Outcome missing G c p (ok (a ∷ ps), s) h = (only-IsQuote name currency h.0.0, h.1)

  pub first_of-Outcome :
      (missing : Call W (Price D F)) (get : List String → String → Call W (List (Price D F)))
      (c : String) (s : Conn W)
      → Outcome
          (AreServed name currency (c ∷ []))
          (IsSuccess s.provider)
          s.provider
          (get (c ∷ []) currency s)
      → Outcome
          (IsQuote name c currency)
          (IsSuccess s.provider)
          s.provider
          (first_of missing get c currency s)
  unfolding first_of
  first_of-Outcome missing get c s =
      first_or-Outcome missing (IsSuccess s.provider) c s.provider (get (c ∷ []) currency s)

module _ {D F R : Type 0} (x : Exchange D F R) where
  -- What is read from an answer is a price for the coin in the currency.
  abbrev pub IsSound : Type 0
  IsSound =
      (coin currency sym : String) (raw : R)
      → IsReading (IsQuote x.provider_name coin currency) (x.read coin currency sym raw)

module _ {W D F R : Type 0} (go : Runtime W D F) (x : Exchange D F R) (sound : IsSound x) where
  quote-Outcome :
      (now : ℕ) (currency c : String) (sym : Option String) (s : Conn W)
      → Outcome
          (IsTurnFor x.provider_name currency c)
          (λ q. q ≡ s.provider)
          s.provider
          (quote go x now currency c sym s)
  unfolding quote
  quote-Outcome now currency c none s = (tt, refl)
  quote-Outcome now currency c (some sym) s =
      and_then-Outcome Anything (IsTurnFor x.provider_name currency c) (λ p q. q ≡ p) s.provider
        (fetch go response_error x.decode (x.request s.provider.cfg c currency sym) s)
        (λ raw. taken now (x.read c currency sym raw))
        (fetch-Outcome go response_error x.decode (x.request s.provider.cfg c currency sym) s)
        λ raw t _.
          taken-Outcome (IsQuote x.provider_name c currency) now (x.read c currency sym raw) t
            (sound c currency sym raw)

  -- Prices for one coin after another: a success that the adapter reports, or a failure.
  pub quote_each-Outcome :
      (cs : List String) (currency : String) (s : Conn W)
      → Outcome
          (AreServed x.provider_name currency cs)
          (IsSuccess s.provider)
          s.provider
          (quote_each go x cs currency s)
  unfolding quote_each
  quote_each-Outcome cs currency s =
      let name = x.provider_name in
      let turn : ℕ → String → Call W (Option (Price D F)) =
        λ now c. quote go x now currency c (x.symbol c) in
      and_then-Outcome Anything (AreServed name currency cs) IsSuccess s.provider (clock go s)
        (λ now. gather (turn now) cs >>= finish go cs) (clock-Outcome go s)
        λ now s' _.
          and_then-Outcome (AreQuotes name currency cs) (AreServed name currency cs) IsSuccess
            s'.provider (gather (turn now) cs s') (finish go cs)
            (gather-Outcome name currency (turn now)
              (λ c t. quote-Outcome now currency c (x.symbol c) t) cs s')
            λ ps t quotes. finish-Outcome go name currency cs ps t quotes

  pub quote_first-Outcome :
      (c currency : String) (s : Conn W)
      → Outcome
          (IsQuote x.provider_name c currency)
          (IsSuccess s.provider)
          s.provider
          (quote_first go x c currency s)
  unfolding quote_first
  quote_first-Outcome c currency s =
      first_of-Outcome x.provider_name currency not_found (quote_each go x) c s
        (quote_each-Outcome (c ∷ []) currency s)
