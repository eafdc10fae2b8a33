-- ===== src/Providers/Quotes/Complete.antt =====
-- internal/adapter/provider: when GetPrices has a price for every coin.
use crypto_price_aggregator.Base.{
  ℕ, ◌≡◌, refl, sym, ap, subst, suc, String, List, [], ◌∷◌, Option, some, length, All, arith,
}
use crypto_price_aggregator.Domain.{Price, Result, ok, err}
use crypto_price_aggregator.Providers.Adapter.{
  Config, Answer, answered, Runtime, Conn, Call, pure, ◌>>=◌, and_then, clock, succeed, fetch,
  checked, decoded, received, response_error,
}
use crypto_price_aggregator.Providers.Adapter.Contract.{IsSuccess}
use crypto_price_aggregator.Providers.Reading.{found}
use crypto_price_aggregator.Providers.Quotes.{
  Exchange, taken, with_first, gather, finish, quote, quote_each,
}
use crypto_price_aggregator.Providers.Quotes.Served.{AreServed, IsSound, quote_each-Outcome}
use crypto_price_aggregator.Providers.Quotes.Asked.{IsResult, Outcome-IsResult}

-- There is a result, and it has `Q`.
module _ {W A : Type 0} where
  abbrev pub IsOk : (A → Type 0) → Result A × Conn W → Type 0
  IsOk Q (ok a, s) = Q a
  IsOk Q (err e, s) = ⊥

  IsOk-and :
      (Q R : A → Type 0) (x : Result A × Conn W) → IsOk Q x → IsResult R x → IsOk (λ a. R a × Q a) x
  IsOk-and Q R (ok a, s) h k = (k, h)
  IsOk-and Q R (err e, s) h k = absurd h

module _ {W A B : Type 0} where
  and_then-IsOk :
      (Q : A → Type 0) (R : B → Type 0) (x : Result A × Conn W) (f : A → Call W B)
      → IsOk Q x
      → ((a : A) (s : Conn W) → Q a → IsOk R (f a s))
      → IsOk R (and_then x f)
  and_then-IsOk Q R (ok a, s) f h k = k a s h
  and_then-IsOk Q R (err e, s) f h k = absurd h

module _ {W D F R : Type 0} (go : Runtime W D F) (x : Exchange D F R) (currency : String) where
  abbrev IsSome : Option (Price D F) → Type 0
  IsSome o = (price : Price D F) × (o ≡ some price)

  -- The exchange knows the coin and answers any request for it with a body in which a price is read.
  abbrev pub HasPrice : String → Type 0
  HasPrice c =
      (sym : String) × (x.symbol c ≡ some sym)
      × ((cfg : Config) (w : W)
          → (body : String) × (raw : R) × (price : ℕ → Price D F) × ((go.send
                (x.request cfg c currency sym) w).0
              ≡ answered 200 body)
            × (x.decode body ≡ ok raw)
            × (x.read c currency sym raw ≡ found price))

  abbrev IsPriced : String → String → R → Type 0
  IsPriced c sym raw = (price : ℕ → Price D F) × (x.read c currency sym raw ≡ found price)

  received-IsOk :
      (Q : R → Type 0) (a : Answer) (body : String) (raw : R) (s : Conn W)
      → a ≡ answered 200 body
      → x.decode body ≡ ok raw
      → Q raw
      → IsOk Q (received response_error x.decode a s)
  unfolding received checked decoded response_error
  received-IsOk Q a body raw s e d q =
      subst (λ b. IsOk Q (received response_error x.decode b s)) (sym e)
        (subst (λ r. IsOk Q (decoded r s)) (sym d) q)

  quote-IsOk :
      (now : ℕ) (c word : String) (s : Conn W)
      → ((cfg : Config) (w : W)
          → (body : String) × (raw : R) × (price : ℕ → Price D F) × ((go.send
                (x.request cfg c currency word)
                w).0
              ≡ answered 200 body)
            × (x.decode body ≡ ok raw)
            × (x.read c currency word raw ≡ found price))
      → IsOk IsSome (quote go x now currency c (some word) s)
  unfolding quote fetch taken
  quote-IsOk now c word s h =
      let req = x.request s.provider.cfg c currency word in
      let (body, raw, price, sent, read_body, read_price) = h s.provider.cfg s.world in
      and_then-IsOk (IsPriced c word) IsSome (fetch go response_error x.decode req s)
        (λ raw. taken now (x.read c currency word raw))
        (received-IsOk (IsPriced c word) (go.send req s.world).0 body raw
          (record s { world = (go.send req s.world).1 }) sent read_body (price, read_price))
        λ raw t p. subst (λ r. IsOk IsSome (taken now r t)) (sym p.1) (p.0 now, refl)

  -- A call for the coins has a price for each.
  abbrev IsFull : List String → List (Price D F) → Type 0
  IsFull cs ps = length ps ≡ length cs

  gather-IsOk :
      (now : ℕ) (cs : List String) (s : Conn W)
      → All HasPrice cs
      → IsOk (IsFull cs) (gather (λ c. quote go x now currency c (x.symbol c)) cs s)
  unfolding gather
  gather-IsOk now [] s h = refl
  gather-IsOk now (c ∷ cs) s h =
      let turn : String → Call W (Option (Price D F)) =
        λ c. quote go x now currency c (x.symbol c) in
      and_then-IsOk IsSome (IsFull (c ∷ cs)) (turn c s)
        (λ p. gather turn cs >>= λ ps. pure (with_first p ps))
        (subst (λ o. IsOk IsSome (quote go x now currency c o s)) (sym h.0.1)
          (quote-IsOk now c h.0.0 s h.0.2))
        λ p t here.
          and_then-IsOk (IsFull cs) (IsFull (c ∷ cs)) (gather turn cs t)
            (λ ps. pure (with_first p ps)) (gather-IsOk now cs t h.1)
            λ ps u full.
              subst (λ o. length (with_first o ps) ≡ suc (length cs)) (sym here.1) (ap suc full)

  finish-IsOk :
      (cs : List String) (ps : List (Price D F)) (s : Conn W)
      → IsFull cs ps
      → IsOk (IsFull cs) (finish go cs ps s)
  unfolding finish succeed
  finish-IsOk [] [] s h = h
  finish-IsOk (c ∷ cs) [] s h = absurd (omega (arith, h))
  finish-IsOk [] (p ∷ ps) s h = h
  finish-IsOk (c ∷ cs) (p ∷ ps) s h = h

  quote_each-IsOk :
      (cs : List String) (s : Conn W)
      → All HasPrice cs
      → IsOk (IsFull cs) (quote_each go x cs currency s)
  unfolding quote_each clock
  quote_each-IsOk cs s h =
      let now : ℕ = (go.now s.world).0 in
      let turn : String → Call W (Option (Price D F)) =
        λ c. quote go x now currency c (x.symbol c) in
      let t : Conn W = record s { world = (go.now s.world).1 } in
      and_then-IsOk (IsFull cs) (IsFull cs) (gather turn cs t) (finish go cs)
        (gather-IsOk now cs t h) λ ps u full. finish-IsOk cs ps u full

  -- If the exchange knows each of the coins and answers every request for one with status 200 and a body in
  -- which its package reads a price, then GetPrices returns prices for all of the coins, in their order.
  pub quote_each_complete :
      IsSound x
      → (cs : List String) (s : Conn W) → All HasPrice cs
      → IsOk
          (λ ps. AreServed x.provider_name currency cs ps × (length ps ≡ length cs))
          (quote_each go x cs currency s)
  quote_each_complete sound cs s h =
      IsOk-and (IsFull cs) (AreServed x.provider_name currency cs) (quote_each go x cs currency s)
        (quote_each-IsOk cs s h)
        (Outcome-IsResult (AreServed x.provider_name currency cs) (IsSuccess s.provider) s.provider
          (quote_each go x cs currency s) (quote_each-Outcome go x sound cs currency s))
