-- ===== src/Providers/Quotes/Relabelled.antt =====
-- internal/adapter/provider: packages that take one coin and do not look at the currency.
use crypto_price_aggregator.Base.{ℕ, ◌≡◌, refl, sym, ap, ◌∙◌, String, Option, none, some}
use crypto_price_aggregator.Domain.{Price, Result, ok, err, Error}
use crypto_price_aggregator.Providers.Adapter.{
  Config, Runtime, Conn, Call, and_then, refuse, clock, succeed, fetch,
}
use crypto_price_aggregator.Providers.Reading.{Reading, found, skipped, refused, ◌>>=◌}
use crypto_price_aggregator.Providers.Quotes.{Exchange, priced, ask_known, ask}

abbrev pub relabel : {D F : Type 0} → String → Price D F → Price D F
relabel currency p = record p { currency = currency }

-- The same result, with another currency written on the price.
module _ {W D F : Type 0} where
  abbrev pub relabelled : String → Result (Price D F) × Conn W → Result (Price D F) × Conn W
  relabelled currency (ok p, s) = (ok (relabel currency p), s)
  relabelled currency (err e, s) = (err e, s)

module _ {D F : Type 0} where
  unfoldable pub relabel_reading : String → Reading (ℕ → Price D F) → Reading (ℕ → Price D F)
  relabel_reading currency (found price) = found λ now. relabel currency (price now)
  relabel_reading currency skipped = skipped
  relabel_reading currency (refused recorded returned) = refused recorded returned

  pub >>=-relabel_reading :
      {A : Type 0} (currency : String) (m : Reading A) (f g : A → Reading (ℕ → Price D F))
      → ((a : A) → f a ≡ relabel_reading currency (g a))
      → m >>= f ≡ relabel_reading currency (m >>= g)
  unfolding ◌>>=◌ relabel_reading
  >>=-relabel_reading currency (found a) f g h = h a
  >>=-relabel_reading currency skipped f g h = refl
  >>=-relabel_reading currency (refused r e) f g h = refl

module _ {W D F A : Type 0} where
  and_then-relabelled :
      (currency : String) (x : Result A × Conn W) (f g : A → Call W (Price D F))
      → ((a : A) (s : Conn W) → f a s ≡ relabelled currency (g a s))
      → and_then x f ≡ relabelled currency (and_then x g)
  and_then-relabelled currency (ok a, s) f g h = h a s
  and_then-relabelled currency (err e, s) f g h = refl

module _ {W D F R : Type 0} (go : Runtime W D F) (check : ℕ → Option Error)
    (x : Exchange D F R) where
  priced-relabelled :
      (currency : String) (r : Reading (ℕ → Price D F)) (s : Conn W)
      → priced go check x (relabel_reading currency r) s
        ≡ relabelled currency (priced go check x r s)
  unfolding priced relabel_reading clock succeed refuse
  priced-relabelled currency (found price) s = refl
  priced-relabelled currency skipped s = refl
  priced-relabelled currency (refused recorded returned) s = refl

  module _ (c d : String)
      (same_request : (cfg : Config) (coin sym : String)
        → x.request cfg coin c sym ≡ x.request cfg coin d sym)
      (same_reading : (coin sym : String) (raw : R)
        → x.read coin c sym raw ≡ relabel_reading c (x.read coin d sym raw)) where
    ask_known-relabelled :
        (coin : String) (o : Option String) (s : Conn W)
        → ask_known go check x coin c o s ≡ relabelled c (ask_known go check x coin d o s)
    unfolding ask_known refuse
    ask_known-relabelled coin none s = refl
    ask_known-relabelled coin (some sym) s =
        ap
          (λ req.
            and_then (fetch go check x.decode req s)
              λ raw. priced go check x (x.read coin c sym raw))
          (same_request s.provider.cfg coin sym)
        ∙ and_then-relabelled c (fetch go check x.decode (x.request s.provider.cfg coin d sym) s)
            (λ raw. priced go check x (x.read coin c sym raw))
            (λ raw. priced go check x (x.read coin d sym raw))
            λ raw t.
              ap (λ r. priced go check x r t) (same_reading coin sym raw)
              ∙ priced-relabelled c (x.read coin d sym raw) t

    -- A package that neither asks nor reads in a currency gives the same price in any.
    pub ask-relabelled :
        (coin : String) (s : Conn W)
        → ask go check x coin c s ≡ relabelled c (ask go check x coin d s)
    unfolding ask
    ask-relabelled coin s = ask_known-relabelled coin (x.symbol coin) s
