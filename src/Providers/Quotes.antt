-- ===== src/Providers/Quotes.antt =====
-- internal/adapter/provider: GetPrice and GetPrices in the shapes that the packages repeat. Most ask the
-- exchange for one coin after another and leave out the coins that it does not know; some read all
-- prices from one answer; some take one coin, and GetPrices calls GetPrice for each.
pub mod Served
pub mod Asked
pub mod Relabelled
pub mod Complete
use crypto_price_aggregator.Base.{ℕ, Bool, if◌then◌else◌, String, List, [], ◌∷◌, Option, none, some}
use crypto_price_aggregator.Domain.{Price, Result, ok, err, Error, coin_not_found}
use crypto_price_aggregator.Domain.Numeric.{Decimal, Float}
use crypto_price_aggregator.Providers.Reading.{Reading, found, skipped, refused}
use crypto_price_aggregator.Providers.Adapter.{
  Config, Request, Runtime, Conn, Call, pure, ◌>>=◌, and_then, throw, refuse, config, clock,
  succeed, fetch, response_error,
}

-- What is its own in the package of an exchange: its word for a coin (`symbol`), and the request, from the
-- configuration, the coin, the currency and that word; `read` gives the price at a time, from the coin, the
-- currency, the exchange's word for the coin, and the decoded answer.
pub record Exchange (D F R : Type 0) : Type 0 where
  pub provider_name : String
  pub symbol : String → Option String
  pub request : Config → String → String → String → Request
  pub decode : String → Result R
  pub read : String → String → String → R → Reading (ℕ → Price D F)

-- A price with the fields that every adapter sets, and zero for the others.
module _ {D F : Type 0} ⦃dec : Decimal D⦄ ⦃fl : Float F⦄ where
  abbrev pub quoted : String → String → String → D → ℕ → Price D F
  quoted name coin_id currency value now = record {
    coin_id = coin_id;
    currency = currency;
    value = value;
    provider = name;
    timestamp = now;
    received_at = now;
    market_cap = dec.zero;
    volume_24h = dec.zero;
    change_24h = fl.of_int 0;
  }

abbrev pub with_first : {P : Type 0} → Option P → List P → List P
with_first none ps = ps
with_first (some p) ps = p ∷ ps

module _ {W P : Type 0} where
  unfoldable pub taken : ℕ → Reading (ℕ → P) → Call W (Option P)
  taken now (found price) = pure (some (price now))
  taken now skipped = pure none
  taken now (refused recorded returned) = refuse recorded returned

  -- The loop over the coins, with `continue` where a turn gives `none`.
  unfoldable pub gather : (String → Call W (Option P)) → List String → Call W (List P)
  gather turn [] = pure []
  gather turn (c ∷ cs) = do p ← turn c; ps ← gather turn cs; pure (with_first p ps)

  unfoldable pub first_or : Call W P → List P → Call W P
  first_or missing [] = missing
  first_or missing (p ∷ ps) = pure p

  -- GetPrice, where it calls GetPrices for one coin; `missing` is for a result without prices.
  unfoldable pub first_of :
      Call W P → (List String → String → Call W (List P)) → String → String → Call W P
  unfolding first_or
  first_of missing get coin_id currency = do
    prices ← get (coin_id ∷ []) currency
    first_or missing prices

  abbrev pub not_found : Call W P
  not_found = refuse coin_not_found coin_not_found

-- A loop that goes on after an error.
module _ {W P : Type 0} where
  abbrev pub caught : (Error → Bool) → Result P × Conn W → Result (Option P) × Conn W
  caught is_hard (ok p, s) = (ok (some p), s)
  caught is_hard (err e, s) = if is_hard e then (err e, s) else (ok none, s)

  -- A call whose errors, but for the hard ones, leave a coin out.
  unfoldable pub attempt : (Error → Bool) → Call W P → Call W (Option P)
  attempt is_hard m s = caught is_hard (m s)

  -- No price for the coins is an error, which is not recorded; `good` ends a call with prices.
  unfoldable pub some_or_none : (List P → Call W (List P)) → List String → List P → Call W (List P)
  some_or_none good (c ∷ cs) [] = throw coin_not_found
  some_or_none good [] [] = good []
  some_or_none good cs (p ∷ ps) = good (p ∷ ps)

-- The end of GetPrices.
module _ {W D F : Type 0} (go : Runtime W D F) {P : Type 0} where
  unfoldable pub finish : List String → List P → Call W (List P)
  finish (c ∷ cs) [] = refuse coin_not_found coin_not_found
  finish [] [] = succeed go []
  finish cs (p ∷ ps) = succeed go (p ∷ ps)

module _ {W D F R : Type 0} (go : Runtime W D F) (x : Exchange D F R) where
  -- A turn of the loop, for a coin with its symbol.
  unfoldable pub quote : ℕ → String → String → Option String → Call W (Option (Price D F))
  unfolding taken
  quote now currency coin_id none = pure none
  quote now currency coin_id (some sym) = do
    cfg ← config
    raw ← fetch go response_error x.decode (x.request cfg coin_id currency sym)
    taken now (x.read coin_id currency sym raw)

  unfoldable pub quote_each : List String → String → Call W (List (Price D F))
  unfolding quote gather finish
  quote_each coin_ids currency = do
    now ← clock go
    prices ← gather (λ c. quote now currency c (x.symbol c)) coin_ids
    finish go coin_ids prices

  unfoldable pub quote_first : String → String → Call W (Price D F)
  unfolding first_of quote_each
  quote_first = first_of not_found quote_each

-- One answer for all coins: `read` gives a coin's price.
module _ {W D F R : Type 0} (go : Runtime W D F) where
  unfoldable pub quote_all :
      (Config → Request)
      → (String → Result R)
      → (R → String → Reading (ℕ → Price D F))
      → List String
      → Call W (List (Price D F))
  unfolding taken gather finish
  quote_all request decode read coin_ids = do
    cfg ← config
    raw ← fetch go response_error decode (request cfg)
    now ← clock go
    prices ← gather (λ c. taken now (read raw c)) coin_ids
    finish go coin_ids prices

-- One coin: GetPrice for a coin with its symbol, with the package's test of the status.
module _ {W D F R : Type 0} (go : Runtime W D F) (check : ℕ → Option Error)
    (x : Exchange D F R) where
  unfoldable pub priced : Reading (ℕ → Price D F) → Call W (Price D F)
  priced (found price) = do now ← clock go; succeed go (price now)
  priced skipped = refuse coin_not_found coin_not_found
  priced (refused recorded returned) = refuse recorded returned

  unfoldable pub ask_known : String → String → Option String → Call W (Price D F)
  unfolding priced
  ask_known coin_id currency none = refuse coin_not_found coin_not_found
  ask_known coin_id currency (some sym) = do
    cfg ← config
    raw ← fetch go check x.decode (x.request cfg coin_id currency sym)
    priced (x.read coin_id currency sym raw)

  unfoldable pub ask : String → String → Call W (Price D F)
  unfolding ask_known
  ask coin_id currency = ask_known coin_id currency (x.symbol coin_id)

-- GetPrices, where it calls GetPrice for each coin and ends at the first error.
module _ {W P : Type 0} where
  unfoldable pub one_by_one : (String → Call W P) → List String → Call W (List P)
  one_by_one get [] = pure []
  one_by_one get (c ∷ cs) = do p ← get c; ps ← one_by_one get cs; pure (p ∷ ps)
