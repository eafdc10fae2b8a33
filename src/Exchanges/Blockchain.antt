-- ===== src/Exchanges/Blockchain.antt =====
-- internal/adapter/provider/blockchain/blockchain.go: the price of bitcoin alone.
use Prim.Native.String.{◌++◌}
use crypto_price_aggregator.Base.{
  ℕ, refl, Bool, true, false, ◌&&◌, String, List, [], ◌∷◌, Option, none, some, str_eq,
  if◌then◌else◌, map, keep_if, arith,
}
use crypto_price_aggregator.Base.Dict.{lookup}
use crypto_price_aggregator.Domain.{Price, ProviderStatus, Result, coin_not_found}
use crypto_price_aggregator.Domain.Numeric.{Decimal, Float, Conversion}
use crypto_price_aggregator.Providers.Adapter.{
  Provider, get_request, Runtime, Conn, Call, config, clock, succeed, fetch, status_of,
  response_error,
}
use crypto_price_aggregator.Providers.Adapter.Contract.{
  IsSuccess, Outcome, Anything, and_then-Outcome, refuse-Outcome, clock-Outcome, succeed-Outcome,
  fetch-Outcome,
}
use crypto_price_aggregator.Providers.Quotes.{quoted, first_of, not_found}
use crypto_price_aggregator.Providers.Quotes.Served.{
  AreServed, AreQuotes, first_of-Outcome, none_left, left_out, answers,
}
use crypto_price_aggregator.Providers.Quotes.Asked.{Outcome-IsResult}
use crypto_price_aggregator.Providers.Interface.{PriceProvider, IsPriceProvider}
use crypto_price_aggregator.Providers.Adapter.{◌>>=◌}

pub record BlockchainEntry (F : Type 0) : Type 0 where
  pub last : F
  pub buy : F
  pub sell : F
  pub symbol : String

unfoldable pub status : Provider → ProviderStatus
unfolding status_of
status = status_of "blockchain"

module _ {W D F : Type 0} ⦃dec : Decimal D⦄ ⦃fl : Float F⦄ ⦃conv : Conversion D F⦄
    (go : Runtime W D F) (decode : String → Result (List (String × BlockchainEntry F))) where
  abbrev is_bitcoin : String → Bool
  is_bitcoin id = str_eq (go.to_lower id) "bitcoin"

  abbrev price_of : String → F → ℕ → String → Price D F
  price_of currency last now coin_id =
      quoted "blockchain" coin_id currency (conv.from_float last) now

  -- The price in the currency, if it is there and not 0.
  abbrev last_price : Option (BlockchainEntry F) → Option F
  last_price none = none
  last_price (some e) =
      if fl.le e.last (fl.of_int 0) && fl.le (fl.of_int 0) e.last then none else some e.last

  unfoldable price_all : String → List String → Option F → Call W (List (Price D F))
  price_all currency valid none = not_found
  price_all currency valid (some last) = do
    now ← clock go
    succeed go (map (price_of currency last now) valid)

  unfoldable ask_valid : List String → String → Call W (List (Price D F))
  unfolding price_all
  ask_valid [] currency = not_found
  ask_valid (c ∷ cs) currency = do
    cfg ← config
    raw ← fetch go response_error decode (get_request (cfg.base_url ++ "/ticker"))
    price_all currency (c ∷ cs) (last_price (lookup (go.to_upper currency) raw))

  unfoldable pub get_prices : List String → String → Call W (List (Price D F))
  unfolding ask_valid
  get_prices coin_ids currency = ask_valid (keep_if is_bitcoin coin_ids) currency

  unfoldable pub get_price : String → String → Call W (Price D F)
  unfolding get_prices
  get_price = first_of not_found get_prices

  abbrev pub provider : PriceProvider W D F
  provider = record {
    name = "blockchain";
    status = status;
    get_price = get_price;
    get_prices = get_prices;
  }

  -- The prices are for the coins that are bitcoin, and there is one.
  module _ (currency : String) where
    abbrev Quotes : List String → List (Price D F) → Type 0
    Quotes = AreQuotes "blockchain" currency

    kept-AreQuotes :
        (last : F) (now : ℕ) (b : Bool) (c : String) (cs valid : List String)
        → Quotes cs (map (price_of currency last now) valid)
        → Quotes (c ∷ cs) (map (price_of currency last now) (if b then c ∷ valid else valid))
    kept-AreQuotes last now true c cs valid h =
        answers record { for_coin = refl; in_currency = refl; from_provider = refl; stamped = refl }
          h
    kept-AreQuotes last now false c cs valid h = left_out c h

    keep_if-AreQuotes :
        (last : F) (now : ℕ) (cs : List String)
        → Quotes cs (map (price_of currency last now) (keep_if is_bitcoin cs))
    keep_if-AreQuotes last now [] = none_left
    keep_if-AreQuotes last now (c ∷ cs) =
        kept-AreQuotes last now (is_bitcoin c) c cs (keep_if is_bitcoin cs)
          (keep_if-AreQuotes last now cs)

    price_all-Outcome :
        (cs : List String) (c : String) (valid : List String) (o : Option F) (s : Conn W)
        → ((last : F) (now : ℕ) → Quotes cs (map (price_of currency last now) (c ∷ valid)))
        → Outcome
            (AreServed "blockchain" currency cs)
            (IsSuccess s.provider)
            s.provider
            (price_all currency (c ∷ valid) o s)
    unfolding price_all
    price_all-Outcome cs c valid none s h =
        refuse-Outcome (AreServed "blockchain" currency cs) (IsSuccess s.provider) coin_not_found s
    price_all-Outcome cs c valid (some last) s h =
        let prices : ℕ → List (Price D F) = λ now. map (price_of currency last now) (c ∷ valid) in
        and_then-Outcome Anything (AreServed "blockchain" currency cs) IsSuccess s.provider
          (clock go s) (λ now. succeed go (prices now)) (clock-Outcome go s)
          λ now t _.
            succeed-Outcome go (AreServed "blockchain" currency cs) (prices now) t
              (h last now, λ k. omega arith)

    ask_valid-Outcome :
        (cs valid : List String) (s : Conn W)
        → ((last : F) (now : ℕ) → Quotes cs (map (price_of currency last now) valid))
        → Outcome
            (AreServed "blockchain" currency cs)
            (IsSuccess s.provider)
            s.provider
            (ask_valid valid currency s)
    unfolding ask_valid
    ask_valid-Outcome cs [] s h =
        refuse-Outcome (AreServed "blockchain" currency cs) (IsSuccess s.provider) coin_not_found s
    ask_valid-Outcome cs (c ∷ valid) s h =
        let req = get_request (s.provider.cfg.base_url ++ "/ticker") in
        and_then-Outcome Anything (AreServed "blockchain" currency cs) IsSuccess s.provider
          (fetch go response_error decode req s)
          (λ raw. price_all currency (c ∷ valid) (last_price (lookup (go.to_upper currency) raw)))
          (fetch-Outcome go response_error decode req s)
          λ raw t _.
            price_all-Outcome cs c valid (last_price (lookup (go.to_upper currency) raw)) t h

    get_prices-Outcome :
        (cs : List String) (s : Conn W)
        → Outcome
            (AreServed "blockchain" currency cs)
            (IsSuccess s.provider)
            s.provider
            (get_prices cs currency s)
    unfolding get_prices
    get_prices-Outcome cs s =
        ask_valid-Outcome cs (keep_if is_bitcoin cs) s (λ last now. keep_if-AreQuotes last now cs)

  pub provider-IsPriceProvider : IsPriceProvider provider
  unfolding get_price status status_of
  provider-IsPriceProvider = record {
    reports_name = λ q. refl;
    reports_error = λ q. refl;
    serves = λ coin currency s.
        first_of-Outcome "blockchain" currency not_found get_prices coin s
          (get_prices-Outcome currency (coin ∷ []) s);
    serves_all = λ coins currency s.
        Outcome-IsResult (AreServed "blockchain" currency coins) (IsSuccess s.provider) s.provider
          (get_prices coins currency s) (get_prices-Outcome currency coins s);
  }
