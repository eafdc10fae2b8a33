-- ===== src/Exchanges/Coinpaprika.antt =====
-- internal/adapter/provider/coinpaprika/coinpaprika.go
use Prim.Native.String.{◌++◌}
use crypto_price_aggregator.Base.{
  ℕ, refl, sym, false, not, String, List, Option, none, some, if◌then◌else◌, ◌==◌, leb,
}
use crypto_price_aggregator.Base.Dict.{lookup}
use crypto_price_aggregator.Domain.{
  Price, ProviderStatus, Result, Error, message, rate_limited, provider_down, coin_not_found,
}
use crypto_price_aggregator.Domain.Numeric.{Decimal, Float, Conversion}
use crypto_price_aggregator.Providers.Adapter.{
  Config, Provider, Request, get_request, Runtime, Conn, Call, pure, status_of,
}
use crypto_price_aggregator.Providers.Adapter.Contract.{IsSuccess, Outcome}
use crypto_price_aggregator.Providers.Quotes.{Exchange, quoted, ask, gather, attempt, some_or_none}
use crypto_price_aggregator.Providers.Quotes.Served.{IsQuote}
use crypto_price_aggregator.Providers.Quotes.Asked.{
  Outcome-IsResult, ask-Outcome, attempts-AreServed,
}
use crypto_price_aggregator.Providers.Interface.{PriceProvider, IsPriceProvider}
use crypto_price_aggregator.Providers.Adapter.{◌>>=◌}
use crypto_price_aggregator.Providers.Reading.{Reading, found, skipped, Reads}

pub record TickerQuote (F : Type 0) : Type 0 where
  pub price : F

pub record TickerResponse (F : Type 0) : Type 0 where
  pub id : String
  pub quotes : List (String × TickerQuote F)

-- The remaining rate is left out.
unfoldable pub status : Provider → ProviderStatus
unfolding status_of
status p = record (status_of "coinpaprika" p) { remaining_rate = 0 }

-- A status of 401 or 403 is not told from other unexpected ones.
unfoldable pub ticker_error : ℕ → Option Error
ticker_error code =
    if code == 404
    then some coin_not_found
    else if code == 429
    then some rate_limited
    else if leb 500 code
    then some provider_down
    else if not (code == 200)
    then some (message "unexpected status")
    else none

module _ {W D F : Type 0} ⦃dec : Decimal D⦄ ⦃fl : Float F⦄ ⦃conv : Conversion D F⦄
    (go : Runtime W D F) (decode : String → Result (TickerResponse F)) where
  unfoldable request : Config → String → String → String → Request
  request cfg coin_id currency sym =
      get_request
        (cfg.base_url ++ ("/v1/tickers/" ++ (coin_id ++ ("?quotes=" ++ go.to_upper currency))))

  abbrev quote_reading : String → String → Option (TickerQuote F) → Reading (ℕ → Price D F)
  quote_reading coin_id currency none = skipped
  quote_reading coin_id currency (some quote) =
      found λ now. quoted "coinpaprika" coin_id currency (conv.from_float quote.price) now

  unfoldable read : String → String → String → TickerResponse F → Reading (ℕ → Price D F)
  read coin_id currency sym raw =
      quote_reading coin_id currency (lookup (go.to_upper currency) raw.quotes)

  abbrev exchange : Exchange D F (TickerResponse F)
  exchange = record {
    provider_name = "coinpaprika";
    symbol = some;
    request = request;
    decode = decode;
    read = read;
  }

  unfoldable pub get_price : String → String → Call W (Price D F)
  unfolding request read
  get_price = ask go ticker_error exchange

  -- Any error leaves a coin out.
  unfoldable pub get_prices : List String → String → Call W (List (Price D F))
  unfolding get_price
  get_prices coin_ids currency =
      gather (λ c. attempt (λ _. false) (get_price c currency)) coin_ids
      >>= some_or_none pure coin_ids

  abbrev pub provider : PriceProvider W D F
  provider = record {
    name = "coinpaprika";
    status = status;
    get_price = get_price;
    get_prices = get_prices;
  }

  quote_reading-Reads :
      (coin currency : String) (o : Option (TickerQuote F))
      → Reads
          (λ price. (now : ℕ) → IsQuote "coinpaprika" coin currency (price now))
          (quote_reading coin currency o)
  quote_reading-Reads coin currency none = tt
  quote_reading-Reads coin currency (some quote) =
      λ now. record { for_coin = refl; in_currency = refl; from_provider = refl; stamped = refl }

  get_price-Outcome :
      (coin currency : String) (s : Conn W)
      → Outcome
          (IsQuote "coinpaprika" coin currency)
          (IsSuccess s.provider)
          s.provider
          (get_price coin currency s)
  unfolding get_price read
  get_price-Outcome coin currency s =
      ask-Outcome go ticker_error exchange
        (λ c cur sym raw. quote_reading-Reads c cur (lookup (go.to_upper cur) raw.quotes)) coin
        currency s

  pub provider-IsPriceProvider : IsPriceProvider provider
  unfolding get_prices status status_of
  provider-IsPriceProvider = record {
    reports_name = λ q. refl;
    reports_error = λ q. refl;
    serves = get_price-Outcome;
    serves_all = λ coins currency s.
        attempts-AreServed "coinpaprika" currency (λ _. false) (λ c. get_price c currency) pure
          (λ c t.
            Outcome-IsResult (IsQuote "coinpaprika" c currency) (IsSuccess t.provider) t.provider
              (get_price c currency t) (get_price-Outcome c currency t))
          (λ Q ps t h. h) coins s;
  }
