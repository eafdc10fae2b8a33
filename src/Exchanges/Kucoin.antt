-- ===== src/Exchanges/Kucoin.antt =====
-- internal/adapter/provider/kucoin/kucoin.go
use Prim.Native.String.{◌++◌}
use crypto_price_aggregator.Base.{ℕ, refl, String, List, [], ◌∷◌, str_eq}
use crypto_price_aggregator.Base.Int.{ℤ}
use crypto_price_aggregator.Base.Dict.{lookup}
use crypto_price_aggregator.Domain.{Price, ProviderStatus, Result}
use crypto_price_aggregator.Domain.Numeric.{Decimal, Float, Conversion}
use crypto_price_aggregator.Providers.Adapter.{
  Config, Provider, Request, get_request, Runtime, Call, status_of, response_error,
}
use crypto_price_aggregator.Providers.Reading.{
  Reading, found, ◌>>=◌, ◌>>◌, or_refuse, or_refuse-IsStep, skip_if, skip_if-IsStep, >>=-Reads,
}
use crypto_price_aggregator.Providers.Quotes.{Exchange, quoted, ask, one_by_one}
use crypto_price_aggregator.Providers.Quotes.Served.{IsSound}
use crypto_price_aggregator.Providers.Interface.{
  PriceProvider, IsPriceProvider, ask-IsPriceProvider,
}

abbrev coin_symbols : List (String × String)
coin_symbols = ("bitcoin", "BTC") ∷ ("ethereum", "ETH") ∷ ("solana", "SOL") ∷ []

pub record OrderBook : Type 0 where
  pub price : String
  pub time : ℤ

pub record OrderBookResponse : Type 0 where
  pub code : String
  pub «data» : OrderBook

unfoldable pub status : Provider → ProviderStatus
unfolding status_of
status = status_of "kucoin"

module _ {W D F : Type 0} ⦃dec : Decimal D⦄ ⦃fl : Float F⦄ ⦃conv : Conversion D F⦄
    (go : Runtime W D F) (decode : String → Result OrderBookResponse) where
  unfoldable request : Config → String → String → String → Request
  request cfg coin_id currency sym = get_request (
      cfg.base_url
      ++ ("/api/v1/market/orderbook/level1?symbol=" ++ (sym ++ ("-" ++ go.to_upper currency))))

  unfoldable read : String → String → String → OrderBookResponse → Reading (ℕ → Price D F)
  read coin_id currency sym raw = do
    skip_if (str_eq raw.«data».price "")
    value ← or_refuse "parsing price" (go.new_from_string raw.«data».price)
    found λ now. quoted "kucoin" coin_id currency value now

  abbrev exchange : Exchange D F OrderBookResponse
  exchange = record {
    provider_name = "kucoin";
    symbol = λ coin_id. lookup coin_id coin_symbols;
    request = request;
    decode = decode;
    read = read;
  }

  unfoldable pub get_price : String → String → Call W (Price D F)
  unfolding request read
  get_price = ask go response_error exchange

  unfoldable pub get_prices : List String → String → Call W (List (Price D F))
  unfolding get_price
  get_prices coin_ids currency = one_by_one (λ c. get_price c currency) coin_ids

  abbrev pub provider : PriceProvider W D F
  provider = record {
    name = "kucoin";
    status = status;
    get_price = get_price;
    get_prices = get_prices;
  }

  exchange-IsSound : IsSound exchange
  unfolding read
  exchange-IsSound coin currency sym raw =
      >>=-Reads (skip_if-IsStep (str_eq raw.«data».price "")) _ _ λ _.
        >>=-Reads (or_refuse-IsStep "parsing price" (go.new_from_string raw.«data».price)) _ _
          λ value now. record {
            for_coin = refl;
            in_currency = refl;
            from_provider = refl;
            stamped = refl;
          }

  pub provider-IsPriceProvider : IsPriceProvider provider
  unfolding get_price get_prices status status_of
  provider-IsPriceProvider =
      ask-IsPriceProvider go exchange exchange-IsSound status (λ q. refl) (λ q. refl) response_error
