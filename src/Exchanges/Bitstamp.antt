-- ===== src/Exchanges/Bitstamp.antt =====
-- internal/adapter/provider/bitstamp/bitstamp.go
use Prim.Native.String.{◌++◌}
use crypto_price_aggregator.Base.{ℕ, refl, String, List, [], ◌∷◌, str_eq}
use crypto_price_aggregator.Base.Dict.{lookup}
use crypto_price_aggregator.Domain.{Price, ProviderStatus, Result}
use crypto_price_aggregator.Domain.Numeric.{Decimal, Float, Conversion}
use crypto_price_aggregator.Providers.Adapter.{
  Config, Provider, Request, get_request, Runtime, Call, status_of,
}
use crypto_price_aggregator.Providers.Reading.{
  Reading, found, ◌>>=◌, ◌>>◌, or_skip, or_skip-IsStep, or_else, skip_if, skip_if-IsStep, >>=-Reads,
}
use crypto_price_aggregator.Providers.Quotes.{Exchange, quoted, quote_each, quote_first}
use crypto_price_aggregator.Providers.Quotes.Served.{IsSound}
use crypto_price_aggregator.Providers.Interface.{
  PriceProvider, IsPriceProvider, quote_each-IsPriceProvider,
}

abbrev coin_symbols : List (String × String)
coin_symbols = ("bitcoin", "btc") ∷ ("ethereum", "eth") ∷ ("solana", "sol") ∷ []

pub record BitstampTicker : Type 0 where
  pub last : String
  pub high : String
  pub low : String
  pub volume : String
  pub vwap : String
  pub «open» : String

unfoldable pub status : Provider → ProviderStatus
unfolding status_of
status = status_of "bitstamp"

module _ {W D F : Type 0} ⦃dec : Decimal D⦄ ⦃fl : Float F⦄ ⦃conv : Conversion D F⦄
    (go : Runtime W D F) (decode : String → Result BitstampTicker) where
  unfoldable request : Config → String → String → String → Request
  request cfg coin_id currency sym =
      get_request (cfg.base_url ++ ("/api/v2/ticker/" ++ (sym ++ (go.to_lower currency ++ "/"))))

  unfoldable read : String → String → String → BitstampTicker → Reading (ℕ → Price D F)
  read coin_id currency sym raw = do
    skip_if (str_eq raw.last "")
    value ← or_skip (go.new_from_string raw.last)
    found λ now. record (quoted "bitstamp" coin_id currency value now) {
      volume_24h = or_else dec.zero (go.new_from_string raw.volume);
    }

  abbrev exchange : Exchange D F BitstampTicker
  exchange = record {
    provider_name = "bitstamp";
    symbol = λ coin_id. lookup (go.to_lower coin_id) coin_symbols;
    request = request;
    decode = decode;
    read = read;
  }

  unfoldable pub get_prices : List String → String → Call W (List (Price D F))
  unfolding request read
  get_prices = quote_each go exchange

  unfoldable pub get_price : String → String → Call W (Price D F)
  unfolding request read
  get_price = quote_first go exchange

  abbrev pub provider : PriceProvider W D F
  provider = record {
    name = "bitstamp";
    status = status;
    get_price = get_price;
    get_prices = get_prices;
  }

  exchange-IsSound : IsSound exchange
  unfolding read
  exchange-IsSound coin currency sym raw = >>=-Reads (skip_if-IsStep (str_eq raw.last "")) _ _ λ _.
      >>=-Reads (or_skip-IsStep (go.new_from_string raw.last)) _ _ λ value now. record {
        for_coin = refl;
        in_currency = refl;
        from_provider = refl;
        stamped = refl;
      }

  pub provider-IsPriceProvider : IsPriceProvider provider
  unfolding get_price get_prices status status_of
  provider-IsPriceProvider =
      quote_each-IsPriceProvider go exchange exchange-IsSound status (λ q. refl) (λ q. refl)
