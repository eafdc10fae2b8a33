-- ===== src/Exchanges/Twelvedata.antt =====
-- internal/adapter/provider/twelvedata/twelvedata.go
use Prim.Native.String.{◌++◌}
use crypto_price_aggregator.Base.{ℕ, refl, String, List, [], ◌∷◌}
use crypto_price_aggregator.Base.Dict.{lookup}
use crypto_price_aggregator.Domain.{Price, ProviderStatus, Result}
use crypto_price_aggregator.Domain.Numeric.{Decimal, Float, Conversion}
use crypto_price_aggregator.Providers.Adapter.{
  Config, Provider, Request, get_request, Runtime, Call, status_of,
}
use crypto_price_aggregator.Providers.Reading.{
  Reading, found, ◌>>=◌, or_refuse, or_refuse-IsStep, >>=-Reads,
}
use crypto_price_aggregator.Providers.Quotes.{Exchange, quoted, quote_each, quote_first}
use crypto_price_aggregator.Providers.Quotes.Served.{IsSound}
use crypto_price_aggregator.Providers.Interface.{
  PriceProvider, IsPriceProvider, quote_each-IsPriceProvider,
}

abbrev coin_to_symbol : List (String × String)
coin_to_symbol = ("bitcoin", "BTC") ∷ ("ethereum", "ETH") ∷ ("solana", "SOL") ∷ []

pub record TwelveDataResponse : Type 0 where
  pub price : String

unfoldable pub status : Provider → ProviderStatus
unfolding status_of
status = status_of "twelvedata"

module _ {W D F : Type 0} ⦃dec : Decimal D⦄ ⦃fl : Float F⦄ ⦃conv : Conversion D F⦄
    (go : Runtime W D F) (decode : String → Result TwelveDataResponse) where
  unfoldable request : Config → String → String → String → Request
  request cfg coin_id currency sym = get_request (
      cfg.base_url
      ++ ("/price?symbol="
          ++ (sym ++ ("/" ++ (go.to_upper currency ++ ("&apikey=" ++ cfg.api_key))))))

  unfoldable read : String → String → String → TwelveDataResponse → Reading (ℕ → Price D F)
  read coin_id currency sym raw = do
    value ← or_refuse "parsing price" (go.new_from_string raw.price)
    found λ now. quoted "twelvedata" coin_id currency value now

  abbrev exchange : Exchange D F TwelveDataResponse
  exchange = record {
    provider_name = "twelvedata";
    symbol = λ coin_id. lookup coin_id coin_to_symbol;
    request = request;
    decode = decode;
    read = read;
  }

  unfoldable pub get_prices : List String → String → Call W (List (Price D F))
  unfolding request read
  get_prices = quote_each go exchange

  unfoldable pub get_price : String → String → Call W (Price D F)
  unfolding request read
  get_price = quote_first go exchange

  abbrev pub provider : PriceProvider W D F
  provider = record {
    name = "twelvedata";
    status = status;
    get_price = get_price;
    get_prices = get_prices;
  }

  exchange-IsSound : IsSound exchange
  unfolding read
  exchange-IsSound coin currency sym raw =
      >>=-Reads (or_refuse-IsStep "parsing price" (go.new_from_string raw.price)) _ _ λ value now.
        record { for_coin = refl; in_currency = refl; from_provider = refl; stamped = refl }

  pub provider-IsPriceProvider : IsPriceProvider provider
  unfolding get_price get_prices status status_of
  provider-IsPriceProvider =
      quote_each-IsPriceProvider go exchange exchange-IsSound status (λ q. refl) (λ q. refl)
