-- ===== src/Exchanges/Coinbase.antt =====
-- internal/adapter/provider/coinbase/coinbase.go
use Prim.Native.String.{◌++◌}
use crypto_price_aggregator.Base.{ℕ, refl, String, List, [], ◌∷◌, none, some}
use crypto_price_aggregator.Base.Dict.{lookup}
use crypto_price_aggregator.Domain.{Price, ProviderStatus, Result}
use crypto_price_aggregator.Domain.Numeric.{Decimal, Float, Conversion}
use crypto_price_aggregator.Providers.Adapter.{
  Config, Provider, Request, get_request, Runtime, Call, status_of,
}
use crypto_price_aggregator.Providers.Reading.{
  Reading, found, ◌>>=◌, ◌>>◌, or_skip, or_skip-IsStep, given, skip_if, skip_if-IsStep, >>=-Reads,
}
use crypto_price_aggregator.Providers.Quotes.{Exchange, quoted, quote_each, quote_first}
use crypto_price_aggregator.Providers.Quotes.Served.{IsSound}
use crypto_price_aggregator.Providers.Interface.{
  PriceProvider, IsPriceProvider, quote_each-IsPriceProvider,
}

abbrev coin_symbols : List (String × String)
coin_symbols = ("bitcoin", "BTC") ∷ ("ethereum", "ETH") ∷ ("solana", "SOL") ∷ []

pub record CoinbaseTicker : Type 0 where
  pub price : String
  pub volume : String

unfoldable pub status : Provider → ProviderStatus
unfolding status_of
status = status_of "coinbase"

abbrev currency_map : List (String × String)
currency_map =
    ("usd", "USD") ∷ ("eur", "EUR") ∷ ("gbp", "GBP") ∷ ("btc", "BTC") ∷ ("eth", "ETH") ∷ []

module _ {W D F : Type 0} ⦃dec : Decimal D⦄ ⦃fl : Float F⦄ ⦃conv : Conversion D F⦄
    (go : Runtime W D F) (decode : String → Result CoinbaseTicker) where
  unfoldable request : Config → String → String → String → Request
  request cfg coin_id currency sym = get_request (
      cfg.base_url
      ++ ("/products/"
          ++ (sym
              ++ ("-"
                  ++ ((elim (lookup (go.to_lower currency) currency_map) [
                    | some quote ↦ quote
                    | none ↦ go.to_upper currency
                  ])
                      ++ "/ticker")))))

  unfoldable read : String → String → String → CoinbaseTicker → Reading (ℕ → Price D F)
  read coin_id currency sym raw = do
    value ← or_skip (go.new_from_string raw.price)
    skip_if (dec.is_zero value)
    found λ now. record (quoted "coinbase" coin_id currency value now) {
      volume_24h = given dec.zero raw.volume (go.new_from_string raw.volume);
    }

  abbrev exchange : Exchange D F CoinbaseTicker
  exchange = record {
    provider_name = "coinbase";
    symbol = λ coin_id. lookup (go.to_lower coin_id) coin_symbols;
    request = request;
    decode = decode;
    read = read;
  }

  unfoldable pub get_prices : List String → String → Call W (List (Price D F))
  unfolding request read
  get_prices = quote_each go exchange

  unfoldable pub get_price : String → String → Call W (Price D F)
  unfolding request read
  get_price = quote_first go exchange

  abbrev pub provider : PriceProvider W D F
  provider = record {
    name = "coinbase";
    status = status;
    get_price = get_price;
    get_prices = get_prices;
  }

  exchange-IsSound : IsSound exchange
  unfolding read
  exchange-IsSound coin currency sym raw =
      >>=-Reads (or_skip-IsStep (go.new_from_string raw.price)) _ _ λ value.
        >>=-Reads (skip_if-IsStep (dec.is_zero value)) _ _ λ _ now. record {
          for_coin = refl;
          in_currency = refl;
          from_provider = refl;
          stamped = refl;
        }

  pub provider-IsPriceProvider : IsPriceProvider provider
  unfolding get_price get_prices status status_of
  provider-IsPriceProvider =
      quote_each-IsPriceProvider go exchange exchange-IsSound status (λ q. refl) (λ q. refl)
