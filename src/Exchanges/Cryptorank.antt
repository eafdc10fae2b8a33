-- ===== src/Exchanges/Cryptorank.antt =====
-- internal/adapter/provider/cryptorank/cryptorank.go
use Prim.Native.String.{◌++◌}
use crypto_price_aggregator.Base.{ℕ, refl, String, List, [], ◌∷◌, str_eq, if◌then◌else◌}
use crypto_price_aggregator.Base.Dict.{lookup}
use crypto_price_aggregator.Domain.{Price, ProviderStatus, Result}
use crypto_price_aggregator.Domain.Numeric.{Decimal, Float, Conversion}
use crypto_price_aggregator.Providers.Adapter.{
  Config, Provider, Request, get_request, Runtime, Call, status_of,
}
use crypto_price_aggregator.Providers.Reading.{
  Reading, found, ◌>>◌, skip_if, skip_if-IsStep, >>=-Reads,
}
use crypto_price_aggregator.Providers.Quotes.{Exchange, quoted, quote_each, quote_first}
use crypto_price_aggregator.Providers.Quotes.Served.{IsSound}
use crypto_price_aggregator.Providers.Interface.{
  PriceProvider, IsPriceProvider, quote_each-IsPriceProvider,
}

abbrev coin_slugs : List (String × String)
coin_slugs =
    ("bitcoin", "bitcoin")
    ∷ ("ethereum", "ethereum")
    ∷ ("solana", "solana")
    ∷ ("cardano", "cardano")
    ∷ ("ripple", "ripple")
    ∷ []

pub record CryptorankPriceUsd (F : Type 0) : Type 0 where
  pub usd : F

pub record CryptorankCoin (F : Type 0) : Type 0 where
  pub slug : String
  pub symbol : String
  pub price : CryptorankPriceUsd F
  pub market_cap : F
  pub volume24h : F
  pub percent_change24h : F

pub record CryptorankResponse (F : Type 0) : Type 0 where
  pub «data» : CryptorankCoin F

unfoldable pub status : Provider → ProviderStatus
unfolding status_of
status = status_of "cryptorank"

module _ {W D F : Type 0} ⦃dec : Decimal D⦄ ⦃fl : Float F⦄ ⦃conv : Conversion D F⦄
    (go : Runtime W D F) (decode : String → Result (CryptorankResponse F)) where
  unfoldable request : Config → String → String → String → Request
  request cfg coin_id currency sym = get_request (
      cfg.base_url
      ++ ("/v0/coins/"
          ++ (sym ++ (if str_eq cfg.api_key "" then "" else "?api-key=" ++ cfg.api_key))))

  unfoldable read : String → String → String → CryptorankResponse F → Reading (ℕ → Price D F)
  read coin_id currency sym raw = do
    skip_if (dec.is_zero (conv.from_float raw.«data».price.usd))
    found λ now.
        record (quoted "cryptorank" coin_id currency (conv.from_float raw.«data».price.usd) now) {
          market_cap = conv.from_float raw.«data».market_cap;
          volume_24h = conv.from_float raw.«data».volume24h;
          change_24h = raw.«data».percent_change24h;
        }

  abbrev exchange : Exchange D F (CryptorankResponse F)
  exchange = record {
    provider_name = "cryptorank";
    symbol = λ coin_id. lookup (go.to_lower coin_id) coin_slugs;
    request = request;
    decode = decode;
    read = read;
  }

  unfoldable pub get_prices : List String → String → Call W (List (Price D F))
  unfolding request read
  get_prices = quote_each go exchange

  unfoldable pub get_price : String → String → Call W (Price D F)
  unfolding request read
  get_price = quote_first go exchange

  abbrev pub provider : PriceProvider W D F
  provider = record {
    name = "cryptorank";
    status = status;
    get_price = get_price;
    get_prices = get_prices;
  }

  exchange-IsSound : IsSound exchange
  unfolding read
  exchange-IsSound coin currency sym raw =
      >>=-Reads (skip_if-IsStep (dec.is_zero (conv.from_float raw.«data».price.usd))) _ _ λ _ now.
        record { for_coin = refl; in_currency = refl; from_provider = refl; stamped = refl }

  pub provider-IsPriceProvider : IsPriceProvider provider
  unfolding get_price get_prices status status_of
  provider-IsPriceProvider =
      quote_each-IsPriceProvider go exchange exchange-IsSound status (λ q. refl) (λ q. refl)
