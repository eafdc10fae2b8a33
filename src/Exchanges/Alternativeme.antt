-- ===== src/Exchanges/Alternativeme.antt =====
-- internal/adapter/provider/alternativeme/alternativeme.go
use Prim.Native.String.{◌++◌}
use crypto_price_aggregator.Base.{ℕ, refl, String, List, [], ◌∷◌}
use crypto_price_aggregator.Base.Int.{ℤ}
use crypto_price_aggregator.Base.Dict.{lookup}
use crypto_price_aggregator.Domain.{Price, ProviderStatus, Result}
use crypto_price_aggregator.Domain.Numeric.{Decimal, Float, Conversion}
use crypto_price_aggregator.Providers.Adapter.{
  Config, Provider, Request, get_request, Runtime, Call, status_of,
}
use crypto_price_aggregator.Providers.Reading.{
  Reading, found, ◌>>=◌, ◌>>◌, head_of, head_of-IsStep, skip_if, skip_if-IsStep, >>=-Reads,
}
use crypto_price_aggregator.Providers.Quotes.{Exchange, quoted, quote_each, quote_first}
use crypto_price_aggregator.Providers.Quotes.Served.{IsSound}
use crypto_price_aggregator.Providers.Interface.{
  PriceProvider, IsPriceProvider, quote_each-IsPriceProvider,
}

abbrev coin_i_ds : List (String × String)
coin_i_ds =
    ("bitcoin", "1")
    ∷ ("ethereum", "1027")
    ∷ ("solana", "5426")
    ∷ ("cardano", "2010")
    ∷ ("ripple", "52")
    ∷ []

pub record AltmeQuoteUsd (F : Type 0) : Type 0 where
  pub price : F
  pub volume24h : F
  pub market_cap : F
  pub percent_change24h : F

pub record AltmeQuotes (F : Type 0) : Type 0 where
  pub usd : AltmeQuoteUsd F

pub record AltmeCoin (F : Type 0) : Type 0 where
  pub id : ℤ
  pub name : String
  pub symbol : String
  pub quotes : AltmeQuotes F

pub record AltmeResponse (F : Type 0) : Type 0 where
  pub «data» : List (AltmeCoin F)

unfoldable pub status : Provider → ProviderStatus
unfolding status_of
status = status_of "alternativeme"

module _ {W D F : Type 0} ⦃dec : Decimal D⦄ ⦃fl : Float F⦄ ⦃conv : Conversion D F⦄
    (go : Runtime W D F) (decode : String → Result (AltmeResponse F)) where
  unfoldable request : Config → String → String → String → Request
  request cfg coin_id currency sym = get_request (cfg.base_url ++ ("/v2/ticker/" ++ (sym ++ "/")))

  unfoldable read : String → String → String → AltmeResponse F → Reading (ℕ → Price D F)
  read coin_id currency sym raw = do
    coin ← head_of raw.«data»
    skip_if (dec.is_zero (conv.from_float coin.quotes.usd.price))
    found λ now.
        record (quoted "alternativeme" coin_id currency (conv.from_float coin.quotes.usd.price)
          now) {
            volume_24h = conv.from_float coin.quotes.usd.volume24h;
            market_cap = conv.from_float coin.quotes.usd.market_cap;
            change_24h = coin.quotes.usd.percent_change24h;
          }

  abbrev exchange : Exchange D F (AltmeResponse F)
  exchange = record {
    provider_name = "alternativeme";
    symbol = λ coin_id. lookup (go.to_lower coin_id) coin_i_ds;
    request = request;
    decode = decode;
    read = read;
  }

  unfoldable pub get_prices : List String → String → Call W (List (Price D F))
  unfolding request read
  get_prices = quote_each go exchange

  unfoldable pub get_price : String → String → Call W (Price D F)
  unfolding request read
  get_price = quote_first go exchange

  abbrev pub provider : PriceProvider W D F
  provider = record {
    name = "alternativeme";
    status = status;
    get_price = get_price;
    get_prices = get_prices;
  }

  exchange-IsSound : IsSound exchange
  unfolding read
  exchange-IsSound coin currency sym raw = >>=-Reads (head_of-IsStep raw.«data») _ _ λ coin.
      >>=-Reads (skip_if-IsStep (dec.is_zero (conv.from_float coin.quotes.usd.price))) _ _ λ _ now.
        record { for_coin = refl; in_currency = refl; from_provider = refl; stamped = refl }

  pub provider-IsPriceProvider : IsPriceProvider provider
  unfolding get_price get_prices status status_of
  provider-IsPriceProvider =
      quote_each-IsPriceProvider go exchange exchange-IsSound status (λ q. refl) (λ q. refl)
