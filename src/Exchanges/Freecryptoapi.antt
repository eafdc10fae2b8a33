-- ===== src/Exchanges/Freecryptoapi.antt =====
-- internal/adapter/provider/freecryptoapi/freecryptoapi.go
use Prim.Native.String.{◌++◌}
use crypto_price_aggregator.Base.{ℕ, refl, String, List, [], ◌∷◌}
use crypto_price_aggregator.Base.Int.{ℤ}
use crypto_price_aggregator.Base.Dict.{lookup}
use crypto_price_aggregator.Domain.{Price, ProviderStatus, Result}
use crypto_price_aggregator.Domain.Numeric.{Decimal, Float, Conversion}
use crypto_price_aggregator.Providers.Adapter.{
  Config, Provider, Request, get_request, key_header, Runtime, Call, status_of,
}
use crypto_price_aggregator.Providers.Reading.{
  Reading, found, ◌>>=◌, entry, entry-IsStep, >>=-Reads,
}
use crypto_price_aggregator.Providers.Quotes.{Exchange, quoted, quote_each, quote_first}
use crypto_price_aggregator.Providers.Quotes.Served.{IsSound}
use crypto_price_aggregator.Providers.Interface.{
  PriceProvider, IsPriceProvider, quote_each-IsPriceProvider,
}

abbrev coin_to_symbol : List (String × String)
coin_to_symbol = ("bitcoin", "BTC") ∷ ("ethereum", "ETH") ∷ ("solana", "SOL") ∷ []

pub record FcaSymbolData (F : Type 0) : Type 0 where
  pub price : F
  pub volume : F
  pub market_cap : F
  pub percent_change24h : F

pub record FcaResponse (F : Type 0) : Type 0 where
  pub status : ℤ
  pub «data» : List (String × FcaSymbolData F)

unfoldable pub status : Provider → ProviderStatus
unfolding status_of
status = status_of "freecryptoapi"

module _ {W D F : Type 0} ⦃dec : Decimal D⦄ ⦃fl : Float F⦄ ⦃conv : Conversion D F⦄
    (go : Runtime W D F) (decode : String → Result (FcaResponse F)) where
  unfoldable request : Config → String → String → String → Request
  request cfg coin_id currency sym =
      record (get_request (cfg.base_url ++ ("/v1/getData?symbol=" ++ go.to_upper sym))) {
        headers = key_header "x-api-key" cfg;
      }

  unfoldable read : String → String → String → FcaResponse F → Reading (ℕ → Price D F)
  read coin_id currency sym raw = do
    item ← entry (lookup sym raw.«data»)
    found λ now. record (quoted "freecryptoapi" coin_id currency (conv.from_float item.price) now) {
      market_cap = conv.from_float item.market_cap;
      volume_24h = conv.from_float item.volume;
      change_24h = item.percent_change24h;
    }

  abbrev exchange : Exchange D F (FcaResponse F)
  exchange = record {
    provider_name = "freecryptoapi";
    symbol = λ coin_id. lookup coin_id coin_to_symbol;
    request = request;
    decode = decode;
    read = read;
  }

  unfoldable pub get_prices : List String → String → Call W (List (Price D F))
  unfolding request read
  get_prices = quote_each go exchange

  unfoldable pub get_price : String → String → Call W (Price D F)
  unfolding request read
  get_price = quote_first go exchange

  abbrev pub provider : PriceProvider W D F
  provider = record {
    name = "freecryptoapi";
    status = status;
    get_price = get_price;
    get_prices = get_prices;
  }

  exchange-IsSound : IsSound exchange
  unfolding read
  exchange-IsSound coin currency sym raw =
      >>=-Reads (entry-IsStep (lookup sym raw.«data»)) _ _ λ item now. record {
        for_coin = refl;
        in_currency = refl;
        from_provider = refl;
        stamped = refl;
      }

  pub provider-IsPriceProvider : IsPriceProvider provider
  unfolding get_price get_prices status status_of
  provider-IsPriceProvider =
      quote_each-IsPriceProvider go exchange exchange-IsSound status (λ q. refl) (λ q. refl)
