-- ===== src/Exchanges/Livecoinwatch.antt =====
-- internal/adapter/provider/livecoinwatch/livecoinwatch.go
use Prim.Native.String.{◌++◌}
use crypto_price_aggregator.Base.{ℕ, refl, String, List, [], ◌∷◌}
use crypto_price_aggregator.Base.Dict.{lookup}
use crypto_price_aggregator.Domain.{Price, ProviderStatus, Result}
use crypto_price_aggregator.Domain.Numeric.{Decimal, Float, Conversion}
use crypto_price_aggregator.Providers.Adapter.{
  Config, Provider, Request, get_request, key_header, Runtime, Call, status_of,
}
use crypto_price_aggregator.Providers.Reading.{Reading, found}
use crypto_price_aggregator.Providers.Quotes.{Exchange, quoted, quote_each, quote_first}
use crypto_price_aggregator.Providers.Quotes.Served.{IsSound}
use crypto_price_aggregator.Providers.Interface.{
  PriceProvider, IsPriceProvider, quote_each-IsPriceProvider,
}

abbrev coin_to_code : List (String × String)
coin_to_code = ("bitcoin", "BTC") ∷ ("ethereum", "ETH") ∷ ("solana", "SOL") ∷ []

pub record LcwDelta (F : Type 0) : Type 0 where
  pub day : F

pub record LcwResponse (F : Type 0) : Type 0 where
  pub rate : F
  pub volume : F
  pub cap : F
  pub delta : LcwDelta F

unfoldable pub status : Provider → ProviderStatus
unfolding status_of
status = status_of "livecoinwatch"

-- The JSON text of a request for a coin in USD, without metadata.
abbrev lcw_request : String → String
lcw_request code = "{\"currency\":\"USD\",\"code\":\"" ++ (code ++ "\",\"meta\":false}")

module _ {W D F : Type 0} ⦃dec : Decimal D⦄ ⦃fl : Float F⦄ ⦃conv : Conversion D F⦄
    (go : Runtime W D F) (decode : String → Result (LcwResponse F)) where
  unfoldable request : Config → String → String → String → Request
  request cfg coin_id currency sym = record (get_request (cfg.base_url ++ "/coins/single")) {
    method = "POST";
    headers = ("Content-Type", "application/json") ∷ key_header "x-api-key" cfg;
    body = lcw_request sym;
  }

  unfoldable read : String → String → String → LcwResponse F → Reading (ℕ → Price D F)
  read coin_id currency sym raw = found λ now.
      record (quoted "livecoinwatch" coin_id currency (conv.from_float raw.rate) now) {
        market_cap = conv.from_float raw.cap;
        volume_24h = conv.from_float raw.volume;
        change_24h = fl.mul (fl.sub raw.delta.day (fl.of_int 1)) (fl.of_int 100);
      }

  abbrev exchange : Exchange D F (LcwResponse F)
  exchange = record {
    provider_name = "livecoinwatch";
    symbol = λ coin_id. lookup coin_id coin_to_code;
    request = request;
    decode = decode;
    read = read;
  }

  unfoldable pub get_prices : List String → String → Call W (List (Price D F))
  unfolding request read
  get_prices = quote_each go exchange

  unfoldable pub get_price : String → String → Call W (Price D F)
  unfolding request read
  get_price = quote_first go exchange

  abbrev pub provider : PriceProvider W D F
  provider = record {
    name = "livecoinwatch";
    status = status;
    get_price = get_price;
    get_prices = get_prices;
  }

  exchange-IsSound : IsSound exchange
  unfolding read
  exchange-IsSound coin currency sym raw now = record {
    for_coin = refl;
    in_currency = refl;
    from_provider = refl;
    stamped = refl;
  }

  pub provider-IsPriceProvider : IsPriceProvider provider
  unfolding get_price get_prices status status_of
  provider-IsPriceProvider =
      quote_each-IsPriceProvider go exchange exchange-IsSound status (λ q. refl) (λ q. refl)
