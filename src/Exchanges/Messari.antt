-- ===== src/Exchanges/Messari.antt =====
-- internal/adapter/provider/messari/messari.go
use Prim.Native.String.{◌++◌}
use crypto_price_aggregator.Base.{ℕ, refl, String, List, some}
use crypto_price_aggregator.Domain.{Price, ProviderStatus, Result}
use crypto_price_aggregator.Domain.Numeric.{Decimal, Float, Conversion}
use crypto_price_aggregator.Providers.Adapter.{
  Config, Provider, Request, get_request, key_header, Runtime, Call, status_of,
}
use crypto_price_aggregator.Providers.Reading.{Reading, found}
use crypto_price_aggregator.Providers.Quotes.{Exchange, quoted, quote_each, quote_first}
use crypto_price_aggregator.Providers.Quotes.Served.{IsSound}
use crypto_price_aggregator.Providers.Interface.{
  PriceProvider, IsPriceProvider, quote_each-IsPriceProvider,
}

pub record MarketCap (F : Type 0) : Type 0 where
  pub current_marketcap_usd : F

pub record MarketData (F : Type 0) : Type 0 where
  pub price_usd : F
  pub volume_last_day : F
  pub market_cap : MarketCap F
  pub percent_change_usd_last24_hours : F

pub record MessariData (F : Type 0) : Type 0 where
  pub market_data : MarketData F

pub record MessariResponse (F : Type 0) : Type 0 where
  pub «data» : MessariData F

unfoldable pub status : Provider → ProviderStatus
unfolding status_of
status = status_of "messari"

module _ {W D F : Type 0} ⦃dec : Decimal D⦄ ⦃fl : Float F⦄ ⦃conv : Conversion D F⦄
    (go : Runtime W D F) (decode : String → Result (MessariResponse F)) where
  unfoldable request : Config → String → String → String → Request
  request cfg coin_id currency sym =
      record (get_request
        (cfg.base_url ++ ("/v1/assets/" ++ (coin_id ++ "/metrics/market-data")))) {
          headers = key_header "x-messari-api-key" cfg;
        }

  unfoldable read : String → String → String → MessariResponse F → Reading (ℕ → Price D F)
  read coin_id currency sym raw = found λ now.
      record (quoted "messari" coin_id currency (conv.from_float raw.«data».market_data.price_usd)
        now) {
          market_cap = conv.from_float raw.«data».market_data.market_cap.current_marketcap_usd;
          volume_24h = conv.from_float raw.«data».market_data.volume_last_day;
          change_24h = raw.«data».market_data.percent_change_usd_last24_hours;
        }

  abbrev exchange : Exchange D F (MessariResponse F)
  exchange = record {
    provider_name = "messari";
    symbol = some;
    request = request;
    decode = decode;
    read = read;
  }

  unfoldable pub get_prices : List String → String → Call W (List (Price D F))
  unfolding request read
  get_prices = quote_each go exchange

  unfoldable pub get_price : String → String → Call W (Price D F)
  unfolding request read
  get_price = quote_first go exchange

  abbrev pub provider : PriceProvider W D F
  provider = record {
    name = "messari";
    status = status;
    get_price = get_price;
    get_prices = get_prices;
  }

  exchange-IsSound : IsSound exchange
  unfolding read
  exchange-IsSound coin currency sym raw now = record {
    for_coin = refl;
    in_currency = refl;
    from_provider = refl;
    stamped = refl;
  }

  pub provider-IsPriceProvider : IsPriceProvider provider
  unfolding get_price get_prices status status_of
  provider-IsPriceProvider =
      quote_each-IsPriceProvider go exchange exchange-IsSound status (λ q. refl) (λ q. refl)
