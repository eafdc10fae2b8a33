-- ===== src/Exchanges/Coincap.antt =====
-- internal/adapter/provider/coincap/coincap.go
use Prim.Native.String.{◌++◌}
use crypto_price_aggregator.Base.{ℕ, refl, String, List, some, str_eq}
use crypto_price_aggregator.Domain.{Price, ProviderStatus, Result, ok, err}
use crypto_price_aggregator.Domain.Numeric.{Decimal, Float, Conversion}
use crypto_price_aggregator.Providers.Adapter.{
  Config, Provider, Request, get_request, Runtime, Call, status_of, lookup_error,
}
use crypto_price_aggregator.Providers.Reading.{
  Reading, found, ◌>>=◌, ◌>>◌, or_refuse, or_refuse-IsStep, or_else, skip_if, skip_if-IsStep,
  >>=-Reads,
}
use crypto_price_aggregator.Providers.Quotes.{Exchange, quoted, ask, one_by_one}
use crypto_price_aggregator.Providers.Quotes.Served.{IsSound}
use crypto_price_aggregator.Providers.Interface.{
  PriceProvider, IsPriceProvider, ask-IsPriceProvider,
}

pub record AssetData : Type 0 where
  pub id : String
  pub price_usd : String
  pub market_cap_usd : String
  pub volume_usd24_hr : String
  pub change_percent24_hr : String

pub record AssetResponse : Type 0 where
  pub «data» : AssetData

unfoldable pub status : Provider → ProviderStatus
unfolding status_of
status = status_of "coincap"

module _ {W D F : Type 0} ⦃dec : Decimal D⦄ ⦃fl : Float F⦄ ⦃conv : Conversion D F⦄
    (go : Runtime W D F) (decode : String → Result AssetResponse) where
  unfoldable request : Config → String → String → String → Request
  request cfg coin_id currency sym = get_request (cfg.base_url ++ ("/v2/assets/" ++ coin_id))

  abbrev percent : Result D → F
  percent (ok change) = conv.to_float change
  percent (err e) = fl.of_int 0

  unfoldable read : String → String → String → AssetResponse → Reading (ℕ → Price D F)
  read coin_id currency sym raw = do
    skip_if (str_eq raw.«data».price_usd "")
    value ← or_refuse "parsing price" (go.new_from_string raw.«data».price_usd)
    found λ now. record (quoted "coincap" coin_id currency value now) {
      market_cap = or_else dec.zero (go.new_from_string raw.«data».market_cap_usd);
      volume_24h = or_else dec.zero (go.new_from_string raw.«data».volume_usd24_hr);
      change_24h = percent (go.new_from_string raw.«data».change_percent24_hr);
    }

  abbrev exchange : Exchange D F AssetResponse
  exchange = record {
    provider_name = "coincap";
    symbol = some;
    request = request;
    decode = decode;
    read = read;
  }

  unfoldable pub get_price : String → String → Call W (Price D F)
  unfolding request read
  get_price = ask go lookup_error exchange

  unfoldable pub get_prices : List String → String → Call W (List (Price D F))
  unfolding get_price
  get_prices coin_ids currency = one_by_one (λ c. get_price c currency) coin_ids

  abbrev pub provider : PriceProvider W D F
  provider = record {
    name = "coincap";
    status = status;
    get_price = get_price;
    get_prices = get_prices;
  }

  exchange-IsSound : IsSound exchange
  unfolding read
  exchange-IsSound coin currency sym raw =
      >>=-Reads (skip_if-IsStep (str_eq raw.«data».price_usd "")) _ _ λ _.
        >>=-Reads (or_refuse-IsStep "parsing price" (go.new_from_string raw.«data».price_usd)) _ _
          λ value now. record {
            for_coin = refl;
            in_currency = refl;
            from_provider = refl;
            stamped = refl;
          }

  pub provider-IsPriceProvider : IsPriceProvider provider
  unfolding get_price get_prices status status_of
  provider-IsPriceProvider =
      ask-IsPriceProvider go exchange exchange-IsSound status (λ q. refl) (λ q. refl) lookup_error
