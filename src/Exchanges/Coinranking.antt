-- ===== src/Exchanges/Coinranking.antt =====
-- internal/adapter/provider/coinranking/coinranking.go
use Prim.Native.String.{◌++◌}
use crypto_price_aggregator.Base.{ℕ, refl, String, List, [], ◌∷◌, str_eq}
use crypto_price_aggregator.Base.Dict.{lookup}
use crypto_price_aggregator.Domain.{Price, ProviderStatus, Result}
use crypto_price_aggregator.Domain.Numeric.{Decimal, Float, Conversion}
use crypto_price_aggregator.Providers.Adapter.{
  Config, Provider, Request, get_request, key_header, Runtime, Call, status_of, lookup_error,
}
use crypto_price_aggregator.Providers.Reading.{
  Reading, found, ◌>>=◌, ◌>>◌, or_refuse, or_refuse-IsStep, or_else, skip_if, skip_if-IsStep,
  >>=-Reads,
}
use crypto_price_aggregator.Providers.Quotes.{Exchange, quoted, ask, one_by_one}
use crypto_price_aggregator.Providers.Quotes.Served.{IsSound}
use crypto_price_aggregator.Providers.Interface.{
  PriceProvider, IsPriceProvider, ask-IsPriceProvider,
}

abbrev coin_uui_ds : List (String × String)
coin_uui_ds =
    ("bitcoin", "Qwsogvtv82FCd") ∷ ("ethereum", "razxDUgYGNAdQ") ∷ ("solana", "zNZHO_Sjf") ∷ []

pub record Coin : Type 0 where
  pub symbol : String
  pub name : String
  pub price : String
  pub market_cap : String
  pub volume24h : String
  pub change : String

pub record CoinData : Type 0 where
  pub coin : Coin

pub record CoinResponse : Type 0 where
  pub status : String
  pub «data» : CoinData

unfoldable pub status : Provider → ProviderStatus
unfolding status_of
status = status_of "coinranking"

module _ {W D F : Type 0} ⦃dec : Decimal D⦄ ⦃fl : Float F⦄ ⦃conv : Conversion D F⦄
    (go : Runtime W D F) (decode : String → Result CoinResponse) where
  unfoldable request : Config → String → String → String → Request
  request cfg coin_id currency sym = record (get_request (cfg.base_url ++ ("/v2/coin/" ++ sym))) {
    headers = key_header "x-access-token" cfg;
  }

  unfoldable read : String → String → String → CoinResponse → Reading (ℕ → Price D F)
  read coin_id currency sym raw = do
    skip_if (str_eq raw.«data».coin.price "")
    value ← or_refuse "parsing price" (go.new_from_string raw.«data».coin.price)
    found λ now. record (quoted "coinranking" coin_id currency value now) {
      market_cap = or_else dec.zero (go.new_from_string raw.«data».coin.market_cap);
      volume_24h = or_else dec.zero (go.new_from_string raw.«data».coin.volume24h);
      change_24h = or_else (fl.of_int 0) (go.parse_float raw.«data».coin.change);
    }

  abbrev exchange : Exchange D F CoinResponse
  exchange = record {
    provider_name = "coinranking";
    symbol = λ coin_id. lookup coin_id coin_uui_ds;
    request = request;
    decode = decode;
    read = read;
  }

  unfoldable pub get_price : String → String → Call W (Price D F)
  unfolding request read
  get_price = ask go lookup_error exchange

  unfoldable pub get_prices : List String → String → Call W (List (Price D F))
  unfolding get_price
  get_prices coin_ids currency = one_by_one (λ c. get_price c currency) coin_ids

  abbrev pub provider : PriceProvider W D F
  provider = record {
    name = "coinranking";
    status = status;
    get_price = get_price;
    get_prices = get_prices;
  }

  exchange-IsSound : IsSound exchange
  unfolding read
  exchange-IsSound coin currency sym raw =
      >>=-Reads (skip_if-IsStep (str_eq raw.«data».coin.price "")) _ _ λ _.
        >>=-Reads (or_refuse-IsStep "parsing price" (go.new_from_string raw.«data».coin.price)) _ _
          λ value now. record {
            for_coin = refl;
            in_currency = refl;
            from_provider = refl;
            stamped = refl;
          }

  pub provider-IsPriceProvider : IsPriceProvider provider
  unfolding get_price get_prices status status_of
  provider-IsPriceProvider =
      ask-IsPriceProvider go exchange exchange-IsSound status (λ q. refl) (λ q. refl) lookup_error
