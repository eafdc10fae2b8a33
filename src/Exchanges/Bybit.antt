-- ===== src/Exchanges/Bybit.antt =====
-- internal/adapter/provider/bybit/bybit.go
use Prim.Native.String.{◌++◌}
use crypto_price_aggregator.Base.{ℕ, refl, String, List, [], ◌∷◌, str_eq, if◌then◌else◌}
use crypto_price_aggregator.Base.Int.{ℤ}
use crypto_price_aggregator.Base.Dict.{lookup}
use crypto_price_aggregator.Domain.{Price, ProviderStatus, Result, ok, err}
use crypto_price_aggregator.Domain.Numeric.{Decimal, Float, Conversion}
use crypto_price_aggregator.Providers.Adapter.{
  Config, Provider, Request, get_request, Runtime, Call, status_of,
}
use crypto_price_aggregator.Providers.Reading.{
  Reading, found, ◌>>=◌, head_of, head_of-IsStep, or_skip, or_skip-IsStep, or_else, >>=-Reads,
}
use crypto_price_aggregator.Providers.Quotes.{Exchange, quoted, quote_each, quote_first}
use crypto_price_aggregator.Providers.Quotes.Served.{IsSound}
use crypto_price_aggregator.Providers.Interface.{
  PriceProvider, IsPriceProvider, quote_each-IsPriceProvider,
}

abbrev coin_symbols : List (String × String)
coin_symbols = ("bitcoin", "BTC") ∷ ("ethereum", "ETH") ∷ ("solana", "SOL") ∷ []

pub record BybitTicker : Type 0 where
  pub symbol : String
  pub last_price : String
  pub turnover24h : String
  pub price24h_pcnt : String

pub record BybitResult : Type 0 where
  pub list : List BybitTicker

pub record BybitResponse : Type 0 where
  pub ret_code : ℤ
  pub result : BybitResult

unfoldable pub status : Provider → ProviderStatus
unfolding status_of
status = status_of "bybit"

-- The quote currency, with USDT for USD.
abbrev quote_currency : String → String
quote_currency quote = if str_eq quote "USD" then "USDT" else quote

module _ {W D F : Type 0} ⦃dec : Decimal D⦄ ⦃fl : Float F⦄ ⦃conv : Conversion D F⦄
    (go : Runtime W D F) (decode : String → Result BybitResponse) where
  unfoldable request : Config → String → String → String → Request
  request cfg coin_id currency sym = get_request (
      cfg.base_url
      ++ ("/v5/market/tickers?category=spot&symbol="
          ++ (sym ++ quote_currency (go.to_upper currency))))

  unfoldable read : String → String → String → BybitResponse → Reading (ℕ → Price D F)
  read coin_id currency sym raw = do
    ticker ← head_of raw.result.list
    value ← or_skip (go.new_from_string ticker.last_price)
    found λ now. record (quoted "bybit" coin_id currency value now) {
      volume_24h = or_else dec.zero (go.new_from_string ticker.turnover24h);
      change_24h = elim (go.parse_float ticker.price24h_pcnt) [
        | ok pct ↦ fl.mul pct (fl.of_int 100)
        | err e ↦ fl.of_int 0
      ];
    }

  abbrev exchange : Exchange D F BybitResponse
  exchange = record {
    provider_name = "bybit";
    symbol = λ coin_id. lookup (go.to_lower coin_id) coin_symbols;
    request = request;
    decode = decode;
    read = read;
  }

  unfoldable pub get_prices : List String → String → Call W (List (Price D F))
  unfolding request read
  get_prices = quote_each go exchange

  unfoldable pub get_price : String → String → Call W (Price D F)
  unfolding request read
  get_price = quote_first go exchange

  abbrev pub provider : PriceProvider W D F
  provider = record {
    name = "bybit";
    status = status;
    get_price = get_price;
    get_prices = get_prices;
  }

  exchange-IsSound : IsSound exchange
  unfolding read
  exchange-IsSound coin currency sym raw = >>=-Reads (head_of-IsStep raw.result.list) _ _ λ ticker.
      >>=-Reads (or_skip-IsStep (go.new_from_string ticker.last_price)) _ _ λ value now. record {
        for_coin = refl;
        in_currency = refl;
        from_provider = refl;
        stamped = refl;
      }

  pub provider-IsPriceProvider : IsPriceProvider provider
  unfolding get_price get_prices status status_of
  provider-IsPriceProvider =
      quote_each-IsPriceProvider go exchange exchange-IsSound status (λ q. refl) (λ q. refl)
