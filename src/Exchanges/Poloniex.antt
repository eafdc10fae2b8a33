-- ===== src/Exchanges/Poloniex.antt =====
-- internal/adapter/provider/poloniex/poloniex.go
use Prim.Native.String.{◌++◌}
use crypto_price_aggregator.Base.{ℕ, refl, String, List, [], ◌∷◌, str_eq, if◌then◌else◌}
use crypto_price_aggregator.Base.Dict.{lookup}
use crypto_price_aggregator.Domain.{Price, ProviderStatus, Result, ok, err}
use crypto_price_aggregator.Domain.Numeric.{Decimal, Float, Conversion}
use crypto_price_aggregator.Providers.Adapter.{
  Config, Provider, Request, get_request, Runtime, Call, status_of,
}
use crypto_price_aggregator.Providers.Reading.{
  Reading, found, ◌>>=◌, ◌>>◌, or_skip, or_skip-IsStep, skip_if, skip_if-IsStep, >>=-Reads,
}
use crypto_price_aggregator.Providers.Quotes.{Exchange, quoted, quote_each, quote_first}
use crypto_price_aggregator.Providers.Quotes.Served.{IsSound}
use crypto_price_aggregator.Providers.Interface.{
  PriceProvider, IsPriceProvider, quote_each-IsPriceProvider,
}

abbrev coin_symbols : List (String × String)
coin_symbols = ("bitcoin", "BTC") ∷ ("ethereum", "ETH") ∷ ("solana", "SOL") ∷ []

pub record PoloniexTicker : Type 0 where
  pub symbol : String
  pub price : String
  pub daily_change : String

unfoldable pub status : Provider → ProviderStatus
unfolding status_of
status = status_of "poloniex"

-- The quote currency, with USDT for USD.
abbrev quote_currency : String → String
quote_currency quote = if str_eq quote "USD" then "USDT" else quote

module _ {W D F : Type 0} ⦃dec : Decimal D⦄ ⦃fl : Float F⦄ ⦃conv : Conversion D F⦄
    (go : Runtime W D F) (decode : String → Result PoloniexTicker) where
  unfoldable request : Config → String → String → String → Request
  request cfg coin_id currency sym = get_request (
      cfg.base_url
      ++ ("/markets/" ++ (sym ++ ("_" ++ (quote_currency (go.to_upper currency) ++ "/price")))))

  abbrev percent : Result D → F
  percent (ok change) = conv.to_float (dec.mul change (dec.from_int 100))
  percent (err e) = fl.of_int 0

  unfoldable read : String → String → String → PoloniexTicker → Reading (ℕ → Price D F)
  read coin_id currency sym raw = do
    value ← or_skip (go.new_from_string raw.price)
    skip_if (dec.is_zero value)
    found λ now. record (quoted "poloniex" coin_id currency value now) {
      change_24h =
          if str_eq raw.daily_change ""
          then fl.of_int 0
          else percent (go.new_from_string raw.daily_change);
    }

  abbrev exchange : Exchange D F PoloniexTicker
  exchange = record {
    provider_name = "poloniex";
    symbol = λ coin_id. lookup (go.to_lower coin_id) coin_symbols;
    request = request;
    decode = decode;
    read = read;
  }

  unfoldable pub get_prices : List String → String → Call W (List (Price D F))
  unfolding request read
  get_prices = quote_each go exchange

  unfoldable pub get_price : String → String → Call W (Price D F)
  unfolding request read
  get_price = quote_first go exchange

  abbrev pub provider : PriceProvider W D F
  provider = record {
    name = "poloniex";
    status = status;
    get_price = get_price;
    get_prices = get_prices;
  }

  exchange-IsSound : IsSound exchange
  unfolding read
  exchange-IsSound coin currency sym raw =
      >>=-Reads (or_skip-IsStep (go.new_from_string raw.price)) _ _ λ value.
        >>=-Reads (skip_if-IsStep (dec.is_zero value)) _ _ λ _ now. record {
          for_coin = refl;
          in_currency = refl;
          from_provider = refl;
          stamped = refl;
        }

  pub provider-IsPriceProvider : IsPriceProvider provider
  unfolding get_price get_prices status status_of
  provider-IsPriceProvider =
      quote_each-IsPriceProvider go exchange exchange-IsSound status (λ q. refl) (λ q. refl)
