-- ===== src/Exchanges/Htx.antt =====
-- internal/adapter/provider/htx/htx.go
use Prim.Native.String.{◌++◌}
use crypto_price_aggregator.Base.{
  ℕ, refl, Bool, ◌||◌, ◌&&◌, not, String, List, [], ◌∷◌, str_eq, if◌then◌else◌,
}
use crypto_price_aggregator.Base.Dict.{lookup}
use crypto_price_aggregator.Domain.{Price, ProviderStatus, Result}
use crypto_price_aggregator.Domain.Numeric.{Decimal, Float, Conversion}
use crypto_price_aggregator.Providers.Adapter.{
  Config, Provider, Request, get_request, Runtime, Call, status_of,
}
use crypto_price_aggregator.Providers.Reading.{
  Reading, found, ◌>>◌, skip_if, skip_if-IsStep, >>=-Reads,
}
use crypto_price_aggregator.Providers.Quotes.{Exchange, quoted, quote_each, quote_first}
use crypto_price_aggregator.Providers.Quotes.Served.{IsSound}
use crypto_price_aggregator.Providers.Interface.{
  PriceProvider, IsPriceProvider, quote_each-IsPriceProvider,
}

abbrev coin_symbols : List (String × String)
coin_symbols = ("bitcoin", "btc") ∷ ("ethereum", "eth") ∷ ("solana", "sol") ∷ []

pub record HtxTick (F : Type 0) : Type 0 where
  pub close : F
  pub vol : F
  pub amount : F
  pub high : F
  pub low : F

pub record HtxResponse (F : Type 0) : Type 0 where
  pub status : String
  pub tick : HtxTick F

unfoldable pub status : Provider → ProviderStatus
unfolding status_of
status = status_of "htx"

-- The quote currency, with usdt for usd.
abbrev quote_currency : String → String
quote_currency quote = if str_eq quote "usd" then "usdt" else quote

module _ {W D F : Type 0} ⦃dec : Decimal D⦄ ⦃fl : Float F⦄ ⦃conv : Conversion D F⦄
    (go : Runtime W D F) (decode : String → Result (HtxResponse F)) where
  unfoldable request : Config → String → String → String → Request
  request cfg coin_id currency sym = get_request (
      cfg.base_url
      ++ ("/market/detail/merged?symbol=" ++ (sym ++ quote_currency (go.to_lower currency))))

  -- `x == 0`, which no NaN is.
  abbrev eq_zero : F → Bool
  eq_zero x = fl.le x (fl.of_int 0) && fl.le (fl.of_int 0) x

  unfoldable read : String → String → String → HtxResponse F → Reading (ℕ → Price D F)
  read coin_id currency sym raw = do
    skip_if (not (str_eq raw.status "ok") || eq_zero raw.tick.close)
    found λ now. record (quoted "htx" coin_id currency (conv.from_float raw.tick.close) now) {
      volume_24h =
          if fl.gt raw.tick.vol (fl.of_int 0) then conv.from_float raw.tick.vol else dec.zero;
    }

  abbrev exchange : Exchange D F (HtxResponse F)
  exchange = record {
    provider_name = "htx";
    symbol = λ coin_id. lookup (go.to_lower coin_id) coin_symbols;
    request = request;
    decode = decode;
    read = read;
  }

  unfoldable pub get_prices : List String → String → Call W (List (Price D F))
  unfolding request read
  get_prices = quote_each go exchange

  unfoldable pub get_price : String → String → Call W (Price D F)
  unfolding request read
  get_price = quote_first go exchange

  abbrev pub provider : PriceProvider W D F
  provider = record {
    name = "htx";
    status = status;
    get_price = get_price;
    get_prices = get_prices;
  }

  exchange-IsSound : IsSound exchange
  unfolding read
  exchange-IsSound coin currency sym raw =
      >>=-Reads (skip_if-IsStep (not (str_eq raw.status "ok") || eq_zero raw.tick.close)) _ _
        λ _ now. record {
          for_coin = refl;
          in_currency = refl;
          from_provider = refl;
          stamped = refl;
        }

  pub provider-IsPriceProvider : IsPriceProvider provider
  unfolding get_price get_prices status status_of
  provider-IsPriceProvider =
      quote_each-IsPriceProvider go exchange exchange-IsSound status (λ q. refl) (λ q. refl)
