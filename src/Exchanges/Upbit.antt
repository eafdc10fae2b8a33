-- ===== src/Exchanges/Upbit.antt =====
-- internal/adapter/provider/upbit/upbit.go
use Prim.Native.String.{◌++◌}
use crypto_price_aggregator.Base.{ℕ, refl, String, List, [], ◌∷◌, str_eq, if◌then◌else◌}
use crypto_price_aggregator.Base.Int.{ℤ}
use crypto_price_aggregator.Base.Dict.{lookup}
use crypto_price_aggregator.Domain.{Price, ProviderStatus, Result}
use crypto_price_aggregator.Domain.Numeric.{Decimal, Float, Conversion}
use crypto_price_aggregator.Providers.Adapter.{
  Config, Provider, Request, get_request, Runtime, Call, status_of,
}
use crypto_price_aggregator.Providers.Reading.{
  Reading, found, ◌>>=◌, ◌>>◌, head_of, head_of-IsStep, skip_if, skip_if-IsStep, >>=-Reads,
}
use crypto_price_aggregator.Providers.Quotes.{Exchange, quoted, quote_each, quote_first}
use crypto_price_aggregator.Providers.Quotes.Served.{IsSound}
use crypto_price_aggregator.Providers.Interface.{
  PriceProvider, IsPriceProvider, quote_each-IsPriceProvider,
}

abbrev coin_symbols : List (String × String)
coin_symbols =
    ("bitcoin", "BTC")
    ∷ ("ethereum", "ETH")
    ∷ ("solana", "SOL")
    ∷ ("cardano", "ADA")
    ∷ ("ripple", "XRP")
    ∷ []

pub record UpbitTicker (F : Type 0) : Type 0 where
  pub market : String
  pub trade_price : F
  pub signed_change_rate : F
  pub acc_trade_volume24h : F
  pub high_price : F
  pub low_price : F
  pub timestamp : ℤ

unfoldable pub status : Provider → ProviderStatus
unfolding status_of
status = status_of "upbit"

-- USDT for USD, and Korean won for any other currency.
abbrev quote_prefix : String → String
quote_prefix quote = if str_eq quote "USD" then "USDT" else "KRW"

module _ {W D F : Type 0} ⦃dec : Decimal D⦄ ⦃fl : Float F⦄ ⦃conv : Conversion D F⦄
    (go : Runtime W D F) (decode : String → Result (List (UpbitTicker F))) where
  unfoldable request : Config → String → String → String → Request
  request cfg coin_id currency sym = get_request (
      cfg.base_url
      ++ ("/v1/ticker?markets=" ++ (quote_prefix (go.to_upper currency) ++ ("-" ++ sym))))

  unfoldable read : String → String → String → List (UpbitTicker F) → Reading (ℕ → Price D F)
  read coin_id currency sym raw = do
    ticker ← head_of raw
    skip_if (dec.is_zero (conv.from_float ticker.trade_price))
    found λ now. record (quoted "upbit" coin_id currency (conv.from_float ticker.trade_price) now) {
      volume_24h = conv.from_float ticker.acc_trade_volume24h;
      change_24h = fl.mul ticker.signed_change_rate (fl.of_int 100);
    }

  abbrev exchange : Exchange D F (List (UpbitTicker F))
  exchange = record {
    provider_name = "upbit";
    symbol = λ coin_id. lookup (go.to_lower coin_id) coin_symbols;
    request = request;
    decode = decode;
    read = read;
  }

  unfoldable pub get_prices : List String → String → Call W (List (Price D F))
  unfolding request read
  get_prices = quote_each go exchange

  unfoldable pub get_price : String → String → Call W (Price D F)
  unfolding request read
  get_price = quote_first go exchange

  abbrev pub provider : PriceProvider W D F
  provider = record {
    name = "upbit";
    status = status;
    get_price = get_price;
    get_prices = get_prices;
  }

  exchange-IsSound : IsSound exchange
  unfolding read
  exchange-IsSound coin currency sym raw = >>=-Reads (head_of-IsStep raw) _ _ λ ticker.
      >>=-Reads (skip_if-IsStep (dec.is_zero (conv.from_float ticker.trade_price))) _ _ λ _ now.
        record { for_coin = refl; in_currency = refl; from_provider = refl; stamped = refl }

  pub provider-IsPriceProvider : IsPriceProvider provider
  unfolding get_price get_prices status status_of
  provider-IsPriceProvider =
      quote_each-IsPriceProvider go exchange exchange-IsSound status (λ q. refl) (λ q. refl)
