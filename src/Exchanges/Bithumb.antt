-- ===== src/Exchanges/Bithumb.antt =====
-- internal/adapter/provider/bithumb/bithumb.go
use Prim.Native.String.{◌++◌}
use crypto_price_aggregator.Base.{ℕ, refl, String, List, [], ◌∷◌, str_eq, if◌then◌else◌}
use crypto_price_aggregator.Base.Dict.{lookup}
use crypto_price_aggregator.Domain.{Price, ProviderStatus, Result}
use crypto_price_aggregator.Domain.Numeric.{Decimal, Float, Conversion}
use crypto_price_aggregator.Providers.Adapter.{
  Config, Provider, Request, get_request, Runtime, Call, status_of,
}
use crypto_price_aggregator.Providers.Reading.{
  Reading, found, ◌>>=◌, head_of, head_of-IsStep, >>=-Reads,
}
use crypto_price_aggregator.Providers.Quotes.{Exchange, quoted, quote_each, quote_first}
use crypto_price_aggregator.Providers.Quotes.Served.{IsSound}
use crypto_price_aggregator.Providers.Interface.{
  PriceProvider, IsPriceProvider, quote_each-IsPriceProvider,
}

abbrev coin_symbols : List (String × String)
coin_symbols = ("bitcoin", "BTC") ∷ ("ethereum", "ETH") ∷ ("solana", "SOL") ∷ []

pub record BithumbTicker (F : Type 0) : Type 0 where
  pub market : String
  pub trade_price : F
  pub change_rate : F
  pub acc_trade_volume : F
  pub high_price : F
  pub low_price : F

unfoldable pub status : Provider → ProviderStatus
unfolding status_of
status = status_of "bithumb"

-- The quote currency, with USDT for USD.
abbrev quote_currency : String → String
quote_currency quote = if str_eq quote "USD" then "USDT" else quote

module _ {W D F : Type 0} ⦃dec : Decimal D⦄ ⦃fl : Float F⦄ ⦃conv : Conversion D F⦄
    (go : Runtime W D F) (decode : String → Result (List (BithumbTicker F))) where
  unfoldable request : Config → String → String → String → Request
  request cfg coin_id currency sym = get_request (
      cfg.base_url
      ++ ("/v1/ticker?markets=" ++ (quote_currency (go.to_upper currency) ++ ("-" ++ sym))))

  unfoldable read : String → String → String → List (BithumbTicker F) → Reading (ℕ → Price D F)
  read coin_id currency sym raw = do
    ticker ← head_of raw
    found λ now.
        record (quoted "bithumb" coin_id currency (conv.from_float ticker.trade_price) now) {
          volume_24h = conv.from_float ticker.acc_trade_volume;
          change_24h = fl.mul ticker.change_rate (fl.of_int 100);
        }

  abbrev exchange : Exchange D F (List (BithumbTicker F))
  exchange = record {
    provider_name = "bithumb";
    symbol = λ coin_id. lookup (go.to_lower coin_id) coin_symbols;
    request = request;
    decode = decode;
    read = read;
  }

  unfoldable pub get_prices : List String → String → Call W (List (Price D F))
  unfolding request read
  get_prices = quote_each go exchange

  unfoldable pub get_price : String → String → Call W (Price D F)
  unfolding request read
  get_price = quote_first go exchange

  abbrev pub provider : PriceProvider W D F
  provider = record {
    name = "bithumb";
    status = status;
    get_price = get_price;
    get_prices = get_prices;
  }

  exchange-IsSound : IsSound exchange
  unfolding read
  exchange-IsSound coin currency sym raw = >>=-Reads (head_of-IsStep raw) _ _ λ ticker now. record {
    for_coin = refl;
    in_currency = refl;
    from_provider = refl;
    stamped = refl;
  }

  pub provider-IsPriceProvider : IsPriceProvider provider
  unfolding get_price get_prices status status_of
  provider-IsPriceProvider =
      quote_each-IsPriceProvider go exchange exchange-IsSound status (λ q. refl) (λ q. refl)
