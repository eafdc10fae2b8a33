-- ===== src/Exchanges/Okx.antt =====
-- internal/adapter/provider/okx/okx.go
use Prim.Native.String.{◌++◌}
use crypto_price_aggregator.Base.{ℕ, refl, String, List, [], ◌∷◌, str_eq, if◌then◌else◌}
use crypto_price_aggregator.Base.Dict.{lookup}
use crypto_price_aggregator.Domain.{Price, ProviderStatus, Result}
use crypto_price_aggregator.Domain.Numeric.{Decimal, Float, Conversion}
use crypto_price_aggregator.Providers.Adapter.{
  Config, Provider, Request, get_request, Runtime, Call, status_of,
}
use crypto_price_aggregator.Providers.Reading.{
  Reading, found, ◌>>=◌, head_of, head_of-IsStep, or_skip, or_skip-IsStep, or_else, >>=-Reads,
}
use crypto_price_aggregator.Providers.Quotes.{Exchange, quoted, quote_each, quote_first}
use crypto_price_aggregator.Providers.Quotes.Served.{IsSound}
use crypto_price_aggregator.Providers.Interface.{
  PriceProvider, IsPriceProvider, quote_each-IsPriceProvider,
}

abbrev pub coin_symbols : List (String × String)
coin_symbols = ("bitcoin", "BTC") ∷ ("ethereum", "ETH") ∷ ("solana", "SOL") ∷ []

pub record OkxTicker : Type 0 where
  pub inst_id : String
  pub last : String
  pub vol_ccy24h : String

pub record OkxResponse : Type 0 where
  pub code : String
  pub «data» : List OkxTicker

unfoldable pub status : Provider → ProviderStatus
unfolding status_of
status = status_of "okx"

-- The quote currency, with USDT for USD.
abbrev pub quote_currency : String → String
quote_currency quote = if str_eq quote "USD" then "USDT" else quote

module _ {W D F : Type 0} ⦃dec : Decimal D⦄ ⦃fl : Float F⦄ ⦃conv : Conversion D F⦄
    (go : Runtime W D F) (decode : String → Result OkxResponse) where
  unfoldable pub request : Config → String → String → String → Request
  request cfg coin_id currency sym = get_request (
      cfg.base_url
      ++ ("/api/v5/market/ticker?instId="
          ++ (sym ++ ("-" ++ quote_currency (go.to_upper currency)))))

  unfoldable pub read : String → String → String → OkxResponse → Reading (ℕ → Price D F)
  read coin_id currency sym raw = do
    ticker ← head_of raw.«data»
    value ← or_skip (go.new_from_string ticker.last)
    found λ now. record (quoted "okx" coin_id currency value now) {
      volume_24h = or_else dec.zero (go.new_from_string ticker.vol_ccy24h);
    }

  abbrev pub exchange : Exchange D F OkxResponse
  exchange = record {
    provider_name = "okx";
    symbol = λ coin_id. lookup (go.to_lower coin_id) coin_symbols;
    request = request;
    decode = decode;
    read = read;
  }

  unfoldable pub get_prices : List String → String → Call W (List (Price D F))
  unfolding request read
  get_prices = quote_each go exchange

  unfoldable pub get_price : String → String → Call W (Price D F)
  unfolding request read
  get_price = quote_first go exchange

  abbrev pub provider : PriceProvider W D F
  provider = record {
    name = "okx";
    status = status;
    get_price = get_price;
    get_prices = get_prices;
  }

  pub exchange-IsSound : IsSound exchange
  unfolding read
  exchange-IsSound coin currency sym raw = >>=-Reads (head_of-IsStep raw.«data») _ _ λ ticker.
      >>=-Reads (or_skip-IsStep (go.new_from_string ticker.last)) _ _ λ value now. record {
        for_coin = refl;
        in_currency = refl;
        from_provider = refl;
        stamped = refl;
      }

  pub provider-IsPriceProvider : IsPriceProvider provider
  unfolding get_price get_prices status status_of
  provider-IsPriceProvider =
      quote_each-IsPriceProvider go exchange exchange-IsSound status (λ q. refl) (λ q. refl)
