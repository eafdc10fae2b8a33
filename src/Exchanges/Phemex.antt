-- ===== src/Exchanges/Phemex.antt =====
-- internal/adapter/provider/phemex/phemex.go
use Prim.Native.String.{◌++◌}
use crypto_price_aggregator.Base.{ℕ, ◌+◌, refl, Bool, false, not, String, List, [], ◌∷◌, ltb}
use crypto_price_aggregator.Base.Int.{ℤ, pos, negsuc}
use crypto_price_aggregator.Base.Dict.{lookup}
use crypto_price_aggregator.Domain.{Price, ProviderStatus, Result}
use crypto_price_aggregator.Domain.Numeric.{Decimal, Float, Conversion}
use crypto_price_aggregator.Providers.Adapter.{
  Config, Provider, Request, get_request, Runtime, Call, status_of,
}
use crypto_price_aggregator.Providers.Reading.{
  Reading, found, ◌>>=◌, ◌>>◌, entry, entry-IsStep, skip_if, skip_if-IsStep, >>=-Reads,
}
use crypto_price_aggregator.Providers.Quotes.{Exchange, quoted, quote_each, quote_first}
use crypto_price_aggregator.Providers.Quotes.Served.{IsSound}
use crypto_price_aggregator.Providers.Interface.{
  PriceProvider, IsPriceProvider, quote_each-IsPriceProvider,
}

abbrev coin_symbols : List (String × String)
coin_symbols = ("bitcoin", "BTC") ∷ ("ethereum", "ETH") ∷ ("solana", "SOL") ∷ []

pub record PhemexTickerResult : Type 0 where
  pub symbol : String
  pub last_ep : ℤ
  pub high_ep : ℤ
  pub low_ep : ℤ

pub record PhemexResponse : Type 0 where
  pub result : PhemexTickerResult

unfoldable pub status : Provider → ProviderStatus
unfolding status_of
status = status_of "phemex"

abbrev is_zero : ℤ → Bool
is_zero (pos n) = not (ltb 0 n)
is_zero (negsuc n) = false

module _ {W D F : Type 0} ⦃dec : Decimal D⦄ ⦃fl : Float F⦄ ⦃conv : Conversion D F⦄
    (go : Runtime W D F) (decode : String → Result PhemexResponse) where
  unfoldable request : Config → String → String → String → Request
  request cfg coin_id currency sym =
      get_request (cfg.base_url ++ ("/md/v1/ticker/24hr?symbol=" ++ ("s" ++ (sym ++ "USDT"))))

  -- `decimal.NewFromInt`
  abbrev new_from_int : ℤ → D
  new_from_int (pos n) = dec.from_int n
  new_from_int (negsuc n) = dec.sub dec.zero (dec.from_int (n + 1))

  abbrev scale_factor : F
  scale_factor = fl.of_int 100_000_000

  unfoldable read : String → String → String → PhemexResponse → Reading (ℕ → Price D F)
  read coin_id currency sym raw = do
    skip_if (is_zero raw.result.last_ep)
    value ← entry (dec.div (new_from_int raw.result.last_ep) (conv.from_float scale_factor))
    found λ now. quoted "phemex" coin_id currency value now

  abbrev exchange : Exchange D F PhemexResponse
  exchange = record {
    provider_name = "phemex";
    symbol = λ coin_id. lookup (go.to_lower coin_id) coin_symbols;
    request = request;
    decode = decode;
    read = read;
  }

  unfoldable pub get_prices : List String → String → Call W (List (Price D F))
  unfolding request read
  get_prices = quote_each go exchange

  unfoldable pub get_price : String → String → Call W (Price D F)
  unfolding request read
  get_price = quote_first go exchange

  abbrev pub provider : PriceProvider W D F
  provider = record {
    name = "phemex";
    status = status;
    get_price = get_price;
    get_prices = get_prices;
  }

  exchange-IsSound : IsSound exchange
  unfolding read
  exchange-IsSound coin currency sym raw =
      >>=-Reads (skip_if-IsStep (is_zero raw.result.last_ep)) _ _ λ _.
        >>=-Reads
          (entry-IsStep (dec.div (new_from_int raw.result.last_ep) (conv.from_float scale_factor)))
          _ _
          λ value now. record {
            for_coin = refl;
            in_currency = refl;
            from_provider = refl;
            stamped = refl;
          }

  pub provider-IsPriceProvider : IsPriceProvider provider
  unfolding get_price get_prices status status_of
  provider-IsPriceProvider =
      quote_each-IsPriceProvider go exchange exchange-IsSound status (λ q. refl) (λ q. refl)
