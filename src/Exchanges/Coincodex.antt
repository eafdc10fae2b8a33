-- ===== src/Exchanges/Coincodex.antt =====
-- internal/adapter/provider/coincodex/coincodex.go
use Prim.Native.String.{◌++◌}
use crypto_price_aggregator.Base.{ℕ, refl, String, List, [], ◌∷◌, str_eq, if◌then◌else◌}
use crypto_price_aggregator.Base.Dict.{lookup}
use crypto_price_aggregator.Domain.{Price, ProviderStatus, Result, ok, err}
use crypto_price_aggregator.Domain.Numeric.{Decimal, Float, Conversion}
use crypto_price_aggregator.Providers.Adapter.{
  Config, Provider, Request, get_request, Runtime, Call, status_of,
}
use crypto_price_aggregator.Providers.Reading.{Reading, found, given}
use crypto_price_aggregator.Providers.Quotes.{Exchange, quoted, quote_each, quote_first}
use crypto_price_aggregator.Providers.Quotes.Served.{IsSound}
use crypto_price_aggregator.Providers.Interface.{
  PriceProvider, IsPriceProvider, quote_each-IsPriceProvider,
}

abbrev coin_to_symbol : List (String × String)
coin_to_symbol = ("bitcoin", "btc") ∷ ("ethereum", "eth") ∷ ("solana", "sol") ∷ []

pub record CoincodexResponse (F : Type 0) : Type 0 where
  pub symbol : String
  pub coin_name : String
  pub end : F
  pub volume : String
  pub cap : String
  pub change : String

unfoldable pub status : Provider → ProviderStatus
unfolding status_of
status = status_of "coincodex"

module _ {W D F : Type 0} ⦃dec : Decimal D⦄ ⦃fl : Float F⦄ ⦃conv : Conversion D F⦄
    (go : Runtime W D F) (decode : String → Result (CoincodexResponse F)) where
  unfoldable request : Config → String → String → String → Request
  request cfg coin_id currency sym =
      get_request (cfg.base_url ++ ("/api/coincodex/get_coin/" ++ sym))

  -- The number of a text that is a finite number; on the others NewFromFloat would panic.
  abbrev amount : Result F → D
  amount (ok number) = conv.from_float number
  amount (err e) = dec.zero

  unfoldable read : String → String → String → CoincodexResponse F → Reading (ℕ → Price D F)
  read coin_id currency sym raw = found λ now.
      record (quoted "coincodex" coin_id currency (conv.from_float raw.end) now) {
        market_cap = if str_eq raw.cap "" then dec.zero else amount (go.parse_float raw.cap);
        volume_24h = if str_eq raw.volume "" then dec.zero else amount (go.parse_float raw.volume);
        change_24h = given (fl.of_int 0) raw.change (go.parse_float raw.change);
      }

  abbrev exchange : Exchange D F (CoincodexResponse F)
  exchange = record {
    provider_name = "coincodex";
    symbol = λ coin_id. lookup coin_id coin_to_symbol;
    request = request;
    decode = decode;
    read = read;
  }

  unfoldable pub get_prices : List String → String → Call W (List (Price D F))
  unfolding request read
  get_prices = quote_each go exchange

  unfoldable pub get_price : String → String → Call W (Price D F)
  unfolding request read
  get_price = quote_first go exchange

  abbrev pub provider : PriceProvider W D F
  provider = record {
    name = "coincodex";
    status = status;
    get_price = get_price;
    get_prices = get_prices;
  }

  exchange-IsSound : IsSound exchange
  unfolding read
  exchange-IsSound coin currency sym raw now = record {
    for_coin = refl;
    in_currency = refl;
    from_provider = refl;
    stamped = refl;
  }

  pub provider-IsPriceProvider : IsPriceProvider provider
  unfolding get_price get_prices status status_of
  provider-IsPriceProvider =
      quote_each-IsPriceProvider go exchange exchange-IsSound status (λ q. refl) (λ q. refl)
