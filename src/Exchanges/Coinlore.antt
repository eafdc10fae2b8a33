-- ===== src/Exchanges/Coinlore.antt =====
-- internal/adapter/provider/coinlore/coinlore.go
use Prim.Native.String.{◌++◌}
use crypto_price_aggregator.Base.{ℕ, refl, String, List, [], ◌∷◌}
use crypto_price_aggregator.Base.Dict.{lookup}
use crypto_price_aggregator.Domain.{Price, ProviderStatus, Result}
use crypto_price_aggregator.Domain.Numeric.{Decimal, Float, Conversion}
use crypto_price_aggregator.Providers.Adapter.{
  Config, Provider, Request, get_request, Runtime, Call, status_of, response_error,
}
use crypto_price_aggregator.Providers.Reading.{
  Reading, found, ◌>>=◌, head_of, head_of-IsStep, or_refuse, or_refuse-IsStep, or_else, >>=-Reads,
}
use crypto_price_aggregator.Providers.Quotes.{Exchange, quoted, ask, one_by_one}
use crypto_price_aggregator.Providers.Quotes.Served.{IsSound}
use crypto_price_aggregator.Providers.Interface.{
  PriceProvider, IsPriceProvider, ask-IsPriceProvider,
}

abbrev symbol_to_id : List (String × String)
symbol_to_id =
    ("bitcoin", "90")
    ∷ ("ethereum", "80")
    ∷ ("solana", "48543")
    ∷ ("cardano", "257")
    ∷ ("ripple", "58")
    ∷ []

pub record TickerItem : Type 0 where
  pub id : String
  pub symbol : String
  pub name : String
  pub price_usd : String
  pub market_cap_usd : String
  pub volume24 : String
  pub change24h : String

unfoldable pub status : Provider → ProviderStatus
unfolding status_of
status = status_of "coinlore"

module _ {W D F : Type 0} ⦃dec : Decimal D⦄ ⦃fl : Float F⦄ ⦃conv : Conversion D F⦄
    (go : Runtime W D F) (decode : String → Result (List TickerItem)) where
  unfoldable request : Config → String → String → String → Request
  request cfg coin_id currency sym = get_request (cfg.base_url ++ ("/api/ticker/?id=" ++ sym))

  unfoldable read : String → String → String → List TickerItem → Reading (ℕ → Price D F)
  read coin_id currency sym raw = do
    item ← head_of raw
    value ← or_refuse "parsing price" (go.new_from_string item.price_usd)
    found λ now. record (quoted "coinlore" coin_id currency value now) {
      market_cap = or_else dec.zero (go.new_from_string item.market_cap_usd);
      volume_24h = or_else dec.zero (go.new_from_string item.volume24);
      change_24h = or_else (fl.of_int 0) (go.parse_float item.change24h);
    }

  abbrev exchange : Exchange D F (List TickerItem)
  exchange = record {
    provider_name = "coinlore";
    symbol = λ coin_id. lookup coin_id symbol_to_id;
    request = request;
    decode = decode;
    read = read;
  }

  unfoldable pub get_price : String → String → Call W (Price D F)
  unfolding request read
  get_price = ask go response_error exchange

  unfoldable pub get_prices : List String → String → Call W (List (Price D F))
  unfolding get_price
  get_prices coin_ids currency = one_by_one (λ c. get_price c currency) coin_ids

  abbrev pub provider : PriceProvider W D F
  provider = record {
    name = "coinlore";
    status = status;
    get_price = get_price;
    get_prices = get_prices;
  }

  exchange-IsSound : IsSound exchange
  unfolding read
  exchange-IsSound coin currency sym raw = >>=-Reads (head_of-IsStep raw) _ _ λ item.
      >>=-Reads (or_refuse-IsStep "parsing price" (go.new_from_string item.price_usd)) _ _
        λ value now. record {
          for_coin = refl;
          in_currency = refl;
          from_provider = refl;
          stamped = refl;
        }

  pub provider-IsPriceProvider : IsPriceProvider provider
  unfolding get_price get_prices status status_of
  provider-IsPriceProvider =
      ask-IsPriceProvider go exchange exchange-IsSound status (λ q. refl) (λ q. refl) response_error
