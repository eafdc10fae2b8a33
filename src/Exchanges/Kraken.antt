-- ===== src/Exchanges/Kraken.antt =====
-- internal/adapter/provider/kraken/kraken.go
pub mod InDollars
use Prim.Native.String.{◌++◌}
use crypto_price_aggregator.Base.{
  ℕ, refl, String, List, [], ◌∷◌, Option, none, some, str_eq, if◌then◌else◌, get_elem?, inl,
}
use crypto_price_aggregator.Base.Dict.{lookup}
use crypto_price_aggregator.Domain.{Price, ProviderStatus, Result, message}
use crypto_price_aggregator.Domain.Numeric.{Decimal, Float, Conversion}
use crypto_price_aggregator.Providers.Adapter.{
  Config, Provider, Request, get_request, Runtime, Call, status_of, response_error,
}
use crypto_price_aggregator.Providers.Reading.{
  Reading, found, refused, ◌>>=◌, ◌>>◌, head_of, head_of-IsStep, or_refuse, or_refuse-IsStep, entry,
  entry-IsStep, or_else, >>=-Reads, IsStep, step,
}
use crypto_price_aggregator.Providers.Quotes.{Exchange, quoted, ask, one_by_one}
use crypto_price_aggregator.Providers.Quotes.Served.{IsSound}
use crypto_price_aggregator.Providers.Interface.{
  PriceProvider, IsPriceProvider, ask-IsPriceProvider,
}

abbrev pub kraken_pairs : List (String × String)
kraken_pairs = ("bitcoin", "XXBTZUSD") ∷ ("ethereum", "XETHZUSD") ∷ ("solana", "SOLUSD") ∷ []

pub record TickerData : Type 0 where
  pub c : List String
  pub v : List String

-- A ticker is text that is decoded on its own.
pub record TickerResponse : Type 0 where
  pub errors : List String
  pub result : List (String × String)

unfoldable pub status : Provider → ProviderStatus
unfolding status_of
status = status_of "kraken"

-- The pair in the query, from the coin and the pair's full name.
abbrev pub query_pair : String → String → String
query_pair coin_id pair_name =
    if str_eq coin_id "bitcoin"
    then "XBTUSD"
    else if str_eq coin_id "ethereum"
    then "ETHUSD"
    else pair_name

unfoldable pub no_error : List String → Reading (Unit {0})
no_error [] = found tt
no_error (e ∷ rest) = refused (message ("kraken error: " ++ e)) (message ("kraken error: " ++ e))

no_error-IsStep : (errors : List String) → IsStep (no_error errors)
unfolding no_error
no_error-IsStep [] = step tt
no_error-IsStep (e ∷ rest) = step (inl refl)

module _ {W D F : Type 0} ⦃dec : Decimal D⦄ ⦃fl : Float F⦄ ⦃conv : Conversion D F⦄
    (go : Runtime W D F) (decode : String → Result TickerResponse)
    (decode_ticker : String → Result TickerData) where
  unfoldable pub request : Config → String → String → String → Request
  request cfg coin_id currency sym =
      get_request (cfg.base_url ++ ("/0/public/Ticker?pair=" ++ query_pair coin_id sym))

  -- The second volume, of the last day.
  abbrev day_volume : Option String → D
  day_volume none = dec.zero
  day_volume (some text) = or_else dec.zero (go.new_from_string text)

  unfoldable read : String → String → String → TickerResponse → Reading (ℕ → Price D F)
  read coin_id currency sym raw = do
    no_error raw.errors
    raw_ticker ← entry (lookup sym raw.result)
    ticker ← or_refuse "decoding ticker" (decode_ticker raw_ticker)
    last ← head_of ticker.c
    value ← or_refuse "parsing price" (go.new_from_string last)
    found λ now. record (quoted "kraken" coin_id currency value now) {
      volume_24h = day_volume (get_elem? ticker.v 1);
    }

  abbrev exchange : Exchange D F TickerResponse
  exchange = record {
    provider_name = "kraken";
    symbol = λ coin_id. lookup coin_id kraken_pairs;
    request = request;
    decode = decode;
    read = read;
  }

  unfoldable pub get_price : String → String → Call W (Price D F)
  unfolding request read
  get_price = ask go response_error exchange

  unfoldable pub get_prices : List String → String → Call W (List (Price D F))
  unfolding get_price
  get_prices coin_ids currency = one_by_one (λ c. get_price c currency) coin_ids

  abbrev pub provider : PriceProvider W D F
  provider = record {
    name = "kraken";
    status = status;
    get_price = get_price;
    get_prices = get_prices;
  }

  exchange-IsSound : IsSound exchange
  unfolding read
  exchange-IsSound coin currency sym raw = >>=-Reads (no_error-IsStep raw.errors) _ _ λ _.
      >>=-Reads (entry-IsStep (lookup sym raw.result)) _ _ λ raw_ticker.
        >>=-Reads (or_refuse-IsStep "decoding ticker" (decode_ticker raw_ticker)) _ _ λ ticker.
          >>=-Reads (head_of-IsStep ticker.c) _ _ λ last.
            >>=-Reads (or_refuse-IsStep "parsing price" (go.new_from_string last)) _ _ λ value now.
              record { for_coin = refl; in_currency = refl; from_provider = refl; stamped = refl }

  pub provider-IsPriceProvider : IsPriceProvider provider
  unfolding get_price get_prices status status_of
  provider-IsPriceProvider =
      ask-IsPriceProvider go exchange exchange-IsSound status (λ q. refl) (λ q. refl) response_error
