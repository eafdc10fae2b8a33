-- ===== src/Exchanges/Bitfinex.antt =====
-- internal/adapter/provider/bitfinex/bitfinex.go
use Prim.Native.String.{◌++◌}
use crypto_price_aggregator.Base.{ℕ, refl, String, List, [], ◌∷◌, ltb, length, get_elem?}
use crypto_price_aggregator.Base.Dict.{lookup}
use crypto_price_aggregator.Domain.{Price, ProviderStatus, Result, message}
use crypto_price_aggregator.Domain.Numeric.{Decimal, Float, Conversion}
use crypto_price_aggregator.Providers.Adapter.{
  Config, Provider, Request, get_request, Runtime, Call, status_of, response_error,
}
use crypto_price_aggregator.Providers.Reading.{
  Reading, found, ◌>>=◌, ◌>>◌, entry, entry-IsStep, refuse_if, refuse_if-IsStep, >>=-Reads,
}
use crypto_price_aggregator.Providers.Quotes.{Exchange, quoted, ask, one_by_one}
use crypto_price_aggregator.Providers.Quotes.Served.{IsSound}
use crypto_price_aggregator.Providers.Interface.{
  PriceProvider, IsPriceProvider, ask-IsPriceProvider,
}

abbrev ticker_symbols : List (String × String)
ticker_symbols = ("bitcoin", "tBTCUSD") ∷ ("ethereum", "tETHUSD") ∷ ("solana", "tSOLUSD") ∷ []

unfoldable pub status : Provider → ProviderStatus
unfolding status_of
status = status_of "bitfinex"

module _ {W D F : Type 0} ⦃dec : Decimal D⦄ ⦃fl : Float F⦄ ⦃conv : Conversion D F⦄
    (go : Runtime W D F) (decode : String → Result (List F)) where
  unfoldable request : Config → String → String → String → Request
  request cfg coin_id currency sym = get_request (cfg.base_url ++ ("/v2/ticker/" ++ sym))

  unfoldable read : String → String → String → List F → Reading (ℕ → Price D F)
  read coin_id currency sym raw = do
    refuse_if (ltb (length raw) 8) (message "unexpected response length")
    last_price ← entry (get_elem? raw 6)
    volume ← entry (get_elem? raw 7)
    change_pct ← entry (get_elem? raw 5)
    found λ now. record (quoted "bitfinex" coin_id currency (conv.from_float last_price) now) {
      volume_24h = conv.from_float volume;
      change_24h = fl.mul change_pct (fl.of_int 100);
    }

  abbrev exchange : Exchange D F (List F)
  exchange = record {
    provider_name = "bitfinex";
    symbol = λ coin_id. lookup coin_id ticker_symbols;
    request = request;
    decode = decode;
    read = read;
  }

  unfoldable pub get_price : String → String → Call W (Price D F)
  unfolding request read
  get_price = ask go response_error exchange

  unfoldable pub get_prices : List String → String → Call W (List (Price D F))
  unfolding get_price
  get_prices coin_ids currency = one_by_one (λ c. get_price c currency) coin_ids

  abbrev pub provider : PriceProvider W D F
  provider = record {
    name = "bitfinex";
    status = status;
    get_price = get_price;
    get_prices = get_prices;
  }

  exchange-IsSound : IsSound exchange
  unfolding read
  exchange-IsSound coin currency sym raw =
      >>=-Reads (refuse_if-IsStep (ltb (length raw) 8) (message "unexpected response length")) _ _
        λ _. >>=-Reads (entry-IsStep (get_elem? raw 6)) _ _ λ last_price.
          >>=-Reads (entry-IsStep (get_elem? raw 7)) _ _ λ volume.
            >>=-Reads (entry-IsStep (get_elem? raw 5)) _ _ λ change_pct now. record {
              for_coin = refl;
              in_currency = refl;
              from_provider = refl;
              stamped = refl;
            }

  pub provider-IsPriceProvider : IsPriceProvider provider
  unfolding get_price get_prices status status_of
  provider-IsPriceProvider =
      ask-IsPriceProvider go exchange exchange-IsSound status (λ q. refl) (λ q. refl) response_error
