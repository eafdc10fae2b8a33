-- ===== src/Exchanges/Cryptocompare.antt =====
-- internal/adapter/provider/cryptocompare/cryptocompare.go
use Prim.Native.String.{◌++◌}
use crypto_price_aggregator.Base.{
  ℕ, Bool, true, false, not, String, List, Option, none, some, if◌then◌else◌, ◌==◌, leb,
}
use crypto_price_aggregator.Base.Dict.{lookup}
use crypto_price_aggregator.Domain.{
  Price, ProviderStatus, Result, Error, message, rate_limited, provider_down, unauthorized,
  coin_not_found,
}
use crypto_price_aggregator.Domain.Numeric.{Decimal, Float, Conversion}
use crypto_price_aggregator.Providers.Adapter.{
  Config, Provider, Request, get_request, Runtime, Call, pure, throw, config, clock, succeed, fetch,
  status_of,
}
use crypto_price_aggregator.Providers.Quotes.{quoted, first_of, gather, attempt, some_or_none}
use crypto_price_aggregator.Providers.Interface.{PriceProvider}
use crypto_price_aggregator.Providers.Adapter.{◌>>=◌}

-- The remaining rate is left out.
unfoldable pub status : Provider → ProviderStatus
unfolding status_of
status p = record (status_of "cryptocompare" p) { remaining_rate = 0 }

-- A status of 401, 403 or 404 is not told from other unexpected ones.
unfoldable pub answer_error : ℕ → Option Error
answer_error code =
    if code == 429
    then some rate_limited
    else if leb 500 code
    then some provider_down
    else if not (code == 200)
    then some (message "unexpected status")
    else none

-- The errors that end GetPrices.
unfoldable pub is_hard : Error → Bool
is_hard rate_limited = true
is_hard provider_down = true
is_hard unauthorized = true
is_hard e = false

module _ {W D F : Type 0} ⦃dec : Decimal D⦄ ⦃fl : Float F⦄ ⦃conv : Conversion D F⦄
    (go : Runtime W D F) (decode : String → Result (List (String × F))) where
  unfoldable request : Config → String → String → Request
  request cfg coin_id currency = get_request (
      cfg.base_url
      ++ ("/data/price?fsym=" ++ (go.to_upper coin_id ++ ("&tsyms=" ++ go.to_upper currency))))

  -- A missing currency is not recorded.
  unfoldable priced : String → String → Option F → Call W (Price D F)
  priced coin_id currency none = throw coin_not_found
  priced coin_id currency (some value) = do
    now ← clock go
    pure (quoted "cryptocompare" coin_id currency (conv.from_float value) now)

  unfoldable pub fetch_one : String → String → Call W (Price D F)
  unfolding request priced
  fetch_one coin_id currency = do
    cfg ← config
    raw ← fetch go answer_error decode (request cfg coin_id currency)
    priced coin_id currency (lookup (go.to_upper currency) raw)

  -- One request for each coin, and the errors that are not hard leave a coin out.
  unfoldable pub get_prices : List String → String → Call W (List (Price D F))
  unfolding fetch_one
  get_prices coin_ids currency =
      gather (λ c. attempt is_hard (fetch_one c currency)) coin_ids
      >>= some_or_none (succeed go) coin_ids

  unfoldable pub get_price : String → String → Call W (Price D F)
  unfolding get_prices
  get_price = first_of (throw coin_not_found) get_prices

  abbrev pub provider : PriceProvider W D F
  provider = record {
    name = "cryptocompare";
    status = status;
    get_price = get_price;
    get_prices = get_prices;
  }
