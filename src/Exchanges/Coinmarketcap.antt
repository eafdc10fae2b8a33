-- ===== src/Exchanges/Coinmarketcap.antt =====
-- internal/adapter/provider/coinmarketcap/coinmarketcap.go: one answer for all coins.
use Prim.Native.String.{◌++◌}
use crypto_price_aggregator.Base.{ℕ, refl, String, List, [], ◌∷◌}
use crypto_price_aggregator.Base.Dict.{lookup}
use crypto_price_aggregator.Domain.{Price, ProviderStatus, Result, coin_not_found}
use crypto_price_aggregator.Domain.Numeric.{Decimal, Float, Conversion}
use crypto_price_aggregator.Providers.Adapter.{
  Config, Provider, Request, get_request, join, Runtime, Conn, Call, throw, status_of,
}
use crypto_price_aggregator.Providers.Adapter.Contract.{IsSuccess, Outcome}
use crypto_price_aggregator.Providers.Reading.{
  Reading, found, entry, entry-IsStep, head_of, head_of-IsStep, >>=-Reads,
}
use crypto_price_aggregator.Providers.Quotes.{quoted, quote_all, first_of}
use crypto_price_aggregator.Providers.Quotes.Served.{AreServed, first_of-Outcome}
use crypto_price_aggregator.Providers.Quotes.Asked.{Outcome-IsResult, quote_all-Outcome}
use crypto_price_aggregator.Providers.Interface.{PriceProvider, IsPriceProvider}
use crypto_price_aggregator.Providers.Reading.{◌>>=◌}

pub record CmcQuote (F : Type 0) : Type 0 where
  pub price : F

pub record CmcEntry (F : Type 0) : Type 0 where
  pub quote : List (String × CmcQuote F)

pub record CmcResponse (F : Type 0) : Type 0 where
  pub «data» : List (String × List (CmcEntry F))

-- The remaining rate is left out.
unfoldable pub status : Provider → ProviderStatus
unfolding status_of
status p = record (status_of "coinmarketcap" p) { remaining_rate = 0 }

module _ {W D F : Type 0} ⦃dec : Decimal D⦄ ⦃fl : Float F⦄ ⦃conv : Conversion D F⦄
    (go : Runtime W D F) (decode : String → Result (CmcResponse F)) where
  unfoldable request : List String → String → Config → Request
  request coin_ids currency cfg =
      record (get_request (
        cfg.base_url
        ++ ("/v1/cryptocurrency/quotes/latest?symbol="
            ++ (join coin_ids ++ ("&convert=" ++ go.to_upper currency))))) {
              headers = ("X-CMC_PRO_API_KEY", cfg.api_key) ∷ [];
            }

  unfoldable read : String → CmcResponse F → String → Reading (ℕ → Price D F)
  read currency raw coin_id = do
    entries ← entry (lookup (go.to_upper coin_id) raw.«data»)
    first ← head_of entries
    quote ← entry (lookup (go.to_upper currency) first.quote)
    found λ now. quoted "coinmarketcap" coin_id currency (conv.from_float quote.price) now

  unfoldable pub get_prices : List String → String → Call W (List (Price D F))
  unfolding request read
  get_prices coin_ids currency =
      quote_all go (request coin_ids currency) decode (read currency) coin_ids

  -- A result without prices would not be recorded.
  unfoldable pub get_price : String → String → Call W (Price D F)
  unfolding get_prices
  get_price = first_of (throw coin_not_found) get_prices

  abbrev pub provider : PriceProvider W D F
  provider = record {
    name = "coinmarketcap";
    status = status;
    get_price = get_price;
    get_prices = get_prices;
  }

  get_prices-Outcome :
      (coins : List String) (currency : String) (s : Conn W)
      → Outcome
          (AreServed "coinmarketcap" currency coins)
          (IsSuccess s.provider)
          s.provider
          (get_prices coins currency s)
  unfolding get_prices read
  get_prices-Outcome coins currency s =
      quote_all-Outcome go "coinmarketcap" currency (request coins currency) decode (read currency)
        (λ raw coin. >>=-Reads (entry-IsStep (lookup (go.to_upper coin) raw.«data»)) _ _ λ entries.
          >>=-Reads (head_of-IsStep entries) _ _ λ first.
            >>=-Reads (entry-IsStep (lookup (go.to_upper currency) first.quote)) _ _ λ quote now.
              record { for_coin = refl; in_currency = refl; from_provider = refl; stamped = refl })
        coins s

  pub provider-IsPriceProvider : IsPriceProvider provider
  unfolding get_price status status_of
  provider-IsPriceProvider = record {
    reports_name = λ q. refl;
    reports_error = λ q. refl;
    serves = λ coin currency s.
        first_of-Outcome "coinmarketcap" currency (throw coin_not_found) get_prices coin s
          (get_prices-Outcome (coin ∷ []) currency s);
    serves_all = λ coins currency s.
        Outcome-IsResult (AreServed "coinmarketcap" currency coins) (IsSuccess s.provider)
          s.provider (get_prices coins currency s) (get_prices-Outcome coins currency s);
  }
