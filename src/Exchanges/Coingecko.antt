-- ===== src/Exchanges/Coingecko.antt =====
-- internal/adapter/provider/coingecko/coingecko.go: one answer for all coins.
pub mod Token
use Prim.Native.String.{◌++◌}
use crypto_price_aggregator.Base.{ℕ, refl, String, List, [], ◌∷◌, Option, none, some}
use crypto_price_aggregator.Base.Dict.{lookup}
use crypto_price_aggregator.Domain.{Price, ProviderStatus, Result}
use crypto_price_aggregator.Domain.Numeric.{Decimal, Float}
use crypto_price_aggregator.Providers.Adapter.{
  Config, Provider, Request, get_request, key_header, join, Runtime, Conn, Call, status_of,
}
use crypto_price_aggregator.Providers.Adapter.Contract.{IsSuccess, Outcome}
use crypto_price_aggregator.Providers.Reading.{
  Reading, found, entry, entry-IsStep, or_refuse, or_refuse-IsStep, or_else, >>=-Reads,
}
use crypto_price_aggregator.Providers.Quotes.{quoted, quote_all, first_of, not_found}
use crypto_price_aggregator.Providers.Quotes.Served.{AreServed, first_of-Outcome}
use crypto_price_aggregator.Providers.Quotes.Asked.{Outcome-IsResult, quote_all-Outcome}
use crypto_price_aggregator.Providers.Interface.{PriceProvider, IsPriceProvider}
use crypto_price_aggregator.Providers.Reading.{◌>>=◌}

unfoldable pub status : Provider → ProviderStatus
unfolding status_of
status = status_of "coingecko"

-- A number of the answer is kept as text, as `json.Number` does.
abbrev pub Quotes : Type 0
Quotes = List (String × List (String × String))

module _ {W D F : Type 0} ⦃dec : Decimal D⦄ ⦃fl : Float F⦄ (go : Runtime W D F)
    (decode : String → Result Quotes) where
  unfoldable request : List String → String → Config → Request
  request coin_ids currency cfg =
      record (get_request (
        cfg.base_url
        ++ ("/simple/price?ids="
            ++ (join coin_ids
                ++ ("&vs_currencies="
                    ++ (currency
                        ++ "&include_market_cap=true&include_24hr_vol=true&include_24hr_change=true")))))) {
                          headers = key_header "x-cg-demo-api-key" cfg;
                        }

  -- A number at a key, and zero where it is missing or no number.
  abbrev amount : Option String → D
  amount none = dec.zero
  amount (some text) = or_else dec.zero (go.new_from_string text)

  abbrev rate : Option String → F
  rate none = fl.of_int 0
  rate (some text) = or_else (fl.of_int 0) (go.parse_float text)

  unfoldable read : String → Quotes → String → Reading (ℕ → Price D F)
  read currency raw coin_id = do
    numbers ← entry (lookup coin_id raw)
    number ← entry (lookup currency numbers)
    value ← or_refuse "parsing price value" (go.new_from_string number)
    found λ now. record (quoted "coingecko" coin_id currency value now) {
      market_cap = amount (lookup (currency ++ "_market_cap") numbers);
      volume_24h = amount (lookup (currency ++ "_24h_vol") numbers);
      change_24h = rate (lookup (currency ++ "_24h_change") numbers);
    }

  unfoldable pub get_prices : List String → String → Call W (List (Price D F))
  unfolding request read
  get_prices coin_ids currency =
      quote_all go (request coin_ids currency) decode (read currency) coin_ids

  unfoldable pub get_price : String → String → Call W (Price D F)
  unfolding get_prices
  get_price = first_of not_found get_prices

  abbrev pub provider : PriceProvider W D F
  provider = record {
    name = "coingecko";
    status = status;
    get_price = get_price;
    get_prices = get_prices;
  }

  get_prices-Outcome :
      (coins : List String) (currency : String) (s : Conn W)
      → Outcome
          (AreServed "coingecko" currency coins)
          (IsSuccess s.provider)
          s.provider
          (get_prices coins currency s)
  unfolding get_prices read
  get_prices-Outcome coins currency s =
      quote_all-Outcome go "coingecko" currency (request coins currency) decode (read currency)
        (λ raw coin. >>=-Reads (entry-IsStep (lookup coin raw)) _ _ λ numbers.
          >>=-Reads (entry-IsStep (lookup currency numbers)) _ _ λ number.
            >>=-Reads (or_refuse-IsStep "parsing price value" (go.new_from_string number)) _ _
              λ value now. record {
                for_coin = refl;
                in_currency = refl;
                from_provider = refl;
                stamped = refl;
              })
        coins s

  pub provider-IsPriceProvider : IsPriceProvider provider
  unfolding get_price status status_of
  provider-IsPriceProvider = record {
    reports_name = λ q. refl;
    reports_error = λ q. refl;
    serves = λ coin currency s.
        first_of-Outcome "coingecko" currency not_found get_prices coin s
          (get_prices-Outcome (coin ∷ []) currency s);
    serves_all = λ coins currency s.
        Outcome-IsResult (AreServed "coingecko" currency coins) (IsSuccess s.provider) s.provider
          (get_prices coins currency s) (get_prices-Outcome coins currency s);
  }
