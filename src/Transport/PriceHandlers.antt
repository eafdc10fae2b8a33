-- ===== src/Transport/PriceHandlers.antt =====
-- internal/adapter/transport/http/handler_price.go: the handlers of prices, candles and conversions. The
-- parameters of a request are arguments; splitting and trimming of texts, and the parsing of times and
-- decimal numbers, are Go's libraries' and parameters. `none` is a panic of the service.
pub mod Total
use crypto_price_aggregator.Base.{
  ℕ, Bool, true, false, ◌||◌, ◌&&◌, not, String, List, [], ◌∷◌, Option, none, some, ◌>>=◌, str_eq,
  ltb, length, map, keep_if, if◌then◌else◌,
}
use crypto_price_aggregator.Domain.{Price, Ohlc, Result, ok, err, Error}
use crypto_price_aggregator.Domain.Numeric.{Decimal, Float, Conversion}
use crypto_price_aggregator.Domain.Ports.{ProviderRouter, Cache, PriceStore, Answers}
use crypto_price_aggregator.App.PriceService.{PriceService, Returned}
use crypto_price_aggregator.App.Request.{get_price, get_prices, get_ohlc}
use crypto_price_aggregator.App.Convert.{ConvertResult, convert}
use crypto_price_aggregator.App.Address.{AddressService, AddressPriceResult, get_price_by_address}
use crypto_price_aggregator.Transport.Handlers.{Unicode, is_valid_coin_id, parse_interval}
use crypto_price_aggregator.Transport.Replies.{Reply, written, failure, price_failure, or_default}

-- What the handlers use of strings, time and shopspring/decimal: `strings.Split` at commas, `TrimSpace`,
-- `time.Parse` of RFC 3339, and `NewFromString`.
pub record Parsers (D : Type 0) : Type 0 where
  pub split : String → List String
  pub trim_space : String → String
  pub parse_time : String → Result ℕ
  pub new_from_string : String → Result D

unfoldable pub split_coins : {D : Type 0} → Parsers D → String → List String
split_coins p s = keep_if (λ c. not (str_eq c "")) (map p.trim_space (p.split s))

-- The members of the JSON object; those that may be left out are options.
pub record PriceBody (D F : Type 0) : Type 0 where
  pub coin : String
  pub currency : String
  pub price : D
  pub provider : String
  pub timestamp : ℕ
  pub market_cap : Option D
  pub volume_24h : Option D
  pub change_24h : Option F

module _ {D : Type 0} ⦃dec : Decimal D⦄ where
  abbrev unless_zero : D → Option D
  unless_zero d = if dec.is_zero d then none else some d

  abbrev amount_of : Parsers D → String → Result D
  amount_of p text = if str_eq text "" then ok (dec.from_int 1) else p.new_from_string text

module _ {D F : Type 0} ⦃dec : Decimal D⦄ ⦃fl : Float F⦄ where
  unfoldable pub price_body : Price D F → PriceBody D F
  price_body p = record {
    coin = p.coin_id;
    currency = p.currency;
    price = p.value;
    provider = p.provider;
    timestamp = p.timestamp;
    market_cap = unless_zero p.market_cap;
    volume_24h = unless_zero p.volume_24h;
    change_24h =
        if fl.le p.change_24h (fl.of_int 0) && fl.le (fl.of_int 0) p.change_24h
        then none
        else some p.change_24h;
  }

  -- The reply to a price or an error; a nil price without an error is a panic.
  unfoldable pub price_reply : Returned D F → Option (Reply (PriceBody D F))
  unfolding price_body price_failure
  price_reply (p, some e) = some (price_failure e)
  price_reply (none, none) = none
  price_reply (some p, none) = some (written 200 (price_body p))

module _ {D : Type 0} where
  abbrev convert_reply : Result (ConvertResult D) → Reply (ConvertResult D)
  convert_reply (ok result) = written 200 result
  convert_reply (err e) = price_failure e

module _ {D F : Type 0} where
  -- A result without a price is a panic.
  abbrev address_reply :
      Result (Option (AddressPriceResult D F)) → Option (Reply (AddressPriceResult D F))
  address_reply (err e) = some (price_failure e)
  address_reply (ok none) = none
  address_reply (ok (some result)) = some (written 200 result)

-- The body of a list of candles.
pub record OhlcBody (D : Type 0) : Type 0 where
  pub coin : String
  pub currency : String
  pub interval : String
  pub candles : List (Ohlc D)

module _ {D : Type 0} where
  abbrev ohlc_reply : String → String → String → Result (List (Ohlc D)) → Reply (OhlcBody D)
  ohlc_reply coin currency interval (err e) = failure 500 "INTERNAL_ERROR"
  ohlc_reply coin currency interval (ok candles) =
      written 200
        record { coin = coin; currency = currency; interval = interval; candles = candles }

module _ {R C S D F : Type 0} ⦃rt : ProviderRouter R⦄ ⦃ca : Cache C D F⦄ ⦃ps : PriceStore S D F⦄
    ⦃dec : Decimal D⦄ ⦃fl : Float F⦄ ⦃cv : Conversion D F⦄ (answers : Answers D F)
    (default_currency : String) where
  unfoldable pub handle_get_price :
      Unicode
      → String
      → String
      → PriceService R C S D F
      → Option (PriceService R C S D F × Reply (PriceBody D F))
  unfolding price_reply
  handle_get_price u coin_id currency s =
      if not (is_valid_coin_id u coin_id) then some (s, failure 400 "INVALID_PARAM") else do
        (s', returned) ← get_price answers coin_id (or_default default_currency currency) s
        reply ← price_reply returned
        some (s', reply)

  -- The prices, and the errors by coin.
  unfoldable pub handle_get_prices :
      Parsers D
      → String
      → String
      → PriceService R C S D F
      → Option (PriceService R C S D F × Reply (List (Price D F) × List (String × Error)))
  unfolding split_coins
  handle_get_prices p coins currency s =
      if str_eq coins ""
      then some (s, failure 400 "MISSING_PARAM")
      else if ltb 50 (length (split_coins p coins))
      then some (s, failure 400 "TOO_MANY_COINS")
      else do
        (s', prices, errs) ←
            get_prices answers (split_coins p coins) (or_default default_currency currency) s
        some (s', written 200 (prices, errs))

  unfoldable pub handle_convert :
      Parsers D
      → (from_coin to_coin amount : String) → PriceService R C S D F
      → Option (PriceService R C S D F × Reply (ConvertResult D))
  unfolding price_failure
  handle_convert p from_coin to_coin amount s =
      if str_eq from_coin "" || str_eq to_coin ""
      then some (s, failure 400 "MISSING_PARAM")
      else elim (amount_of p amount) [
        | err e ↦ some (s, failure 400 "INVALID_PARAM")
        | ok d ↦ do
          (s', result) ← convert answers from_coin to_coin d default_currency s
          some (s', convert_reply result)
      ]

  unfoldable pub handle_get_price_by_address :
      (String → String)
      → (chain address currency : String) → AddressService R C S D F
      → Option (AddressService R C S D F × Reply (AddressPriceResult D F))
  unfolding price_failure
  handle_get_price_by_address lower chain address currency s = do
    (s', result) ←
        get_price_by_address lower answers chain address (or_default default_currency currency) s
    reply ← address_reply result
    some (s', reply)

-- Candles from one time to another, of an interval.
module _ {R C S D F : Type 0} ⦃ps : PriceStore S D F⦄ (default_currency : String) where
  unfoldable pub handle_get_ohlc :
      Unicode
      → Parsers D
      → (coin_id currency from_time to_time interval : String) → PriceService R C S D F
      → Reply (OhlcBody D)
  handle_get_ohlc u p coin_id currency from_time to_time interval s =
      if not (is_valid_coin_id u coin_id)
      then failure 400 "INVALID_PARAM"
      else if str_eq from_time "" || str_eq to_time ""
      then failure 400 "MISSING_PARAM"
      else elim (p.parse_time from_time) [
        | err e ↦ failure 400 "INVALID_PARAM"
        | ok start ↦ elim (p.parse_time to_time) [
          | err e ↦ failure 400 "INVALID_PARAM"
          | ok end ↦ ohlc_reply coin_id (or_default default_currency currency) interval (
              get_ohlc coin_id (or_default default_currency currency) start end
                (parse_interval interval) s)
        ]
      ]
