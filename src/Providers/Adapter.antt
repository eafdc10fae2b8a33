-- ===== src/Providers/Adapter.antt =====
-- internal/adapter/provider: what the adapters of the exchanges have in common. Each package repeats it:
-- Config, Provider, New, Status, recordSuccess and recordError, the request with its test of the
-- answer's status, and the loops of GetPrices. The network, the clock and the functions of Go's
-- libraries that the adapters call are parameters, in a Runtime.
pub mod Contract
use Prim.Native.String.{◌++◌}
use crypto_price_aggregator.Base.{
  ℕ, ◌≡◌, Bool, true, false, ◌||◌, not, String, List, [], ◌∷◌, Option, none, some, if◌then◌else◌,
  leb, ◌==◌, str_eq, length,
}
use crypto_price_aggregator.Domain.{
  ProviderTier, tier_free, ProviderStatus, Price, Result, ok, err, Error, message, wrapped,
  rate_limited, provider_down, coin_not_found, unauthorized,
}
use crypto_price_aggregator.Domain.Numeric.{Decimal, Float}

pub record Config : Type 0 where
  pub base_url : String
  pub api_key : String
  pub rate_limit : ℕ

-- The fields of an adapter, less its HTTP client and its lock.
pub record Provider : Type 0 where
  pub cfg : Config
  pub healthy : Bool
  pub last_error : Option Error
  pub last_success_at : ℕ

unfoldable pub new : Config → Provider
new cfg = record { cfg = cfg; healthy = true; last_error = none; last_success_at = 0 }

unfoldable pub succeeded : ℕ → Provider → Provider
succeeded now p = record p { healthy = true; last_error = none; last_success_at = now }

unfoldable pub failed : Error → Provider → Provider
failed e p = record p { healthy = false; last_error = some e }

-- The fields that the source leaves out are zero.
unfoldable pub status_of : String → Provider → ProviderStatus
status_of name p = record {
  name = name;
  healthy = p.healthy;
  remaining_rate = p.cfg.rate_limit;
  reset_at = 0;
  avg_latency = 0;
  tier = tier_free;
  last_error = p.last_error;
  last_success_at = p.last_success_at;
}

-- A timed request's URL goes on with the time in milliseconds, read as it is sent.
pub record Request : Type 0 where
  pub method : String
  pub url : String
  pub headers : List (String × String)
  pub body : String
  pub timed : Bool

abbrev pub get_request : String → Request
get_request url = record { method = "GET"; url = url; headers = []; body = ""; timed = false }

-- A header that is set where the configuration has an API key.
abbrev pub key_header : String → Config → List (String × String)
key_header name cfg = if str_eq cfg.api_key "" then [] else (name, cfg.api_key) ∷ []

-- `strings.Join(texts, ",")`
abbrev pub join : List String → String
join [] = ""
join (t ∷ []) = t
join (t ∷ u ∷ rest) = t ++ ("," ++ join (u ∷ rest))

-- What becomes of a request: it is not made, has no answer, or is answered with a status and a body.
pub data Answer : Type 0 where
  not_made : Error → Answer
  no_answer : Answer
  answered : ℕ → String → Answer

-- What the adapters use of net/http, time, strings, strconv and shopspring/decimal. `W` is the state
-- of the world, which a request and a look at the clock change.
pub record Runtime (W D F : Type 0) : Type 0 where
  pub send : Request → W → Answer × W
  pub now : W → ℕ × W
  pub to_lower : String → String
  pub to_upper : String → String
  pub new_from_string : String → Result D
  pub parse_float : String → Result F
  pub trim_suffix : String → String → String

-- A call's state: the adapter and the world.
pub record Conn (W : Type 0) : Type 0 where
  pub provider : Provider
  pub world : W

abbrev pub Call : Type 0 → Type 0 → Type 0
Call W A = Conn W → Result A × Conn W

module _ {W : Type 0} where
  abbrev pub pure : {A : Type 0} → A → Call W A
  pure a s = (ok a, s)

  abbrev pub and_then : {A B : Type 0} → Result A × Conn W → (A → Call W B) → Result B × Conn W
  and_then (ok a, s) f = f a s
  and_then (err e, s) f = (err e, s)

  infixl 5 ◌>>=◌
  abbrev pub ◌>>=◌ : {A B : Type 0} → Call W A → (A → Call W B) → Call W B
  m >>= f = λ s. and_then (m s) f

  -- `return nil, err`
  abbrev pub throw : {A : Type 0} → Error → Call W A
  throw e s = (err e, s)

  -- `p.recordError(recorded); return nil, returned`
  unfoldable pub refuse : {A : Type 0} → Error → Error → Call W A
  refuse recorded returned s = (err returned, record s { provider = failed recorded s.provider })

  abbrev pub config : Call W Config
  config s = (ok s.provider.cfg, s)

module _ {W D F : Type 0} (go : Runtime W D F) where
  -- `time.Now()`
  unfoldable pub clock : Call W ℕ
  clock s = let (t, w) = go.now s.world in (ok t, record s { world = w })

  -- `p.recordSuccess(); return a, nil`
  unfoldable pub succeed : {A : Type 0} → A → Call W A
  succeed a s =
      let (t, w) = go.now s.world in
      (ok a, record s { provider = succeeded t s.provider; world = w })

-- The error of an answer's status, if it is one; the number in the last text is left out.
unfoldable pub response_error : ℕ → Option Error
response_error code =
    if code == 429
    then some rate_limited
    else if code == 401 || code == 403
    then some unauthorized
    else if leb 500 code
    then some provider_down
    else if not (code == 200)
    then some (message "unexpected status")
    else none

-- The same where the package takes 404 as a missing coin.
unfoldable pub lookup_error : ℕ → Option Error
unfolding response_error
lookup_error code = if code == 404 then some coin_not_found else response_error code

-- The body of an answer, decoded by `encoding/json` into `R`.
module _ {W R : Type 0} where
  unfoldable pub decoded : Result R → Call W R
  decoded (ok r) = pure r
  decoded (err e) = refuse e (wrapped "decoding response" e)

  unfoldable pub checked : Option Error → Result R → Call W R
  unfolding decoded
  checked (some e) body = refuse e e
  checked none body = decoded body

  unfoldable pub received : (ℕ → Option Error) → (String → Result R) → Answer → Call W R
  unfolding checked
  received check decode (not_made e) = throw (wrapped "creating request" e)
  received check decode no_answer = refuse provider_down provider_down
  received check decode (answered code body) = checked (check code) (decode body)

module _ {W D F : Type 0} (go : Runtime W D F) {R : Type 0} where
  unfoldable pub fetch : (ℕ → Option Error) → (String → Result R) → Request → Call W R
  unfolding received
  fetch check decode req s =
      let (a, w) = go.send req s.world in received check decode a (record s { world = w })
