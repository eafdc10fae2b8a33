-- ===== src/Transport/Handlers.antt =====
-- internal/adapter/transport/http/handler.go: checks and texts of the handlers. Which characters are letters and digits
-- is Unicode's, and a parameter.
use Prim.Native.Char.{Char, code}
use Prim.Native.String.{len}
use crypto_price_aggregator.Base.{
  ℕ, ◌*◌, ◌≡◌, Bool, true, false, ◌&&◌, ◌||◌, String, ltb, ◌==◌, if◌then◌else◌, arith, str_eq, ap,
  ◌∙◌,
}
use crypto_price_aggregator.Domain.{
  Error, coin_not_found, no_healthy_provider, budget_exhausted, wrapped,
}
use crypto_price_aggregator.Storage.Key.{HasNoColon, pair_key, pair_key_inj}

-- What the test reads of Unicode.
pub record Unicode : Type 0 where
  pub is_letter : Char → Bool
  pub is_digit : Char → Bool

abbrev pub same_char : Char → Char → Bool
same_char c d = code c == code d

-- One round of the loop does not return false.
unfoldable pub is_coin_char : Unicode → Char → Bool
is_coin_char u c =
    u.is_letter c || u.is_digit c || same_char c "-" || same_char c "_" || same_char c "."

unfoldable pub all_coin_chars : Unicode → String → Bool
unfolding is_coin_char
all_coin_chars u String.[] = true
all_coin_chars u (String.◌∷◌ c s) = is_coin_char u c && all_coin_chars u s

unfoldable pub is_valid_coin_id : Unicode → String → Bool
unfolding all_coin_chars
is_valid_coin_id u s = if len s == 0 || ltb 100 (len s) then false else all_coin_chars u s

-- `errors.Is` for an error of the model: itself, or what it wraps.
abbrev pub unwrapped : Error → Error
unwrapped (wrapped text e) = unwrapped e
unwrapped e = e

-- The status and the code of the answer to an error.
unfoldable pub handle_price_error : Error → ℕ × String
handle_price_error e = elim (unwrapped e) [
  | coin_not_found ↦ (404, "COIN_NOT_FOUND")
  | no_healthy_provider ↦ (503, "NO_HEALTHY_PROVIDER")
  | budget_exhausted ↦ (503, "BUDGET_EXHAUSTED")
  | _ ↦ (500, "INTERNAL_ERROR")
]

abbrev minute : ℕ
minute = 60 * 1_000_000_000

unfoldable pub parse_interval : String → ℕ
parse_interval s =
    if str_eq s "1m"
    then minute
    else if str_eq s "5m"
    then 5 * minute
    else if str_eq s "15m"
    then 15 * minute
    else if str_eq s "1h"
    then 60 * minute
    else if str_eq s "4h"
    then 240 * minute
    else if str_eq s "1d"
    then 1440 * minute
    else 60 * minute

is_coin_char-colon :
    (u : Unicode) → u.is_letter ":" ≡ false → u.is_digit ":" ≡ false → is_coin_char u ":" ≡ false
unfolding is_coin_char
is_coin_char-colon u l d = ground (arith, l, d)

all_coin_chars-HasNoColon :
    (u : Unicode) (s : String)
    → u.is_letter ":" ≡ false
    → u.is_digit ":" ≡ false
    → all_coin_chars u s ≡ true
    → HasNoColon s
unfolding all_coin_chars
all_coin_chars-HasNoColon u String.[] l d e = tt
all_coin_chars-HasNoColon u (String.◌∷◌ c s) l d e = (
  λ same. ground (arith, ap (is_coin_char u) same ∙ is_coin_char-colon u l d, e),
  all_coin_chars-HasNoColon u s l d (ground arith),
)

-- A coin id that the handlers accept has no colon.
is_valid_coin_id-HasNoColon :
    (u : Unicode) (s : String)
    → u.is_letter ":" ≡ false
    → u.is_digit ":" ≡ false
    → is_valid_coin_id u s ≡ true
    → HasNoColon s
unfolding is_valid_coin_id
is_valid_coin_id-HasNoColon u s l d e = all_coin_chars-HasNoColon u s l d (ground arith)

-- The keys under which the stores keep the prices of two coins, in two currencies, are the same only if the
-- coins and the currencies are, for coin ids that the handlers accept. A colon is neither a letter nor
-- a digit.
pub pair_key-is_valid_coin_id :
    (u : Unicode) (coin other currency quote : String)
    → u.is_letter ":" ≡ false
    → u.is_digit ":" ≡ false
    → is_valid_coin_id u coin ≡ true
    → is_valid_coin_id u other ≡ true
    → pair_key coin currency ≡ pair_key other quote
    → (coin ≡ other) × (currency ≡ quote)
pair_key-is_valid_coin_id u coin other currency quote l d v w =
    pair_key_inj coin other currency quote (is_valid_coin_id-HasNoColon u coin l d v)
      (is_valid_coin_id-HasNoColon u other l d w)
