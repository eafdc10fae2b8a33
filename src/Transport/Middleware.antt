-- ===== src/Transport/Middleware.antt =====
-- internal/adapter/transport/http/middleware.go: the checks before a request is handled. A request is what the
-- middleware reads of it, and a response the headers that were set and what came of the request. The token
-- buckets of golang.org/x/time/rate are a parameter.
pub mod Guards
use crypto_price_aggregator.Base.{
  ℕ, ◌+◌, ◌*◌, Bool, true, false, not, ◌&&◌, ◌||◌, String, List, [], ◌∷◌, ◌++◌, Option, none, some,
  if◌then◌else◌, ltb, ◌==◌, length, str_eq, keep_if,
}
use crypto_price_aggregator.Base.Dict.{lookup, insert}
use crypto_price_aggregator.Domain.{since_exceeds}

pub record Request : Type 0 where
  pub method : String
  pub origin : String
  pub api_key : String
  pub request_id : String
  -- `net.SplitHostPort(r.RemoteAddr)`, "" when it fails, and `r.RemoteAddr`.
  pub remote_host : String
  pub remote_addr : String

-- A response that a middleware wrote, with its status, or the handler's turn.
pub data Outcome : Type 0 where
  handled : Outcome
  answered : ℕ → Outcome

abbrev pub Headers : Type 0
Headers = List (String × String)

abbrev pub Response : Type 0
Response = Headers × Outcome

unfoldable pub is_allowed_origin : String → List String → Bool
is_allowed_origin origin [] = false
is_allowed_origin origin (o ∷ os) = str_eq o "*" || str_eq o origin || is_allowed_origin origin os

unfoldable pub cors_middleware : List String → (Request → Response) → Request → Response
unfolding is_allowed_origin
cors_middleware allowed_origins next r =
    let allowed = length allowed_origins == 0 || is_allowed_origin r.origin allowed_origins in
    let headers : Headers =
      if allowed && not (str_eq r.origin "")
      then (("Access-Control-Allow-Origin", r.origin)
          ∷ ("Access-Control-Allow-Methods", "GET, POST, PUT, DELETE, OPTIONS")
          ∷ ("Access-Control-Allow-Headers", "Content-Type, X-API-Key, Authorization")
          ∷ ("Access-Control-Max-Age", "86400")
          ∷ [])
      else [] in
    if str_eq r.method "OPTIONS"
    then (headers, answered 204)
    else (headers ++ (next r).0, (next r).1)

unfoldable pub auth_middleware : String → (Request → Response) → Request → Response
auth_middleware api_key next r =
    if str_eq api_key ""
    then next r
    else if not (str_eq r.api_key api_key)
    then ([], answered 401)
    else next r

unfoldable pub security_headers_middleware : Bool → (Request → Response) → Request → Response
security_headers_middleware force_https next r =
    let base : Headers =
      ("X-Content-Type-Options", "nosniff")
      ∷ ("X-Frame-Options", "DENY")
      ∷ ("X-XSS-Protection", "1; mode=block")
      ∷ [] in
    let strict : Headers =
      if force_https
      then ("Strict-Transport-Security", "max-age=63072000; includeSubDomains") ∷ []
      else [] in
    let id : Headers =
      if not (str_eq r.request_id "") then ("X-Request-ID", r.request_id) ∷ [] else [] in
    ((base ++ strict ++ id) ++ (next r).0, (next r).1)

-- A token bucket of type `L`: a new one, and `Allow` at a time.
pub record Limiter (L : Type 0) : Type 0 where
  pub new_limiter : L
  pub allow : ℕ → L → L × Bool

pub record IpLimiter (L : Type 0) : Type 0 where
  pub limiter : L
  pub last_access : ℕ

module _ {L : Type 0} (lim : Limiter L) where
  -- The bucket of an address, made when it is missing.
  unfoldable pub get_limiter : String → List (String × IpLimiter L) → L
  get_limiter ip limiters = elim (lookup ip limiters) [
    | none ↦ lim.new_limiter
    | some found ↦ found.limiter
  ]

  unfoldable pub rate_limit_middleware :
      ℕ
      → (Request → Response)
      → Request
      → List (String × IpLimiter L)
      → List (String × IpLimiter L) × Response
  unfolding get_limiter
  rate_limit_middleware now next r limiters =
      let ip = if str_eq r.remote_host "" then r.remote_addr else r.remote_host in
      let (limiter, allowed) = lim.allow now (get_limiter ip limiters) in
      let kept = insert ip (record { limiter = limiter; last_access = now }) limiters in
      if not allowed then (kept, (("Retry-After", "1") ∷ [], answered 429)) else (kept, next r)

abbrev ten_minutes : ℕ
ten_minutes = 600 * 1_000_000_000

-- The clean-up at each minute.
unfoldable pub forget_idle :
    {L : Type 0} → ℕ → List (String × IpLimiter L) → List (String × IpLimiter L)
forget_idle {L = L} now =
    keep_if
      (λ (entry : String × IpLimiter L). not (since_exceeds now entry.1.last_access ten_minutes))
