-- ===== src/Transport/Middleware/Guards.antt =====
-- internal/adapter/transport/http/middleware.go: which requests reach the handler.
use crypto_price_aggregator.Base.{
  ℕ, ◌≡◌, ◌≢◌, ◌⊎◌, inl, inr, Bool-cases, String, List, [], if◌then◌else◌, str_eq, eq_iff, arith,
}
use crypto_price_aggregator.Base.Dict.{lookup-insert}
use crypto_price_aggregator.Transport.Middleware.{
  Request, Response, answered, auth_middleware, rate_limit_middleware, get_limiter, Limiter,
  IpLimiter,
}

-- With a key configured, the handler gets a request exactly if it brings that key; any other is answered
-- with 401 and no header.
pub auth_middleware-cases :
    (api_key : String) (next : Request → Response) (r : Request)
    → api_key ≢ ""
    → ((r.api_key ≡ api_key) × (auth_middleware api_key next r ≡ next r))
      ⊎ ((r.api_key ≢ api_key) × (auth_middleware api_key next r ≡ ([], answered 401)))
unfolding auth_middleware
auth_middleware-cases api_key next r h = elim (Bool-cases (str_eq r.api_key api_key)) [
  | inl e ↦
      inl (ground (arith, e, eq_iff r.api_key api_key), ground (arith, e, h, eq_iff api_key ""))
  | inr e ↦
      inr (ground (arith, e, eq_iff r.api_key api_key), ground (arith, e, h, eq_iff api_key ""))
]

module _ {L : Type 0} (lim : Limiter L) where
  -- A request spends from the bucket of its own address only: whatever it is, the bucket of another
  -- address is the same after it.
  pub get_limiter-rate_limit :
      (now : ℕ) (next : Request → Response) (r : Request) (limiters : List (String × IpLimiter L))
      (ip : String)
      → ip ≢ r.remote_host
      → ip ≢ r.remote_addr
      → get_limiter lim ip (rate_limit_middleware lim now next r limiters).0
        ≡ get_limiter lim ip limiters
  unfolding rate_limit_middleware get_limiter
  get_limiter-rate_limit now next r limiters ip h k =
      let used = if str_eq r.remote_host "" then r.remote_addr else r.remote_host in
      let spent = lim.allow now (get_limiter lim used limiters) in
      ground (
        arith,
        h,
        k,
        lookup-insert used ip (record { limiter = spent.0; last_access = now }) limiters,
        eq_iff used ip,
      )
