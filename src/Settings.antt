-- ===== src/Settings.antt =====
-- internal/config/config.go: the settings of the server, as Viper reads them from the file and the
-- environment, of which those are here that the model uses. Numbers and durations may be negative.
pub mod Validity
use crypto_price_aggregator.Base.{
  ℕ, Bool, true, false, ◌&&◌, not, ◌≡◌, ◌↔◌, String, List, Option, none, some, if◌then◌else◌, ltb,
  leb,
}
use crypto_price_aggregator.Base.Int.{ℤ, pos, negsuc}
use crypto_price_aggregator.Domain.{Error, message}
use crypto_price_aggregator.Domain.Numeric.{Float}

pub record CbConfig : Type 0 where
  pub failure_threshold : ℤ
  pub recovery_timeout : ℤ

-- Priorities and rate limits are taken to be not negative.
pub record ProviderConfig : Type 0 where
  pub enabled : Bool
  pub tier : String
  pub priority : ℕ
  pub rate_limit : ℕ
  pub api_key : String
  pub base_url : String
  pub ws_url : String
  pub circuit_breaker : CbConfig

pub record WeightsConfig (F : Type 0) : Type 0 where
  pub rate_remaining : F
  pub latency : F
  pub cost : F

pub record RoutingConfig (F : Type 0) : Type 0 where
  pub strategy : String
  pub allow_paid : Bool
  pub monthly_budget : F
  pub weights : WeightsConfig F

pub record RateLimitConfig (F : Type 0) : Type 0 where
  pub enabled : Bool
  pub requests_per_second : F
  pub burst : ℤ

pub record CorsConfig : Type 0 where
  pub enabled : Bool
  pub allowed_origins : List String

pub record ServerConfig (F : Type 0) : Type 0 where
  pub host : String
  pub port : ℤ
  pub read_timeout : ℤ
  pub write_timeout : ℤ
  pub admin_api_key : String
  pub rate_limit : RateLimitConfig F
  pub cors : CorsConfig
  pub force_https : Bool

pub record ValidationConfig (F : Type 0) : Type 0 where
  pub enabled : Bool
  pub max_staleness : ℤ
  pub max_deviation_percent : F
  pub consensus_providers : ℤ
  pub consensus_min_providers : ℤ
  pub consensus_timeout : ℤ
  pub response_mode : String
  pub stablecoin_deviation : F
  pub major_coin_deviation : F
  pub altcoin_deviation : F

pub record PricingConfig (F : Type 0) : Type 0 where
  pub default_currency : String
  pub cache_ttl : ℤ
  pub max_retries : ℤ
  pub store_history : Bool
  pub validation : ValidationConfig F

-- The polling, storage, registry and telemetry settings are left out.
pub record Config (F : Type 0) : Type 0 where
  pub server : ServerConfig F
  pub pricing : PricingConfig F
  pub routing : RoutingConfig F
  pub providers : List (String × ProviderConfig)

abbrev pub is_positive : ℤ → Bool
is_positive (pos n) = ltb 0 n
is_positive (negsuc n) = false

abbrev pub is_port : ℤ → Bool
is_port (pos n) = ltb 0 n && leb n 65_535
is_port (negsuc n) = false

module _ {F : Type 0} ⦃fl : Float F⦄ where
  -- The limits on requests, where they are enabled.
  unfoldable pub rate_limit_error : RateLimitConfig F → Option Error
  rate_limit_error c =
      if not c.enabled
      then none
      else if fl.le c.requests_per_second (fl.of_int 0)
      then some (message "rate_limit.requests_per_second must be positive")
      else if not (is_positive c.burst)
      then some (message "rate_limit.burst must be positive")
      else none

  unfoldable pub corrected : Config F → Config F
  corrected c =
      if is_positive c.pricing.max_retries
      then c
      else record c { pricing = record c.pricing { max_retries = pos 1 } }

  -- The configuration, with its correction, and the error, if there is one; the number in the text is
  -- left out.
  unfoldable pub validate : Config F → Config F × Option Error
  unfolding rate_limit_error corrected
  validate c =
      if not (is_port c.server.port)
      then (c, some (message "invalid server port"))
      else if not (is_positive c.server.read_timeout)
      then (c, some (message "server.read_timeout must be positive"))
      else if not (is_positive c.server.write_timeout)
      then (c, some (message "server.write_timeout must be positive"))
      else if not (is_positive c.pricing.cache_ttl)
      then (c, some (message "pricing.cache_ttl must be positive"))
      else (corrected c, rate_limit_error c.server.rate_limit)
