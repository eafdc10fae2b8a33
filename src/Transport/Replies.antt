-- ===== src/Transport/Replies.antt =====
-- internal/adapter/transport/http/response.go: what a handler writes. Texts of errors are left out, and a body is
-- the value that is encoded as JSON.
use crypto_price_aggregator.Base.{ℕ, String, if◌then◌else◌, str_eq}
use crypto_price_aggregator.Domain.{Error}
use crypto_price_aggregator.Transport.Handlers.{handle_price_error}

pub data Reply (B : Type 0) : Type 0 where
  written : ℕ → B → Reply B
  failure : ℕ → String → Reply B

module _ {B : Type 0} where
  unfoldable pub price_failure : Error → Reply B
  unfolding handle_price_error
  price_failure e = let (status, code) = handle_price_error e in failure status code

-- A parameter of the query that may be left out.
abbrev pub or_default : String → String → String
or_default default given = if str_eq given "" then default else given
