-- ===== src/Providers/Token.antt =====
-- internal/adapter/provider/coingecko/token.go and dexscreener/token.go: what the providers of prices by a token's
-- address have in common. The network answers a request at a time, and is a parameter.
use crypto_price_aggregator.Base.{◌≡◌, not, String, if◌then◌else◌, ◌==◌, arith}
use crypto_price_aggregator.Domain.{Result, ok, err, message, wrapped, rate_limited, provider_down}
use crypto_price_aggregator.Providers.Adapter.{Answer, not_made, no_answer, answered}

module _ {R : Type 0} where
  abbrev token_decoded : Result R → Result R
  token_decoded (ok r) = ok r
  token_decoded (err e) = err (wrapped "decoding" e)

  -- The decoded answer, or the error that ends the call; the number in a text is left out.
  unfoldable pub token_answer : (String → Result R) → Answer → Result R
  token_answer decode (not_made e) = err (wrapped "creating request" e)
  token_answer decode no_answer = err provider_down
  token_answer decode (answered code body) =
      if code == 429
      then err rate_limited
      else if not (code == 200)
      then err (message "status")
      else token_decoded (decode body)

module _ {A B : Type 0} where
  abbrev pub after : Result A → (A → Result B) → Result B
  after (ok a) f = f a
  after (err e) f = err e

  pub after-ok :
      (r : Result A) (f : A → Result B) (b : B) → after r f ≡ ok b → (a : A) × (f a ≡ ok b)
  after-ok (ok a) f b e = (a, e)
  after-ok (err x) f b e = absurd (ground (arith, e))
