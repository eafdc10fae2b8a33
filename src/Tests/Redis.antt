-- ===== src/Tests/Redis.antt =====
-- The theorem on the Redis cache at a concrete input, with a client that keeps its keys in a list and texts
-- of numbers with as many digits as they count.
use Prim.Native.Char.{code}
use crypto_price_aggregator.Base.{
  ℕ, zero, suc, ◌+◌, ◌≡◌, refl, sym, ap, String, List, [], Option, none, some, leb, ltb,
  if◌then◌else◌, arith, eq_refl,
}
use crypto_price_aggregator.Base.Int.{ℤ, pos, negsuc, ltb_ℤ_irrefl}
use crypto_price_aggregator.Base.Dict.{lookup, insert, erase, lookup-insert}
use crypto_price_aggregator.Domain.{Price, Result, ok, err, message}
use crypto_price_aggregator.Domain.FixedPoint.{fixed_decimal}
use crypto_price_aggregator.Storage.Redis.{
  PriceJson, Found, found, absent, RedisClient, Codec, get, set,
}
use crypto_price_aggregator.Storage.Redis.Stored.{
  KeepsKeys, ReadsNumbers, SameNumber, IsTruncated, get-set-IsTruncated,
}
use crypto_price_aggregator.Tests.Data.{price}

abbrev ones : ℕ → String
ones zero = String.[]
ones (suc n) = String.◌∷◌ "1" (ones n)

abbrev text : ℤ → String
text (pos n) = String.◌∷◌ "+" (ones n)
text (negsuc n) = String.◌∷◌ "-" (ones n)

abbrev tally : String → ℕ
tally String.[] = 0
tally (String.◌∷◌ c s) = suc (tally s)

abbrev parse : String → Result ℤ
parse String.[] = err (message "no number")
parse (String.◌∷◌ c s) = if leb (code c) 44 then ok (pos (tally s)) else ok (negsuc (tally s))

tally-ones : (n : ℕ) → tally (ones n) ≡ n
tally-ones zero = refl
tally-ones (suc n) = ap suc (tally-ones n)

parse-text : (a : ℤ) → parse (text a) ≡ ok a
parse-text (pos n) = ap (λ k. ok (pos k)) (tally-ones n)
parse-text (negsuc n) = ap (λ k. ok (negsuc k)) (tally-ones n)

abbrev json : Codec (PriceJson ℤ) ℤ ℤ
json = record { marshal = ok; unmarshal = ok; new_from_string = parse; string = text }

json-ReadsNumbers : ReadsNumbers json
json-ReadsNumbers a = (a, parse-text a, (ltb_ℤ_irrefl a, ltb_ℤ_irrefl a))

-- A time, and each key's value and the end of its time.
abbrev World : Type 0
World = ℕ × List (String × (PriceJson ℤ × ℕ))

abbrev unexpired : ℕ → Option (PriceJson ℤ × ℕ) → Found (PriceJson ℤ)
unexpired now none = absent
unexpired now (some (bytes, end)) = if ltb now end then found bytes else absent

abbrev redis : RedisClient World (PriceJson ℤ)
redis = record {
  now = λ w. w.0;
  get = λ key w. (unexpired w.0 (lookup key w.1), w);
  set = λ key bytes ttl w. (none, (w.0 + 1, insert key (bytes, w.0 + ttl) w.1));
  del = λ key w. (none, (w.0, erase key w.1));
}

-- The key holds the same.
abbrev Untouched : String → World → World → Type 0
Untouched key w v = lookup key v.1 ≡ lookup key w.1

redis-KeepsKeys : KeepsKeys redis Untouched
redis-KeepsKeys key bytes ttl w v e f h =
    ground (arith, f, h, lookup-insert key key (bytes, w.0 + ttl) w.1, eq_refl key)

abbrev put : Price ℤ ℤ
put = record (price "bitcoin" 15_000 63_000_000_000_123_456_789) {
  timestamp = 62_999_999_999_999_999_999;
}

-- Fifty nanoseconds later.
abbrev later : World
unfolding set
later = (150, (set redis json put 60 (100, [])).1.1)

get-set-IsTruncated_example :
    (q : Price ℤ ℤ) × ((get redis json "bitcoin" "usd" later).0 ≡ ok (some q))
    × (q.coin_id ≡ "bitcoin")
    × (q.currency ≡ "usd")
    × (q.provider ≡ put.provider)
    × (q.change_24h ≡ put.change_24h)
    × SameNumber put.value q.value
    × SameNumber put.market_cap q.market_cap
    × SameNumber put.volume_24h q.volume_24h
    × IsTruncated put.timestamp q.timestamp
    × IsTruncated put.received_at q.received_at
unfolding set
get-set-IsTruncated_example =
    get-set-IsTruncated redis json Untouched redis-KeepsKeys (λ pj bytes m. sym m) json-ReadsNumbers
      put 60 (100, []) (set redis json put 60 (100, [])).1 later refl refl (omega arith)
