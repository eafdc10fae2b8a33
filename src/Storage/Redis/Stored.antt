-- ===== src/Storage/Redis/Stored.antt =====
-- internal/adapter/storage/redis/cache.go: what Get finds after Set.
use crypto_price_aggregator.Base.{
  ℕ, ◌+◌, ◌*◌, ◌/◌, ◌≤◌, ◌<◌, ◌≡◌, refl, sym, ap, ◌∙◌, subst, false, String, Option, none, some,
  arith, inl, inr,
}
use crypto_price_aggregator.Base.Int.{pos, pos_part, ◌+ℤ◌, ◌-ℤ◌}
use crypto_price_aggregator.Domain.{Error, Result, ok, Price, Result-cases}
use crypto_price_aggregator.Domain.Numeric.{Decimal}
use crypto_price_aggregator.Storage.Redis.{
  PriceJson, RedisClient, Codec, found, cache_key, unix_milli, from_milli, encode, decoded, get,
  set, write_bytes,
}

-- Of go-redis and Redis: a key that was set is found, with its value, in every world that follows before
-- its time is over and in which it was neither set again nor deleted. `follows key w v` says that `v` comes
-- after `w` and that this key is untouched in between.
abbrev pub KeepsKeys : {W B : Type 0} → RedisClient W B → (String → W → W → Type 0) → Type 0
KeepsKeys {W = W} {B = B} redis follows =
    (key : String) (bytes : B) (ttl : ℕ) (w v : W)
    → (redis.set key bytes ttl w).0 ≡ none
    → follows key (redis.set key bytes ttl w).1 v
    → redis.now v < redis.now w + ttl
    → (redis.get key v).0 ≡ found bytes

-- Of encoding/json: what is written is read again.
abbrev pub ReadsWritten : {B D F : Type 0} → Codec B D F → Type 0
ReadsWritten {B = B} {F = F} json =
    (pj : PriceJson F) (bytes : B) → json.marshal pj ≡ ok bytes → json.unmarshal bytes ≡ ok pj

module _ {D : Type 0} ⦃dec : Decimal D⦄ where
  -- The same number, in representations that may differ.
  abbrev pub SameNumber : D → D → Type 0
  SameNumber a b = (dec.less_than a b ≡ false) × (dec.less_than b a ≡ false)

module _ {B D F : Type 0} ⦃dec : Decimal D⦄ where
  -- Of shopspring/decimal: a number's text is read as the same number.
  abbrev pub ReadsNumbers : Codec B D F → Type 0
  ReadsNumbers json =
      (a : D) → (b : D) × (json.new_from_string (json.string a) ≡ ok b) × SameNumber a b

-- The second time is the first to the millisecond below.
abbrev pub IsTruncated : ℕ → ℕ → Type 0
IsTruncated t u = (u ≤ t) × (t < u + 1_000_000) × ((n : ℕ) × (u ≡ n * 1_000_000))

milli_shift : (n e : ℕ) → pos_part (pos n -ℤ pos e +ℤ pos e) ≡ n
milli_shift n e = ground arith

from_milli-IsTruncated : (t : ℕ) → IsTruncated t (from_milli (unix_milli t))
unfolding from_milli unix_milli
from_milli-IsTruncated t =
    let n = milli_shift (t / 1_000_000) 62_135_596_800_000 in
    subst (λ (k : ℕ). IsTruncated t (k * 1_000_000)) (sym n)
      (omega arith, omega arith, (t / 1_000_000, refl))

module _ {W B D F : Type 0} ⦃dec : Decimal D⦄ where
  -- A price that Set has put is found by every Get until its time to live is over, if the key is neither
  -- set again nor deleted before: its coin, currency, provider and change, the same numbers, and times
  -- truncated to milliseconds. The numbers are compared by value,
  -- since a number's text may be read as another representation of it. Redis keeps a key for its time,
  -- JSON reads what it wrote, and decimal numbers read their texts.
  pub get-set-IsTruncated :
      (redis : RedisClient W B) (json : Codec B D F) (follows : String → W → W → Type 0)
      → KeepsKeys redis follows
      → ReadsWritten json
      → ReadsNumbers json
      → (p : Price D F) (ttl : ℕ) (w w' v : W) → set redis json p ttl w ≡ (none, w')
      → follows (cache_key p.coin_id p.currency) w' v
      → redis.now v < redis.now w + ttl
      → (q : Price D F) × ((get redis json p.coin_id p.currency v).0 ≡ ok (some q))
        × (q.coin_id ≡ p.coin_id)
        × (q.currency ≡ p.currency)
        × (q.provider ≡ p.provider)
        × (q.change_24h ≡ p.change_24h)
        × SameNumber p.value q.value
        × SameNumber p.market_cap q.market_cap
        × SameNumber p.volume_24h q.volume_24h
        × IsTruncated p.timestamp q.timestamp
        × IsTruncated p.received_at q.received_at
  unfolding get set encode decoded
  get-set-IsTruncated redis json follows keeps reads numbers p ttl w w' v e f h =
      let pj = encode json p in
      let key = cache_key p.coin_id p.currency in
      let (value, n, same) = numbers p.value in
      let (cap, c, same_cap) = numbers p.market_cap in
      let (volume, o, same_volume) = numbers p.volume_24h in
      elim (Result-cases (json.marshal pj)) [
        | inl (bytes, m) ↦
            let written : redis.set key bytes ttl w ≡ (none, w') =
              sym (ap (λ (r : Result B). write_bytes redis json key r ttl w) m) ∙ e in
            let kept : (redis.get key v).0 ≡ found bytes =
              keeps key bytes ttl w v (ap (λ (x : Option Error × W). x.0) written)
                (subst (λ (x : Option Error × W). follows key x.1 v) (sym written) f) h in
            (
              record (decoded json pj value) { market_cap = cap; volume_24h = volume },
              ground (arith, kept, reads pj bytes m, n, c, o),
              refl,
              refl,
              refl,
              refl,
              same,
              same_cap,
              same_volume,
              from_milli-IsTruncated p.timestamp,
              from_milli-IsTruncated p.received_at,
            )
        | inr (e', m) ↦ ground (arith, e, m)
      ]
