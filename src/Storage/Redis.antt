-- ===== src/Storage/Redis.antt =====
-- internal/adapter/storage/redis/cache.go: prices as JSON under keys of Redis, times in milliseconds since
-- 1970. The client, encoding/json and the texts of decimal numbers are parameters. The connection and the
-- credentials of NewCache are left out.
pub mod Stored
use Prim.Native.String.{◌++◌}
use crypto_price_aggregator.Base.{ℕ, ◌/◌, ◌*◌, String, Option, none, some}
use crypto_price_aggregator.Base.Int.{ℤ, pos, pos_part, ◌+ℤ◌, ◌-ℤ◌}
use crypto_price_aggregator.Domain.{Error, Result, ok, err, wrapped, Price}
use crypto_price_aggregator.Domain.Numeric.{Decimal}

pub record PriceJson (F : Type 0) : Type 0 where
  pub coin_id : String
  pub currency : String
  pub value : String
  pub provider : String
  pub timestamp : ℤ
  pub received_at : ℤ
  pub market_cap : String
  pub volume_24h : String
  pub change_24h : F

-- What Redis answers to GET: the bytes, `redis.Nil`, or an error.
pub data Found (B : Type 0) : Type 0 where
  found : B → Found B
  absent : Found B
  unread : Error → Found B

-- What the cache uses of go-redis, over a state `W` of the world with its time.
pub record RedisClient (W B : Type 0) : Type 0 where
  pub now : W → ℕ
  pub get : String → W → Found B × W
  pub set : String → B → ℕ → W → Option Error × W
  pub del : String → W → Option Error × W

-- `json.Marshal` and `json.Unmarshal` on a `priceJSON`, `decimal.NewFromString` and `Decimal.String`.
pub record Codec (B D F : Type 0) : Type 0 where
  pub marshal : PriceJson F → Result B
  pub unmarshal : B → Result (PriceJson F)
  pub new_from_string : String → Result D
  pub string : D → String

unfoldable pub cache_key : String → String → String
cache_key coin currency = "price:" ++ (coin ++ (":" ++ currency))

-- The milliseconds from Go's zero time to 1970.
abbrev epoch : ℕ
epoch = 62_135_596_800_000

-- `t.UnixMilli()`
unfoldable pub unix_milli : ℕ → ℤ
unix_milli t = pos (t / 1_000_000) -ℤ pos epoch

-- `time.UnixMilli(ms)`, for a time that is not before Go's zero time.
unfoldable pub from_milli : ℤ → ℕ
from_milli ms = pos_part (ms +ℤ pos epoch) * 1_000_000

module _ {D : Type 0} ⦃dec : Decimal D⦄ where
  -- The number of `d, _ := decimal.NewFromString(text)`.
  abbrev pub or_zero : Result D → D
  or_zero (ok d) = d
  or_zero (err e) = dec.zero

module _ {B D F : Type 0} ⦃dec : Decimal D⦄ (json : Codec B D F) where
  unfoldable pub encode : Price D F → PriceJson F
  encode p = record {
    coin_id = p.coin_id;
    currency = p.currency;
    value = json.string p.value;
    provider = p.provider;
    timestamp = unix_milli p.timestamp;
    received_at = unix_milli p.received_at;
    market_cap = json.string p.market_cap;
    volume_24h = json.string p.volume_24h;
    change_24h = p.change_24h;
  }

  -- The price of a decoded `priceJSON`, whose value is parsed.
  unfoldable pub decoded : PriceJson F → D → Price D F
  decoded pj value = record {
    coin_id = pj.coin_id;
    currency = pj.currency;
    value = value;
    provider = pj.provider;
    timestamp = from_milli pj.timestamp;
    received_at = from_milli pj.received_at;
    market_cap = or_zero (json.new_from_string pj.market_cap);
    volume_24h = or_zero (json.new_from_string pj.volume_24h);
    change_24h = pj.change_24h;
  }

  abbrev pub with_value : PriceJson F → Result D → Result (Option (Price D F))
  with_value pj (ok value) = ok (some (decoded pj value))
  with_value pj (err e) = err (wrapped "parsing decimal" e)

module _ {W B D F : Type 0} ⦃dec : Decimal D⦄ (redis : RedisClient W B) (json : Codec B D F) where
  -- What becomes of the bytes under a key: those that do not decode are deleted.
  abbrev pub read_bytes : String → Result (PriceJson F) → W → Result (Option (Price D F)) × W
  read_bytes key (ok pj) w = (with_value json pj (json.new_from_string pj.value), w)
  read_bytes key (err e) w =
      (err (wrapped "unmarshaling price (key deleted)" e), (redis.del key w).1)

  abbrev pub read_found : String → Found B × W → Result (Option (Price D F)) × W
  read_found key (found bytes, w) = read_bytes key (json.unmarshal bytes) w
  read_found key (absent, w) = (ok none, w)
  read_found key (unread e, w) = (err (wrapped "redis get" e), w)

  unfoldable pub get : String → String → W → Result (Option (Price D F)) × W
  get coin currency w = read_found (cache_key coin currency) (redis.get (cache_key coin currency) w)

  abbrev pub write_bytes : String → Result B → ℕ → W → Option Error × W
  write_bytes key (ok bytes) ttl w = redis.set key bytes ttl w
  write_bytes key (err e) ttl w = (some (wrapped "marshaling price" e), w)

  unfoldable pub set : Price D F → ℕ → W → Option Error × W
  set p ttl w = write_bytes (cache_key p.coin_id p.currency) (json.marshal (encode json p)) ttl w

  unfoldable pub delete : String → String → W → Option Error × W
  delete coin currency w = redis.del (cache_key coin currency) w
