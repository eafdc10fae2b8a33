-- ===== src/App/PriceService.antt =====
-- internal/app/price_service.go: the service, and its loop over providers. The service is a record of its parts and
-- counters, with the clock and the updates sent to the listener; a cache, a store and the other parts
-- may be missing. The clock advances while providers answer. What the source starts with `go` is done
-- at once; telemetry and logs are left out. `none` is a panic.
pub mod Attempts
pub mod Loop
pub mod Rejected
use crypto_price_aggregator.Base.{
  ℕ, zero, suc, ◌+◌, ◌-◌, ◌==◌, Bool, true, false, ◌&&◌, not, String, List, [], ◌∷◌, ◌++◌, Option,
  none, some, if◌then◌else◌, ltb, ◌>>=◌, str_eq,
}
use crypto_price_aggregator.Domain.{Price, Ohlc, Result, ok, err, Error, message}
use crypto_price_aggregator.Domain.Numeric.{Decimal, Float, Conversion}
use crypto_price_aggregator.Domain.Ports.{ProviderRouter, Cache, PriceStore, Answers}
use crypto_price_aggregator.App.Validator.{
  PriceValidatorConfig, contains, validate, validate_against_reference,
}
use crypto_price_aggregator.App.Consensus.{ConsensusConfig, ConsensusResult}
use crypto_price_aggregator.App.Consensus.Compute.{compute}

pub record PriceService (R C S D F : Type 0) : Type 0 where
  pub router : R
  pub cache : Option C
  pub store : Option S
  pub cache_ttl : ℕ
  pub max_retries : ℕ
  pub listens : Bool
  pub validator : Option (PriceValidatorConfig F)
  pub consensus : Option (ConsensusConfig F)
  pub response_mode : String
  pub request_count : ℕ
  pub cache_hit_count : ℕ
  pub start_time : ℕ
  pub now : ℕ
  -- The updates sent to the listener, and the providers that the loop over attempts has asked, newest
  -- first.
  pub notified : List (Price D F)
  pub asked : List String

-- The parts of `PriceServiceDeps` that the service keeps.
pub record PriceServiceDeps (R C S F : Type 0) : Type 0 where
  pub router : R
  pub cache : Option C
  pub store : Option S
  pub cache_ttl : ℕ
  pub max_retries : ℕ
  pub listens : Bool
  pub validator : Option (PriceValidatorConfig F)
  pub consensus : Option (ConsensusConfig F)
  pub response_mode : String

unfoldable pub new_price_service :
    {R C S D F : Type 0} → ℕ → PriceServiceDeps R C S F → PriceService R C S D F
new_price_service now deps = record {
  router = deps.router;
  cache = deps.cache;
  store = deps.store;
  cache_ttl = deps.cache_ttl;
  max_retries = if deps.max_retries == 0 then 1 else deps.max_retries;
  listens = deps.listens;
  validator = deps.validator;
  consensus = deps.consensus;
  response_mode = deps.response_mode;
  request_count = 0;
  cache_hit_count = 0;
  start_time = now;
  now = now;
  notified = [];
  asked = [];
}

-- What Go returns as `(*model.Price, error)`.
abbrev pub Returned : Type 0 → Type 0 → Type 0
Returned D F = Option (Price D F) × Option Error

module _ {R C S D F : Type 0} ⦃ca : Cache C D F⦄ ⦃ps : PriceStore S D F⦄ where
  -- `s.cache.Get`: the price that it finds, an error counting as none.
  unfoldable pub cached : String → String → PriceService R C S D F → Option (Price D F)
  cached coin currency s = elim s.cache [
    | none ↦ none
    | some c ↦ elim (ca.get s.now coin currency c) [ ok found ↦ found | err e ↦ none ]
  ]

  unfoldable pub put_cache : Price D F → PriceService R C S D F → PriceService R C S D F
  put_cache p s = elim s.cache [
    | none ↦ s
    | some c ↦ record s { cache = some (ca.set s.now p s.cache_ttl c).0 }
  ]

  unfoldable pub put_store : Price D F → PriceService R C S D F → PriceService R C S D F
  put_store p s = elim s.store [ none ↦ s | some st ↦ record s { store = some (ps.save p st).0 } ]

  unfoldable pub notify : Price D F → PriceService R C S D F → PriceService R C S D F
  notify p s = if s.listens then record s { notified = p ∷ s.notified } else s

  -- What is done with a price that is served: cache, store, listener.
  unfoldable pub deliver : Price D F → PriceService R C S D F → PriceService R C S D F
  unfolding put_cache put_store notify
  deliver p s = notify p (put_store p (put_cache p s))

  -- `s.store.GetLatest`, the last resort.
  unfoldable pub last_resort :
      String → String → Option Error → PriceService R C S D F → Returned D F
  last_resort coin currency last_err s = elim s.store [
    | none ↦ (none, last_err)
    | some st ↦ elim (ps.get_latest coin currency st) [
      | ok (some p) ↦ (some p, none)
      | _ ↦ (none, last_err)
    ]
  ]

module _ {R C S D F : Type 0} ⦃rt : ProviderRouter R⦄ ⦃ca : Cache C D F⦄ ⦃ps : PriceStore S D F⦄
    ⦃dec : Decimal D⦄ ⦃fl : Float F⦄ ⦃cv : Conversion D F⦄ where
  -- The comparison with the cached price, which is only logged.
  unfoldable pub check_reference :
      String
      → String
      → PriceValidatorConfig F
      → Price D F
      → PriceService R C S D F
      → Option (PriceService R C S D F)
  check_reference coin currency v p s = elim s.cache [
    | none ↦ some s
    | some c ↦ do verdict ← validate_against_reference s.now v p (cached coin currency s); some s
  ]

  -- A price that a provider gave: the validator's verdict, and delivery.
  unfoldable pub accept_price :
      String
      → String
      → String
      → Price D F
      → PriceService R C S D F
      → Option (PriceService R C S D F × Returned D F)
  unfolding check_reference
  accept_price coin currency name p s = elim s.validator [
    | none ↦ some (deliver p s, (some p, none))
    | some v ↦ elim (validate s.now v p) [
      | some e ↦
          some (record s { router = rt.report_failure s.now name e s.router }, (none, some e))
      | none ↦ do s' ← check_reference coin currency v p s; some (deliver p s', (some p, none))
    ]
  ]

module _ {R C S D F : Type 0} ⦃rt : ProviderRouter R⦄ ⦃ca : Cache C D F⦄ ⦃ps : PriceStore S D F⦄
    ⦃dec : Decimal D⦄ ⦃fl : Float F⦄ ⦃cv : Conversion D F⦄ (answers : Answers D F) where
  -- One provider is asked: its price, or an error after which the loop goes on.
  unfoldable pub ask_provider :
      String
      → String
      → String
      → PriceService R C S D F
      → Option (PriceService R C S D F × Returned D F)
  ask_provider coin currency name s =
      let (answer, elapsed) = answers s.now name coin currency in
      let s' = record s { now = s.now + elapsed; asked = name ∷ s.asked } in
      elim answer [
        | err e ↦
            some (record s' { router = rt.report_failure s'.now name e s.router }, (none, some e))
        | ok p ↦
            accept_price coin currency name p
              (record s' { router = rt.report_success name elapsed s.router })
      ]

  -- The loop over the attempts, with so many left.
  unfoldable pub try_providers :
      ℕ
      → String
      → String
      → List String
      → Option Error
      → PriceService R C S D F
      → Option (PriceService R C S D F × Returned D F)
  unfolding ask_provider
  try_providers zero coin currency tried last_err s = some (s, (none, last_err))
  try_providers (suc left) coin currency tried last_err s =
      let (r', found) = rt.select s.now coin s.router in
      let s' = record s { router = r' } in
      elim found [
        | err e ↦ some (s', (none, some e))
        | ok name ↦ if contains name tried then some (s', (none, last_err)) else do
          (s'', returned) ← ask_provider coin currency name s'
          elim returned.0 [
            | some p ↦ some (s'', (some p, none))
            | none ↦ try_providers left coin currency (name ∷ tried) returned.1 s''
          ]
      ]
