-- ===== src/App/Request.antt =====
-- internal/app/price_service.go: `GetPrice` and the methods around it.
pub mod Served
pub mod Total
mod Agreed
pub mod Sourced
use crypto_price_aggregator.Base.{
  ℕ, zero, suc, ◌+◌, ◌-◌, Bool, true, false, String, List, [], ◌∷◌, ◌++◌, Option, none, some,
  if◌then◌else◌, ◌>>=◌, str_eq,
}
use crypto_price_aggregator.Base.Dict.{insert}
use crypto_price_aggregator.Domain.{Price, Ohlc, Result, ok, err, Error, message}
use crypto_price_aggregator.Domain.Numeric.{Decimal, Float, Conversion}
use crypto_price_aggregator.Domain.Ports.{ProviderRouter, Cache, PriceStore, Answers}
use crypto_price_aggregator.App.Consensus.{ConsensusConfig, ConsensusResult}
use crypto_price_aggregator.App.Consensus.Compute.{compute}
use crypto_price_aggregator.App.PriceService.{
  PriceService, Returned, cached, deliver, last_resort, try_providers,
}

module _ {D F : Type 0} ⦃dec : Decimal D⦄ ⦃fl : Float F⦄ where
  unfoldable pub consensus_as_price : ℕ → String → String → D → Price D F
  consensus_as_price now coin currency value = record {
    coin_id = coin;
    currency = currency;
    value = value;
    provider = "consensus";
    timestamp = now;
    received_at = now;
    market_cap = dec.zero;
    volume_24h = dec.zero;
    change_24h = fl.of_int 0;
  }

module _ {D F : Type 0} where
  unfoldable pub record_returned :
      List (Price D F)
      → List (String × Error)
      → String
      → Returned D F
      → Option (List (Price D F) × List (String × Error))
  record_returned results errs id (p, some e) = some (results, insert id e errs)
  record_returned results errs id (some p, none) = some (results ++ p ∷ [], errs)
  record_returned results errs id (none, none) = none

module _ {R C S D F : Type 0} ⦃rt : ProviderRouter R⦄ ⦃ca : Cache C D F⦄ ⦃ps : PriceStore S D F⦄
    ⦃dec : Decimal D⦄ ⦃fl : Float F⦄ ⦃cv : Conversion D F⦄ (answers : Answers D F) where
  -- The consensus mode with an engine: the agreed price, if the result has confidence.
  unfoldable pub try_consensus :
      ConsensusConfig F
      → String
      → String
      → PriceService R C S D F
      → Option (PriceService R C S D F × Option (Price D F))
  try_consensus cfg coin currency s = do
    (r', elapsed, result) ← compute answers s.now cfg coin currency 5 s.router
    let s' = record s { router = r'; now = s.now + elapsed }
    elim result [
      | ok (some res) ↦
          if fl.gt res.confidence (fl.of_int 0)
          then (let p = consensus_as_price s'.now coin currency res.median_price in
              some (deliver p s', some p))
          else some (s', none)
      | _ ↦ some (s', none)
    ]

  unfoldable pub consensus_price :
      String
      → String
      → PriceService R C S D F
      → Option (PriceService R C S D F × Option (Price D F))
  unfolding try_consensus
  consensus_price coin currency s =
      if str_eq s.response_mode "consensus"
      then elim s.consensus [ none ↦ some (s, none) | some cfg ↦ try_consensus cfg coin currency s ]
      else some (s, none)

  -- A request that the cache does not answer.
  unfoldable pub fetch_price :
      String → String → PriceService R C S D F → Option (PriceService R C S D F × Returned D F)
  fetch_price coin currency s = do
    (s', agreed) ← consensus_price coin currency s
    elim agreed [
      | some p ↦ some (s', (some p, none))
      | none ↦ do
        (s'', returned) ← try_providers answers s'.max_retries coin currency [] none s'
        elim returned.0 [
          | some p ↦ some (s'', (some p, none))
          | none ↦ some (s'', last_resort coin currency returned.1 s'')
        ]
    ]

  unfoldable pub get_price :
      String → String → PriceService R C S D F → Option (PriceService R C S D F × Returned D F)
  get_price coin currency s =
      let s' = record s { request_count = s.request_count + 1 } in
      elim (cached coin currency s') [
        | some p ↦ some (record s' { cache_hit_count = s'.cache_hit_count + 1 }, (some p, none))
        | none ↦ fetch_price coin currency s'
      ]

  -- The loop of `GetPrices`, with the prices and the errors by coin so far; a nil price without an
  -- error would panic.
  unfoldable pub get_prices_from :
      List (Price D F)
      → List (String × Error)
      → List String
      → String
      → PriceService R C S D F
      → Option (PriceService R C S D F × List (Price D F) × List (String × Error))
  get_prices_from results errs [] currency s = some (s, results, errs)
  get_prices_from results errs (id ∷ ids) currency s = do
    (s', returned) ← get_price id currency s
    (results', errs') ← record_returned results errs id returned
    get_prices_from results' errs' ids currency s'

  unfoldable pub get_prices :
      List String
      → String
      → PriceService R C S D F
      → Option (PriceService R C S D F × List (Price D F) × List (String × Error))
  unfolding get_prices_from
  get_prices = get_prices_from [] []

module _ {R C S D F : Type 0} ⦃ps : PriceStore S D F⦄ where
  unfoldable pub get_ohlc :
      String → String → ℕ → ℕ → ℕ → PriceService R C S D F → Result (List (Ohlc D))
  get_ohlc coin currency from to interval s = elim s.store [
    | none ↦ err (message "price store not configured")
    | some st ↦ ps.get_ohlc coin currency from to interval st
  ]

-- The requests, the cache hits, and the time since the start.
unfoldable pub stats : {R C S D F : Type 0} → PriceService R C S D F → ℕ × ℕ × ℕ
stats s = (s.request_count, s.cache_hit_count, s.now - s.start_time)
