-- ===== src/App/Request/Served.antt =====
-- internal/app/price_service.go: what `GetPrice` returns.
use crypto_price_aggregator.Base.{
  ℕ, suc, ◌+◌, ◌≤◌, ◌≡◌, subst, ◌⊎◌, inl, inr, String, [], Option, none, some, arith, Option-cases,
}
use crypto_price_aggregator.Domain.{Price, Error, Result-cases}
use crypto_price_aggregator.Domain.Numeric.{Decimal, Float, Conversion}
use crypto_price_aggregator.Domain.Ports.{ProviderRouter, Cache, CacheLaws, PriceStore, Answers}
use crypto_price_aggregator.App.Consensus.{ConsensusConfig}
use crypto_price_aggregator.App.PriceService.{
  PriceService, Returned, cached, deliver, last_resort, try_providers,
}
use crypto_price_aggregator.App.PriceService.Loop.{try_providers-Outcome}
use crypto_price_aggregator.App.Request.{consensus_price, try_consensus, fetch_price, get_price}

module _ {D F : Type 0} where
  -- Exactly one of a price and an error.
  abbrev pub IsExclusive : Returned D F → Type 0
  IsExclusive returned =
      ((p : Price D F) × (returned ≡ (some p, none))) ⊎ ((e : Error) × (returned ≡ (none, some e)))

module _ {R C S D F : Type 0} ⦃rt : ProviderRouter R⦄ ⦃ca : Cache C D F⦄ ⦃ps : PriceStore S D F⦄
    ⦃dec : Decimal D⦄ ⦃fl : Float F⦄ ⦃cv : Conversion D F⦄ (answers : Answers D F) where
  last_resort-IsExclusive :
      (coin currency : String) (x : Error) (s : PriceService R C S D F)
      → IsExclusive (last_resort coin currency (some x) s)
  unfolding last_resort
  last_resort-IsExclusive coin currency x s = elim (Option-cases s.store) [
    | inl n ↦ inr (x, ground (arith, n))
    | inr (st, n) ↦ elim (Result-cases (ps.get_latest coin currency st)) [
      | inl (some p, g) ↦ inl (p, ground (arith, n, g))
      | inl (none, g) ↦ inr (x, ground (arith, n, g))
      | inr (y, g) ↦ inr (x, ground (arith, n, g))
    ]
  ]

  try_consensus-max_retries :
      (cfg : ConsensusConfig F) (coin currency : String) (s s' : PriceService R C S D F)
      (agreed : Option (Price D F))
      → try_consensus answers cfg coin currency s ≡ some (s', agreed)
      → s'.max_retries ≡ s.max_retries
  unfolding try_consensus deliver
  try_consensus-max_retries cfg coin currency s s' agreed e = ground arith

  pub consensus_price-max_retries :
      (coin currency : String) (s s' : PriceService R C S D F) (agreed : Option (Price D F))
      → consensus_price answers coin currency s ≡ some (s', agreed)
      → s'.max_retries ≡ s.max_retries
  unfolding consensus_price
  consensus_price-max_retries coin currency s s' agreed e = elim (Option-cases s.consensus) [
    | inl n ↦ ground (arith, n)
    | inr (cfg, n) ↦ ground (arith, n, try_consensus-max_retries cfg coin currency s s' agreed)
  ]

  try_consensus-validator :
      (cfg : ConsensusConfig F) (coin currency : String) (s s' : PriceService R C S D F)
      (agreed : Option (Price D F))
      → try_consensus answers cfg coin currency s ≡ some (s', agreed)
      → s'.validator ≡ s.validator
  unfolding try_consensus deliver
  try_consensus-validator cfg coin currency s s' agreed e = ground arith

  pub consensus_price-validator :
      (coin currency : String) (s s' : PriceService R C S D F) (agreed : Option (Price D F))
      → consensus_price answers coin currency s ≡ some (s', agreed)
      → s'.validator ≡ s.validator
  unfolding consensus_price
  consensus_price-validator coin currency s s' agreed e = elim (Option-cases s.consensus) [
    | inl n ↦ ground (arith, n)
    | inr (cfg, n) ↦ ground (arith, n, try_consensus-validator cfg coin currency s s' agreed)
  ]

  fetch_price-IsExclusive :
      (left : ℕ) (coin currency : String) (s s' : PriceService R C S D F) (returned : Returned D F)
      → s.max_retries ≡ suc left
      → fetch_price answers coin currency s ≡ some (s', returned)
      → IsExclusive returned
  unfolding fetch_price
  fetch_price-IsExclusive left coin currency s s' returned m e =
      elim (Option-cases (consensus_price answers coin currency s)) [
        | inl n ↦ absurd (ground (arith, n))
        | inr ((s1, some p), n) ↦ inl (p, ground (arith, n))
        | inr ((s1, none), n) ↦
            elim (Option-cases (try_providers answers s1.max_retries coin currency [] none s1)) [
              | inl k ↦ absurd (ground (arith, n, k))
              | inr ((s2, ret), k) ↦
                  let kept = consensus_price-max_retries coin currency s s1 none n in
                  let outcome =
                    try_providers-Outcome answers left coin currency s1 s2 ret
                      (ground (arith, k, kept, m)) in
                  elim outcome [
                    | inl (p, is, valid) ↦ inl (p, ground (arith, n, k, is))
                    | inr (x, is) ↦
                        subst IsExclusive (ground (arith, n, k, is))
                          (last_resort-IsExclusive coin currency x s2)
                  ]
            ]
      ]

  -- A service with at least one attempt answers a request with exactly one of a price and an error.
  pub get_price-IsExclusive :
      (left : ℕ) (coin currency : String) (s s' : PriceService R C S D F) (returned : Returned D F)
      → s.max_retries ≡ suc left
      → get_price answers coin currency s ≡ some (s', returned)
      → IsExclusive returned
  unfolding get_price
  get_price-IsExclusive left coin currency s s' returned m e =
      elim (Option-cases
        (cached coin currency (record s { request_count = s.request_count + 1 }))) [
          | inl n ↦
              fetch_price-IsExclusive left coin currency
                (record s { request_count = s.request_count + 1 }) s' returned m (ground (arith, n))
          | inr (p, n) ↦ inl (p, ground (arith, n))
        ]

module _ {R C S D F : Type 0} ⦃rt : ProviderRouter R⦄ ⦃ca : Cache C D F⦄ ⦃ps : PriceStore S D F⦄
    ⦃dec : Decimal D⦄ ⦃fl : Float F⦄ ⦃cv : Conversion D F⦄ (answers : Answers D F) where
  -- With a cache that does what caches promise, a price that was delivered answers a request for
  -- its coin and currency until its time to live is over: no provider is asked, only the counters
  -- change.
  pub deliver-get_price :
      (laws : CacheLaws C D F) (p : Price D F) (c : C) (later : ℕ) (s : PriceService R C S D F)
      → s.cache ≡ some c
      → later ≤ s.now + s.cache_ttl
      → let s' = record (deliver p s) { now = later } in
        get_price answers p.coin_id p.currency s'
        ≡ some (
          record s' {
            request_count = s.request_count + 1;
            cache_hit_count = s.cache_hit_count + 1;
          },
          (some p, none),
        )
  unfolding get_price deliver cached
  deliver-get_price laws p c later s e h =
      ground (arith, e, laws.get-set later s.now s.cache_ttl p c h)
