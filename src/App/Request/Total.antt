-- ===== src/App/Request/Total.antt =====
-- internal/app/price_service.go: requests and panics.
use crypto_price_aggregator.Base.{
  ℕ, ◌+◌, ◌≡◌, sym, ◌∙◌, inl, inr, true, String, List, [], ◌∷◌, none, some, arith, is_some,
  Option-cases,
}
use crypto_price_aggregator.Domain.{Price}
use crypto_price_aggregator.Domain.Numeric.{Decimal, Float, Conversion, DecimalLaws}
use crypto_price_aggregator.Domain.Ports.{ProviderRouter, Cache, PriceStore, Answers}
use crypto_price_aggregator.App.Consensus.{ConsensusConfig}
use crypto_price_aggregator.App.Consensus.Split.{compute_result-IsConsensus}
use crypto_price_aggregator.App.Consensus.Compute.{conclude, compute, gather, select_providers}
use crypto_price_aggregator.App.PriceService.{PriceService}
use crypto_price_aggregator.App.PriceService.Attempts.{FiniteValidator}
use crypto_price_aggregator.App.Request.Served.{consensus_price-validator}
use crypto_price_aggregator.App.PriceService.Loop.{try_providers_defined}
use crypto_price_aggregator.App.Request.{try_consensus, consensus_price, fetch_price, get_price}

module _ {D F : Type 0} ⦃dec : Decimal D⦄ ⦃fl : Float F⦄ ⦃cv : Conversion D F⦄
    (laws : DecimalLaws D) where
  conclude_defined :
      (cfg : ConsensusConfig F)
      → fl.is_finite cfg.max_deviation ≡ true
      → (prices : List (Price D F)) → is_some (conclude cfg prices) ≡ true
  unfolding conclude
  conclude_defined cfg fin [] =
      let (r, e, _) = compute_result-IsConsensus cfg fin laws [] in ground (arith, e)
  conclude_defined cfg fin (p ∷ ps) =
      let (r, e, _) = compute_result-IsConsensus cfg fin laws (p ∷ ps) in ground (arith, e)

-- No deviation that the service is configured with is NaN or infinite.
pub record HasFinite {R C S D F : Type 0} ⦃fl : Float F⦄ (s : PriceService R C S D F) : Type 0 where
  pub validator : FiniteValidator s
  pub consensus :
      (cfg : ConsensusConfig F) → s.consensus ≡ some cfg → fl.is_finite cfg.max_deviation ≡ true

module _ {R D F : Type 0} ⦃rt : ProviderRouter R⦄ ⦃dec : Decimal D⦄ ⦃fl : Float F⦄
    ⦃cv : Conversion D F⦄ (answers : Answers D F) (laws : DecimalLaws D) where
  compute_defined :
      (now : ℕ) (cfg : ConsensusConfig F)
      → fl.is_finite cfg.max_deviation ≡ true
      → (coin currency : String) (max_providers : ℕ) (r : R)
      → is_some (compute answers now cfg coin currency max_providers r) ≡ true
  unfolding compute
  compute_defined now cfg fin coin currency max_providers r =
      let selected = select_providers now max_providers coin [] r in
      let gathered = gather answers cfg.timeout now coin currency selected.1 selected.0 in
      ground (arith, conclude_defined laws cfg fin gathered.1)

module _ {R C S D F : Type 0} ⦃rt : ProviderRouter R⦄ ⦃ca : Cache C D F⦄ ⦃ps : PriceStore S D F⦄
    ⦃dec : Decimal D⦄ ⦃fl : Float F⦄ ⦃cv : Conversion D F⦄ (answers : Answers D F)
    (laws : DecimalLaws D) where
  try_consensus_defined :
      (cfg : ConsensusConfig F)
      → fl.is_finite cfg.max_deviation ≡ true
      → (coin currency : String) (s : PriceService R C S D F)
      → is_some (try_consensus answers cfg coin currency s) ≡ true
  unfolding try_consensus
  try_consensus_defined cfg fin coin currency s =
      elim (Option-cases (compute answers s.now cfg coin currency 5 s.router)) [
        | inl n ↦
            absurd (
              ground
                (arith, n, compute_defined answers laws s.now cfg fin coin currency 5 s.router))
        | inr ((r, elapsed, result), e) ↦ ground (arith, e)
      ]

  consensus_price_defined :
      (coin currency : String) (s : PriceService R C S D F)
      → HasFinite s
      → is_some (consensus_price answers coin currency s) ≡ true
  unfolding consensus_price
  consensus_price_defined coin currency s fin = elim (Option-cases s.consensus) [
    | inl n ↦ ground (arith, n)
    | inr (cfg, n) ↦
        ground (arith, n, try_consensus_defined cfg (fin.consensus cfg n) coin currency s)
  ]

  fetch_price_defined :
      (coin currency : String) (s : PriceService R C S D F)
      → HasFinite s
      → is_some (fetch_price answers coin currency s) ≡ true
  unfolding fetch_price
  fetch_price_defined coin currency s fin =
      elim (Option-cases (consensus_price answers coin currency s)) [
        | inl n ↦ absurd (ground (arith, n, consensus_price_defined coin currency s fin))
        | inr ((s', some p), e) ↦ ground (arith, e)
        | inr ((s', none), e) ↦
            let same = consensus_price-validator answers coin currency s s' none e in
            ground (
              arith,
              e,
              try_providers_defined answers laws s'.max_retries coin currency [] none s'
                  (λ v h. fin.validator v (sym same ∙ h)),
            )
      ]

  -- If no deviation that the validator and the consensus are configured with is NaN or infinite, a request
  -- does not panic, whatever the cache holds, the router selects and the providers answer:
  -- no consensus and no validation divides by zero or reads out of range. All its loops are
  -- bounded, so it also ends. Decimal numbers obey their laws.
  pub get_price_defined :
      (coin currency : String) (s : PriceService R C S D F)
      → HasFinite s
      → is_some (get_price answers coin currency s) ≡ true
  unfolding get_price
  get_price_defined coin currency s fin =
      let counted = record s { request_count = s.request_count + 1 } in
      ground (
        arith,
        fetch_price_defined coin currency counted
            (record { validator = fin.validator; consensus = fin.consensus }),
      )
