-- ===== src/App/Request/Agreed.antt =====
-- internal/app/price_service.go with consensus.go: what an agreed price is made of.
use crypto_price_aggregator.Base.{
  ℕ, ◌+◌, ◌≤◌, ◌≡◌, refl, inl, inr, true, String, List, [], ◌∷◌, none, some, arith, length, All,
  leb, not, ◌||◌, Option-cases, Bool-cases, subst,
}
use crypto_price_aggregator.Domain.{Price, ok, err, Result}
use crypto_price_aggregator.Domain.Numeric.{Decimal, Float, Conversion, FloatLaws}
use crypto_price_aggregator.Domain.Ports.{ProviderRouter, Cache, PriceStore, Answers}
use crypto_price_aggregator.App.Consensus.{ConsensusConfig, ConsensusResult, compute_result}
use crypto_price_aggregator.App.Consensus.Compute.{
  with_timeout, gather, conclude, compute, select_providers,
}
use crypto_price_aggregator.App.PriceService.{PriceService}
use crypto_price_aggregator.App.PriceService.Loop.{IsGiven}
use crypto_price_aggregator.App.Request.{consensus_as_price, try_consensus}

module _ {A : Type 0} where
  with_timeout-ok :
      (timeout : ℕ) (x : Result A × ℕ) (a : A) → (with_timeout timeout x).0 ≡ ok a → x.0 ≡ ok a
  unfolding with_timeout
  with_timeout-ok timeout (r, n) a e = ground (arith, e)

  kept-All :
      (Q : A → Type 0) (r : Result A) (rest : List A)
      → ((a : A) → r ≡ ok a → Q a)
      → All Q rest
      → All Q (elim r [ err e ↦ rest | ok a ↦ a ∷ rest ])
  kept-All Q (ok a) rest h t = (h a refl, t)
  kept-All Q (err e) rest h t = t

module _ {R D F : Type 0} ⦃rt : ProviderRouter R⦄ (answers : Answers D F) (timeout : ℕ) where
  gather-IsGiven :
      (now : ℕ) (coin currency : String) (names : List String) (r : R)
      → All (IsGiven answers coin currency) (gather answers timeout now coin currency names r).1
  unfolding gather
  gather-IsGiven now coin currency [] r = tt
  gather-IsGiven now coin currency (name ∷ names) r =
      let timed = with_timeout timeout (answers now name coin currency) in
      let r' : R = elim timed.0 [
        | err e ↦ rt.report_failure (now + timed.1) name e r
        | ok p ↦ rt.report_success name timed.1 r
      ] in
      kept-All (IsGiven answers coin currency) timed.0
        (gather answers timeout now coin currency names r').1
        (λ p e. (now, name, with_timeout-ok timeout (answers now name coin currency) p e))
        (gather-IsGiven now coin currency names r')

module _ {D F : Type 0} ⦃dec : Decimal D⦄ ⦃fl : Float F⦄ ⦃cv : Conversion D F⦄ where
  -- A result with confidence is that of enough prices.
  conclude-enough :
      FloatLaws F
      → (cfg : ConsensusConfig F) (prices : List (Price D F)) (res : ConsensusResult D F)
      → conclude cfg prices ≡ some (ok (some res))
      → fl.gt res.confidence (fl.of_int 0) ≡ true
      → (compute_result cfg prices ≡ some res) × (cfg.min_providers ≤ length prices)
  unfolding conclude
  conclude-enough laws cfg [] res e g =
      elim (Option-cases (compute_result {D = D} ⦃cv = cv⦄ cfg [])) [
        | inl n ↦ ground (arith, e, n)
        | inr (r, n) ↦ ground (arith, e, n)
      ]
  conclude-enough laws cfg (p ∷ ps) res e g = elim (Option-cases (compute_result cfg (p ∷ ps))) [
    | inl n ↦ ground (arith, e, n, g, laws.gt_irrefl (fl.of_int 0))
    | inr (r, n) ↦ ground (arith, e, n, g, laws.gt_irrefl (fl.of_int 0))
  ]

module _ {D F : Type 0} ⦃dec : Decimal D⦄ ⦃fl : Float F⦄ ⦃cv : Conversion D F⦄
    (answers : Answers D F) where
  -- The value is the consensus of as many prices as the configuration asks for, each of which a provider
  -- answered to the coin and currency.
  pub record IsConsensusOf (cfg : ConsensusConfig F) (coin currency : String) (value : D)
      : Type 0 where
    pub prices : List (Price D F)
    pub result : ConsensusResult D F
    pub computed : compute_result cfg prices ≡ some result
    pub is_median : value ≡ result.median_price
    pub enough : cfg.min_providers ≤ length prices
    pub given : All (IsGiven answers coin currency) prices

module _ {R D F : Type 0} ⦃rt : ProviderRouter R⦄ ⦃dec : Decimal D⦄ ⦃fl : Float F⦄
    ⦃cv : Conversion D F⦄ (answers : Answers D F) (laws : FloatLaws F) where
  compute-IsConsensusOf :
      (now : ℕ) (cfg : ConsensusConfig F) (coin currency : String) (n : ℕ) (r r' : R) (elapsed : ℕ)
      (res : ConsensusResult D F)
      → compute answers now cfg coin currency n r ≡ some (r', elapsed, ok (some res))
      → fl.gt res.confidence (fl.of_int 0) ≡ true
      → IsConsensusOf answers cfg coin currency res.median_price
  unfolding compute
  compute-IsConsensusOf now cfg coin currency n r r' elapsed res e g =
      let selected = select_providers now n coin [] r in
      let gathered = gather answers cfg.timeout now coin currency selected.1 selected.0 in
      let concluded : conclude cfg gathered.1 ≡ some (ok (some res)) =
        elim (Bool-cases (not cfg.enabled || leb n 1)) [
          | inl off ↦ absurd (ground (arith, e, off))
          | inr on ↦ elim (Option-cases (conclude cfg gathered.1)) [
            | inl k ↦ absurd (ground (arith, e, on, k))
            | inr (result, k) ↦ ground (arith, e, on, k)
          ]
        ] in
      let (c, m) = conclude-enough laws cfg gathered.1 res concluded g in
      record {
        prices = gathered.1;
        result = res;
        computed = c;
        is_median = refl;
        enough = m;
        given = gather-IsGiven answers cfg.timeout now coin currency selected.1 selected.0;
      }

  pub try_consensus-IsConsensusOf :
      {C S : Type 0} ⦃ca : Cache C D F⦄ ⦃ps : PriceStore S D F⦄ (cfg : ConsensusConfig F)
      (coin currency : String) (s s' : PriceService R C S D F) (p : Price D F)
      → try_consensus answers cfg coin currency s ≡ some (s', some p)
      → (p.provider ≡ "consensus")
        × (p.coin_id ≡ coin)
        × (p.currency ≡ currency)
        × IsConsensusOf answers cfg coin currency p.value
  unfolding try_consensus consensus_as_price
  try_consensus-IsConsensusOf cfg coin currency s s' p e =
      elim (Option-cases (compute answers s.now cfg coin currency 5 s.router)) [
        | inl n ↦ absurd (ground (arith, e, n))
        | inr ((r', elapsed, err x), n) ↦ absurd (ground (arith, e, n))
        | inr ((r', elapsed, ok none), n) ↦ absurd (ground (arith, e, n))
        | inr ((r', elapsed, ok (some res)), n) ↦
            elim (Bool-cases (fl.gt res.confidence (fl.of_int 0))) [
              | inr low ↦ absurd (ground (arith, e, n, low))
              | inl high ↦
                  let of =
                    compute-IsConsensusOf s.now cfg coin currency 5 s.router r' elapsed res n
                      high in
                  let same : res.median_price ≡ p.value = ground (arith, e, n, high) in
                  (
                    ground (arith, e, n, high),
                    ground (arith, e, n, high),
                    ground (arith, e, n, high),
                    subst (IsConsensusOf answers cfg coin currency) same of,
                  )
            ]
      ]
