-- ===== src/App/PriceService/Attempts.antt =====
-- internal/app/price_service.go: one provider's turn in the loop of `GetPrice`, in lemmas.
use crypto_price_aggregator.Base.{
  ◌+◌, ◌≡◌, ◌⊎◌, inl, inr, true, String, ◌∷◌, Option, none, some, arith, is_some, Option-cases,
}
use crypto_price_aggregator.Domain.{Price, Error, Result-cases, ok}
use crypto_price_aggregator.Domain.Numeric.{Decimal, Float, Conversion, DecimalLaws}
use crypto_price_aggregator.Domain.Ports.{ProviderRouter, Cache, PriceStore, Answers}
use crypto_price_aggregator.App.Validator.{PriceValidatorConfig, validate}
use crypto_price_aggregator.App.Validator.Verdict.{AllFinite, validate_against_reference_defined}
use crypto_price_aggregator.App.PriceService.{
  PriceService, Returned, cached, deliver, accept_price, ask_provider,
}

module _ {R C S D F : Type 0} ⦃fl : Float F⦄ where
  -- No deviation of the service's validator, if it has one, is NaN or infinite.
  abbrev pub FiniteValidator : PriceService R C S D F → Type 0
  FiniteValidator s = (v : PriceValidatorConfig F) → s.validator ≡ some v → AllFinite v

module _ {R C S D F : Type 0} ⦃rt : ProviderRouter R⦄ ⦃ca : Cache C D F⦄ ⦃ps : PriceStore S D F⦄
    ⦃dec : Decimal D⦄ ⦃fl : Float F⦄ ⦃cv : Conversion D F⦄ (laws : DecimalLaws D) where
  pub accept_price_defined :
      (coin currency name : String) (p : Price D F) (s : PriceService R C S D F)
      → FiniteValidator s
      → is_some (accept_price coin currency name p s) ≡ true
  unfolding accept_price
  accept_price_defined coin currency name p s fin = elim (Option-cases s.validator) [
    | inl e ↦ ground arith
    | inr (v, e) ↦ ground (
      arith,
      validate_against_reference_defined laws s.now v (fin v e) p (cached coin currency s),
    )
  ]

module _ {R C S D F : Type 0} ⦃rt : ProviderRouter R⦄ ⦃ca : Cache C D F⦄ ⦃ps : PriceStore S D F⦄
    ⦃dec : Decimal D⦄ ⦃fl : Float F⦄ ⦃cv : Conversion D F⦄ where
  -- What becomes of a price that a provider gave.
  abbrev pub Outcome : PriceService R C S D F → PriceService R C S D F → Returned D F → Type 0
  Outcome s s' returned =
      ((p : Price D F) × (returned ≡ (some p, none))
        × ((v : PriceValidatorConfig F) → s.validator ≡ some v → validate s'.now v p ≡ none))
      ⊎ ((e : Error) × (returned ≡ (none, some e)))

  accept_price-keeps :
      (coin currency name : String) (p : Price D F) (s s' : PriceService R C S D F)
      (returned : Returned D F)
      → accept_price coin currency name p s ≡ some (s', returned)
      → (s'.asked ≡ s.asked)
        × (s'.validator ≡ s.validator)
        × (s'.max_retries ≡ s.max_retries)
        × (s'.now ≡ s.now)
  unfolding accept_price deliver
  accept_price-keeps coin currency name p s s' returned e = ground arith

  pub accept_price-Outcome :
      (coin currency name : String) (p : Price D F) (s s' : PriceService R C S D F)
      (returned : Returned D F)
      → accept_price coin currency name p s ≡ some (s', returned)
      → Outcome s s' returned
  unfolding accept_price
  accept_price-Outcome coin currency name p s s' returned e =
      let keeps = accept_price-keeps coin currency name p s s' returned e in
      elim (Option-cases s.validator) [
        | inl n ↦ inl (p, ground arith, λ v h. ground arith)
        | inr (v, h) ↦ elim (Option-cases (validate s.now v p)) [
          | inl fine ↦ inl (p, ground arith, λ w k. ground (arith, keeps, fine))
          | inr (x, bad) ↦ inr (x, ground arith)
        ]
      ]

module _ {R C S D F : Type 0} ⦃rt : ProviderRouter R⦄ ⦃ca : Cache C D F⦄ ⦃ps : PriceStore S D F⦄
    ⦃dec : Decimal D⦄ ⦃fl : Float F⦄ ⦃cv : Conversion D F⦄ (answers : Answers D F) where
  -- What one provider's turn does.
  pub record IsTurn (name : String) (s s' : PriceService R C S D F) (returned : Returned D F)
      : Type 0 where
    pub logged : s'.asked ≡ name ∷ s.asked
    pub same_validator : s'.validator ≡ s.validator
    pub outcome : Outcome s s' returned

  pub ask_provider_defined :
      (laws : DecimalLaws D) (coin currency name : String) (s : PriceService R C S D F)
      → FiniteValidator s
      → is_some (ask_provider answers coin currency name s) ≡ true
  unfolding ask_provider
  ask_provider_defined laws coin currency name s fin =
      elim (Result-cases (answers s.now name coin currency).0) [
        | inl (p, a) ↦
            let entered : PriceService R C S D F = record s {
              now = s.now + (answers s.now name coin currency).1;
              asked = name ∷ s.asked;
              router = rt.report_success name (answers s.now name coin currency).1 s.router;
            } in
            ground (arith, a, accept_price_defined laws coin currency name p entered fin)
        | inr (x, a) ↦ ground (arith, a)
      ]

  pub ask_provider-IsTurn :
      (coin currency name : String) (s s' : PriceService R C S D F) (returned : Returned D F)
      → ask_provider answers coin currency name s ≡ some (s', returned)
      → IsTurn name s s' returned
  unfolding ask_provider
  ask_provider-IsTurn coin currency name s s' returned e =
      elim (Result-cases (answers s.now name coin currency).0) [
        | inl (p, a) ↦
            let entered = record s {
              now = s.now + (answers s.now name coin currency).1;
              asked = name ∷ s.asked;
              router = rt.report_success name (answers s.now name coin currency).1 s.router;
            } in
            let accepted : accept_price coin currency name p entered ≡ some (s', returned) =
              ground (arith, a) in
            let keeps = accept_price-keeps coin currency name p entered s' returned accepted in
            record {
              logged = ground (arith, keeps);
              same_validator = ground (arith, keeps);
              outcome = accept_price-Outcome coin currency name p entered s' returned accepted;
            }
        | inr (x, a) ↦ record {
          logged = ground (arith, a);
          same_validator = ground (arith, a);
          outcome = inr (x, ground (arith, a));
        }
      ]

  -- A turn that ends with a price ends with the one that the provider answered.
  pub ask_provider-given :
      (coin currency name : String) (s s' : PriceService R C S D F) (p : Price D F)
      (x : Option Error)
      → ask_provider answers coin currency name s ≡ some (s', (some p, x))
      → (answers s.now name coin currency).0 ≡ ok p
  unfolding ask_provider accept_price
  ask_provider-given coin currency name s s' p x e =
      elim (Result-cases (answers s.now name coin currency).0) [
        | inl (q, a) ↦ ground (arith, a)
        | inr (y, a) ↦ absurd (ground (arith, a))
      ]
