-- ===== src/Wiring/Registered.antt =====
-- cmd/server/wiring.go: what is made of the configuration's providers.
use crypto_price_aggregator.Base.{
  ℕ, ◌<◌, ◌≡◌, ◌≢◌, refl, ap, Bool, true, false, ◌&&◌, String, List, [], ◌∷◌, Option, none, some,
  is_some, map, keep_if, All, if◌then◌else◌, arith, subst,
}
use crypto_price_aggregator.Base.Int.{ℤ, pos, negsuc}
use crypto_price_aggregator.Base.Dict.{lookup}
use crypto_price_aggregator.Domain.Numeric.{Decimal, Float, Conversion}
use crypto_price_aggregator.Router.Multi.{ProviderRegistration}
use crypto_price_aggregator.Providers.Adapter.{Runtime}
use crypto_price_aggregator.Providers.Interface.{IsPriceProvider}
use crypto_price_aggregator.Settings.{ProviderConfig}
use crypto_price_aggregator.Wiring.{
  Created, positive_or, registration, created, create_provider, build_provider_registrations,
}
use crypto_price_aggregator.Wiring.Decoders.{JsonDecoders}
use crypto_price_aggregator.Wiring.Cases.{Case, cases}
use crypto_price_aggregator.Wiring.Contract.{lookup-IsCase}

positive_or-pos : (default : ℕ) (n : ℤ) → 0 < default → 0 < positive_or default n
unfolding positive_or
positive_or-pos default (pos n) h = ground (arith, h)
positive_or-pos default (negsuc n) h = h

-- A registration whose breaker opens after some failures, and for some time.
abbrev pub HasBreaker : {D : Type 0} → ProviderRegistration D → Type 0
HasBreaker r = (0 < r.cb_threshold) × (0 < r.cb_timeout)

module _ {W D F : Type 0} ⦃dec : Decimal D⦄ ⦃fl : Float F⦄ ⦃conv : Conversion D F⦄
    (go : Runtime W D F) (d : JsonDecoders F) where
  created-IsCase :
      (name : String) (pcfg : ProviderConfig) (o : Option (Case W D F)) (c : Created W D F)
      → lookup name (cases go d) ≡ o
      → created pcfg o ≡ some c
      → (c.operations.name ≡ name) × (name ≢ "cryptocompare" → IsPriceProvider c.operations)
  unfolding created
  created-IsCase name pcfg none c e h = ground arith
  created-IsCase name pcfg (some k) c e h =
      subst (λ p. (p.name ≡ name) × (name ≢ "cryptocompare" → IsPriceProvider p))
        (ap (λ o. elim o [ none ↦ k.operations | some made ↦ made.operations ]) h)
        (lookup-IsCase go d name k e)

  -- The provider that is created for a name of the configuration has that name and, for any but
  -- cryptocompare, keeps the contract of the port. A price that GetPrice returns bears the coin and the
  -- currency that were asked for and the provider's name, and comes with a success in the status; an error of
  -- GetPrice is the last one in the status, or wraps it, unless the request was not made. The prices that
  -- GetPrices returns without an error bear the currency and the provider's name and some of the coins in
  -- their order, one at least if there are coins.
  pub create_provider-IsPriceProvider :
      (name : String) (pcfg : ProviderConfig) (c : Created W D F)
      → create_provider go d name pcfg ≡ some c
      → (c.operations.name ≡ name) × (name ≢ "cryptocompare" → IsPriceProvider c.operations)
  unfolding create_provider
  create_provider-IsPriceProvider name pcfg c h =
      created-IsCase name pcfg (lookup name (cases go d)) c refl h

  -- The entries that are enabled and have a package.
  abbrev pub is_registered : String × ProviderConfig → Bool
  is_registered entry = entry.1.enabled && is_some (create_provider go d entry.0 entry.1)

  registration-HasBreaker :
      (pcfg : ProviderConfig) (c : Created W D F) → HasBreaker (registration {D = D} pcfg c)
  unfolding registration
  registration-HasBreaker pcfg c = (
    positive_or-pos 5 pcfg.circuit_breaker.failure_threshold (omega arith),
    positive_or-pos 60_000_000_000 pcfg.circuit_breaker.recovery_timeout (omega arith),
  )

  -- What an entry adds to the registrations.
  entry-HasBreaker :
      (name : String) (pcfg : ProviderConfig) (enabled : Bool) (o : Option (Created W D F))
      (rest : List (ProviderRegistration D)) (kept : List (String × ProviderConfig))
      → ((c : Created W D F) → o ≡ some c → c.operations.name ≡ name)
      → map (λ r. r.provider) rest ≡ map (λ e. e.0) kept
      → All HasBreaker rest
      → (map
            (λ r. r.provider)
            (if enabled then elim o [ none ↦ rest | some c ↦ registration pcfg c ∷ rest ] else rest)
          ≡ map (λ e. e.0) (if enabled && is_some o then (name, pcfg) ∷ kept else kept))
        × All HasBreaker
            (if enabled then elim o [ none ↦ rest | some c ↦ registration pcfg c ∷ rest ] else rest)
  unfolding registration
  entry-HasBreaker name pcfg false o rest kept h e k = (e, k)
  entry-HasBreaker name pcfg true none rest kept h e k = (e, k)
  entry-HasBreaker name pcfg true (some c) rest kept h e k =
      (cc (h c refl, e), (registration-HasBreaker pcfg c, k))

  -- The registered providers are the enabled ones that are known, in their order, each with a breaker whose
  -- threshold and timeout are positive.
  pub build_provider_registrations-HasBreaker :
      (entries : List (String × ProviderConfig))
      → (map (λ r. r.provider) (build_provider_registrations go d entries)
          ≡ map (λ e. e.0) (keep_if is_registered entries))
        × All HasBreaker (build_provider_registrations go d entries)
  unfolding build_provider_registrations
  build_provider_registrations-HasBreaker [] = (refl, tt)
  build_provider_registrations-HasBreaker ((name, pcfg) ∷ entries) =
      let rest = build_provider_registrations-HasBreaker entries in
      entry-HasBreaker name pcfg pcfg.enabled (create_provider go d name pcfg)
        (build_provider_registrations go d entries) (keep_if is_registered entries)
        (λ c h. (create_provider-IsPriceProvider name pcfg c h).0) rest.0 rest.1
