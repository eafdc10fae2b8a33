-- ===== src/App/Address.antt =====
-- internal/app/price_service_address.go: prices by the address of a token. The registry and the token providers
-- are fields of the price service in the source, and stand beside its other parts here. A token
-- provider's chains and its answers at a time are the network's, and parameters.
use crypto_price_aggregator.Base.{
  ℕ, ◌≡◌, inl, inr, Bool, String, List, [], ◌∷◌, Option, none, some, if◌then◌else◌, ◌>>=◌, arith,
}
use crypto_price_aggregator.Domain.{Price, Result, ok, err, coin_not_found}
use crypto_price_aggregator.Domain.Numeric.{Decimal, Float, Conversion}
use crypto_price_aggregator.Domain.Ports.{ProviderRouter, Cache, PriceStore, Answers}
use crypto_price_aggregator.App.PriceService.{PriceService}
use crypto_price_aggregator.App.Request.{get_price}
use crypto_price_aggregator.App.Registry.{TokenRegistry, resolve, add, resolve-add}

pub record TokenProvider (D F : Type 0) : Type 0 where
  pub supports_chain : String → Bool
  pub get_price_by_address : ℕ → String → String → String → Result (Price D F)

pub record AddressPriceResult (D F : Type 0) : Type 0 where
  pub price : Price D F
  pub resolved_via : String

pub record AddressService (R C S D F : Type 0) : Type 0 where
  pub prices : PriceService R C S D F
  pub registry : Option TokenRegistry
  pub token_providers : List (TokenProvider D F)

-- `Resolve`, when there is a registry.
abbrev registered : (String → String) → String → String → Option TokenRegistry → Option String
registered lower chain address none = none
registered lower chain address (some r) = resolve lower chain address r

module _ {D F : Type 0} where
  abbrev from_registry : Option (Price D F) → Option (AddressPriceResult D F)
  from_registry none = none
  from_registry (some p) = some (record { price = p; resolved_via = "registry" })

  -- The first token provider of the chain that gives a price.
  unfoldable pub ask_token_providers :
      ℕ → String → String → String → List (TokenProvider D F) → Option (Price D F)
  ask_token_providers now chain address currency [] = none
  ask_token_providers now chain address currency (tp ∷ tps) =
      let rest = ask_token_providers now chain address currency tps in
      if tp.supports_chain chain
      then elim (tp.get_price_by_address now chain address currency) [
        | err e ↦ rest
        | ok p ↦ some p
      ]
      else rest

module _ {R C S D F : Type 0} ⦃rt : ProviderRouter R⦄ ⦃ca : Cache C D F⦄ ⦃ps : PriceStore S D F⦄
    ⦃dec : Decimal D⦄ ⦃fl : Float F⦄ ⦃cv : Conversion D F⦄ (lower : String → String)
    (answers : Answers D F) where
  -- The coin that the registry knows; a nil price without an error is kept as one, and not a result.
  unfoldable pub price_of_coin :
      String
      → String
      → AddressService R C S D F
      → Option (AddressService R C S D F × Result (Option (AddressPriceResult D F)))
  price_of_coin coin_id currency s = do
    (prices, returned) ← get_price answers coin_id currency s.prices
    let s' = record s { prices = prices }
    elim returned.1 [ some e ↦ some (s', err e) | none ↦ some (s', ok (from_registry returned.0)) ]

  unfoldable pub price_of_token :
      String
      → String
      → String
      → AddressService R C S D F
      → AddressService R C S D F × Result (Option (AddressPriceResult D F))
  price_of_token chain address currency s =
      elim (ask_token_providers s.prices.now chain address currency s.token_providers) [
        | none ↦ (s, err coin_not_found)
        | some p ↦ (
          elim s.registry [
            | none ↦ s
            | some r ↦ record s { registry = some (add lower chain address p.coin_id r) }
          ],
          ok (some (record { price = p; resolved_via = "direct" })),
        )
      ]

  unfoldable pub get_price_by_address :
      String
      → String
      → String
      → AddressService R C S D F
      → Option (AddressService R C S D F × Result (Option (AddressPriceResult D F)))
  unfolding price_of_coin price_of_token
  get_price_by_address chain address currency s =
      elim (registered lower (lower chain) (lower address) s.registry) [
        | some coin_id ↦ price_of_coin coin_id currency s
        | none ↦ some (price_of_token (lower chain) (lower address) currency s)
      ]

  -- A token that the service's registry did not know, and that a token provider priced, is known
  -- from then on: the next request for it, in any currency, asks for its coin's price.
  pub get_price_by_address-learns :
      (chain address currency : String) (s : AddressService R C S D F) (r : TokenRegistry)
      (p : Price D F)
      → s.registry ≡ some r
      → resolve lower (lower chain) (lower address) r ≡ none
      → ask_token_providers s.prices.now (lower chain) (lower address) currency s.token_providers
        ≡ some p
      → (s' : AddressService R C S D F) × (get_price_by_address chain address currency s
          ≡ some (s', ok (some (record { price = p; resolved_via = "direct" }))))
        × ((vs : String) → get_price_by_address chain address vs s' ≡ price_of_coin p.coin_id vs s')
  unfolding get_price_by_address
  get_price_by_address-learns chain address currency s r p e n a =
      elim (resolve-add lower (lower chain) (lower address) p.coin_id r) [
        | inl (old, known, _) ↦ absurd (ground (arith, known, n))
        | inr (_, known, _) ↦ (
          record s { registry = some (add lower (lower chain) (lower address) p.coin_id r) },
          ground (arith, e, n, a),
          λ vs. ground (arith, known),
        )
      ]
