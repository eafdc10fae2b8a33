-- ===== src/Exchanges/Learned.antt =====
-- cmd/server/main.go, lines 150 to 160, with internal/app/price_service_address.go: the service with the two
-- providers of prices by address, and what its registry learns from them.
use crypto_price_aggregator.Base.{
  ℕ, ◌≡◌, ◌∙◌, ap, sym, subst, String, List, [], ◌∷◌, All, none, some, arith, inl, inr, Bool-cases,
}
use crypto_price_aggregator.Domain.{Price, Result, ok, Result-cases}
use crypto_price_aggregator.Domain.Numeric.{Decimal, Float, Conversion}
use crypto_price_aggregator.Domain.Ports.{ProviderRouter, Cache, PriceStore, Answers}
use crypto_price_aggregator.Providers.Adapter.{Request, Answer}
use crypto_price_aggregator.App.Address.{
  TokenProvider, AddressService, ask_token_providers, price_of_coin, get_price_by_address,
  get_price_by_address-learns,
}
use crypto_price_aggregator.App.Registry.{TokenRegistry, resolve}
use crypto_price_aggregator.Exchanges.Coingecko.Token as Gecko
use crypto_price_aggregator.Exchanges.Dexscreener.Token as Dex

module _ {D F : Type 0} (lower : String → String) where
  -- A provider whose prices have the token's address as their coin.
  abbrev pub NamesAddress : TokenProvider D F → Type 0
  NamesAddress tp =
      (now : ℕ) (chain address currency : String) (p : Price D F)
      → tp.get_price_by_address now chain address currency ≡ ok p
      → p.coin_id ≡ lower address

  ask_token_providers-coin_id :
      (tps : List (TokenProvider D F)) (now : ℕ) (chain address currency : String) (p : Price D F)
      → All NamesAddress tps
      → ask_token_providers now chain address currency tps ≡ some p
      → p.coin_id ≡ lower address
  unfolding ask_token_providers
  ask_token_providers-coin_id [] now chain address currency p h e = absurd (ground (arith, e))
  ask_token_providers-coin_id (tp ∷ tps) now chain address currency p h e =
      elim (Bool-cases (tp.supports_chain chain)) [
        | inr f ↦
            ask_token_providers-coin_id tps now chain address currency p h.1 (ground (arith, f, e))
        | inl t ↦ elim (Result-cases (tp.get_price_by_address now chain address currency)) [
          | inl (q, g) ↦ h.0 now chain address currency p (g ∙ ap ok (ground (arith, t, g, e)))
          | inr (x, g) ↦
              ask_token_providers-coin_id tps now chain address currency p h.1
                (ground (arith, t, g, e))
        ]
      ]

module _ {D F : Type 0} ⦃dec : Decimal D⦄ ⦃fl : Float F⦄ ⦃conv : Conversion D F⦄
    (send : ℕ → Request → Answer) (lower : String → String) (new_from_string : String → Result D)
    (decode_gecko : String → Result (Gecko.TokenPrices F))
    (decode_dex : String → Result Dex.DexTokenResponse) (gecko_url dex_url : String) where
  unfoldable pub token_providers : List (TokenProvider D F)
  token_providers =
      Gecko.token_provider send lower decode_gecko gecko_url
      ∷ Dex.token_provider send lower new_from_string decode_dex dex_url
      ∷ []

  token_providers-NamesAddress : All (NamesAddress lower) token_providers
  unfolding token_providers
  token_providers-NamesAddress = (
    Gecko.get_price_by_address-coin_id send lower decode_gecko gecko_url,
    (Dex.get_price_by_address-coin_id send lower new_from_string decode_dex dex_url, tt),
  )

module _ {R C S D F : Type 0} ⦃rt : ProviderRouter R⦄ ⦃ca : Cache C D F⦄ ⦃ps : PriceStore S D F⦄
    ⦃dec : Decimal D⦄ ⦃fl : Float F⦄ ⦃cv : Conversion D F⦄ (answers : Answers D F)
    (send : ℕ → Request → Answer) (lower : String → String) (new_from_string : String → Result D)
    (decode_gecko : String → Result (Gecko.TokenPrices F))
    (decode_dex : String → Result Dex.DexTokenResponse) (gecko_url dex_url : String) where
  -- A service with a registry, which does not know a token, and with the two providers, one of which gives a
  -- price: its registry takes the token's address as the name of a coin, so that the next request for the
  -- token, in any currency, asks the exchanges for a coin of that name, and neither provider again.
  pub get_price_by_address-address :
      (chain address currency : String) (s : AddressService R C S D F) (r : TokenRegistry)
      (p : Price D F)
      → s.registry ≡ some r
      → s.token_providers
        ≡ token_providers send lower new_from_string decode_gecko decode_dex gecko_url dex_url
      → resolve lower (lower chain) (lower address) r ≡ none
      → ask_token_providers s.prices.now (lower chain) (lower address) currency s.token_providers
        ≡ some p
      → (s' : AddressService R C S D F) × (get_price_by_address lower answers chain address currency
            s
          ≡ some (s', ok (some (record { price = p; resolved_via = "direct" }))))
        × ((vs : String)
            → get_price_by_address lower answers chain address vs s'
              ≡ price_of_coin lower answers (lower (lower address)) vs s')
  get_price_by_address-address chain address currency s r p e t n a =
      let (s', direct, again) =
        get_price_by_address-learns lower answers chain address currency s r p e n a in
      let named : p.coin_id ≡ lower (lower address) =
        ask_token_providers-coin_id lower s.token_providers s.prices.now (lower chain)
          (lower address) currency p
          (subst (λ tps. All (NamesAddress lower) tps) (sym t)
            (token_providers-NamesAddress send lower new_from_string decode_gecko decode_dex
              gecko_url dex_url))
          a in
      (s', direct, λ vs. again vs ∙ ap (λ c. price_of_coin lower answers c vs s') named)
