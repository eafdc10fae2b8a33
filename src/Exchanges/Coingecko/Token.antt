-- ===== src/Exchanges/Coingecko/Token.antt =====
-- internal/adapter/provider/coingecko/token.go
use Prim.Native.String.{◌++◌}
use crypto_price_aggregator.Base.{ℕ, ◌≡◌, sym, ap, true, String, List, Option, none, some, arith}
use crypto_price_aggregator.Base.Dict.{lookup}
use crypto_price_aggregator.Domain.{Price, Result, ok, err, coin_not_found}
use crypto_price_aggregator.Domain.Numeric.{Decimal, Float, Conversion}
use crypto_price_aggregator.Providers.Adapter.{Request, get_request, Answer}
use crypto_price_aggregator.Providers.Token.{token_answer, after, after-ok}
use crypto_price_aggregator.Providers.Quotes.{quoted}
use crypto_price_aggregator.App.Address.{TokenProvider}

-- The prices of the addresses, by currency.
abbrev pub TokenPrices : Type 0 → Type 0
TokenPrices F = List (String × List (String × F))

module _ (lower : String → String) (base_url : String) where
  unfoldable token_request : String → String → String → Request
  token_request chain address currency = get_request (
      base_url
      ++ ("/api/v3/simple/token_price/"
          ++ (chain
              ++ ("?contract_addresses="
                  ++ (lower address ++ ("&vs_currencies=" ++ lower currency))))))

module _ {D F : Type 0} ⦃dec : Decimal D⦄ ⦃fl : Float F⦄ ⦃conv : Conversion D F⦄
    (send : ℕ → Request → Answer) (lower : String → String)
    (decode : String → Result (TokenPrices F)) (base_url : String) where
  abbrev priced : ℕ → String → String → Option F → Result (Price D F)
  priced now address currency none = err coin_not_found
  priced now address currency (some value) =
      ok (quoted "coingecko" (lower address) currency (conv.from_float value) now)

  abbrev found : ℕ → String → String → Option (List (String × F)) → Result (Price D F)
  found now address currency none = err coin_not_found
  found now address currency (some prices) =
      priced now address currency (lookup (lower currency) prices)

  unfoldable pub get_price_by_address : ℕ → String → String → String → Result (Price D F)
  unfolding token_request token_answer
  get_price_by_address now chain address currency =
      after (token_answer decode (send now (token_request lower base_url chain address currency)))
        λ raw. found now address currency (lookup (lower address) raw)

  abbrev pub token_provider : TokenProvider D F
  token_provider = record {
    supports_chain = λ chain. true;
    get_price_by_address = get_price_by_address;
  }

  priced-coin_id :
      (now : ℕ) (address currency : String) (o : Option F) (p : Price D F)
      → priced now address currency o ≡ ok p
      → p.coin_id ≡ lower address
  priced-coin_id now address currency none p e = absurd (ground (arith, e))
  priced-coin_id now address currency (some value) p e =
      ap (λ r. elim r [ ok q ↦ q.coin_id | err x ↦ lower address ]) (sym e)

  found-coin_id :
      (now : ℕ) (address currency : String) (o : Option (List (String × F))) (p : Price D F)
      → found now address currency o ≡ ok p
      → p.coin_id ≡ lower address
  found-coin_id now address currency none p e = absurd (ground (arith, e))
  found-coin_id now address currency (some prices) p e =
      priced-coin_id now address currency (lookup (lower currency) prices) p e

  -- The coin of a price is the token's address.
  pub get_price_by_address-coin_id :
      (now : ℕ) (chain address currency : String) (p : Price D F)
      → get_price_by_address now chain address currency ≡ ok p
      → p.coin_id ≡ lower address
  unfolding get_price_by_address
  get_price_by_address-coin_id now chain address currency p e =
      let (raw, f) =
        after-ok
          (token_answer decode (send now (token_request lower base_url chain address currency)))
          (λ raw. found now address currency (lookup (lower address) raw)) p e in
      found-coin_id now address currency (lookup (lower address) raw) p f
