-- ===== src/Exchanges/Dexscreener/Token.antt =====
-- internal/adapter/provider/dexscreener/token.go: prices in US dollars, whatever the currency asked for.
use Prim.Native.String.{◌++◌}
use crypto_price_aggregator.Base.{
  ℕ, ◌≡◌, sym, ap, true, String, List, [], ◌∷◌, str_eq, if◌then◌else◌, arith, Bool-cases, inl, inr,
}
use crypto_price_aggregator.Domain.{Price, Result, ok, err, coin_not_found, wrapped}
use crypto_price_aggregator.Domain.Numeric.{Decimal, Float}
use crypto_price_aggregator.Providers.Adapter.{Request, get_request, Answer}
use crypto_price_aggregator.Providers.Token.{token_answer, after, after-ok}
use crypto_price_aggregator.Providers.Quotes.{quoted}
use crypto_price_aggregator.App.Address.{TokenProvider}

pub record DexBaseToken : Type 0 where
  pub symbol : String
  pub name : String

pub record DexPair : Type 0 where
  pub price_usd : String
  pub base_token : DexBaseToken

pub record DexTokenResponse : Type 0 where
  pub pairs : List DexPair

module _ (lower : String → String) (base_url : String) where
  unfoldable token_request : String → String → Request
  token_request chain address =
      get_request (base_url ++ ("/tokens/v1/" ++ (chain ++ ("/" ++ lower address))))

module _ {D F : Type 0} ⦃dec : Decimal D⦄ ⦃fl : Float F⦄ (send : ℕ → Request → Answer)
    (lower : String → String) (new_from_string : String → Result D)
    (decode : String → Result DexTokenResponse) (base_url : String) where
  abbrev parsed : ℕ → String → Result D → Result (Price D F)
  parsed now address (err e) = err (wrapped "parsing price" e)
  parsed now address (ok value) = ok (quoted "dexscreener" (lower address) "usd" value now)

  -- The price of the first pair.
  abbrev first_pair : ℕ → String → List DexPair → Result (Price D F)
  first_pair now address [] = err coin_not_found
  first_pair now address (pair ∷ rest) =
      if str_eq pair.price_usd ""
      then err coin_not_found
      else parsed now address (new_from_string pair.price_usd)

  unfoldable pub get_price_by_address : ℕ → String → String → String → Result (Price D F)
  unfolding token_request token_answer
  get_price_by_address now chain address currency =
      after (token_answer decode (send now (token_request lower base_url chain address)))
        λ raw. first_pair now address raw.pairs

  abbrev pub token_provider : TokenProvider D F
  token_provider = record {
    supports_chain = λ chain. true;
    get_price_by_address = get_price_by_address;
  }

  parsed-coin_id :
      (now : ℕ) (address : String) (r : Result D) (p : Price D F)
      → parsed now address r ≡ ok p
      → p.coin_id ≡ lower address
  parsed-coin_id now address (err x) p e = absurd (ground (arith, e))
  parsed-coin_id now address (ok value) p e =
      ap (λ r. elim r [ ok q ↦ q.coin_id | err x ↦ lower address ]) (sym e)

  first_pair-coin_id :
      (now : ℕ) (address : String) (pairs : List DexPair) (p : Price D F)
      → first_pair now address pairs ≡ ok p
      → p.coin_id ≡ lower address
  first_pair-coin_id now address [] p e = absurd (ground (arith, e))
  first_pair-coin_id now address (pair ∷ rest) p e = elim (Bool-cases (str_eq pair.price_usd "")) [
    | inl t ↦ absurd (ground (arith, t, e))
    | inr f ↦ parsed-coin_id now address (new_from_string pair.price_usd) p (ground (arith, f, e))
  ]

  -- The coin of a price is the token's address.
  pub get_price_by_address-coin_id :
      (now : ℕ) (chain address currency : String) (p : Price D F)
      → get_price_by_address now chain address currency ≡ ok p
      → p.coin_id ≡ lower address
  unfolding get_price_by_address
  get_price_by_address-coin_id now chain address currency p e =
      let (raw, f) =
        after-ok (token_answer decode (send now (token_request lower base_url chain address)))
          (λ raw. first_pair now address raw.pairs) p e in
      first_pair-coin_id now address raw.pairs p f
