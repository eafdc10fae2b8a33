-- ===== src/App/Convert.antt =====
-- internal/app/price_service_convert.go: converting an amount of one coin into another. `none` is a panic: a nil
-- price without an error, or a division by zero.
use crypto_price_aggregator.Base.{
  ◌≡◌, ◌⊎◌, inl, inr, Bool-cases, true, false, String, Option, none, some, Option-cases,
  if◌then◌else◌, ◌>>=◌, arith,
}
use crypto_price_aggregator.Domain.{Price, Result, ok, err, message, wrapped}
use crypto_price_aggregator.Domain.Numeric.{Decimal, Float, Conversion, DecimalLaws}
use crypto_price_aggregator.Domain.Ports.{ProviderRouter, Cache, PriceStore, Answers}
use crypto_price_aggregator.App.PriceService.{PriceService}
use crypto_price_aggregator.App.Request.{get_price}

pub record ConvertResult (D : Type 0) : Type 0 where
  pub from : String
  pub «to» : String
  pub amount : D
  pub result : D
  pub rate : D
  pub via_currency : String

module _ {D F : Type 0} ⦃dec : Decimal D⦄ where
  -- The result for two prices.
  unfoldable pub convert_at :
      String → String → D → String → Price D F → Price D F → Option (Result (ConvertResult D))
  convert_at from_coin to_coin amount via from_price to_price =
      if dec.is_zero from_price.value
      then some (err (message "price is zero"))
      else if dec.is_zero to_price.value
      then some (err (message "price is zero"))
      else do
        rate ← dec.div from_price.value to_price.value
        some (
            ok (record {
              from = from_coin;
              «to» = to_coin;
              amount = amount;
              result = dec.mul amount rate;
              rate = rate;
              via_currency = via;
            }))

module _ {R C S D F : Type 0} ⦃rt : ProviderRouter R⦄ ⦃ca : Cache C D F⦄ ⦃ps : PriceStore S D F⦄
    ⦃dec : Decimal D⦄ ⦃fl : Float F⦄ ⦃cv : Conversion D F⦄ (answers : Answers D F) where
  -- The second request, and the result.
  unfoldable pub convert_from :
      String
      → String
      → D
      → String
      → Option (Price D F)
      → PriceService R C S D F
      → Option (PriceService R C S D F × Result (ConvertResult D))
  unfolding convert_at
  convert_from from_coin to_coin amount via from_price s = do
    (s', returned) ← get_price answers to_coin via s
    elim returned.1 [
      | some e ↦ some (s', err (wrapped "getting price" e))
      | none ↦ do
        p ← from_price
        q ← returned.0
        result ← convert_at from_coin to_coin amount via p q
        some (s', result)
    ]

  unfoldable pub convert :
      String
      → String
      → D
      → String
      → PriceService R C S D F
      → Option (PriceService R C S D F × Result (ConvertResult D))
  unfolding convert_from
  convert from_coin to_coin amount via s = do
    (s', returned) ← get_price answers from_coin via s
    elim returned.1 [
      | some e ↦ some (s', err (wrapped "getting price" e))
      | none ↦ convert_from from_coin to_coin amount via returned.0 s'
    ]

  -- When both coins have a price in the currency between them, the conversion does not panic. It
  -- is an error if one of the prices is zero; otherwise the rate is the first price divided by the
  -- second, and the result is the amount times the rate. Decimal numbers obey their laws.
  pub convert-rate :
      (laws : DecimalLaws D) (from_coin to_coin : String) (amount : D) (via : String)
      (s s1 s2 : PriceService R C S D F) (p q : Price D F)
      → get_price answers from_coin via s ≡ some (s1, (some p, none))
      → get_price answers to_coin via s1 ≡ some (s2, (some q, none))
      → (((dec.is_zero p.value ≡ true) ⊎ (dec.is_zero q.value ≡ true))
          × (convert from_coin to_coin amount via s ≡ some (s2, err (message "price is zero"))))
        ⊎ ((dec.is_zero p.value ≡ false)
            × (dec.is_zero q.value ≡ false)
            × (rate : D) × (dec.div p.value q.value ≡ some rate)
            × (convert from_coin to_coin amount via s
                ≡ some (
                  s2,
                  ok (record {
                    from = from_coin;
                    «to» = to_coin;
                    amount = amount;
                    result = dec.mul amount rate;
                    rate = rate;
                    via_currency = via;
                  }),
                )))
  unfolding convert convert_from convert_at
  convert-rate laws from_coin to_coin amount via s s1 s2 p q e f =
      elim (Bool-cases (dec.is_zero p.value)) [
        | inl z ↦ inl (inl z, ground (arith, e, f, z))
        | inr m ↦ elim (Bool-cases (dec.is_zero q.value)) [
          | inl z ↦ inl (inr z, ground (arith, e, f, m, z))
          | inr n ↦ elim (Option-cases (dec.div p.value q.value)) [
            | inl never ↦ absurd (ground (arith, never, laws.div_defined p.value q.value n))
            | inr (rate, is) ↦ inr (m, n, rate, is, ground (arith, e, f, m, n, is))
          ]
        ]
      ]
