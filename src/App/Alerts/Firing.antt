-- ===== src/App/Alerts/Firing.antt =====
-- internal/app/alert_service.go: which alerts an update of a price fires, apart from the code's tests.
use mathlib.Core.Bool.{true≢false}
use crypto_price_aggregator.Base.{
  ℕ, ◌≡◌, ◌↔◌, ◌∙◌, sym, ap, ◌⊎◌, inl, inr, true, false, Bool-cases, String, none, some,
  Option-cases, arith, eq_iff,
}
use crypto_price_aggregator.Base.Dict.{lookup, IsDict}
use crypto_price_aggregator.Domain.{
  Price, Alert, AlertCondition, condition_above, condition_below, other,
}
use crypto_price_aggregator.Domain.Numeric.{Decimal, DecimalLaws}
use crypto_price_aggregator.App.Alerts.{
  AlertService, condition_holds, condition_met, is_triggered, on_price_update,
}
use crypto_price_aggregator.App.Alerts.Triggered.{updated, lookup-on_price_update}

module _ {D : Type 0} ⦃dec : Decimal D⦄ where
  -- A price is at or beyond a threshold, on the condition's side of it.
  abbrev pub Reaches : AlertCondition → D → D → Type 0
  Reaches condition_above threshold value = dec.less_than value threshold ≡ false
  Reaches condition_below threshold value = dec.less_than threshold value ≡ false
  Reaches (other n) threshold value = ⊥

module _ {D F : Type 0} ⦃dec : Decimal D⦄ where
  -- The alert is active and of the price's coin and currency, and the price reaches its threshold.
  pub record Fires (a : Alert D) (price : Price D F) : Type 0 where
    pub active : a.active ≡ true
    pub same_coin : a.coin_id ≡ price.coin_id
    pub same_currency : a.currency ≡ price.currency
    pub reaches : Reaches a.condition a.threshold price.value

  condition_holds-Reaches :
      (laws : DecimalLaws D) (c : AlertCondition) (a : Alert D) (price : Price D F)
      → (condition_holds c a price ≡ true) ↔ Reaches c a.threshold price.value
  unfolding condition_holds
  condition_holds-Reaches laws condition_above a price =
      ground (arith, laws.greater_or_equal-eq price.value a.threshold)
  condition_holds-Reaches laws condition_below a price =
      ground (arith, laws.less_or_equal-eq price.value a.threshold)
  condition_holds-Reaches laws (other n) a price = ground arith

  is_triggered-Fires :
      (laws : DecimalLaws D) (a : Alert D) (price : Price D F)
      → is_triggered a price ≡ true
      → Fires a price
  unfolding is_triggered condition_met
  is_triggered-Fires laws a price h = record {
    active = ground (arith, h);
    same_coin = ground (arith, h, eq_iff a.coin_id price.coin_id);
    same_currency = ground (arith, h, eq_iff a.currency price.currency);
    reaches = (condition_holds-Reaches laws a.condition a price).0 (ground (arith, h));
  }

  Fires-is_triggered :
      (laws : DecimalLaws D) (a : Alert D) (price : Price D F)
      → Fires a price
      → is_triggered a price ≡ true
  unfolding is_triggered condition_met
  Fires-is_triggered laws a price f =
      let met = (condition_holds-Reaches laws a.condition a price).1 f.reaches in
      ground (
        arith,
        f.active,
        met,
        eq_iff a.coin_id price.coin_id,
        f.same_coin,
        eq_iff a.currency price.currency,
        f.same_currency,
      )

  -- In a map with one entry for each id, an update of a price deactivates, at that time, exactly the
  -- alerts that are active, are of its coin and currency, and whose threshold it reaches: it is not below
  -- the threshold of an alert for above, and not above that of an alert for below. Every other alert stays
  -- as it is, and none is added or removed. Decimal numbers obey their laws.
  pub on_price_update-Fires :
      (laws : DecimalLaws D) (now : ℕ) (j : String) (price : Price D F) (s : AlertService D F)
      → IsDict s.alerts
      → ((lookup j s.alerts ≡ none) × (lookup j (on_price_update now price s).alerts ≡ none))
        ⊎ ((a : Alert D) × (lookup j s.alerts ≡ some a)
            × ((Fires a price
                  × (lookup j (on_price_update now price s).alerts
                      ≡ some (record a { active = false; triggered_at = some now })))
                ⊎ ((Fires a price → ⊥) × (lookup j (on_price_update now price s).alerts ≡ some a))))
  on_price_update-Fires laws now j price s d =
      let made = lookup-on_price_update now j price s d in
      elim (Option-cases (lookup j s.alerts)) [
        | inl n ↦ inl (n, made ∙ ap (updated now price) n)
        | inr (a, n) ↦ inr (
          a,
          n,
          elim (Bool-cases (is_triggered a price)) [
            | inl t ↦ inl (is_triggered-Fires laws a price t, ground (arith, made, n, t))
            | inr t ↦ inr (
              λ f. true≢false (sym (Fires-is_triggered laws a price f) ∙ t),
              ground (arith, made, n, t),
            )
          ],
        )
      ]
