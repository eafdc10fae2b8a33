-- ===== src/Router/Smart.antt =====
-- internal/router/smart.go: the available provider of the highest score.
pub mod Best
pub mod Asked
use crypto_price_aggregator.Base.{
  ℕ, suc, ◌+◌, Bool, true, false, List, [], ◌∷◌, Option, none, some, if◌then◌else◌, ◌==◌, length,
  get_elem?, set,
}
use crypto_price_aggregator.Domain.{Result, ok, err, Error, no_healthy_provider}
use crypto_price_aggregator.Domain.Numeric.{Float, Conversion}
use crypto_price_aggregator.Router.Provider.{
  ProviderState, ProviderSnapshot, is_available, snapshot,
}
use crypto_price_aggregator.Router.Walk.{or_no_healthy}

pub record SmartWeights (F : Type 0) : Type 0 where
  pub rate_remaining : F
  pub latency : F
  pub cost : F

module _ {F : Type 0} ⦃fl : Float F⦄ where
  unfoldable pub score : SmartWeights F → ProviderSnapshot F → F
  score w snap =
      let latency_score =
        if fl.gt snap.avg_latency_ms (fl.of_int 0)
        then fl.div (fl.of_int 1) snap.avg_latency_ms
        else fl.of_int 1 in
      let cost_score = fl.neg snap.cost_per_call in
      let base_score =
        fl.add
          (fl.add (fl.mul w.rate_remaining snap.remaining_ratio) (fl.mul w.latency latency_score))
          (fl.mul w.cost cost_score) in
      let accuracy = if snap.total_responses == 0 then fl.of_int 1 else snap.accuracy_score in
      fl.mul base_score accuracy

  -- `if score > bestScore { bestScore = score; best = ps }`
  abbrev pub better : Option ℕ × F → ℕ → Option F → Option ℕ × F
  better best i none = best
  better best i (some s) = if fl.gt s best.1 then (some i, s) else best

module _ {D F : Type 0} ⦃fl : Float F⦄ ⦃cv : Conversion D F⦄ where
  -- One round of the loop, on the provider itself: its state after the round, and its score if it is
  -- available.
  unfoldable pub rate : Bool → SmartWeights F → ℕ → ProviderState D F → ProviderState D F × Option F
  rate allow_paid w now ps =
      let (ps', available) = is_available allow_paid now ps in
      if available then ((snapshot now ps').0, some (score w (snapshot now ps').1)) else (ps', none)

  -- The loop, from position `i` on: the providers after it, and the best.
  unfoldable pub scan :
      Bool
      → SmartWeights F
      → ℕ
      → ℕ
      → Option ℕ × F
      → List (ProviderState D F)
      → List (ProviderState D F) × (Option ℕ × F)
  scan allow_paid w now i best [] = ([], best)
  scan allow_paid w now i best (ps ∷ rest) =
      let (ps', s) = rate allow_paid w now ps in
      let (rest', best') = scan allow_paid w now (suc i) (better best i s) rest in
      (ps' ∷ rest', best')

  unfoldable pub select_smart :
      Bool → SmartWeights F → ℕ → List (ProviderState D F) → List (ProviderState D F) × Result ℕ
  unfolding scan
  select_smart allow_paid w now st =
      let (st', best) = scan allow_paid w now 0 (none, fl.neg_inf) st in (st', or_no_healthy best.0)
