-- ===== src/App/Consensus/Compute.antt =====
-- internal/app/consensus.go, `ConsensusEngine.Compute`: select providers, ask them all, and agree on a price. The providers run
-- side by side in the source: the model lets all be selected first, and their answers come in the
-- order of selection. The reports to the router come in that order too.
use crypto_price_aggregator.Base.{
  ℕ, zero, suc, ◌+◌, ◌||◌, not, String, List, [], ◌∷◌, ◌++◌, Option, none, some, if◌then◌else◌, ltb,
  leb, length, ◌>>=◌,
}
use Prim.Native.Nat.{max}
use crypto_price_aggregator.Domain.{Price, Result, ok, err, no_healthy_provider, provider_down}
use crypto_price_aggregator.Domain.Numeric.{Decimal, Float, Conversion}
use crypto_price_aggregator.Domain.Ports.{ProviderRouter, Answers}
use crypto_price_aggregator.App.Validator.{contains}
use crypto_price_aggregator.App.Consensus.{ConsensusConfig, ConsensusResult, compute_result}

module _ {R : Type 0} ⦃rt : ProviderRouter R⦄ where
  -- The selection loop, with so many rounds left; the selected names, in order.
  unfoldable pub select_providers : ℕ → ℕ → String → List String → R → R × List String
  select_providers now zero coin selected r = (r, selected)
  select_providers now (suc left) coin selected r =
      let (r', found) = rt.select now coin r in
      elim found [
        | err e ↦ (r', selected)
        | ok name ↦
            select_providers now left coin
              (if contains name selected then selected else selected ++ name ∷ []) r'
      ]

-- `context.WithTimeout`: a call that would take longer than the timeout fails when that is over, as a
-- provider that cannot be reached (provider/common/base.go).
unfoldable pub with_timeout : {A : Type 0} → ℕ → Result A × ℕ → Result A × ℕ
with_timeout timeout (answer, elapsed) =
    if ltb timeout elapsed then (err provider_down, timeout) else (answer, elapsed)

module _ {R D F : Type 0} ⦃rt : ProviderRouter R⦄ (answers : Answers D F) (timeout : ℕ) where
  -- The router after the answers of the selected providers, the prices among them, and the longest
  -- time that one took.
  unfoldable pub gather : ℕ → String → String → List String → R → R × List (Price D F) × ℕ
  gather now coin currency [] r = (r, [], 0)
  gather now coin currency (name ∷ names) r =
      let (answer, elapsed) = with_timeout timeout (answers now name coin currency) in
      let (r', prices, longest) = gather now coin currency names (elim answer [
        | err e ↦ rt.report_failure (now + elapsed) name e r
        | ok p ↦ rt.report_success name elapsed r
      ]) in
      (r', elim answer [ err e ↦ prices | ok p ↦ p ∷ prices ], max elapsed longest)

module _ {D F : Type 0} ⦃dec : Decimal D⦄ ⦃fl : Float F⦄ ⦃cv : Conversion D F⦄ where
  -- The result when the providers have answered: too few prices give the first one, without
  -- confidence, and none an error. The inner `none` is a nil result.
  unfoldable pub conclude :
      ConsensusConfig F → List (Price D F) → Option (Result (Option (ConsensusResult D F)))
  conclude cfg [] =
      if ltb 0 cfg.min_providers
      then some (err no_healthy_provider)
      else do r ← compute_result cfg []; some (ok (some r))
  conclude cfg (p ∷ ps) =
      if ltb (length (p ∷ ps)) cfg.min_providers
      then some (
          ok (
            some (record {
              median_price = p.value;
              prices = p ∷ ps;
              outliers = [];
              confidence = fl.of_int 0;
            })))
      else do r ← compute_result cfg (p ∷ ps); some (ok (some r))

module _ {R D F : Type 0} ⦃rt : ProviderRouter R⦄ ⦃dec : Decimal D⦄ ⦃fl : Float F⦄
    ⦃cv : Conversion D F⦄ (answers : Answers D F) where
  -- The router after the call, the time that it took, and its result.
  unfoldable pub compute :
      ℕ
      → ConsensusConfig F
      → String
      → String
      → ℕ
      → R
      → Option (R × ℕ × Result (Option (ConsensusResult D F)))
  compute now cfg coin currency max_providers r =
      if not cfg.enabled || leb max_providers 1 then some (r, 0, ok none) else do
        let (r', names) = select_providers now max_providers coin [] r
        let (r'', prices, longest) = gather answers cfg.timeout now coin currency names r'
        result ← conclude cfg prices
        some (r'', longest, result)
