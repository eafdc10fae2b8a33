-- ===== src/App/PriceService/Rejected.antt =====
-- internal/app/price_service.go with internal/router/multi.go: what a rejected price does to its provider's breaker.
use crypto_price_aggregator.Base.{
  ℕ, ◌+◌, ◌≤◌, ◌≡◌, ap, ◌∙◌, String, ◌∷◌, some, none, ◌/◌, arith, get_elem?, get_elem?-set_self,
  lt-length_of_get,
}
use crypto_price_aggregator.Base.Dict.{lookup}
use crypto_price_aggregator.Domain.{Price, ok, Error}
use crypto_price_aggregator.Domain.Numeric.{Decimal, Float, Conversion}
use crypto_price_aggregator.Domain.Ports.{Cache, PriceStore, Answers}
use crypto_price_aggregator.Router.CircuitBreaker.{state_closed, record_failure, record_success}
use crypto_price_aggregator.Router.CircuitBreaker.History.{success_then_failure}
use crypto_price_aggregator.Router.Provider.{ProviderState, record_latency}
use crypto_price_aggregator.Router.Multi.{
  MultiRouter, update_provider, report_success, report_failure,
}
use crypto_price_aggregator.Router.Interface.{multi_provider_router}
use crypto_price_aggregator.App.Validator.{PriceValidatorConfig, validate}
use crypto_price_aggregator.App.PriceService.{PriceService, accept_price, ask_provider}

module _ {D F : Type 0} where
  update_provider-at :
      (name : String) (f : ProviderState D F → ProviderState D F) (r : MultiRouter D F) (i : ℕ)
      (ps : ProviderState D F)
      → lookup name r.providers ≡ some i
      → get_elem? r.ordered i ≡ some ps
      → ((update_provider name f r).providers ≡ r.providers)
        × (get_elem? (update_provider name f r).ordered i ≡ some (f ps))
  unfolding update_provider
  update_provider-at name f r i ps l e =
      ground
        (arith, l, e, get_elem?-set_self r.ordered i (f ps) (lt-length_of_get r.ordered i ps e))

module _ {C S D F : Type 0} ⦃ca : Cache C D F⦄ ⦃ps : PriceStore S D F⦄ ⦃dec : Decimal D⦄
    ⦃fl : Float F⦄ ⦃cv : Conversion D F⦄ (answers : Answers D F) where
  -- A provider that answers with a price that the validator rejects ends its turn with a closed
  -- breaker, whatever failures came before, if the breaker's threshold is at least 2: the answer
  -- is reported as a success before the rejection is reported as a failure. The provider is one
  -- that the router knows.
  pub rejected-state_closed :
      (coin currency name : String) (s : PriceService (MultiRouter D F) C S D F)
      (v : PriceValidatorConfig F) (p : Price D F) (elapsed : ℕ) (x : Error) (i : ℕ)
      (q : ProviderState D F)
      → answers s.now name coin currency ≡ (ok p, elapsed)
      → s.validator ≡ some v
      → validate (s.now + elapsed) v p ≡ some x
      → lookup name s.router.providers ≡ some i
      → get_elem? s.router.ordered i ≡ some q
      → 2 ≤ q.circuit_breaker.failure_threshold
      → (s' : PriceService (MultiRouter D F) C S D F) × (q' : ProviderState D F) × (ask_provider
            answers coin currency name s
          ≡ some (s', (none, some x)))
        × (get_elem? s'.router.ordered i ≡ some q')
        × (q'.circuit_breaker.state ≡ state_closed)
  unfolding ask_provider accept_price report_success report_failure
  rejected-state_closed coin currency name s v p elapsed x i q a h bad l e t =
      let first = report_success name (elapsed / 1_000_000) s.router in
      let failed : ProviderState D F → ProviderState D F =
        λ r. record r { circuit_breaker = record_failure (s.now + elapsed) r.circuit_breaker } in
      let good : ProviderState D F → ProviderState D F = λ r. record r {
        circuit_breaker = record_success r.circuit_breaker;
        avg_latency = record_latency (fl.of_int (elapsed / 1_000_000)) r.avg_latency;
      } in
      let up = update_provider-at name good s.router i q l e in
      let down = update_provider-at name failed first i (good q) (ap (lookup name) up.0 ∙ l) up.1 in
      (
        record s {
          router = report_failure (s.now + elapsed) name x first;
          now = s.now + elapsed;
          asked = name ∷ s.asked;
        },
        failed (good q),
        ground (arith, a, h, bad),
        down.1,
        success_then_failure (s.now + elapsed) q.circuit_breaker t,
      )
