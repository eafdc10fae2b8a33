-- ===== src/Router/Interface.antt =====
-- internal/router/multi.go and single.go: the routers as the services see them.
use crypto_price_aggregator.Base.{◌/◌}
use crypto_price_aggregator.Domain.Numeric.{Float, Conversion}
use crypto_price_aggregator.Domain.Ports.{ProviderRouter}
use crypto_price_aggregator.Router.Multi
use crypto_price_aggregator.Router.Single

module _ {D F : Type 0} ⦃fl : Float F⦄ ⦃cv : Conversion D F⦄ where
  -- A latency is handed on in milliseconds, `latency.Milliseconds()`.
  instance abbrev pub multi_provider_router : ProviderRouter (Multi.MultiRouter D F)
  multi_provider_router = record {
    select = λ now coin r. Multi.select now r;
    report_success = λ name elapsed r. Multi.report_success name (elapsed / 1_000_000) r;
    report_failure = λ now name e r. Multi.report_failure now name e r;
  }

instance abbrev pub single_provider_router : ProviderRouter Single.SingleRouter
single_provider_router = record {
  select = λ now coin r. (r, Single.select r);
  report_success = λ name elapsed r. Single.report_success r;
  report_failure = λ now name e r. Single.report_failure r;
}
