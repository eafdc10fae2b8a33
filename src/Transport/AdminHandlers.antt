-- ===== src/Transport/AdminHandlers.antt =====
-- internal/adapter/transport/http/handler_admin.go and handler_analytics.go, with internal/app/analytics_service.go,
-- which hands calls on: the handlers of subscriptions, health and reports. Decoding of bodies and
-- the parsing of durations, times and numbers are parameters, as are the reports, which a database makes.
use crypto_price_aggregator.Base.{
  ℕ, ◌-◌, ◌||◌, String, List, Option, none, some, str_eq, if◌then◌else◌, ◌==◌,
}
use crypto_price_aggregator.Domain.{ProviderStatus, Result, ok, err, Error}
use crypto_price_aggregator.Domain.Numeric.{Float}
use crypto_price_aggregator.App.Admin.{healthy_count}
use crypto_price_aggregator.Scheduler.{Subscription, Poller, subscribe, unsubscribe, subscriptions}
use crypto_price_aggregator.Transport.Replies.{Reply, written, failure, or_default}

unfoldable pub handle_get_providers : List ProviderStatus → Reply (List ProviderStatus)
handle_get_providers statuses = written 200 statuses

unfoldable pub handle_get_subscriptions : Poller → Reply (List Subscription)
handle_get_subscriptions p = written 200 (subscriptions p)

pub record SubscribeRequest : Type 0 where
  pub coin_id : String
  pub currency : String
  pub interval : String

-- A minute, where the interval is no duration.
abbrev interval_of : Result ℕ → ℕ
interval_of (ok interval) = interval
interval_of (err e) = 60_000_000_000

-- The poller's Subscribe returns no error.
unfoldable pub handle_post_subscription :
    (String → Result ℕ) → Result SubscribeRequest → Poller → Poller × Reply String
handle_post_subscription parse (err e) p = (p, failure 400 "INVALID_BODY")
handle_post_subscription parse (ok req) p =
    if str_eq req.coin_id "" || str_eq req.currency "" then (p, failure 400 "MISSING_PARAM") else (
      subscribe
          record {
            coin_id = req.coin_id;
            currency = req.currency;
            interval = interval_of (parse req.interval);
          }
          p,
      written 201 "subscribed",
    )

abbrev removed_reply : Poller × Option Error → Poller × Reply String
removed_reply (p, some e) = (p, failure 404 "SUBSCRIPTION_NOT_FOUND")
removed_reply (p, none) = (p, written 200 "unsubscribed")

unfoldable pub handle_delete_subscription :
    (default_currency coin_id currency : String) → Poller → Poller × Reply String
handle_delete_subscription default_currency coin_id currency p =
    removed_reply (unsubscribe coin_id (or_default default_currency currency) p)

unfoldable pub handle_healthz : Reply String
handle_healthz = written 200 "ok"

-- The status and the number of healthy providers.
unfoldable pub handle_readyz : List ProviderStatus → Reply (String × ℕ)
handle_readyz statuses =
    if healthy_count statuses == 0
    then written 503 ("not ready", 0)
    else written 200 ("ready", healthy_count statuses)

-- The reports of a database, of four kinds, from one time to another.
pub record AnalyticsStore (Accuracy Anomaly Volume Summary F : Type 0) : Type 0 where
  pub provider_accuracy : ℕ → ℕ → Result (List Accuracy)
  pub price_anomalies : String → String → F → ℕ → ℕ → Result (List Anomaly)
  pub volume_by_provider : ℕ → ℕ → Result (List Volume)
  pub price_stats : String → String → ℕ → ℕ → Result Summary

-- A parameter of the query that is left out or can not be read has a default.
abbrev parsed_or : {A : Type 0} → A → String → (String → Result A) → A
parsed_or default text parse =
    if str_eq text "" then default else elim (parse text) [ ok a ↦ a | err e ↦ default ]

-- The last 24 hours, unless the query says otherwise.
unfoldable pub parse_time_range : (String → Result ℕ) → ℕ → String → String → ℕ × ℕ
parse_time_range parse now from_time to_time =
    (parsed_or (now - 86_400_000_000_000) from_time parse, parsed_or now to_time parse)

module _ {B : Type 0} where
  abbrev report_reply : Result B → Reply B
  report_reply (ok report) = written 200 report
  report_reply (err e) = failure 500 "INTERNAL_ERROR"

module _ {Accuracy Anomaly Volume Summary F : Type 0} ⦃fl : Float F⦄
    (parse_time : String → Result ℕ) (parse_float : String → Result F) (default_currency : String)
    (now : ℕ) (from_time to_time : String) where
  unfoldable pub handle_provider_accuracy :
      Option (AnalyticsStore Accuracy Anomaly Volume Summary F) → Reply (List Accuracy)
  unfolding parse_time_range
  handle_provider_accuracy none = failure 503 "ANALYTICS_DISABLED"
  handle_provider_accuracy (some store) =
      let (start, end) = parse_time_range parse_time now from_time to_time in
      report_reply (store.provider_accuracy start end)

  unfoldable pub handle_price_anomalies :
      (coin currency deviation : String)
      → Option (AnalyticsStore Accuracy Anomaly Volume Summary F)
      → Reply (List Anomaly)
  unfolding parse_time_range
  handle_price_anomalies coin currency deviation none = failure 503 "ANALYTICS_DISABLED"
  handle_price_anomalies coin currency deviation (some store) =
      let (start, end) = parse_time_range parse_time now from_time to_time in
      report_reply (
        store.price_anomalies coin (or_default default_currency currency)
          (parsed_or (fl.of_int 5) deviation parse_float) start end)

  unfoldable pub handle_volume_by_provider :
      Option (AnalyticsStore Accuracy Anomaly Volume Summary F) → Reply (List Volume)
  unfolding parse_time_range
  handle_volume_by_provider none = failure 503 "ANALYTICS_DISABLED"
  handle_volume_by_provider (some store) =
      let (start, end) = parse_time_range parse_time now from_time to_time in
      report_reply (store.volume_by_provider start end)

  unfoldable pub handle_price_stats :
      (coin currency : String)
      → Option (AnalyticsStore Accuracy Anomaly Volume Summary F)
      → Reply Summary
  unfolding parse_time_range
  handle_price_stats coin currency none = failure 503 "ANALYTICS_DISABLED"
  handle_price_stats coin currency (some store) =
      if str_eq coin ""
      then failure 400 "MISSING_PARAM"
      else let (start, end) = parse_time_range parse_time now from_time to_time in
        report_reply (store.price_stats coin (or_default default_currency currency) start end)
