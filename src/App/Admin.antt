-- ===== src/App/Admin.antt =====
-- internal/app/admin_service.go: the figures of the admin page. The other services may be missing; what the router and the
-- poller say of their providers and subscriptions is given.
use crypto_price_aggregator.Base.{
  ℕ, ◌+◌, ◌/◌, ◌≤◌, List, [], ◌∷◌, Option, none, some, is_some, if◌then◌else◌, ltb, length, arith,
}
use crypto_price_aggregator.Domain.{ProviderStatus, Alert}
use crypto_price_aggregator.Domain.Numeric.{Float}

pub record Stats (F : Type 0) : Type 0 where
  pub total_requests : ℕ
  pub cache_hits : ℕ
  pub cache_hit_rate : F
  pub uptime_seconds : ℕ
  pub healthy_providers : ℕ
  pub total_providers : ℕ
  pub active_subscriptions : ℕ
  pub active_alerts : ℕ
  pub triggered_alerts : ℕ

unfoldable pub healthy_count : List ProviderStatus → ℕ
healthy_count [] = 0
healthy_count (p ∷ ps) = let rest = healthy_count ps in if p.healthy then rest + 1 else rest

-- The active alerts, and those that are not active but were triggered.
unfoldable pub alert_counts : {D : Type 0} → List (Alert D) → ℕ × ℕ
alert_counts [] = (0, 0)
alert_counts (a ∷ rest_of) =
    let rest = alert_counts rest_of in
    if a.active
    then (rest.0 + 1, rest.1)
    else if is_some a.triggered_at
    then (rest.0, rest.1 + 1)
    else rest

-- `priceSvc.Stats()`, if there is a price service.
abbrev pub figures : Option (ℕ × ℕ × ℕ) → ℕ × ℕ × ℕ
figures none = (0, 0, 0)
figures (some s) = s

abbrev listed : {A : Type 0} → Option (List A) → List A
listed none = []
listed (some xs) = xs

-- The first argument is what `PriceService.Stats` gives: requests, cache hits, and the time since the
-- start.
unfoldable pub get_stats :
    {D F A : Type 0} ⦃fl : Float F⦄
    → Option (ℕ × ℕ × ℕ)
    → List ProviderStatus
    → Option (List A)
    → Option (List (Alert D))
    → Stats F
unfolding healthy_count alert_counts
get_stats ⦃fl⦄ price statuses subs alerts =
    let (requests, hits, uptime) = figures price in
    record {
      total_requests = requests;
      cache_hits = hits;
      cache_hit_rate =
          if ltb 0 requests then fl.div (fl.of_int hits) (fl.of_int requests) else fl.of_int 0;
      uptime_seconds = uptime / 1_000_000_000;
      healthy_providers = healthy_count statuses;
      total_providers = length statuses;
      active_subscriptions = length (listed subs);
      active_alerts = (alert_counts (listed alerts)).0;
      triggered_alerts = (alert_counts (listed alerts)).1;
    }

healthy_count-le : (ps : List ProviderStatus) → healthy_count ps ≤ length ps
unfolding healthy_count
healthy_count-le [] = omega arith
healthy_count-le (p ∷ ps) = ground (arith, healthy_count-le ps)

alert_counts-le :
    {D : Type 0} (alerts : List (Alert D))
    → (alert_counts alerts).0 + (alert_counts alerts).1 ≤ length alerts
unfolding alert_counts
alert_counts-le [] = omega arith
alert_counts-le (a ∷ rest_of) = ground (arith, alert_counts-le rest_of)

-- No more providers are healthy than there are, and active and triggered alerts together are no more
-- than the alerts that are kept.
pub get_stats-le :
    (F : Type 0) {D A : Type 0} ⦃fl : Float F⦄ (price : Option (ℕ × ℕ × ℕ))
    (statuses : List ProviderStatus) (subs : Option (List A)) (alerts : List (Alert D))
    → let st = get_stats {F = F} price statuses subs (some alerts) in
      (st.healthy_providers ≤ st.total_providers)
      × (st.active_alerts + st.triggered_alerts ≤ length alerts)
unfolding get_stats
get_stats-le F price statuses subs alerts = (healthy_count-le statuses, alert_counts-le alerts)
