-- ===== src/Router/RoundRobin.antt =====
-- internal/router/roundrobin.go: the providers in turn. The strategy keeps the index at which its
-- next search begins, and leaves it alone when it finds nobody.
pub mod Turns
use crypto_price_aggregator.Base.{
  ℕ, zero, suc, ◌+◌, ◌%◌, Bool, true, false, List, [], ◌∷◌, Option, none, some, if◌then◌else◌,
  length, ◌==◌,
}
use crypto_price_aggregator.Domain.{Result, ok, err, Error, no_healthy_provider}
use crypto_price_aggregator.Router.Provider.{ProviderState}
use crypto_price_aggregator.Router.Walk.{visit}

-- The loop, with so many rounds left: `idx = (s.index + i) % n`.
unfoldable pub select_from :
    {D F : Type 0}
    → Bool
    → ℕ
    → ℕ
    → ℕ
    → ℕ
    → ℕ
    → List (ProviderState D F)
    → List (ProviderState D F) × ℕ × Result ℕ
select_from allow_paid now n index zero i st = (st, index, err no_healthy_provider)
select_from allow_paid now n index (suc left) i st =
    let idx = (index + i) % n in
    let rest = select_from allow_paid now n index left (i + 1) (visit allow_paid now idx st).0 in
    if (visit allow_paid now idx st).1
    then ((visit allow_paid now idx st).0, (idx + 1) % n, ok idx)
    else rest

unfoldable pub select_round_robin :
    {D F : Type 0}
    → Bool
    → ℕ
    → ℕ
    → List (ProviderState D F)
    → List (ProviderState D F) × ℕ × Result ℕ
select_round_robin allow_paid now index st =
    if length st == 0
    then (st, index, err no_healthy_provider)
    else select_from allow_paid now (length st) index (length st) 0 st
