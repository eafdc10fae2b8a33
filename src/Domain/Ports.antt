-- ===== src/Domain/Ports.antt =====
-- internal/domain/port/ports.go: what the services use of routers, caches, stores and providers. An
-- operation takes the time of its call where its implementations read the clock, and returns the new
-- state; contexts are left out.
use crypto_price_aggregator.Base.{ℕ, ◌+◌, ◌≤◌, ◌≡◌, String, Option, some, none, List}
use crypto_price_aggregator.Domain.{Error, Result, ok, Price, Ohlc}

pub record ProviderRouter (R : Type 0) : Type 0 where
  pub select : ℕ → String → R → R × Result String
  pub report_success : String → ℕ → R → R
  pub report_failure : ℕ → String → Error → R → R

pub record Cache (C D F : Type 0) : Type 0 where
  pub get : ℕ → String → String → C → Result (Option (Price D F))
  pub set : ℕ → Price D F → ℕ → C → C × Option Error
  pub delete : String → String → C → C × Option Error

pub record PriceStore (S D F : Type 0) : Type 0 where
  pub save : Price D F → S → S × Option Error
  pub save_batch : List (Price D F) → S → S × Option Error
  pub get_latest : String → String → S → Result (Option (Price D F))
  pub get_history : String → String → ℕ → ℕ → S → Result (List (Price D F))
  pub get_ohlc : String → String → ℕ → ℕ → ℕ → S → Result (List (Ohlc D))

-- A provider's answer to `GetPrice` at a time, and how long it takes: the network, outside the model.
abbrev pub Answers : Type 0 → Type 0 → Type 0
Answers D F = ℕ → String → String → String → Result (Price D F) × ℕ

-- What a price cache promises: a price that was set is found until its time to live is over, and
-- setting another coin's price, or the same coin's in another currency, leaves it alone.
pub record CacheLaws (C D F : Type 0) ⦃c : Cache C D F⦄ : Type 0 where
  pub get-set :
      (now at ttl : ℕ) (p : Price D F) (s : C)
      → now ≤ at + ttl
      → c.get now p.coin_id p.currency (c.set at p ttl s).0 ≡ ok (some p)
  pub set_works : (at ttl : ℕ) (p : Price D F) (s : C) → (c.set at p ttl s).1 ≡ none
