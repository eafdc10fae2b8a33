-- ===== src/Storage/Memory/Cache.antt =====
-- internal/adapter/storage/memory/cache.go: prices with an expiry time. No operation returns an error.
use crypto_price_aggregator.Base.{
  ℕ, ◌+◌, ◌≤◌, ◌≡◌, ◌≢◌, refl, String, List, Option, none, some, if◌then◌else◌, ltb, arith, str_eq,
  eq_iff, eq_refl, inl, inr, ap, ◌⊎◌,
}
use crypto_price_aggregator.Base.Dict.{
  lookup, insert, erase, lookup-insert, IsDict, lookup-erase_self,
}
use crypto_price_aggregator.Domain.{Price, ok}
use crypto_price_aggregator.Domain.Ports
use crypto_price_aggregator.Storage.Key.{pair_key, HasNoColon, pair_key_inj}

pub record CacheEntry (D F : Type 0) : Type 0 where
  pub price : Price D F
  pub expires_at : ℕ

abbrev pub Entries : Type 0 → Type 0 → Type 0
Entries D F = List (String × CacheEntry D F)

module _ {D F : Type 0} where
  -- `none` is a nil price: no entry, or one that has expired.
  unfoldable pub get : ℕ → String → String → Entries D F → Option (Price D F)
  get now coin currency c = elim (lookup (pair_key coin currency) c) [
    | none ↦ none
    | some entry ↦ if ltb entry.expires_at now then none else some entry.price
  ]

  unfoldable pub set : ℕ → Price D F → ℕ → Entries D F → Entries D F
  set now price ttl c =
      insert (pair_key price.coin_id price.currency)
        (record { price = price; expires_at = now + ttl }) c

  unfoldable pub delete : String → String → Entries D F → Entries D F
  delete coin currency c = erase (pair_key coin currency) c

  -- What is found at a later time: the price that was set, until its time is over; under any other key
  -- what was there before.
  pub get-set :
      (now at ttl : ℕ) (coin currency : String) (p : Price D F) (c : Entries D F)
      → get now coin currency (set at p ttl c) ≡ (
          if str_eq (pair_key p.coin_id p.currency) (pair_key coin currency)
          then (if ltb (at + ttl) now then none else some p)
          else get now coin currency c)
  unfolding get set
  get-set now at ttl coin currency p c =
      let entry : CacheEntry D F = record { price = p; expires_at = at + ttl } in
      ground (arith, lookup-insert (pair_key p.coin_id p.currency) (pair_key coin currency) entry c)

  -- A deleted price is gone, in a cache with one entry for each key.
  pub get-delete :
      (now : ℕ) (coin currency : String) (c : Entries D F)
      → IsDict c
      → get now coin currency (delete coin currency c) ≡ none
  unfolding get delete
  get-delete now coin currency c d = ground (arith, lookup-erase_self (pair_key coin currency) c d)

  instance abbrev pub memory_cache : Ports.Cache (Entries D F) D F
  memory_cache = record {
    get = λ now coin currency c. ok (get now coin currency c);
    set = λ now price ttl c. (set now price ttl c, none);
    delete = λ coin currency c. (delete coin currency c, none);
  }

  memory_get-set :
      (now at ttl : ℕ) (p : Price D F) (c : Entries D F)
      → now ≤ at + ttl
      → get now p.coin_id p.currency (set at p ttl c) ≡ some p
  memory_get-set now at ttl p c h =
      ground (
        arith,
        get-set now at ttl p.coin_id p.currency p c,
        eq_refl (pair_key p.coin_id p.currency),
      )

  -- The memory cache is a cache in the sense of the services.
  pub memory-CacheLaws : Ports.CacheLaws (Entries D F) D F
  memory-CacheLaws = record {
    get-set = λ now at ttl p c h. ap ok (memory_get-set now at ttl p c h);
    set_works = λ at ttl p c. refl;
  }

  -- Setting one pair's price does not change what is found for another pair, if neither coin's name
  -- has a colon.
  pub get-set_ne :
      (now at ttl : ℕ) (coin currency : String) (p : Price D F) (c : Entries D F)
      → HasNoColon p.coin_id
      → HasNoColon coin
      → ((p.coin_id ≢ coin) ⊎ (p.currency ≢ currency))
      → get now coin currency (set at p ttl c) ≡ get now coin currency c
  get-set_ne now at ttl coin currency p c h k ne =
      let differ : pair_key p.coin_id p.currency ≢ pair_key coin currency = λ e.
        let same = pair_key_inj _ _ _ _ h k e in elim ne [ inl n ↦ n same.0 | inr n ↦ n same.1 ] in
      ground (
        arith,
        get-set now at ttl coin currency p c,
        eq_iff (pair_key p.coin_id p.currency) (pair_key coin currency),
        differ,
      )
