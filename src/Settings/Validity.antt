-- ===== src/Settings/Validity.antt =====
-- internal/config/config.go: what Validate accepts.
use crypto_price_aggregator.Base.{
  ℕ, zero, suc, ◌≤◌, false, ◌≡◌, ◌↔◌, refl, sym, ap, subst, ◌∙◌, true, none, Bool-cases, ◌⊎◌, inl,
  inr, arith,
}
use crypto_price_aggregator.Base.Int.{ℤ, pos, negsuc}
use crypto_price_aggregator.Domain.Numeric.{Float}
use crypto_price_aggregator.Settings.{
  Config, is_positive, is_port, rate_limit_error, corrected, validate,
}

abbrev pub IsPositive : ℤ → Type 0
IsPositive z = (n : ℕ) × (z ≡ pos (suc n))

-- A configuration that the server can start with.
pub record IsUsable {F : Type 0} ⦃fl : Float F⦄ (c : Config F) : Type 0 where
  pub port : (n : ℕ) × (c.server.port ≡ pos n) × (1 ≤ n) × (n ≤ 65_535)
  pub read_timeout : IsPositive c.server.read_timeout
  pub write_timeout : IsPositive c.server.write_timeout
  pub cache_ttl : IsPositive c.pricing.cache_ttl
  pub rate_limit :
      (c.server.rate_limit.enabled ≡ false)
      ⊎ ((fl.le c.server.rate_limit.requests_per_second (fl.of_int 0) ≡ false)
          × IsPositive c.server.rate_limit.burst)

is_positive_iff : (z : ℤ) → (is_positive z ≡ true) ↔ IsPositive z
is_positive_iff (pos zero) = (λ h. absurd (ground (arith, h)), λ p. absurd (ground (arith, p.1)))
is_positive_iff (pos (suc n)) = (λ h. (n, refl), λ p. ground arith)
is_positive_iff (negsuc n) = (λ h. absurd (ground (arith, h)), λ p. absurd (ground (arith, p.1)))

is_port_iff : (z : ℤ) → (is_port z ≡ true) ↔ ((n : ℕ) × (z ≡ pos n) × (1 ≤ n) × (n ≤ 65_535))
is_port_iff (pos n) =
    (λ h. (n, refl, ground (arith, h), ground (arith, h)), λ (m, e, a, b). ground (arith, e, a, b))
is_port_iff (negsuc n) =
    (λ h. absurd (ground (arith, h)), λ (m, e, a, b). absurd (ground (arith, e)))

-- The tests of Validate, as it writes them.
record IsChecked {F : Type 0} ⦃fl : Float F⦄ (c : Config F) : Type 0 where
  port : is_port c.server.port ≡ true
  read_timeout : is_positive c.server.read_timeout ≡ true
  write_timeout : is_positive c.server.write_timeout ≡ true
  cache_ttl : is_positive c.pricing.cache_ttl ≡ true
  rate_limit : rate_limit_error c.server.rate_limit ≡ none

module _ {F : Type 0} ⦃fl : Float F⦄ where
  validate_checked : (c : Config F) → IsChecked c → validate c ≡ (corrected c, none)
  unfolding validate
  validate_checked c u = cc (u.port, u.read_timeout, u.write_timeout, u.cache_ttl, u.rate_limit)

  accepted-IsChecked : (c : Config F) → (validate c).1 ≡ none → IsChecked c
  unfolding validate
  accepted-IsChecked c h = record {
    port = ground (arith, h);
    read_timeout = ground (arith, h);
    write_timeout = ground (arith, h);
    cache_ttl = ground (arith, h);
    rate_limit = ground (arith, h);
  }

  corrected_once :
      (c : Config F)
      → corrected record c { pricing = record c.pricing { max_retries = pos 1 } }
        ≡ record c { pricing = record c.pricing { max_retries = pos 1 } }
  unfolding corrected
  corrected_once c = refl

  corrected-cases :
      (c : Config F)
      → ((is_positive c.pricing.max_retries ≡ true) × (corrected c ≡ c))
        ⊎ (corrected c ≡ record c { pricing = record c.pricing { max_retries = pos 1 } })
  unfolding corrected
  corrected-cases c = elim (Bool-cases (is_positive c.pricing.max_retries)) [
    | inl t ↦ inl (t, cc t)
    | inr f ↦ inr (cc f)
  ]

  corrected-IsChecked :
      (c : Config F)
      → IsChecked c
      → IsChecked (corrected c)
        × (is_positive (corrected c).pricing.max_retries ≡ true)
        × (corrected (corrected c) ≡ corrected c)
  corrected-IsChecked c u = elim (corrected-cases c) [
    | inl (t, e) ↦ (subst (λ d. IsChecked d) (sym e) u, cc (t, e), ap corrected e)
    | inr e ↦
        subst (λ d. IsChecked d × (is_positive d.pricing.max_retries ≡ true) × (corrected d ≡ d))
          (sym e)
          (
            record {
              port = u.port;
              read_timeout = u.read_timeout;
              write_timeout = u.write_timeout;
              cache_ttl = u.cache_ttl;
              rate_limit = u.rate_limit;
            },
            refl,
            corrected_once c,
          )
  ]

  IsChecked-IsUsable : (c : Config F) → IsChecked c → IsUsable c
  unfolding rate_limit_error
  IsChecked-IsUsable c k = record {
    port = (is_port_iff c.server.port).0 k.port;
    read_timeout = (is_positive_iff c.server.read_timeout).0 k.read_timeout;
    write_timeout = (is_positive_iff c.server.write_timeout).0 k.write_timeout;
    cache_ttl = (is_positive_iff c.pricing.cache_ttl).0 k.cache_ttl;
    rate_limit = elim (Bool-cases c.server.rate_limit.enabled) [
      | inr off ↦ inl off
      | inl on ↦ inr (
        ground (arith, on, k.rate_limit),
        (is_positive_iff c.server.rate_limit.burst).0 (ground (arith, on, k.rate_limit)),
      )
    ];
  }

  IsUsable-IsChecked : (c : Config F) → IsUsable c → IsChecked c
  unfolding rate_limit_error
  IsUsable-IsChecked c u = record {
    port = (is_port_iff c.server.port).1 u.port;
    read_timeout = (is_positive_iff c.server.read_timeout).1 u.read_timeout;
    write_timeout = (is_positive_iff c.server.write_timeout).1 u.write_timeout;
    cache_ttl = (is_positive_iff c.pricing.cache_ttl).1 u.cache_ttl;
    rate_limit = elim u.rate_limit [
      | inl off ↦ ground (arith, off)
      | inr (rps, burst) ↦
          let b = (is_positive_iff c.server.rate_limit.burst).1 burst in ground (arith, rps, b)
    ];
  }

  -- Validation accepts a configuration exactly if its port is from 1 to 65535, its timeouts and cache
  -- lifetime are positive, and, where the limits on requests are enabled, the requests per second are not
  -- zero or less and the burst is positive. What it accepts has one attempt at least, and is accepted
  -- again without a change.
  pub validate-IsUsable :
      (c : Config F)
      → (((validate c).1 ≡ none) ↔ IsUsable c)
        × (IsUsable c
            → IsPositive (validate c).0.pricing.max_retries
              × (validate (validate c).0 ≡ ((validate c).0, none)))
  validate-IsUsable c = (
    (
      λ h. IsChecked-IsUsable c (accepted-IsChecked c h),
      λ u. ap (λ r. r.1) (validate_checked c (IsUsable-IsChecked c u)),
    ),
    λ u.
        let k = IsUsable-IsChecked c u in
        let (v, retries, same) = corrected-IsChecked c k in
        subst (λ r. IsPositive r.0.pricing.max_retries × (validate r.0 ≡ (r.0, none)))
          (sym (validate_checked c k))
          (
            (is_positive_iff (corrected c).pricing.max_retries).0 retries,
            validate_checked (corrected c) v ∙ ap (λ d. (d, none)) same,
          ),
  )
