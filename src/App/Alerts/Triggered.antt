-- ===== src/App/Alerts/Triggered.antt =====
-- internal/app/alert_service.go: which alerts an update of a price triggers, and webhooks.
use crypto_price_aggregator.Base.{
  suc, ◌+◌, ℕ, ◌≡◌, ◌∙◌, sym, subst, ap, refl, ◌⊎◌, inl, inr, Bool, true, false, Bool-cases, ◌&&◌,
  ◌||◌, String, List, [], ◌∷◌, Option, none, some, Option-cases, if◌then◌else◌, ltb, str_eq, arith,
  eq_iff, eq_refl,
}
use crypto_price_aggregator.Base.Dict.{lookup, IsDict, lookup-insert, insert-IsDict}
use crypto_price_aggregator.Domain.{Price, Alert, Result-cases, ok}
use crypto_price_aggregator.Domain.Numeric.{Decimal}
use crypto_price_aggregator.App.Validator.{contains}
use crypto_price_aggregator.App.Alerts.{
  AlertService, is_internal_ip, is_triggered, triggered, deactivate, trigger, trigger_all,
  on_price_update, Urls, validate_webhook_url, create, fire_webhook, post_webhook, is_blocked,
}

nil_of_contains : (ids : List String) → ((j : String) → contains j ids ≡ false) → ids ≡ []
unfolding contains
nil_of_contains [] h = refl
nil_of_contains (id ∷ ids) h = absurd (ground (arith, h id, eq_refl id))

module _ {D : Type 0} where
  -- An alert after a list of pointers was triggered.
  abbrev after : ℕ → Bool → Option (Alert D) → Option (Alert D)
  after now listed none = none
  after now listed (some a) = if listed && a.active then some (deactivate now a) else some a

  after-after :
      (now : ℕ) (b c : Bool) (o : Option (Alert D))
      → after now c (after now b o) ≡ after now (b || c) o
  after-after now b c none = refl
  after-after now b c (some a) = ground arith

module _ {D F : Type 0} ⦃dec : Decimal D⦄ where
  -- What an update of a price makes of an alert.
  abbrev pub updated : ℕ → Price D F → Option (Alert D) → Option (Alert D)
  updated now price none = none
  updated now price (some a) = if is_triggered a price then some (deactivate now a) else some a

  is_triggered-active :
      (a : Alert D) (price : Price D F) → is_triggered a price ≡ true → a.active ≡ true
  unfolding is_triggered
  is_triggered-active a price h = ground arith

  lookup-trigger :
      (now : ℕ) (j id : String) (price : Price D F) (s : AlertService D F)
      → lookup j (trigger now id price s).alerts ≡ after now (str_eq id j) (lookup j s.alerts)
  unfolding trigger
  lookup-trigger now j id price s = elim (Option-cases (lookup id s.alerts)) [
    | inl e ↦ elim (Option-cases (lookup j s.alerts)) [
      | inl n ↦ ground (arith, e, n)
      | inr (b, n) ↦ ground (arith, e, n, eq_iff id j)
    ]
    | inr (a, e) ↦ elim (Option-cases (lookup j s.alerts)) [
      | inl n ↦ ground (arith, e, n, eq_iff id j, lookup-insert id j (deactivate now a) s.alerts)
      | inr (b, n) ↦
          ground (arith, e, n, eq_iff id j, lookup-insert id j (deactivate now a) s.alerts)
    ]
  ]

  lookup-trigger_all :
      (now : ℕ) (j : String) (ids : List String) (price : Price D F) (s : AlertService D F)
      → lookup j (trigger_all now ids price s).alerts
        ≡ after now (contains j ids) (lookup j s.alerts)
  unfolding trigger_all contains
  lookup-trigger_all now j [] price s = elim (Option-cases (lookup j s.alerts)) [
    | inl n ↦ ground (arith, n)
    | inr (b, n) ↦ ground (arith, n)
  ]
  lookup-trigger_all now j (id ∷ ids) price s =
      lookup-trigger_all now j ids price (trigger now id price s)
      ∙ ap (after now (contains j ids)) (lookup-trigger now j id price s)
      ∙ after-after now (str_eq id j) (contains j ids) (lookup j s.alerts)

  contains-triggered :
      (j : String) (price : Price D F) (alerts : List (String × Alert D))
      → IsDict alerts
      → (lookup j alerts ≡ none × contains j (triggered price alerts) ≡ false)
        ⊎ ((a : Alert D) × (lookup j alerts ≡ some a)
            × (contains j (triggered price alerts) ≡ is_triggered a price))
  unfolding triggered contains lookup
  contains-triggered j price [] d = inl (refl, refl)
  contains-triggered j price ((id, a) ∷ alerts) d = elim (Bool-cases (str_eq id j)) [
    | inl e ↦ inr (
      a,
      ground (arith, e),
      elim (contains-triggered j price alerts d.1) [
        | inl (n, c) ↦ ground (arith, e, n, c)
        | inr (b, n, c) ↦ absurd (ground (arith, eq_iff id j, e, n, d.0))
      ],
    )
    | inr e ↦ elim (contains-triggered j price alerts d.1) [
      | inl (n, c) ↦ inl (ground (arith, e, n, c), ground (arith, e, n, c))
      | inr (b, n, c) ↦ inr (b, ground (arith, e, n, c), ground (arith, e, n, c))
    ]
  ]

  -- What an update makes of the alert with an id, in the words of the loop's own tests.
  pub lookup-on_price_update :
      (now : ℕ) (j : String) (price : Price D F) (s : AlertService D F)
      → IsDict s.alerts
      → lookup j (on_price_update now price s).alerts ≡ updated now price (lookup j s.alerts)
  unfolding on_price_update
  lookup-on_price_update now j price s d =
      lookup-trigger_all now j (triggered price s.alerts) price s
      ∙ elim (contains-triggered j price s.alerts d) [
        | inl (n, c) ↦ ground (arith, n)
        | inr (b, n, c) ↦ ground (arith, n, c, is_triggered-active b price)
      ]

  trigger-IsDict :
      (now : ℕ) (id : String) (price : Price D F) (s : AlertService D F)
      → IsDict s.alerts
      → IsDict (trigger now id price s).alerts
  unfolding trigger
  trigger-IsDict now id price s d = elim (Option-cases (lookup id s.alerts)) [
    | inl e ↦ subst IsDict (ground (arith, e)) d
    | inr (a, e) ↦ elim (Bool-cases a.active) [
      | inl t ↦ subst IsDict (ground (arith, e, t)) (insert-IsDict id (deactivate now a) s.alerts d)
      | inr t ↦ subst IsDict (ground (arith, e, t)) d
    ]
  ]

  trigger_all-IsDict :
      (now : ℕ) (ids : List String) (price : Price D F) (s : AlertService D F)
      → IsDict s.alerts
      → IsDict (trigger_all now ids price s).alerts
  unfolding trigger_all
  trigger_all-IsDict now [] price s d = d
  trigger_all-IsDict now (id ∷ ids) price s d =
      trigger_all-IsDict now ids price (trigger now id price s) (trigger-IsDict now id price s d)

  updated-quiet :
      (now : ℕ) (price : Price D F) (o : Option (Alert D)) (a : Alert D)
      → updated now price o ≡ some a
      → is_triggered a price ≡ false
  unfolding is_triggered
  updated-quiet now price none a e = cc
  updated-quiet now price (some b) a e = ground arith

  -- An alert fires once: the same price again, at any later time, triggers nothing and changes
  -- nothing. The map has one entry for each id.
  pub on_price_update-again :
      (now later : ℕ) (price : Price D F) (s : AlertService D F)
      → IsDict s.alerts
      → on_price_update later price (on_price_update now price s) ≡ on_price_update now price s
  unfolding on_price_update trigger_all
  on_price_update-again now later price s d =
      let s' = on_price_update now price s in
      let d' = trigger_all-IsDict now (triggered price s.alerts) price s d in
      let quiet : (j : String) → contains j (triggered price s'.alerts) ≡ false = λ j.
        elim (contains-triggered j price s'.alerts d') [
          | inl (n, c) ↦ c
          | inr (a, n, c) ↦
              c
              ∙ updated-quiet now price (lookup j s.alerts) a
                  (sym (lookup-on_price_update now j price s d) ∙ n)
        ] in
      ap (λ ids. trigger_all later ids price s') (nil_of_contains (triggered price s'.alerts) quiet)

-- A post that is an answer: any status below 500.
abbrev pub delivers : Option ℕ → Bool
delivers none = false
delivers (some status) = ltb status 500

post_webhook-zero : (post : ℕ → Option ℕ) (attempt : ℕ) → post_webhook post attempt 0 ≡ (false, 0)
unfolding post_webhook
post_webhook-zero post attempt = refl

post_webhook-suc :
    (post : ℕ → Option ℕ) (attempt left : ℕ)
    → let rest = post_webhook post (attempt + 1) left in
      post_webhook post attempt (suc left)
      ≡ (if delivers (post attempt) then (true, 1) else (rest.0, suc rest.1))
unfolding post_webhook
post_webhook-suc post attempt left = elim (Option-cases (post attempt)) [
  | inl e ↦ ground (arith, e)
  | inr (code, e) ↦ ground (arith, e)
]

-- A webhook is posted until the first answer with a status below 500, three times at most, and counts as
-- delivered exactly if there was one.
pub fire_webhook-cases :
    (post : ℕ → Option ℕ)
    → fire_webhook post ≡ (
        if delivers (post 0)
        then (true, 1)
        else if delivers (post 1)
        then (true, 2)
        else (delivers (post 2), 3))
unfolding fire_webhook
fire_webhook-cases post = ground (
  arith,
  post_webhook-suc post 0 2,
  post_webhook-suc post 1 1,
  post_webhook-suc post 2 0,
  post_webhook-zero post 3,
)

internal-cases :
    (urls : Urls) (host : String)
    → is_internal_ip urls host ≡ false
    → (urls.is_ip host ≡ false)
      ⊎ ((urls.is_loopback host ≡ false)
          × (urls.is_private host ≡ false)
          × (urls.is_link_local_unicast host ≡ false)
          × (urls.is_link_local_multicast host ≡ false))
unfolding is_internal_ip
internal-cases urls host h = ground (arith, h)

module _ {D F : Type 0} where
  -- An alert that is created can be looked up under its id, active, and its webhook's URL parses, has the
  -- scheme http or https, and a host that is no IP address or else no loopback, private or link-local one,
  -- and that in lower case holds none of localhost, metadata.google and 169.254.169.254.
  pub create-stored :
      (urls : Urls) (fresh_id : String) (now : ℕ) (alert : Alert D) (s s' : AlertService D F)
      → create urls fresh_id now alert s ≡ (s', none)
      → (a : Alert D) × (host : String) × (lookup
            (if str_eq alert.id "" then fresh_id else alert.id)
            s'.alerts
          ≡ some a)
        × (a.active ≡ true)
        × (a.webhook_url ≡ alert.webhook_url)
        × ((urls.parse alert.webhook_url ≡ ok ("http", host))
            ⊎ (urls.parse alert.webhook_url ≡ ok ("https", host)))
        × ((urls.is_ip host ≡ false)
            ⊎ ((urls.is_loopback host ≡ false)
                × (urls.is_private host ≡ false)
                × (urls.is_link_local_unicast host ≡ false)
                × (urls.is_link_local_multicast host ≡ false)))
        × (urls.contains_text (urls.to_lower host) "localhost" ≡ false)
        × (urls.contains_text (urls.to_lower host) "metadata.google" ≡ false)
        × (urls.contains_text (urls.to_lower host) "169.254.169.254" ≡ false)
  unfolding create validate_webhook_url is_blocked
  create-stored urls fresh_id now alert s s' e =
      elim (Result-cases (urls.parse alert.webhook_url)) [
        | inr (x, p) ↦ absurd (ground (arith, p))
        | inl ((scheme, host), p) ↦
            let id = if str_eq alert.id "" then fresh_id else alert.id in
            let a : Alert D = record alert { id = id; active = true; created_at = now } in
            (
              a,
              host,
              ground (arith, p, lookup-insert id id a s.alerts, eq_refl id),
              refl,
              refl,
              ground (arith, p, eq_iff scheme "http", eq_iff scheme "https"),
              internal-cases urls host (ground (arith, p)),
              ground (arith, p),
              ground (arith, p),
              ground (arith, p),
            )
      ]
