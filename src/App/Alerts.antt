-- ===== src/App/Alerts.antt =====
-- internal/app/alert_service.go: alerts, each in the map under its id. What the service starts with `go`
-- is done at once; the webhooks that are to fire are listed, newest first. Parsing a URL and an address is
-- the standard library's and a parameter.
pub mod Triggered
pub mod Firing
use crypto_price_aggregator.Base.{
  ℕ, zero, suc, ◌+◌, Bool, true, false, ◌&&◌, ◌||◌, not, String, List, [], ◌∷◌, ◌++◌, map, Option,
  none, some, if◌then◌else◌, ltb, str_eq,
}
use crypto_price_aggregator.Base.Dict.{lookup, insert, erase}
use crypto_price_aggregator.Domain.{
  Price, Alert, AlertCondition, condition_above, condition_below, other, Result, ok, err, Error,
  message, wrapped,
}
use crypto_price_aggregator.Domain.Numeric.{Decimal}

pub record AlertService (D F : Type 0) : Type 0 where
  pub alerts : List (String × Alert D)
  -- The calls of `fireWebhook`, newest first.
  pub fired : List (Alert D × Price D F)

unfoldable pub new_alert_service : {D F : Type 0} → AlertService D F
new_alert_service = record { alerts = []; fired = [] }

module _ {D F : Type 0} ⦃dec : Decimal D⦄ where
  unfoldable pub condition_holds : AlertCondition → Alert D → Price D F → Bool
  condition_holds condition_above alert price = dec.greater_or_equal price.value alert.threshold
  condition_holds condition_below alert price = dec.less_or_equal price.value alert.threshold
  condition_holds (other n) alert price = false

  unfoldable pub condition_met : Alert D → Price D F → Bool
  unfolding condition_holds
  condition_met alert price = condition_holds alert.condition alert price

  -- The tests of the loop in `OnPriceUpdate`.
  unfoldable pub is_triggered : Alert D → Price D F → Bool
  unfolding condition_met
  is_triggered alert price =
      alert.active
      && (str_eq alert.coin_id price.coin_id && str_eq alert.currency price.currency)
      && condition_met alert price

  -- The loop's list of pointers, each the key of its alert.
  unfoldable pub triggered : Price D F → List (String × Alert D) → List String
  unfolding is_triggered
  triggered price [] = []
  triggered price ((id, alert) ∷ alerts) =
      let rest = triggered price alerts in if is_triggered alert price then id ∷ rest else rest

abbrev pub deactivate : {D : Type 0} → ℕ → Alert D → Alert D
deactivate now alert = record alert { active = false; triggered_at = some now }

module _ {D F : Type 0} ⦃dec : Decimal D⦄ where
  unfoldable pub trigger : ℕ → String → Price D F → AlertService D F → AlertService D F
  trigger now id price s = elim (lookup id s.alerts) [
    | none ↦ s
    | some alert ↦ if not alert.active then s else record s {
      alerts = insert id (deactivate now alert) s.alerts;
      fired = (deactivate now alert, price) ∷ s.fired;
    }
  ]

  unfoldable pub trigger_all : ℕ → List String → Price D F → AlertService D F → AlertService D F
  unfolding trigger
  trigger_all now [] price s = s
  trigger_all now (id ∷ ids) price s = trigger_all now ids price (trigger now id price s)

  unfoldable pub on_price_update : ℕ → Price D F → AlertService D F → AlertService D F
  unfolding trigger_all triggered
  on_price_update now price s = trigger_all now (triggered price s.alerts) price s

-- The attempts of `fireWebhook`, with so many left: whether the webhook was delivered, and how often it
-- was posted. A post gives a status, or nothing on an error.
unfoldable pub post_webhook : (ℕ → Option ℕ) → ℕ → ℕ → Bool × ℕ
post_webhook post attempt zero = (false, 0)
post_webhook post attempt (suc left) =
    let rest = post_webhook post (attempt + 1) left in
    elim (post attempt) [
      | none ↦ (rest.0, suc rest.1)
      | some status ↦ if ltb status 500 then (true, 1) else (rest.0, suc rest.1)
    ]

unfoldable pub fire_webhook : (ℕ → Option ℕ) → Bool × ℕ
unfolding post_webhook
fire_webhook post = post_webhook post 0 3

-- What `validateWebhookURL` uses of net/url, net and strings: a URL's scheme and host name; whether
-- `net.ParseIP` reads an address in a host, and the tests of that address; lower case; and containment.
pub record Urls : Type 0 where
  pub parse : String → Result (String × String)
  pub is_ip : String → Bool
  pub is_loopback : String → Bool
  pub is_private : String → Bool
  pub is_link_local_unicast : String → Bool
  pub is_link_local_multicast : String → Bool
  pub to_lower : String → String
  pub contains_text : String → String → Bool

unfoldable pub is_internal_ip : Urls → String → Bool
is_internal_ip urls host =
    urls.is_ip host
    && (urls.is_loopback host
        || (urls.is_private host
            || (urls.is_link_local_unicast host || urls.is_link_local_multicast host)))

unfoldable pub is_blocked : Urls → String → List String → Bool
is_blocked urls host [] = false
is_blocked urls host (b ∷ bs) = urls.contains_text host b || is_blocked urls host bs

abbrev pub blocked_hosts : List String
blocked_hosts = "localhost" ∷ "metadata.google" ∷ "169.254.169.254" ∷ []

unfoldable pub validate_webhook_url : Urls → String → Option Error
unfolding is_blocked is_internal_ip
validate_webhook_url urls raw_url = elim (urls.parse raw_url) [
  | err e ↦ some (wrapped "invalid URL" e)
  | ok (scheme, host) ↦
      if not (str_eq scheme "http") && not (str_eq scheme "https")
      then some (message "only http/https schemes allowed")
      else if is_internal_ip urls host
      then some (message "internal IP addresses not allowed")
      else if is_blocked urls (urls.to_lower host) blocked_hosts
      then some (message "blocked hostname")
      else none
]

module _ {D F : Type 0} where
  -- `fresh_id` is the random id that `generateAlertID` makes.
  unfoldable pub create :
      Urls → String → ℕ → Alert D → AlertService D F → AlertService D F × Option Error
  unfolding validate_webhook_url
  create urls fresh_id now alert s = elim (validate_webhook_url urls alert.webhook_url) [
    | some e ↦ (s, some (wrapped "invalid webhook URL" e))
    | none ↦
        let id = if str_eq alert.id "" then fresh_id else alert.id in
        (
          record s {
            alerts = insert id (record alert { id = id; active = true; created_at = now }) s.alerts;
          },
          none,
        )
  ]

  unfoldable pub list : AlertService D F → List (Alert D)
  list s = map (λ (entry : String × Alert D). entry.1) s.alerts

  unfoldable pub delete : String → AlertService D F → AlertService D F × Option Error
  delete id s = elim (lookup id s.alerts) [
    | none ↦ (s, some (message "alert not found"))
    | some alert ↦ (record s { alerts = erase id s.alerts }, none)
  ]
