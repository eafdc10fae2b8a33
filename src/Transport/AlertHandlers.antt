-- ===== src/Transport/AlertHandlers.antt =====
-- internal/adapter/transport/http/handler_alerts.go: the handlers of alerts. Decoding the body and parsing the
-- threshold are Go's libraries' and parameters.
use crypto_price_aggregator.Base.{
  ℕ, ◌≡◌, refl, ◌⊎◌, inl, inr, true, false, ◌||◌, String, List, Option, none, some, str_eq,
  if◌then◌else◌, arith, Bool-cases, Option-cases,
}
use crypto_price_aggregator.Base.Dict.{lookup, insert, lookup-insert}
use crypto_price_aggregator.Domain.{
  Alert, AlertCondition, condition_above, condition_below, Result, ok, err, Error, Result-cases,
}
use crypto_price_aggregator.App.Alerts.{
  AlertService, Urls, validate_webhook_url, create, list, delete,
}
use crypto_price_aggregator.Transport.Replies.{Reply, written, failure, or_default}

pub record CreateAlertRequest : Type 0 where
  pub coin_id : String
  pub currency : String
  pub condition : String
  pub threshold : String
  pub webhook_url : String

-- `condition` is above unless the request says below.
unfoldable pub condition_of : String → AlertCondition
condition_of text = if str_eq text "below" then condition_below else condition_above

module _ {D : Type 0} where
  unfoldable pub requested : String → CreateAlertRequest → D → Alert D
  unfolding condition_of
  requested default_currency req threshold = record {
    id = "";
    coin_id = req.coin_id;
    currency = or_default default_currency req.currency;
    condition = condition_of req.condition;
    threshold = threshold;
    webhook_url = req.webhook_url;
    active = false;
    created_at = 0;
    triggered_at = none;
  }

  -- The alert as `Create` leaves it, with its id and time.
  abbrev pub made : String → ℕ → Alert D → Alert D
  made fresh_id now alert = record alert { id = fresh_id; active = true; created_at = now }

module _ {D F : Type 0} where
  abbrev pub create_reply :
      Alert D → AlertService D F × Option Error → AlertService D F × Reply (Alert D)
  create_reply alert (s, some e) = (s, failure 400 "INVALID_WEBHOOK_URL")
  create_reply alert (s, none) = (s, written 201 alert)

  unfoldable pub handle_create_alert :
      (default_currency : String)
      → (String → Result D)
      → Urls
      → (fresh_id : String) → ℕ
      → Result CreateAlertRequest
      → AlertService D F
      → AlertService D F × Reply (Alert D)
  unfolding requested
  handle_create_alert default_currency parse urls fresh_id now (err e) s =
      (s, failure 400 "INVALID_BODY")
  handle_create_alert default_currency parse urls fresh_id now (ok req) s =
      if str_eq req.coin_id "" || str_eq req.threshold "" || str_eq req.webhook_url ""
      then (s, failure 400 "MISSING_PARAM")
      else elim (parse req.threshold) [
        | err e ↦ (s, failure 400 "INVALID_PARAM")
        | ok threshold ↦
            create_reply (made fresh_id now (requested default_currency req threshold))
              (create urls fresh_id now (requested default_currency req threshold) s)
      ]

  unfoldable pub handle_list_alerts : AlertService D F → Reply (List (Alert D))
  handle_list_alerts s = written 200 (list s)

  abbrev delete_reply : AlertService D F × Option Error → AlertService D F × Reply String
  delete_reply (s, some e) = (s, failure 404 "ALERT_NOT_FOUND")
  delete_reply (s, none) = (s, written 200 "deleted")

  unfoldable pub handle_delete_alert : String → AlertService D F → AlertService D F × Reply String
  handle_delete_alert id s = delete_reply (delete id s)

  -- Creating an alert by a request either is refused with status 400 and leaves the service as it is, or is
  -- answered with status 201 and an active alert, for the coin, with the webhook of the request, which was
  -- validated; the service has that alert under its id, and any other alert as before.
  pub handle_create_alert-cases :
      (default_currency : String) (parse : String → Result D) (urls : Urls) (fresh_id : String)
      (now : ℕ) (req : CreateAlertRequest) (s : AlertService D F)
      → ((code : String) × (handle_create_alert default_currency parse urls fresh_id now (ok req) s
            ≡ (s, failure 400 code)))
        ⊎ ((s' : AlertService D F) × (a : Alert D) × (handle_create_alert default_currency parse
                urls fresh_id now
                (ok req)
                s
              ≡ (s', written 201 a))
            × (a.active ≡ true)
            × (a.coin_id ≡ req.coin_id)
            × (a.webhook_url ≡ req.webhook_url)
            × (validate_webhook_url urls req.webhook_url ≡ none)
            × ((id : String)
                → lookup id s'.alerts ≡ (if str_eq a.id id then some a else lookup id s.alerts)))
  unfolding handle_create_alert create requested
  handle_create_alert-cases default_currency parse urls fresh_id now req s =
      elim (Bool-cases
        (str_eq req.coin_id "" || str_eq req.threshold "" || str_eq req.webhook_url "")) [
          | inl t ↦ inl ("MISSING_PARAM", ground (arith, t))
          | inr f ↦ elim (Result-cases (parse req.threshold)) [
            | inr (e, p) ↦ inl ("INVALID_PARAM", ground (arith, f, p))
            | inl (threshold, p) ↦ elim (Option-cases (validate_webhook_url urls req.webhook_url)) [
              | inr (e, v) ↦ inl ("INVALID_WEBHOOK_URL", ground (arith, f, p, v))
              | inl v ↦
                  let a : Alert D = made fresh_id now (requested default_currency req threshold) in
                  inr (
                    record s { alerts = insert fresh_id a s.alerts },
                    a,
                    ground (arith, f, p, v),
                    refl,
                    refl,
                    refl,
                    v,
                    λ id. lookup-insert fresh_id id a s.alerts,
                  )
            ]
          ]
        ]
