-- ===== src/Tests/Handlers.antt =====
-- The theorems on HTTP handlers and on prices by address at concrete inputs.
use Prim.Native.Char.{code}
use crypto_price_aggregator.Base.{
  ℕ, ◌≡◌, ◌⊎◌, refl, true, false, ◌&&◌, leb, String, [], ◌∷◌, none, some, str_eq, if◌then◌else◌,
}
use crypto_price_aggregator.Base.Int.{ℤ, pos}
use crypto_price_aggregator.Base.Dict.{lookup}
use crypto_price_aggregator.Domain.{Price, Alert, Result, ok}
use crypto_price_aggregator.Domain.FixedPoint.{fixed_decimal, fixed_float, fixed_conversion}
use crypto_price_aggregator.Router.Single
use crypto_price_aggregator.Router.Interface.{single_provider_router}
use crypto_price_aggregator.Storage.Memory.Cache.{Entries, memory_cache}
use crypto_price_aggregator.Storage.Memory.Store.{Prices, memory_store}
use crypto_price_aggregator.App.PriceService.{PriceService}
use crypto_price_aggregator.App.Alerts.{AlertService, Urls, validate_webhook_url, new_alert_service}
use crypto_price_aggregator.App.Registry.{new_registry, resolve}
use crypto_price_aggregator.App.Address.{
  AddressService, ask_token_providers, get_price_by_address, price_of_coin,
}
use crypto_price_aggregator.Providers.Adapter.{Request, Answer, answered}
use crypto_price_aggregator.Providers.Quotes.{quoted}
use crypto_price_aggregator.Providers.Token.{token_answer}
use crypto_price_aggregator.Exchanges.Coingecko.Token as Gecko
use crypto_price_aggregator.Exchanges.Dexscreener.Token as Dex
use crypto_price_aggregator.Exchanges.Learned.{token_providers, get_price_by_address-address}
use crypto_price_aggregator.Transport.Handlers.{Unicode}
use crypto_price_aggregator.Transport.Replies.{written, failure}
use crypto_price_aggregator.Transport.AlertHandlers.{
  CreateAlertRequest, handle_create_alert, handle_create_alert-cases,
}
use crypto_price_aggregator.Tests.Data.{answers, service}

abbrev Service : Type 0
Service = PriceService Single.SingleRouter (Entries ℤ ℤ) (Prices ℤ ℤ) ℤ ℤ

abbrev start : Service
start = service (Single.new_single_router "kraken")

abbrev letters : Unicode
letters = record {
  is_letter = λ c. leb 97 (code c) && leb (code c) 122;
  is_digit = λ c. leb 48 (code c) && leb (code c) 57;
}

abbrev urls : Urls
urls = record {
  parse = λ url. ok ("https", url);
  is_ip = str_eq "10.0.0.1";
  is_loopback = str_eq "10.0.0.1";
  is_private = λ host. false;
  is_link_local_unicast = λ host. false;
  is_link_local_multicast = λ host. false;
  to_lower = λ text. text;
  contains_text = str_eq;
}

abbrev request : CreateAlertRequest
request = record {
  coin_id = "bitcoin";
  currency = "";
  condition = "below";
  threshold = "2";
  webhook_url = "example.org";
}

abbrev no_alerts : AlertService ℤ ℤ
no_alerts = new_alert_service

abbrev two : String → Result ℤ
two text = ok (pos 20_000)

handle_create_alert-cases_example :
    ((code : String) × (handle_create_alert "usd" two urls "fresh" 100 (ok request) no_alerts
        ≡ (no_alerts, failure 400 code)))
    ⊎ ((s' : AlertService ℤ ℤ) × (a : Alert ℤ) × (handle_create_alert "usd" two urls "fresh" 100
            (ok request)
            no_alerts
          ≡ (s', written 201 a))
        × (a.active ≡ true)
        × (a.coin_id ≡ "bitcoin")
        × (a.webhook_url ≡ "example.org")
        × (validate_webhook_url urls "example.org" ≡ none)
        × ((id : String)
            → lookup id s'.alerts
              ≡ (if str_eq a.id id then some a else lookup id no_alerts.alerts)))
handle_create_alert-cases_example =
    handle_create_alert-cases "usd" two urls "fresh" 100 request no_alerts

abbrev same_text : String → String
same_text text = text

abbrev send : ℕ → Request → Answer
send now req = answered 200 "body"

abbrev decode_gecko : String → Result (Gecko.TokenPrices ℤ)
decode_gecko body = ok (("0x1", ("usd", pos 7_000) ∷ []) ∷ [])

abbrev decode_dex : String → Result Dex.DexTokenResponse
decode_dex body = ok record { pairs = [] }

abbrev tokens : AddressService Single.SingleRouter (Entries ℤ ℤ) (Prices ℤ ℤ) ℤ ℤ
tokens = record {
  prices = start;
  registry = some new_registry;
  token_providers = token_providers send same_text two decode_gecko decode_dex "gecko" "dex";
}

abbrev token_price : Price ℤ ℤ
token_price = quoted "coingecko" "0x1" "usd" (pos 7_000) start.now

get_price_by_address-address_example :
    (s' : AddressService Single.SingleRouter (Entries ℤ ℤ) (Prices ℤ ℤ) ℤ ℤ) × (get_price_by_address
        same_text answers "base" "0x1" "usd" tokens
      ≡ some (s', ok (some (record { price = token_price; resolved_via = "direct" }))))
    × ((vs : String)
        → get_price_by_address same_text answers "base" "0x1" vs s'
          ≡ price_of_coin same_text answers "0x1" vs s')
unfolding resolve new_registry lookup ask_token_providers token_providers token_answer
    Gecko.get_price_by_address
get_price_by_address-address_example =
    get_price_by_address-address answers send same_text two decode_gecko decode_dex "gecko" "dex"
      "base" "0x1" "usd" tokens new_registry token_price refl refl refl refl
