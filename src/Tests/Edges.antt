-- ===== src/Tests/Edges.antt =====
-- The theorems on alerts, tokens, subscriptions and transport at concrete inputs.
use crypto_price_aggregator.Base.{
  ℕ, ◌≡◌, ◌⊎◌, refl, Bool, true, false, String, List, [], ◌∷◌, ◌++◌, none, some, arith, All, str_eq,
}
use crypto_price_aggregator.Base.Int.{ℤ, pos}
use crypto_price_aggregator.Base.Dict.{lookup, insert}
use crypto_price_aggregator.Domain.{Price, Alert, ok, err, message, condition_above}
use crypto_price_aggregator.Domain.FixedPoint.{
  fixed_decimal, fixed_float, fixed_conversion, fixed-DecimalLaws,
}
use crypto_price_aggregator.Router.Single
use crypto_price_aggregator.Router.Interface.{single_provider_router}
use crypto_price_aggregator.Storage.Key.{pair_key}
use crypto_price_aggregator.Storage.Memory.Cache.{Entries, memory_cache}
use crypto_price_aggregator.Storage.Memory.Cache
use crypto_price_aggregator.Storage.Memory.Store.{Prices, memory_store}
use crypto_price_aggregator.App.PriceService.{PriceService, cached}
use crypto_price_aggregator.App.Request.{get_price}
use crypto_price_aggregator.App.Alerts.Firing.{Fires, on_price_update-Fires}
use crypto_price_aggregator.App.Alerts.{AlertService, on_price_update, Urls, create, is_blocked}
use crypto_price_aggregator.App.Alerts.Triggered.{on_price_update-again, create-stored}
use crypto_price_aggregator.App.Convert.{convert, convert-rate}
use crypto_price_aggregator.App.Registry.{
  CoinEntry, new_registry, load_catalog, contracts, listed, contracts-load_catalog,
}
use crypto_price_aggregator.Symbols.{
  default_symbols, new_symbol_mapper, to_symbol, to_coin_id, to_coin_id-to_symbol,
}
use Prim.Native.Char.{code}
use crypto_price_aggregator.Base.{◌&&◌, leb}
use crypto_price_aggregator.Transport.Handlers.{
  Unicode, is_coin_char, all_coin_chars, is_valid_coin_id, pair_key-is_valid_coin_id,
}
use crypto_price_aggregator.Tests.Data.{price, answers, service}

abbrev alert : Alert ℤ
alert = record {
  id = "a";
  coin_id = "bitcoin";
  currency = "usd";
  condition = condition_above;
  threshold = pos 14_000;
  webhook_url = "https://example.org/hook";
  active = true;
  created_at = 100;
  triggered_at = none;
}

abbrev alerts : AlertService ℤ ℤ
alerts = record { alerts = ("a", alert) ∷ []; fired = [] }

abbrev bitcoin : Price ℤ ℤ
bitcoin = price "bitcoin" 15_000 200

on_price_update-Fires_example :
    ((lookup "a" alerts.alerts ≡ none)
      × (lookup "a" (on_price_update 210 bitcoin alerts).alerts ≡ none))
    ⊎ ((a : Alert ℤ) × (lookup "a" alerts.alerts ≡ some a)
        × ((Fires a bitcoin
              × (lookup "a" (on_price_update 210 bitcoin alerts).alerts
                  ≡ some (record a { active = false; triggered_at = some 210 })))
            ⊎ ((Fires a bitcoin → ⊥)
                × (lookup "a" (on_price_update 210 bitcoin alerts).alerts ≡ some a))))
unfolding lookup
on_price_update-Fires_example =
    on_price_update-Fires fixed-DecimalLaws 210 "a" bitcoin alerts (refl, tt)

on_price_update-again_example :
    on_price_update 220 bitcoin (on_price_update 210 bitcoin alerts)
    ≡ on_price_update 210 bitcoin alerts
unfolding lookup
on_price_update-again_example = on_price_update-again 210 220 bitcoin alerts (refl, tt)

-- URLs whose host is `example.org`.
abbrev urls : Urls
urls = record {
  parse = λ raw. ok ("https", "example.org");
  is_ip = λ host. false;
  is_loopback = λ host. false;
  is_private = λ host. false;
  is_link_local_unicast = λ host. false;
  is_link_local_multicast = λ host. false;
  to_lower = λ text. text;
  contains_text = str_eq;
}

create-stored_example :
    (a : Alert ℤ) × (host : String) × (lookup "a" (create urls "fresh" 100 alert alerts).0.alerts
      ≡ some a)
    × (a.active ≡ true)
    × (a.webhook_url ≡ alert.webhook_url)
    × ((urls.parse alert.webhook_url ≡ ok ("http", host))
        ⊎ (urls.parse alert.webhook_url ≡ ok ("https", host)))
    × ((urls.is_ip host ≡ false)
        ⊎ ((urls.is_loopback host ≡ false)
            × (urls.is_private host ≡ false)
            × (urls.is_link_local_unicast host ≡ false)
            × (urls.is_link_local_multicast host ≡ false)))
    × (urls.contains_text (urls.to_lower host) "localhost" ≡ false)
    × (urls.contains_text (urls.to_lower host) "metadata.google" ≡ false)
    × (urls.contains_text (urls.to_lower host) "169.254.169.254" ≡ false)
unfolding create is_blocked
create-stored_example =
    create-stored urls "fresh" 100 alert alerts (create urls "fresh" 100 alert alerts).0 refl

abbrev Service : Type 0
Service = PriceService Single.SingleRouter (Entries ℤ ℤ) (Prices ℤ ℤ) ℤ ℤ

-- Both coins' prices are in the cache.
abbrev warm : Service
warm = record (service (Single.new_single_router "kraken")) {
  cache = some (Cache.set 190 bitcoin 60 (Cache.set 190 (price "ethereum" 5_000 180) 60 []));
}

abbrev warm_after : ℕ → Service
warm_after n = record warm { request_count = n; cache_hit_count = n }

first_hit : get_price answers "bitcoin" "usd" warm ≡ some (warm_after 1, (some bitcoin, none))
unfolding get_price cached Cache.get Cache.set lookup insert pair_key
first_hit = refl

second_hit :
    get_price answers "ethereum" "usd" (warm_after 1)
    ≡ some (warm_after 2, (some (price "ethereum" 5_000 180), none))
unfolding get_price cached Cache.get Cache.set lookup insert pair_key
second_hit = refl

convert-rate_example :
    (((fixed_decimal.is_zero bitcoin.value ≡ true)
        ⊎ (fixed_decimal.is_zero (price "ethereum" 5_000 180).value ≡ true))
      × (convert answers "bitcoin" "ethereum" (pos 20_000) "usd" warm
          ≡ some (warm_after 2, err (message "price is zero"))))
    ⊎ ((fixed_decimal.is_zero bitcoin.value ≡ false)
        × (fixed_decimal.is_zero (price "ethereum" 5_000 180).value ≡ false)
        × (rate : ℤ) × (fixed_decimal.div bitcoin.value (price "ethereum" 5_000 180).value
            ≡ some rate)
        × (convert answers "bitcoin" "ethereum" (pos 20_000) "usd" warm
            ≡ some (
              warm_after 2,
              ok (record {
                from = "bitcoin";
                «to» = "ethereum";
                amount = pos 20_000;
                result = fixed_decimal.mul (pos 20_000) rate;
                rate = rate;
                via_currency = "usd";
              }),
            )))
convert-rate_example =
    convert-rate answers fixed-DecimalLaws "bitcoin" "ethereum" (pos 20_000) "usd" warm
      (warm_after 1) (warm_after 2) bitcoin (price "ethereum" 5_000 180) first_hit second_hit

abbrev same_text : String → String
same_text text = text

-- A coin on two chains, of which one is allowed.
abbrev catalog : List CoinEntry
catalog =
    record { id = "wif"; symbol = "wif"; platforms = ("base", "0x1") ∷ ("sui", "0x2") ∷ [] } ∷ []

abbrev chains : List (String × Bool)
chains = ("base", true) ∷ []

contracts-load_catalog_example :
    let once = load_catalog same_text catalog chains new_registry in
    (contracts "wif" once ≡ contracts "wif" new_registry ++ listed same_text "wif" chains catalog)
    × (contracts "wif" (load_catalog same_text catalog chains once)
        ≡ (contracts "wif" new_registry ++ listed same_text "wif" chains catalog)
          ++ listed same_text "wif" chains catalog)
contracts-load_catalog_example = contracts-load_catalog same_text chains "wif" catalog new_registry

to_coin_id-to_symbol_example :
    All
      (λ (e : String × String).
        (to_symbol same_text e.0 new_symbol_mapper ≡ some e.1)
        × (to_coin_id same_text e.1 new_symbol_mapper ≡ some e.0))
      default_symbols
to_coin_id-to_symbol_example = to_coin_id-to_symbol same_text (ground arith)

abbrev letters : Unicode
letters = record {
  is_letter = λ c. leb 97 (code c) && leb (code c) 122;
  is_digit = λ c. leb 48 (code c) && leb (code c) 57;
}

abbrev usdc : String
usdc = "usd-coin"

abbrev euro : String
euro = "eur"

pair_key-is_valid_coin_id_example : (usdc ≡ usdc) × (euro ≡ euro)
unfolding is_valid_coin_id all_coin_chars is_coin_char
pair_key-is_valid_coin_id_example =
    pair_key-is_valid_coin_id letters usdc usdc euro euro refl refl refl refl refl
