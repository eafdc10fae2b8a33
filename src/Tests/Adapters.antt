-- ===== src/Tests/Adapters.antt =====
-- internal/adapter/provider, cmd/server/wiring.go and internal/config/config.go on concrete input: an
-- exchange that answers any request, and one configuration.
use crypto_price_aggregator.Base.{
  ℕ, ◌≡◌, ◌≢◌, ◌↔◌, refl, true, false, String, List, [], ◌∷◌, none, All, length, map, keep_if,
}
use crypto_price_aggregator.Base.Int.{ℤ, pos, negsuc}
use crypto_price_aggregator.Domain.{Price, Result, ok, err, message}
use crypto_price_aggregator.Domain.FixedPoint.{fixed_decimal, fixed_float, fixed_conversion}
use crypto_price_aggregator.Providers.Adapter.{Config, new, answered, Runtime, Conn}
use crypto_price_aggregator.Providers.Interface.{IsPriceProvider}
use crypto_price_aggregator.Providers.Quotes.{quote_each}
use crypto_price_aggregator.Providers.Quotes.Served.{AreServed}
use crypto_price_aggregator.Providers.Quotes.Complete.{IsOk, quote_each_complete}
use crypto_price_aggregator.Exchanges.Okx
use crypto_price_aggregator.Exchanges.Kraken
use crypto_price_aggregator.Settings
use crypto_price_aggregator.Settings.{ProviderConfig, CbConfig}
use crypto_price_aggregator.Settings.Validity.{IsPositive, IsUsable, validate-IsUsable}
use crypto_price_aggregator.Wiring.{Created, create_provider, build_provider_registrations, created}
use crypto_price_aggregator.Base.Dict.{lookup}
use crypto_price_aggregator.Wiring.Cases.{cases}
use crypto_price_aggregator.Providers.Reading.{◌>>=◌, head_of, or_skip, or_else}
use crypto_price_aggregator.Wiring.Decoders.{JsonDecoders}
use crypto_price_aggregator.Wiring.Registered.{
  HasBreaker, is_registered, create_provider-IsPriceProvider,
  build_provider_registrations-HasBreaker,
}

-- Each request is answered at once with the same body, and each text is read as 2.5.
abbrev runtime : Runtime (Unit {0}) ℤ ℤ
runtime = record {
  send = λ _ w. (answered 200 "body", w);
  now = λ w. (100, w);
  to_lower = λ s. s;
  to_upper = λ s. s;
  new_from_string = λ _. ok (pos 25_000);
  parse_float = λ _. ok (pos 25_000);
  trim_suffix = λ s _. s;
}

abbrev okx_response : Okx.OkxResponse
okx_response = record {
  code = "0";
  «data» = record { inst_id = "BTC-USDT"; last = "2.5"; vol_ccy24h = "2.5" } ∷ [];
}

abbrev decode_okx : String → Result Okx.OkxResponse
decode_okx _ = ok okx_response

abbrev decode_kraken : String → Result Kraken.TickerResponse
decode_kraken _ = ok record { errors = []; result = ("XXBTZUSD", "ticker") ∷ [] }

abbrev decode_ticker : String → Result Kraken.TickerData
decode_ticker _ = ok record { c = "2.5" ∷ []; v = [] }

abbrev not_json : {A : Type 0} → String → Result A
not_json _ = err (message "not JSON")

abbrev decoders : JsonDecoders ℤ
decoders = record {
  coingecko = not_json;
  coinmarketcap = not_json;
  coinpaprika = not_json;
  cryptocompare = not_json;
  coincap = not_json;
  coinlore = not_json;
  coinranking = not_json;
  kucoin = not_json;
  kraken = decode_kraken;
  kraken_ticker = decode_ticker;
  bitfinex = not_json;
  okx = decode_okx;
  bybit = not_json;
  mexc = not_json;
  gateio = not_json;
  htx = not_json;
  blockchain = not_json;
  messari = not_json;
  livecoinwatch = not_json;
  dia = not_json;
  twelvedata = not_json;
  freecryptoapi = not_json;
  coincodex = not_json;
  coinbase = not_json;
  gemini = not_json;
  cryptodotcom = not_json;
  poloniex = not_json;
  btse = not_json;
  xtcom = not_json;
  lbank = not_json;
  bingx = not_json;
  alternativeme = not_json;
  wazirx = not_json;
  cryptorank = not_json;
  upbit = not_json;
  bithumb = not_json;
  woox = not_json;
  phemex = not_json;
  dexscreener = not_json;
  bitstamp = not_json;
  dydx = not_json;
}

abbrev okx_config : ProviderConfig
okx_config = record {
  enabled = true;
  tier = "free";
  priority = 1;
  rate_limit = 60;
  api_key = "";
  base_url = "https://www.okx.com";
  ws_url = "";
  circuit_breaker = record { failure_threshold = negsuc 0; recovery_timeout = pos 0 };
}

abbrev url_config : Config
url_config = record { base_url = "https://www.okx.com"; api_key = ""; rate_limit = 0 }

abbrev conn : Conn (Unit {0})
conn = record {
  provider = record { cfg = url_config; healthy = true; last_error = none; last_success_at = 0 };
  world = tt;
}

abbrev okx : Created (Unit {0}) ℤ ℤ
okx = record { state = conn.provider; operations = Okx.provider runtime decode_okx }

abbrev okx_price : String → ℕ → Price ℤ ℤ
okx_price coin now = record {
  coin_id = coin;
  currency = "USD";
  value = pos 25_000;
  provider = "okx";
  timestamp = now;
  received_at = now;
  market_cap = pos 0;
  volume_24h = pos 25_000;
  change_24h = pos 0;
}

abbrev okx_name : String
okx_name = "okx"

create_provider-IsPriceProvider_example :
    (okx.operations.name ≡ "okx") × (okx_name ≢ "cryptocompare" → IsPriceProvider okx.operations)
unfolding create_provider created cases lookup new
create_provider-IsPriceProvider_example =
    create_provider-IsPriceProvider runtime decoders "okx" okx_config okx refl

-- Okx is enabled, Kraken is not, and there is no third package.
abbrev entries : List (String × ProviderConfig)
entries =
    ("okx", okx_config)
    ∷ ("kraken", record okx_config { enabled = false })
    ∷ ("nosuch", okx_config)
    ∷ []

build_provider_registrations-HasBreaker_example :
    (map (λ r. r.provider) (build_provider_registrations runtime decoders entries)
      ≡ map (λ e. e.0) (keep_if (is_registered runtime decoders) entries))
    × All HasBreaker (build_provider_registrations runtime decoders entries)
build_provider_registrations-HasBreaker_example =
    build_provider_registrations-HasBreaker runtime decoders entries

abbrev two_coins : List String
two_coins = "bitcoin" ∷ "solana" ∷ []

quote_each_complete_example :
    IsOk
      (λ ps. AreServed "okx" "USD" two_coins ps × (length ps ≡ length two_coins))
      (quote_each runtime (Okx.exchange runtime decode_okx) two_coins "USD" conn)
unfolding Okx.read lookup head_of or_skip or_else ◌>>=◌
quote_each_complete_example =
    quote_each_complete runtime (Okx.exchange runtime decode_okx) "USD"
      (Okx.exchange-IsSound runtime decode_okx) two_coins conn
      (
        (
          "BTC",
          refl,
          λ cfg w. ("body", okx_response, λ now. okx_price "bitcoin" now, refl, refl, refl),
        ),
        (
          (
            "SOL",
            refl,
            λ cfg w. ("body", okx_response, λ now. okx_price "solana" now, refl, refl, refl),
          ),
          tt,
        ),
      )

abbrev settings : Settings.Config ℤ
settings = record {
  server = record {
    host = "0.0.0.0";
    port = pos 8_080;
    read_timeout = pos 5_000_000_000;
    write_timeout = pos 10_000_000_000;
    admin_api_key = "";
    rate_limit = record { enabled = false; requests_per_second = pos 100_000; burst = pos 20 };
    cors = record { enabled = false; allowed_origins = "*" ∷ [] };
    force_https = false;
  };
  pricing = record {
    default_currency = "usd";
    cache_ttl = pos 30_000_000_000;
    max_retries = pos 0;
    store_history = true;
    validation = record {
      enabled = true;
      max_staleness = pos 300_000_000_000;
      max_deviation_percent = pos 50_000;
      consensus_providers = pos 3;
      consensus_min_providers = pos 2;
      consensus_timeout = pos 3_000_000_000;
      response_mode = "validated";
      stablecoin_deviation = pos 20_000;
      major_coin_deviation = pos 100_000;
      altcoin_deviation = pos 200_000;
    };
  };
  routing = record {
    strategy = "smart";
    allow_paid = false;
    monthly_budget = pos 0;
    weights = record { rate_remaining = pos 4_000; latency = pos 3_000; cost = pos 3_000 };
  };
  providers = entries;
}

validate-IsUsable_example :
    (((Settings.validate settings).1 ≡ none) ↔ IsUsable settings)
    × (IsUsable settings
        → IsPositive (Settings.validate settings).0.pricing.max_retries
          × (Settings.validate (Settings.validate settings).0
              ≡ ((Settings.validate settings).0, none)))
validate-IsUsable_example = validate-IsUsable settings
