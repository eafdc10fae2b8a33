-- ===== src/Exchanges/Kraken/InDollars.antt =====
-- internal/adapter/provider/kraken/kraken.go: the currency that GetPrice is asked for.
use Prim.Native.String.{◌++◌}
use crypto_price_aggregator.Base.{◌≡◌, String}

-- The name of a pair in US dollars.
abbrev pub IsInDollars : String → Type 0
IsInDollars pair = (base : String) × (pair ≡ base ++ "USD")
