-- ===== src/Symbols.antt =====
-- internal/adapter/stream/binance/symbols.go: Binance's symbols for the coins. Lower case is Unicode's, and a
-- parameter, `lower`.
use Prim.Native.String.{◌++◌}
use crypto_price_aggregator.Base.{
  ◌≡◌, ap, ◌∙◌, String, List, [], ◌∷◌, Option, none, some, arith, All,
}
use crypto_price_aggregator.Base.Dict.{lookup, insert}

abbrev pub default_symbols : List (String × String)
default_symbols =
    ("bitcoin", "btcusdt")
    ∷ ("ethereum", "ethusdt")
    ∷ ("binancecoin", "bnbusdt")
    ∷ ("solana", "solusdt")
    ∷ ("cardano", "adausdt")
    ∷ ("ripple", "xrpusdt")
    ∷ ("polkadot", "dotusdt")
    ∷ ("dogecoin", "dogeusdt")
    ∷ ("avalanche", "avaxusdt")
    ∷ ("chainlink", "linkusdt")
    ∷ ("litecoin", "ltcusdt")
    ∷ ("tron", "trxusdt")
    ∷ ("near", "nearusdt")
    ∷ ("uniswap", "uniusdt")
    ∷ []

pub record SymbolMapper : Type 0 where
  pub to_symbols : List (String × String)
  pub to_coin_ids : List (String × String)

unfoldable pub fill : SymbolMapper → List (String × String) → SymbolMapper
fill sm [] = sm
fill sm ((coin_id, symbol) ∷ rest) =
    fill
      (record {
        to_symbols = insert coin_id symbol sm.to_symbols;
        to_coin_ids = insert symbol coin_id sm.to_coin_ids;
      })
      rest

unfoldable pub new_symbol_mapper : SymbolMapper
unfolding fill
new_symbol_mapper = fill (record { to_symbols = []; to_coin_ids = [] }) default_symbols

unfoldable pub to_symbol : (String → String) → String → SymbolMapper → Option String
to_symbol lower coin_id sm = lookup (lower coin_id) sm.to_symbols

unfoldable pub to_coin_id : (String → String) → String → SymbolMapper → Option String
to_coin_id lower symbol sm = lookup (lower symbol) sm.to_coin_ids

unfoldable pub stream_name : (String → String) → String → SymbolMapper → Option String
unfolding to_symbol
stream_name lower coin_id sm = elim (to_symbol lower coin_id sm) [
  | none ↦ none
  | some symbol ↦ some (symbol ++ "@miniTicker")
]

-- The mapper's tables, read both ways.
tables :
    All
      (λ (e : String × String).
        (lookup e.0 new_symbol_mapper.to_symbols ≡ some e.1)
        × (lookup e.1 new_symbol_mapper.to_coin_ids ≡ some e.0))
      default_symbols
unfolding new_symbol_mapper fill insert lookup
tables = ground arith

-- The two tables are inverse to each other on the coins that are listed: a coin's symbol leads back to
-- the coin. The listed texts are in lower case.
pub to_coin_id-to_symbol :
    (lower : String → String)
    → All (λ (e : String × String). (lower e.0 ≡ e.0) × (lower e.1 ≡ e.1)) default_symbols
    → All
        (λ (e : String × String).
          (to_symbol lower e.0 new_symbol_mapper ≡ some e.1)
          × (to_coin_id lower e.1 new_symbol_mapper ≡ some e.0))
        default_symbols
unfolding to_symbol to_coin_id
to_coin_id-to_symbol lower fixed = both default_symbols fixed tables
  where
    both :
        (es : List (String × String))
        → All (λ (e : String × String). (lower e.0 ≡ e.0) × (lower e.1 ≡ e.1)) es
        → All
            (λ (e : String × String).
              (lookup e.0 new_symbol_mapper.to_symbols ≡ some e.1)
              × (lookup e.1 new_symbol_mapper.to_coin_ids ≡ some e.0))
            es
        → All
            (λ (e : String × String).
              (lookup (lower e.0) new_symbol_mapper.to_symbols ≡ some e.1)
              × (lookup (lower e.1) new_symbol_mapper.to_coin_ids ≡ some e.0))
            es
    both [] f t = tt
    both (e ∷ es) f t = (
      (
        ap (λ k. lookup k new_symbol_mapper.to_symbols) f.0.0 ∙ t.0.0,
        ap (λ k. lookup k new_symbol_mapper.to_coin_ids) f.0.1 ∙ t.0.1,
      ),
      both es f.1 t.1,
    )
