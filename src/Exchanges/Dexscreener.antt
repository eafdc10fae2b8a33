-- ===== src/Exchanges/Dexscreener.antt =====
-- internal/adapter/provider/dexscreener/dexscreener.go
pub mod Token
use Prim.Native.String.{◌++◌}
use crypto_price_aggregator.Base.{ℕ, refl, String, List, [], ◌∷◌}
use crypto_price_aggregator.Base.Dict.{lookup}
use crypto_price_aggregator.Domain.{Price, ProviderStatus, Result}
use crypto_price_aggregator.Domain.Numeric.{Decimal, Float, Conversion}
use crypto_price_aggregator.Providers.Adapter.{
  Config, Provider, Request, get_request, Runtime, Call, status_of,
}
use crypto_price_aggregator.Providers.Reading.{
  Reading, found, ◌>>=◌, head_of, head_of-IsStep, or_skip, or_skip-IsStep, >>=-Reads,
}
use crypto_price_aggregator.Providers.Quotes.{Exchange, quoted, quote_each, quote_first}
use crypto_price_aggregator.Providers.Quotes.Served.{IsSound}
use crypto_price_aggregator.Providers.Interface.{
  PriceProvider, IsPriceProvider, quote_each-IsPriceProvider,
}

abbrev coin_names : List (String × String)
coin_names = ("bitcoin", "Bitcoin") ∷ ("ethereum", "Ethereum") ∷ ("solana", "Solana") ∷ []

pub record DexscreenerBaseToken : Type 0 where
  pub symbol : String
  pub name : String

pub record DexscreenerVolume (F : Type 0) : Type 0 where
  pub h24 : F

pub record DexscreenerPriceChange (F : Type 0) : Type 0 where
  pub h24 : F

pub record DexscreenerPair (F : Type 0) : Type 0 where
  pub base_token : DexscreenerBaseToken
  pub price_usd : String
  pub volume : DexscreenerVolume F
  pub price_change : DexscreenerPriceChange F

pub record DexscreenerResponse (F : Type 0) : Type 0 where
  pub pairs : List (DexscreenerPair F)

unfoldable pub status : Provider → ProviderStatus
unfolding status_of
status = status_of "dexscreener"

module _ {W D F : Type 0} ⦃dec : Decimal D⦄ ⦃fl : Float F⦄ ⦃conv : Conversion D F⦄
    (go : Runtime W D F) (decode : String → Result (DexscreenerResponse F)) where
  unfoldable request : Config → String → String → String → Request
  request cfg coin_id currency sym = get_request (cfg.base_url ++ ("/latest/dex/search?q=" ++ sym))

  unfoldable read : String → String → String → DexscreenerResponse F → Reading (ℕ → Price D F)
  read coin_id currency sym raw = do
    pair ← head_of raw.pairs
    value ← or_skip (go.new_from_string pair.price_usd)
    found λ now. record (quoted "dexscreener" coin_id currency value now) {
      volume_24h = conv.from_float pair.volume.h24;
      change_24h = pair.price_change.h24;
    }

  abbrev exchange : Exchange D F (DexscreenerResponse F)
  exchange = record {
    provider_name = "dexscreener";
    symbol = λ coin_id. lookup (go.to_lower coin_id) coin_names;
    request = request;
    decode = decode;
    read = read;
  }

  unfoldable pub get_prices : List String → String → Call W (List (Price D F))
  unfolding request read
  get_prices = quote_each go exchange

  unfoldable pub get_price : String → String → Call W (Price D F)
  unfolding request read
  get_price = quote_first go exchange

  abbrev pub provider : PriceProvider W D F
  provider = record {
    name = "dexscreener";
    status = status;
    get_price = get_price;
    get_prices = get_prices;
  }

  exchange-IsSound : IsSound exchange
  unfolding read
  exchange-IsSound coin currency sym raw = >>=-Reads (head_of-IsStep raw.pairs) _ _ λ pair.
      >>=-Reads (or_skip-IsStep (go.new_from_string pair.price_usd)) _ _ λ value now. record {
        for_coin = refl;
        in_currency = refl;
        from_provider = refl;
        stamped = refl;
      }

  pub provider-IsPriceProvider : IsPriceProvider provider
  unfolding get_price get_prices status status_of
  provider-IsPriceProvider =
      quote_each-IsPriceProvider go exchange exchange-IsSound status (λ q. refl) (λ q. refl)
