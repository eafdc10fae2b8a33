-- ===== src/Wiring/Cases.antt =====
-- cmd/server/wiring.go: the adapter that stands behind a name of the configuration.
use crypto_price_aggregator.Base.{String, List, [], ◌∷◌}
use crypto_price_aggregator.Domain.Numeric.{Decimal, Float, Conversion}
use crypto_price_aggregator.Providers.Adapter.{Config, Runtime}
use crypto_price_aggregator.Providers.Interface.{PriceProvider}
use crypto_price_aggregator.Settings.{ProviderConfig}
use crypto_price_aggregator.Wiring.Decoders.{JsonDecoders}
use crypto_price_aggregator.Exchanges.Coingecko
use crypto_price_aggregator.Exchanges.Coinmarketcap
use crypto_price_aggregator.Exchanges.Coinpaprika
use crypto_price_aggregator.Exchanges.Cryptocompare
use crypto_price_aggregator.Exchanges.Coincap
use crypto_price_aggregator.Exchanges.Coinlore
use crypto_price_aggregator.Exchanges.Coinranking
use crypto_price_aggregator.Exchanges.Kucoin
use crypto_price_aggregator.Exchanges.Kraken
use crypto_price_aggregator.Exchanges.Bitfinex
use crypto_price_aggregator.Exchanges.Okx
use crypto_price_aggregator.Exchanges.Bybit
use crypto_price_aggregator.Exchanges.Mexc
use crypto_price_aggregator.Exchanges.Gateio
use crypto_price_aggregator.Exchanges.Htx
use crypto_price_aggregator.Exchanges.Blockchain
use crypto_price_aggregator.Exchanges.Messari
use crypto_price_aggregator.Exchanges.Livecoinwatch
use crypto_price_aggregator.Exchanges.Dia
use crypto_price_aggregator.Exchanges.Twelvedata
use crypto_price_aggregator.Exchanges.Freecryptoapi
use crypto_price_aggregator.Exchanges.Coincodex
use crypto_price_aggregator.Exchanges.Coinbase
use crypto_price_aggregator.Exchanges.Gemini
use crypto_price_aggregator.Exchanges.Cryptodotcom
use crypto_price_aggregator.Exchanges.Poloniex
use crypto_price_aggregator.Exchanges.Btse
use crypto_price_aggregator.Exchanges.Xtcom
use crypto_price_aggregator.Exchanges.Lbank
use crypto_price_aggregator.Exchanges.Bingx
use crypto_price_aggregator.Exchanges.Alternativeme
use crypto_price_aggregator.Exchanges.Wazirx
use crypto_price_aggregator.Exchanges.Cryptorank
use crypto_price_aggregator.Exchanges.Upbit
use crypto_price_aggregator.Exchanges.Bithumb
use crypto_price_aggregator.Exchanges.Woox
use crypto_price_aggregator.Exchanges.Phemex
use crypto_price_aggregator.Exchanges.Dexscreener
use crypto_price_aggregator.Exchanges.Bitstamp
use crypto_price_aggregator.Exchanges.Dydx

-- What a case of createProvider makes: the settings that it passes on, and the operations of the package.
pub record Case (W D F : Type 0) : Type 0 where
  pub settings : ProviderConfig → Config
  pub operations : PriceProvider W D F

-- The settings that a case passes on; the others are zero.
abbrev all_of : ProviderConfig → Config
all_of p = record { base_url = p.base_url; api_key = p.api_key; rate_limit = p.rate_limit }

abbrev with_limit : ProviderConfig → Config
with_limit p = record { base_url = p.base_url; api_key = ""; rate_limit = p.rate_limit }

abbrev with_key : ProviderConfig → Config
with_key p = record { base_url = p.base_url; api_key = p.api_key; rate_limit = 0 }

abbrev url_of : ProviderConfig → Config
url_of p = record { base_url = p.base_url; api_key = ""; rate_limit = 0 }

module _ {W D F : Type 0} where
  abbrev case_of : String → (ProviderConfig → Config) → PriceProvider W D F → String × Case W D F
  case_of name settings operations = (name, record { settings = settings; operations = operations })

module _ {W D F : Type 0} ⦃dec : Decimal D⦄ ⦃fl : Float F⦄ ⦃conv : Conversion D F⦄
    (go : Runtime W D F) (d : JsonDecoders F) where
  -- The cases of createProvider.
  unfoldable pub cases : List (String × Case W D F)
  cases =
      case_of "coingecko" all_of (Coingecko.provider go d.coingecko)
      ∷ case_of "coinmarketcap" all_of (Coinmarketcap.provider go d.coinmarketcap)
      ∷ case_of "coinpaprika" with_limit (Coinpaprika.provider go d.coinpaprika)
      ∷ case_of "cryptocompare" with_limit (Cryptocompare.provider go d.cryptocompare)
      ∷ case_of "coincap" url_of (Coincap.provider go d.coincap)
      ∷ case_of "coinlore" url_of (Coinlore.provider go d.coinlore)
      ∷ case_of "coinranking" with_key (Coinranking.provider go d.coinranking)
      ∷ case_of "kucoin" url_of (Kucoin.provider go d.kucoin)
      ∷ case_of "kraken" url_of (Kraken.provider go d.kraken d.kraken_ticker)
      ∷ case_of "bitfinex" url_of (Bitfinex.provider go d.bitfinex)
      ∷ case_of "okx" url_of (Okx.provider go d.okx)
      ∷ case_of "bybit" url_of (Bybit.provider go d.bybit)
      ∷ case_of "mexc" url_of (Mexc.provider go d.mexc)
      ∷ case_of "gateio" url_of (Gateio.provider go d.gateio)
      ∷ case_of "htx" url_of (Htx.provider go d.htx)
      ∷ case_of "blockchain" url_of (Blockchain.provider go d.blockchain)
      ∷ case_of "messari" with_key (Messari.provider go d.messari)
      ∷ case_of "livecoinwatch" with_key (Livecoinwatch.provider go d.livecoinwatch)
      ∷ case_of "dia" url_of (Dia.provider go d.dia)
      ∷ case_of "twelvedata" with_key (Twelvedata.provider go d.twelvedata)
      ∷ case_of "freecryptoapi" with_key (Freecryptoapi.provider go d.freecryptoapi)
      ∷ case_of "coincodex" url_of (Coincodex.provider go d.coincodex)
      ∷ case_of "coinbase" url_of (Coinbase.provider go d.coinbase)
      ∷ case_of "gemini" url_of (Gemini.provider go d.gemini)
      ∷ case_of "cryptodotcom" url_of (Cryptodotcom.provider go d.cryptodotcom)
      ∷ case_of "poloniex" url_of (Poloniex.provider go d.poloniex)
      ∷ case_of "btse" url_of (Btse.provider go d.btse)
      ∷ case_of "xtcom" url_of (Xtcom.provider go d.xtcom)
      ∷ case_of "lbank" url_of (Lbank.provider go d.lbank)
      ∷ case_of "bingx" url_of (Bingx.provider go d.bingx)
      ∷ case_of "alternativeme" url_of (Alternativeme.provider go d.alternativeme)
      ∷ case_of "wazirx" url_of (Wazirx.provider go d.wazirx)
      ∷ case_of "cryptorank" with_key (Cryptorank.provider go d.cryptorank)
      ∷ case_of "upbit" url_of (Upbit.provider go d.upbit)
      ∷ case_of "bithumb" url_of (Bithumb.provider go d.bithumb)
      ∷ case_of "woox" url_of (Woox.provider go d.woox)
      ∷ case_of "phemex" url_of (Phemex.provider go d.phemex)
      ∷ case_of "dexscreener" url_of (Dexscreener.provider go d.dexscreener)
      ∷ case_of "bitstamp" url_of (Bitstamp.provider go d.bitstamp)
      ∷ case_of "dydx" url_of (Dydx.provider go d.dydx)
      ∷ []
