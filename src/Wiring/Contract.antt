-- ===== src/Wiring/Contract.antt =====
-- cmd/server/wiring.go: what the adapters that createProvider makes promise.
use crypto_price_aggregator.Base.{◌≡◌, ◌≢◌, refl, String, some, All}
use crypto_price_aggregator.Base.Dict.{lookup, lookup-All}
use crypto_price_aggregator.Domain.Numeric.{Decimal, Float, Conversion}
use crypto_price_aggregator.Providers.Adapter.{Runtime}
use crypto_price_aggregator.Providers.Interface.{IsPriceProvider}
use crypto_price_aggregator.Wiring.Decoders.{JsonDecoders}
use crypto_price_aggregator.Wiring.Cases.{Case, cases}
use crypto_price_aggregator.Exchanges.Coingecko
use crypto_price_aggregator.Exchanges.Coinmarketcap
use crypto_price_aggregator.Exchanges.Coinpaprika
use crypto_price_aggregator.Exchanges.Coincap
use crypto_price_aggregator.Exchanges.Coinlore
use crypto_price_aggregator.Exchanges.Coinranking
use crypto_price_aggregator.Exchanges.Kucoin
use crypto_price_aggregator.Exchanges.Kraken
use crypto_price_aggregator.Exchanges.Bitfinex
use crypto_price_aggregator.Exchanges.Okx
use crypto_price_aggregator.Exchanges.Bybit
use crypto_price_aggregator.Exchanges.Mexc
use crypto_price_aggregator.Exchanges.Gateio
use crypto_price_aggregator.Exchanges.Htx
use crypto_price_aggregator.Exchanges.Blockchain
use crypto_price_aggregator.Exchanges.Messari
use crypto_price_aggregator.Exchanges.Livecoinwatch
use crypto_price_aggregator.Exchanges.Dia
use crypto_price_aggregator.Exchanges.Twelvedata
use crypto_price_aggregator.Exchanges.Freecryptoapi
use crypto_price_aggregator.Exchanges.Coincodex
use crypto_price_aggregator.Exchanges.Coinbase
use crypto_price_aggregator.Exchanges.Gemini
use crypto_price_aggregator.Exchanges.Cryptodotcom
use crypto_price_aggregator.Exchanges.Poloniex
use crypto_price_aggregator.Exchanges.Btse
use crypto_price_aggregator.Exchanges.Xtcom
use crypto_price_aggregator.Exchanges.Lbank
use crypto_price_aggregator.Exchanges.Bingx
use crypto_price_aggregator.Exchanges.Alternativeme
use crypto_price_aggregator.Exchanges.Wazirx
use crypto_price_aggregator.Exchanges.Cryptorank
use crypto_price_aggregator.Exchanges.Upbit
use crypto_price_aggregator.Exchanges.Bithumb
use crypto_price_aggregator.Exchanges.Woox
use crypto_price_aggregator.Exchanges.Phemex
use crypto_price_aggregator.Exchanges.Dexscreener
use crypto_price_aggregator.Exchanges.Bitstamp
use crypto_price_aggregator.Exchanges.Dydx

module _ {W D F : Type 0} where
  -- A case makes a provider of its name, whose errors are in its status, but for cryptocompare.
  abbrev pub IsCase : String → Case W D F → Type 0
  IsCase name c =
      (c.operations.name ≡ name) × (name ≢ "cryptocompare" → IsPriceProvider c.operations)

module _ {A B : Type 0} where
  infixr 5 ◌&◌
  abbrev ◌&◌ : A → B → A × B
  a & b = (a, b)

module _ {W D F : Type 0} ⦃dec : Decimal D⦄ ⦃fl : Float F⦄ ⦃conv : Conversion D F⦄
    (go : Runtime W D F) (d : JsonDecoders F) where
  cases-All : All (λ entry. IsCase entry.0 entry.1) (cases go d)
  unfolding cases
  cases-All =
      (refl, λ h. Coingecko.provider-IsPriceProvider go d.coingecko)
      & (refl, λ h. Coinmarketcap.provider-IsPriceProvider go d.coinmarketcap)
      & (refl, λ h. Coinpaprika.provider-IsPriceProvider go d.coinpaprika)
      & (refl, λ h. absurd (h refl))
      & (refl, λ h. Coincap.provider-IsPriceProvider go d.coincap)
      & (refl, λ h. Coinlore.provider-IsPriceProvider go d.coinlore)
      & (refl, λ h. Coinranking.provider-IsPriceProvider go d.coinranking)
      & (refl, λ h. Kucoin.provider-IsPriceProvider go d.kucoin)
      & (refl, λ h. Kraken.provider-IsPriceProvider go d.kraken d.kraken_ticker)
      & (refl, λ h. Bitfinex.provider-IsPriceProvider go d.bitfinex)
      & (refl, λ h. Okx.provider-IsPriceProvider go d.okx)
      & (refl, λ h. Bybit.provider-IsPriceProvider go d.bybit)
      & (refl, λ h. Mexc.provider-IsPriceProvider go d.mexc)
      & (refl, λ h. Gateio.provider-IsPriceProvider go d.gateio)
      & (refl, λ h. Htx.provider-IsPriceProvider go d.htx)
      & (refl, λ h. Blockchain.provider-IsPriceProvider go d.blockchain)
      & (refl, λ h. Messari.provider-IsPriceProvider go d.messari)
      & (refl, λ h. Livecoinwatch.provider-IsPriceProvider go d.livecoinwatch)
      & (refl, λ h. Dia.provider-IsPriceProvider go d.dia)
      & (refl, λ h. Twelvedata.provider-IsPriceProvider go d.twelvedata)
      & (refl, λ h. Freecryptoapi.provider-IsPriceProvider go d.freecryptoapi)
      & (refl, λ h. Coincodex.provider-IsPriceProvider go d.coincodex)
      & (refl, λ h. Coinbase.provider-IsPriceProvider go d.coinbase)
      & (refl, λ h. Gemini.provider-IsPriceProvider go d.gemini)
      & (refl, λ h. Cryptodotcom.provider-IsPriceProvider go d.cryptodotcom)
      & (refl, λ h. Poloniex.provider-IsPriceProvider go d.poloniex)
      & (refl, λ h. Btse.provider-IsPriceProvider go d.btse)
      & (refl, λ h. Xtcom.provider-IsPriceProvider go d.xtcom)
      & (refl, λ h. Lbank.provider-IsPriceProvider go d.lbank)
      & (refl, λ h. Bingx.provider-IsPriceProvider go d.bingx)
      & (refl, λ h. Alternativeme.provider-IsPriceProvider go d.alternativeme)
      & (refl, λ h. Wazirx.provider-IsPriceProvider go d.wazirx)
      & (refl, λ h. Cryptorank.provider-IsPriceProvider go d.cryptorank)
      & (refl, λ h. Upbit.provider-IsPriceProvider go d.upbit)
      & (refl, λ h. Bithumb.provider-IsPriceProvider go d.bithumb)
      & (refl, λ h. Woox.provider-IsPriceProvider go d.woox)
      & (refl, λ h. Phemex.provider-IsPriceProvider go d.phemex)
      & (refl, λ h. Dexscreener.provider-IsPriceProvider go d.dexscreener)
      & (refl, λ h. Bitstamp.provider-IsPriceProvider go d.bitstamp)
      & (refl, λ h. Dydx.provider-IsPriceProvider go d.dydx)
      & tt

  pub lookup-IsCase :
      (name : String) (c : Case W D F) → lookup name (cases go d) ≡ some c → IsCase name c
  lookup-IsCase name c e = lookup-All IsCase name c (cases go d) (cases-All) e
