-- ===== src/Exchanges.antt =====
-- internal/adapter/provider: the adapters of the exchanges, one module for each package.
pub mod Okx
pub mod Bitstamp
pub mod Gemini
pub mod Mexc
pub mod Bybit
pub mod Htx
pub mod Wazirx
pub mod Gateio
pub mod Coinbase
pub mod Woox
pub mod Phemex
pub mod Poloniex
pub mod Xtcom
pub mod Btse
pub mod Cryptodotcom
pub mod Dydx
pub mod Dia
pub mod Bithumb
pub mod Upbit
pub mod Bingx
pub mod Lbank
pub mod Alternativeme
pub mod Messari
pub mod Twelvedata
pub mod Freecryptoapi
pub mod Coincodex
pub mod Cryptorank
pub mod Livecoinwatch
pub mod Dexscreener
pub mod Kucoin
pub mod Bitfinex
pub mod Coincap
pub mod Coinlore
pub mod Coinranking
pub mod Kraken
pub mod Coingecko
pub mod Coinmarketcap
pub mod Blockchain
pub mod Coinpaprika
pub mod Cryptocompare
pub mod Learned
