-- ===== src/Wiring/Decoders.antt =====
-- cmd/server/wiring.go: the decoding of each exchange's answers by `encoding/json`, which is a parameter.
use crypto_price_aggregator.Base.{String, List}
use crypto_price_aggregator.Domain.{Result}
use crypto_price_aggregator.Exchanges.Coingecko
use crypto_price_aggregator.Exchanges.Coinmarketcap
use crypto_price_aggregator.Exchanges.Coinpaprika
use crypto_price_aggregator.Exchanges.Coincap
use crypto_price_aggregator.Exchanges.Coinlore
use crypto_price_aggregator.Exchanges.Coinranking
use crypto_price_aggregator.Exchanges.Kucoin
use crypto_price_aggregator.Exchanges.Kraken
use crypto_price_aggregator.Exchanges.Okx
use crypto_price_aggregator.Exchanges.Bybit
use crypto_price_aggregator.Exchanges.Mexc
use crypto_price_aggregator.Exchanges.Gateio
use crypto_price_aggregator.Exchanges.Htx
use crypto_price_aggregator.Exchanges.Blockchain
use crypto_price_aggregator.Exchanges.Messari
use crypto_price_aggregator.Exchanges.Livecoinwatch
use crypto_price_aggregator.Exchanges.Dia
use crypto_price_aggregator.Exchanges.Twelvedata
use crypto_price_aggregator.Exchanges.Freecryptoapi
use crypto_price_aggregator.Exchanges.Coincodex
use crypto_price_aggregator.Exchanges.Coinbase
use crypto_price_aggregator.Exchanges.Gemini
use crypto_price_aggregator.Exchanges.Cryptodotcom
use crypto_price_aggregator.Exchanges.Poloniex
use crypto_price_aggregator.Exchanges.Btse
use crypto_price_aggregator.Exchanges.Xtcom
use crypto_price_aggregator.Exchanges.Lbank
use crypto_price_aggregator.Exchanges.Bingx
use crypto_price_aggregator.Exchanges.Alternativeme
use crypto_price_aggregator.Exchanges.Wazirx
use crypto_price_aggregator.Exchanges.Cryptorank
use crypto_price_aggregator.Exchanges.Upbit
use crypto_price_aggregator.Exchanges.Bithumb
use crypto_price_aggregator.Exchanges.Woox
use crypto_price_aggregator.Exchanges.Phemex
use crypto_price_aggregator.Exchanges.Dexscreener
use crypto_price_aggregator.Exchanges.Bitstamp
use crypto_price_aggregator.Exchanges.Dydx

pub record JsonDecoders (F : Type 0) : Type 0 where
  pub coingecko : String → Result Coingecko.Quotes
  pub coinmarketcap : String → Result (Coinmarketcap.CmcResponse F)
  pub coinpaprika : String → Result (Coinpaprika.TickerResponse F)
  pub cryptocompare : String → Result (List (String × F))
  pub coincap : String → Result Coincap.AssetResponse
  pub coinlore : String → Result (List Coinlore.TickerItem)
  pub coinranking : String → Result Coinranking.CoinResponse
  pub kucoin : String → Result Kucoin.OrderBookResponse
  pub kraken : String → Result Kraken.TickerResponse
  pub kraken_ticker : String → Result Kraken.TickerData
  pub bitfinex : String → Result (List F)
  pub okx : String → Result Okx.OkxResponse
  pub bybit : String → Result Bybit.BybitResponse
  pub mexc : String → Result Mexc.MexcTicker
  pub gateio : String → Result (List Gateio.GateioTicker)
  pub htx : String → Result (Htx.HtxResponse F)
  pub blockchain : String → Result (List (String × Blockchain.BlockchainEntry F))
  pub messari : String → Result (Messari.MessariResponse F)
  pub livecoinwatch : String → Result (Livecoinwatch.LcwResponse F)
  pub dia : String → Result (Dia.DiaResponse F)
  pub twelvedata : String → Result Twelvedata.TwelveDataResponse
  pub freecryptoapi : String → Result (Freecryptoapi.FcaResponse F)
  pub coincodex : String → Result (Coincodex.CoincodexResponse F)
  pub coinbase : String → Result Coinbase.CoinbaseTicker
  pub gemini : String → Result Gemini.GeminiTicker
  pub cryptodotcom : String → Result Cryptodotcom.CryptodotcomResponse
  pub poloniex : String → Result Poloniex.PoloniexTicker
  pub btse : String → Result (List (Btse.BtseTicker F))
  pub xtcom : String → Result Xtcom.XtcomResponse
  pub lbank : String → Result Lbank.LbankResponse
  pub bingx : String → Result (Bingx.BingxResponse F)
  pub alternativeme : String → Result (Alternativeme.AltmeResponse F)
  pub wazirx : String → Result Wazirx.WazirxTicker
  pub cryptorank : String → Result (Cryptorank.CryptorankResponse F)
  pub upbit : String → Result (List (Upbit.UpbitTicker F))
  pub bithumb : String → Result (List (Bithumb.BithumbTicker F))
  pub woox : String → Result (Woox.WooxResponse F)
  pub phemex : String → Result Phemex.PhemexResponse
  pub dexscreener : String → Result (Dexscreener.DexscreenerResponse F)
  pub bitstamp : String → Result Bitstamp.BitstampTicker
  pub dydx : String → Result Dydx.DydxResponse
