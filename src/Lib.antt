-- ===== src/Lib.antt =====
-- Verification of the crypto price aggregator: a model of its Go code in functions, and theorems on
-- them.
--
-- The program's parts, from a request inwards. The price service (App/PriceService, App/Request;
-- internal/app/price_service.go) answers a request from the cache, from a consensus of providers,
-- or by asking one provider after another that the router selects; it validates what they give
-- (App/Validator), delivers it to cache, store and listener, and falls back on the store.
-- Conversions (App/Convert) and prices by address (App/Address, with the registry of
-- internal/registry in App/Registry) make requests of it. The router (Router; internal/router)
-- holds for each provider a circuit breaker (Router/CircuitBreaker), a rate limit
-- (Router/RateLimit) and a record of latency and accuracy (Router/Provider), and selects by one of
-- three strategies (Router/Priority, Router/RoundRobin, Router/Smart; Router/Walk has the loop that
-- two of them share); Router/Multi is MultiRouter, Router/Single SingleRouter. The consensus engine
-- (App/Consensus; internal/app/consensus.go) takes the median of several providers' prices. A
-- delivered price is an update for the alerts (App/Alerts; alert_service.go) and for the WebSocket
-- hub (Transport/Hub; internal/adapter/transport/ws). Storage has the memory cache and store
-- (Storage/Memory), the Redis cache (Storage/Redis) and ClickHouse's batch buffer
-- (Storage/BatchBuffer), Scheduler the poller's subscriptions (internal/scheduler) and, in
-- Scheduler/Polling, its goroutines, Symbols the names of coins at Binance, Transport/Middleware
-- the checks before a handler (internal/adapter/transport/http/middleware.go), Transport/Handlers,
-- Transport/PriceHandlers, Transport/AlertHandlers and Transport/AdminHandlers the HTTP handlers,
-- whose answers Transport/Replies has, App/Admin the admin page's figures. Providers has what the
-- exchanges' adapters share: provider/common/base.go, and in Providers/Adapter, Providers/Reading
-- and Providers/Quotes the code that the packages of internal/adapter/provider repeat, the request
-- with its test of the status, the reading of a decoded answer, and the loops of GetPrices;
-- Providers/Interface has the port PriceProvider, and Exchanges a module for each package with its
-- tables, answers, request, reading and operations. Exchanges/Coingecko/Token and
-- Exchanges/Dexscreener/Token price a token by its address, with the answer's test in
-- Providers/Token; Exchanges/Learned is about the registry when they are the token providers.
-- Settings is internal/config/config.go and Wiring cmd/server/wiring.go, which makes the providers
-- and the router's registrations of a configuration.
--
-- Correspondence. A function bears the name of the Go function or method in snake case and is in
-- the module of its file; a method that changes its receiver takes the state and returns the new
-- one, and a result (T, error) is a Result, or a pair of options where both are looked at. Parts of
-- a long function are functions of their own, composed in the order of the source. `Option` with
-- `none` as a panic is the result of code that may divide or read out of range. Domain/Ports has
-- the interfaces of internal/domain/port: the services take a router, a cache and a store as
-- instance arguments; Router/Interface, Storage/Memory/Cache and Storage/Memory/Store fill them.
--
-- Numbers and time. A time is nanoseconds since Go's zero time, a duration nanoseconds and not
-- negative; an operation that reads the clock takes the time as an argument, and the price service
-- keeps the time of its request, which advances while providers answer. Counters are unbounded:
-- they advance by one at a time. Decimal numbers (github.com/shopspring/decimal) and floats are
-- interfaces, Domain/Numeric, with laws where a theorem needs one; NewFromFloat panics on a float
-- that is NaN or infinite where the float is configured, and is total in the adapters, which read
-- floats of JSON; Domain/FixedPoint is an instance of them with its laws, at which Tests applies
-- the theorems.
--
-- Concurrency. Where a mutex is held for a whole operation it is one step, so an interleaving is a
-- sequence of operations: Router/Multi/Window and Transport/Hub/Bounds are about all of them, and
-- so is Scheduler/Polling/Steps with the poller's goroutines. The batch buffer lets its lock go
-- within Add and within a flush, so Storage/BatchBuffer has a step for each part, and
-- Storage/BatchBuffer/Conserved is about every order of them. Else what the source starts with `go`
-- is done at once. Consensus providers are all selected before the first answers, and answer in
-- that order. Pointers to providers are positions in the router's list. Maps are association lists,
-- in one of the orders that a `range` may take; sort.Slice is an insertion sort, and Go may order
-- equal elements otherwise.
--
-- Bounds and fuel. Loops are structural recursions over a list or over the number of rounds that
-- the source bounds them by: the attempts of a request (max_retries, which the constructor makes at
-- least 1), a strategy's one round over the providers, five selections of a consensus, three posts
-- of a webhook. No fuel is added.
--
-- Parameters. To the adapters, a Runtime: the network's answer to a request, the clock, and the
-- functions of strings, strconv and shopspring/decimal that they call, over a state of the world
-- that each request and look at the clock changes, with the decoding of an answer by encoding/json
-- for each package (Wiring/Decoders). To the price service, what a provider answers and when
-- (Answers), what a token provider answers, the flush function of the batch buffer, the posts of
-- webhooks, net/url, net.ParseIP and the tests of an address, the token bucket of
-- golang.org/x/time/rate, Unicode's lower case, letters and digits, and the status of an HTTP
-- response. To the HTTP handlers, the decoded body of a request and the functions that split lists
-- and parse times and numbers (Parsers), and the store of analytics (AnalyticsStore). To the Redis
-- cache, its client (RedisClient) and the JSON of prices (Codec).
--
-- Not modelled: the SQL stores, the Binance stream, the routes and pages of the HTTP server, the
-- defaults of the configuration, start-up, telemetry, logs and contexts, and the texts of errors:
-- they call other systems or format text.
pub mod Base
pub mod Domain
pub mod Router
pub mod App
pub mod Storage
pub mod Scheduler
pub mod Transport
pub mod Symbols
pub mod Tests
pub mod Providers
pub mod Exchanges
pub mod Settings
pub mod Wiring
