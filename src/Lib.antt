-- ===== src/Lib.antt =====
-- TokenRoute, an LLM gateway in Go: the core that decides where a request goes and when a provider
-- or a key is left alone.
--
-- A request comes in under an API key, whose limits RateLimit keeps. The router takes the
-- candidates of the route, asks the tag selector, each provider's circuit breaker and the model's
-- lock which of them may serve (Router.Select), and orders those by the route's strategy
-- (Router.Order). A provider with several keys picks one from its pool (KeyPool). The result of an
-- attempt is classified (Classify, RetryPolicy, FailureRules) and recorded (Router.Record), which
-- moves the breaker. The server checks the key, tries the ordered candidates one after the other and
-- goes on to the fallback routes (Server). Quota counts tokens of a window, Affinity pins a prompt to
-- a provider.
--
-- Base: shared types, lists, the 64-bit `int` with its wrap-around, `time`, maps as association
--   lists, texts as code points, stable sorting, and float64 as an interface.
-- Failure, Classify: internal/router/failure.go. Classify.Regex matches by derivatives.
-- Circuit: internal/router/circuit.go. Circuit.Defs has the state, Circuit.Ops the methods.
-- FailureRules: internal/router/failurerules.go.
-- RetryPolicy: internal/router/retrypolicy.go.
-- Tags: internal/router/tags.go.
-- KeyPool: internal/provider/keypool.go.
-- Affinity: the cache of pins in internal/router/affinity.go.
-- Quota: internal/router/quota.go.
-- RateLimit: internal/ratelimit/ratelimit.go.
-- Prices: internal/usage/prices.go.
-- Router: internal/router/router.go and capabilities.go. Defs has the records and the sticky cursor,
--   Lookups the tables of names, locks and live requests, Select the loop over the candidates, Orders
--   and Strategies the strategies, Signals the numbers they sort by, Media the media of a
--   request, Caps the reordering by them, Order the whole of `OrderCandidatesCaps`, Pin the affinity
--   pins, Record the bookkeeping of results, Methods the calls passed on to one breaker.
-- Server: internal/server/server.go. Headers reads an upstream's headers, Failover is `failoverPass`,
--   Fallback and Rounds are `runRoute`, Keys and Prepare are `requireKey` and `prepareRequest`, Hints
--   is `earliestReset`, Stream `relayStream`; Billing and Settle are the ends of `chatCompletions` and
--   `embeddings`. Fusion is internal/server/fusion.go, Judge and Panel are fusionjudge.go, Cache is
--   cache.go, Runes and Estimate are estimate.go, and Override is override.go with sizelimit.go. The
--   other modules prove.
-- Usage: internal/usage/sse.go, and the costs of internal/usage/usage.go.
-- Catalog: internal/catalog/catalog.go.
-- Pricing: internal/pricing. Sync is pricing.go and Expr expr.go; the others prove.
-- Config: internal/config/config.go. Types has the sections, Check is `Validate`, Decode `Decode` and
--   `Load`; Spec says which configurations are sound, and the others prove.
-- Command: cmd/tokenroute. State has the server's state, Build, Install and Assemble are `buildState`,
--   Targets the background workers, Reload is reloader.go with the loop of `main`; the others prove.
-- Tests: the theorems at concrete inputs.
--
-- A method takes the state and returns it with its result; `now` is what `time.Now` gives it, in
-- nanoseconds from the zero time. The mutexes make each method one step, so interleavings are
-- sequences of calls. All loops are structural recursion over a list or a counter that the source
-- bounds, so no fuel is needed, but for the loop of `runRoute`, which is given its
-- four rounds. The random source, `unicode.ToLower` and the floating-point unit are parameters; what a
-- theorem needs of the floats is the record RateLimit.Burst.IsExact.
-- Counters of failures, requests and trips are natural numbers: they stay far below 2 ^ 63.
--
-- A configuration comes in decoded. It is validated and built into a server state, which holds the
-- router; a reload builds another one and swaps it in under the reloader's lock, so that a reload is
-- one step of the process. Ranges over Go maps are loops over lists, whose order is any.
--
-- Upstreams are functions from the number of a call to its reply. The run of the
-- fusion_judge strategy, the row of the key store, the parsers of dates and the decoder of JSON are
-- parameters.
--
-- Not modelled: the plumbing of net/http, the provider adapters, the stores of keys, usage and
-- configuration files, which are I/O and JSON around this core; the reading of request bodies, whose model, token
-- estimate and prefix hash are inputs of the request path, as are the media that Router.Media finds;
-- the application of overrides within a pass over the candidates.
pub mod Base
pub mod Failure
pub mod Catalog
pub mod Circuit
pub mod Command
pub mod Config
pub mod FailureRules
pub mod RetryPolicy
pub mod Tags
pub mod Classify
pub mod KeyPool
pub mod Affinity
pub mod Quota
pub mod Prices
pub mod Pricing
pub mod Usage
pub mod RateLimit
pub mod Router
pub mod Server
pub mod Tests
