-- ===== src/Lib.antt =====
-- The rates service: it fetches euro exchange rates from the feed of Latvijas Banka, stores them in
-- PostgreSQL and serves them over HTTP. Paths are from the root of the repository.
--
-- The parts and their files.
--
-- Entities: internal/entities/rate.go. Time is Go's time.Time: seconds since year 1, nanoseconds
-- and the offset of the location. Strings has the functions of Go's package strings that the
-- program calls; letters outside ASCII keep their case there.
-- Ingestion: internal/ingestion/service.go. `fetch_and_store` is FetchAndStore on an abstract
-- store, with the order in which outcomes arrive as an argument (`drain`). Ingestion/Pool has its
-- goroutines and the buffered channel as a step relation, without that order fixed.
-- Fetcher: internal/fetcher/banklv.go. Fetcher/Rate has extractRate and normalizeRate,
-- Fetcher/Rational what big.Rat's FloatString is documented to print. What the fetcher only calls
-- (encoding/xml, SetString, time.Parse, the HTTP client, the clock) is the record `Platform`.
-- Repository: internal/db/repository.go. The record `Database` is what it calls; Repository/Table
-- is the table with its unique constraint and the upsert; Repository/Postgres says what the queries
-- and transactions of PostgreSQL do, whoever else uses the table; Repository/Writes has the rows
-- that an open transaction has written and its commit publishes. Repository/Clients has calls of
-- UpsertRates by several clients at once as a step relation, a step for each call of the database.
-- Repository/Setters says column by column what is sent of a rate, Repository/Ordering what the
-- ORDER BY clauses of the two reads give. Repository/ReadBack and Repository/ReadHistory read back
-- what UpsertRates stored.
-- Server: internal/server/server.go, rates.go and middleware.go, over the interfaces Repository and
-- RatesFetcher of the source, with the rate limiter in Server/Limiter, and as time passes in
-- Server/Window. Server/Api, with the wrapper and the strict handlers in general in
-- Server/Api/Wrapper and Server/Api/Strict, is internal/server/api/openapi.gen.go, of which
-- Server/Registered has what `routes` makes. `serve_http` is the handler that `routes` builds, over
-- the router of chi (`Web`). Server/Shown says field by field what the JSON of rates shows.
-- System: the ingestion service with the repository as its store; System/Handler is the whole
-- server over them, as server.New makes it.
-- Config: internal/config/config.go, and the settings that cmd/rates-service/main.go uses.
-- Command: cmd/rates-service/main.go, from the arguments to the status with which the process ends.
-- Service: service/service.go. Its two goroutines are a step relation; of the error group it takes
-- what is documented, that it keeps the first error and cancels the context for it.
-- Docs: docs/docs.go.
-- Bob: internal/db/bob, the generated setter and slices of rows, the hooks and mods of queries
-- (Bob/Hooks), the columns and filters under an alias (Bob/Filters), the loaders, counts and joins
-- (Bob/Loaders, Bob/Counts, Bob/Joins), the templates of the factory with Create and its random
-- values (Bob/Random), the description of the table (Bob/Info) and the errors of its constraints
-- (Bob/Errors).
-- Examples: each theorem at a concrete input, with a database in memory and a Redis of counters.
-- Common: Boolean tests, lists over native numbers, integers, and errors as values.
--
-- The parts meet as in the source. The server calls a fetcher, and Server/Fetching takes the
-- ingestion service for it; the ingestion service calls `upsert_rates` and `fetch`, of which
-- Repository and Fetcher have the implementations; the repository's rates are the server's input.
-- `main` gives the parts to the commands serve and fetch, with the settings of Config.
--
-- A handler is a function from a state to a reply and a state. An error is its message (`Result`), or
-- an optional message beside a state that is changed all the same. Loops are recursion on their
-- list; the digits of a number are printed on fuel that is the number itself, which is not less than
-- the count of its digits. Durations and their products wrap at 64 bits as in the source.
--
-- Not modelled: logging and what it prints, the cancellation of a context by a request, the request
-- ids and the recovery from panics of chi, JSON, and the statements and registrations of the bob
-- library. A commit whose answer is lost counts as refused.

pub mod Common
pub mod Strings
pub mod Time
pub mod Entities
pub mod Ingestion
pub mod Fetcher
pub mod Repository
pub mod Bob
pub mod Server
pub mod Config
pub mod Docs
pub mod Service
pub mod System
pub mod Command
pub mod Examples
