-- ===== src/Lib.antt =====
-- padma: an indexer, webhook dispatcher and merchant gateway for a Fiber node, over Postgres.
--
-- The program has three processes over one database. The indexer (internal/indexer) turns each raw
-- change of the node into events, projects them onto tables and queues webhook deliveries, all in
-- one transaction with its checkpoint. The dispatcher (internal/webhook) claims queued deliveries
-- under a lease, sends them, and reports the outcome. The HTTP server (internal/query,
-- internal/merchant, and the subscriptions of internal/webhook) reads the tables and keeps merchant
-- orders. Two more modes of cmd/app apply the migrations and add a merchant.
--
-- What models what:
--   Base       lists, texts, tables and numbers
--   Errors     Go errors: sentinels, wrapping, errors.Is
--   Database   the tables (migrations/), actions on them, and internal/platform/db/tx.go
--   Platform   internal/platform: Numeric (db/numeric.go), Ids (id/id.go), Auth (auth/apikey.go),
--              Http (httpx/httpx.go), Config (config/config.go); Csv and Base64 are of the standard
--              library
--   Indexer    internal/indexer: Projections, Projector, Deliveries, Run (with platform/fiber);
--              Effect is the specification of a raw change, Subscribed and Added are on whom an
--              event is for and what the outbox gains
--   Webhook    internal/webhook: Store, Endpoints, Backoff, Run; Claims, Due and Recovery are
--              on what workers claim, also concurrent and lost ones
--   Merchant   internal/merchant: Node (the calls of the node), Orders, Refunds,
--              Settlement, Reconcile, Export, Handlers; Writes is on what they write
--   Lifecycle  merchant orders under the indexer and the HTTP server together
--   Query      internal/query: Cursor, Repo (conditions, pages, response models), Lists
--              (queries.go), Handlers; Stats is on the sums
--   Api        internal/apiserver: the routes of Query, Webhook and Merchant
--   App        cmd/app/main.go: the modes; Handles is platform/db/pool.go and migrate.go
--   Checks     tests, and an input at which each theorem applies
--
-- A statement is a function on the tables. An action takes a world: the database, the clock, the
-- random ids, the answers of the Fiber node, and a list `faults` that says how the statements to
-- come fare, so a theorem on all worlds covers each failure at each place. Where the list ends, no
-- further statement fails. A transaction that fails leaves the tables that it found. Every
-- `now()` of an action reads the one time of its world; in a transaction this is what Postgres does.
--
-- Loops are structural recursions on the lists that the code walks. The fuel of the
-- hexadecimal digits of an amount is the number itself, which has fewer digits than its value; a
-- client that follows cursors reads a bounded number of pages, at least as many as there are rows.
-- The sweeper walks the list of its ticks.
--
-- Texts are sequences of bytes, and Postgres orders them as the C collation does.
--
-- The kanaka library is outside the repository: its event payloads and JSON are the parameter
-- `codec`, its amounts the interface `Fibertypes`; SHA-256 with the ULID text is `digest`.
-- The NUMERIC values that pgx scans are the interface `Pgx`, RFC 3339 times the interface `TimeFormat`
-- and, where they are only parsed, the parameter `parse_rfc3339`. The workbooks of an export are the
-- interface `Excelize`. A request is what the router hands to a handler: its route, its
-- parameters, its headers and its body, which a parameter decodes from JSON.
--
-- What JSON reads back of an event that it wrote is a condition of Indexer.Run.Seeds alone: its raw
-- payload comes back compacted, by a function that is a parameter. Times are the ones that RFC 3339
-- writes and reads back, up to the year 9999; the laws of `TimeFormat` are those of these times.
--
-- The loops of the library are outside: its runner of raw changes and its dispatcher are parameters
-- of App, like the connection pool, goose and the HTTP server. What webhook.Run starts, the
-- dispatcher and the sweeper with its period, is what the parameter of the dispatcher is given.
--
-- Not modelled: goroutines and signals (what they decide is an input), panics in a transaction, a
-- commit that took effect although its answer was lost (a commit that fails is taken to have done
-- nothing), the wrap of an int32 exponent of -2^31 in a NUMERIC, which Postgres does not yield, the
-- router of the HTTP server and its middleware, and the set-up of the integration tests
-- (internal/platform/db/dbtest).
mod Base
pub mod Errors
pub mod Database
pub mod Platform
pub mod Indexer
pub mod Webhook
pub mod Merchant
pub mod Lifecycle
pub mod Query
pub mod Api
pub mod App
pub mod Checks
