-- ===== src/Lib.antt =====
-- Verification library of the notification service (Go, internal/).
--
-- The program takes notifications over HTTP, stores them in PostgreSQL, and has workers that
-- claim the due ones of a channel under a rate limit, send them to a provider, and mark them
-- delivered, to be retried, dead-lettered or failed. Every tenant sees its own notifications.
--
-- - Domain: internal/domain/notification.go, the data.
-- - Repository: internal/repository/postgres.go. `Schema` has the four tables and the conversions
--   of rows; `Write`, `Read`, `Claim` (ClaimDue, QueueDepthByChannel) and `RateLimit`
--   (AcquireRateLimitSlots) have each SQL statement as a function on the tables and each method
--   as an action that runs its statements; `Sort` is ORDER BY, and `Errors` the helpers.
--   `Machine` is the life of a notification as an abstract machine, `Lifecycle` has the
--   invariants of the tables, `Laws` the interface between the repository and the service.
-- - Provider: internal/provider/webhook.go, the senders. Metrics:
--   internal/observability/metrics.go. Httpx: internal/httpx/context.go and middleware.go
--   (`Middleware`), over the requests of `Message`.
-- - Service: internal/service/service.go. `Rules` has validation, ids and delays, `Create` has
--   CreateNotification and CreateBatch, `Process` has ProcessChannel, and the module itself has
--   the other operations. `Operations` has runs: any list of the operations that the handlers and
--   the workers call, one after another. `Interleaved` has the repository calls of many
--   goroutines in any order.
-- - App: internal/app/app.go and responses.go, and internal/docs/swagger.go. The module itself
--   has New, NewWithConfig and Close, `Handlers` a handler for each route, `Query` the numbers
--   and times of a query, `Writing` and `Responses` what is written, `Routes` the chain from the
--   middleware to the handlers. A handler is an action that returns a response.
-- - Worker: internal/worker/manager.go. `Loop` is runChannel over the cases that its select
--   takes.
-- - Config: internal/config/config.go, over the environment as a function. Logging:
--   internal/logging/logger.go. Telemetry: internal/telemetry/telemetry.go.
-- - Runtime: what the code runs in. A Go function with an error is an action on a `World`
--   (tables, metrics, and a count of the consultations so far). `Env` is what is outside: the
--   clock, random bytes, the context's end, the connection, locked rows, the provider's answers,
--   the precision of a TIMESTAMPTZ, `Format`, and the texts of the driver's errors. It answers
--   each consultation by its number, so any behaviour over time is an `Env`. `Keeps`, `From`,
--   `Gives`, `Transaction`, `Steps`, `Ends`, `Returns` and `After` are the rules for reasoning
--   about actions.
-- - Prelude: shared lists, tests, integers and Go's text functions. Tests: runs and examples.
--
-- A statement is atomic. A statement, a BEGIN or a COMMIT can be refused, by the connection or by
-- PostgreSQL for a value that it does not take, or be run and its answer lost. A transaction
-- works on a view of the tables that its COMMIT installs, so another process is not seen between
-- its statements; the operations of a run follow one another, and rows held by other transactions
-- are what `locked` says. Where SQL leaves an order open (ties, RETURNING, rows without ORDER BY)
-- the tables' order is taken.
--
-- Times are nanoseconds since the year 1 and durations nanoseconds, both natural numbers; where a
-- machine integer or an INTEGER column could overflow, a bound is stated: `upsert_statement`
-- refuses a limit beyond INTEGER. What else PostgreSQL refuses by its value, as a NUL in a text,
-- is a statement that the `Env` refuses, and a hypothesis that a statement is `taken` says that
-- its values are. No definition runs on fuel but the digits of a number, with as much fuel as the
-- number. Lengths of content are in bytes, as in Go.
--
-- The parameters of the HTTP layer are what encoding/json makes of a body and time.Parse of a
-- text (`Codec`), and which registered pattern ServeMux picks for a request and what it answers
-- where none fits (`Mux`). What the opening of the database gives is a result that
-- `new_with_config` takes, and the errors of OpenTelemetry's functions are a record (`Sdk`).
--
-- Not modelled: spans, log lines and the recorder of their status; opening and closing
-- connections; what goroutines do at the same time, beyond the order of their repository calls in
-- `Interleaved`. The server's requests and the workers' cycles do run at the same time, and a
-- delivery and a cancellation of one notification can meet, so what is said of operations one
-- after another is not said of those. Nor are modelled the text of the SQL statements;
-- internal/testdb and cmd.
pub mod Prelude
pub mod Domain
pub mod Config
pub mod Logging
pub mod Telemetry
pub mod App
pub mod Worker
pub mod Repository
pub mod Metrics
pub mod Provider
pub mod Runtime
pub mod Httpx
pub mod Service
pub mod Tests
