-- ===== src/Lib.antt =====
-- The outboxer relay: rows of an outbox table are sent to message providers and deleted once sent.
--
-- The relay's loop (internal/outboxer/processor.go) opens a transaction, selects a batch of rows,
-- splits it by provider, lets one goroutine for each provider send its part, collects what they
-- confirm or reject, writes the rejected events to the dead letter table, deletes what is settled,
-- and commits. Around it stand a failure log, a watchdog, statistics, a backlog gauge and a health
-- check; configuration comes from the command line, the environment and a .env file, and is
-- validated before the start. The init command creates the tables.
--
-- Where to find what:
--   Prelude: Boolean tests, lists, maps as association lists, sets, integers, texts.
--   Errors: Go errors: errors.Join, errors.Is, fmtDBError, countJoinedErrors, firstLeafError, and
--     the joins of internal/outboxer/provider/concurrent.go.
--   Value: values of columns and of JSON, and the functions of Go's library that are applied to
--     them, as the record Runtime.
--   Provider: internal/outboxer/provider: events, options and the callbacks of a sender.
--   Config: internal/outboxer/config.go and providers.go; Config/Validate: config_validate.go;
--     Config/Flags, Config/Arguments, Config/Options and Config/Lists: config_flags.go, loadConfig and
--     parseStringList; Config/InitOptions: loadInitConfig; Config/DotEnv: dotenv.go;
--     Config/Precedence: where a setting comes from.
--   Database: scanEvents, validateEventColumns, checkDBWorks and the literals of
--     internal/outboxer/db.go.
--   Init: buildInitStatements and renderInitScript of internal/outboxer/init.go; Init/Apply:
--     applyInit; Init/Command: runInit.
--   Startup: runRelay of internal/outboxer/run.go and buildProviderSenders of providers.go;
--     Startup/Entry: Run.
--   Event: internal/outboxer/events.go, with isExpiredEvent, oldestEventAge and eventIDKey.
--   FailureLogger, Watchdog, Stats, Backlog: the files of these names; Stats also has
--     handleHealthz of internal/outboxer/http.go.
--   Routing: the routing predicates of internal/outboxer/db.go as trees with SQL's meaning, with
--     Routing/Meaning and Routing/Match; Selection: selectEventsQuerySQL on the rows of a table.
--   App: the state that the parts share (internal/outboxer/app.go).
--   Collector: senderCollector and the callbacks of collectSenderOutput.
--   Dlq: internal/outboxer/dlq.go; Dlq/Load: loadDLQTableMetadata and checkDLQWorks.
--   Sqs: the requests of internal/outboxer/sqs/sender.go; Sqs/Options and Sqs/Poison: options.go;
--     Sqs/Prepare: prepareSQSEvent, with the limits on an entry; Sqs/Send: Send with its queues, FIFO groups and chunks.
--   Pubsub: internal/outboxer/pubsub/validation.go and preparePubsubEvent; Pubsub/Send: the loops of
--     internal/outboxer/pubsub/sender.go as sequences of actions on the publisher.
--   Processor: Triage (triageEvents), Publish (the goroutines of processEventBatch), Batch (the
--     rest of processEventBatch), Transaction (processOneBatch), Loop (processEvents).
--   Tests: concrete runs.
--
-- How the code is modelled. State is passed explicitly: the app, the two tables as the transaction
-- sees them, and the collectors. What the outside does is a parameter of each step: the selected
-- rows, the errors of statements and of the commit (with a commit that is applied while its answer
-- is lost), the clock, the senders' errors, and the sequence in which their callbacks interleave.
-- A callback is atomic because the collector holds a mutex. Where the statistics are logged, the
-- reading of the counters and the line are two steps, which the ticker's goroutine, the final flush
-- and the loop interleave (Stats/Intervals); the loads of one snapshot are one step. A stall that the
-- watchdog reports cuts a run off at any action and exits the process (Startup). A map is an association list. A nil
-- pointer is `none`. The fields of a row are the columns that the query returned.
--
-- The loop runs over a list of turns, one for each round, so that a theorem about all lists covers
-- runs of any length; no other function needs a bound. Time is in nanoseconds since Go's zero time
-- and never runs before 1970. Counters of events are unbounded, which int64 is for any run that
-- can happen; the watchdog's counter keeps its 64 bits.
--
-- SQL is read by its meaning: NULL is `none`, a test has three values, and how PostgreSQL reads a
-- stored value as a text is a parameter. A goroutine of a provider is the sequence of what it does;
-- the goroutines' sequences interleave, and the theorems about a whole Send do not depend on how.
-- What a client answers is a function of the request, and each request is made at most once.
-- The flag package, strconv.ParseInt and pgx.Identifier.Sanitize are parameters or written out by
-- their documentation; the environment is an association list.
-- Not modelled: log and usage text, HTTP, connections, signals and the provider clients.
pub mod Prelude
pub mod Errors
pub mod Value
pub mod Provider
pub mod Config
pub mod Event
pub mod Database
pub mod FailureLogger
pub mod Watchdog
pub mod Stats
pub mod App
pub mod Routing
pub mod Backlog
pub mod Selection
pub mod Collector
pub mod Dlq
pub mod Init
pub mod Sqs
pub mod Pubsub
pub mod Processor
pub mod Startup
pub mod Tests
