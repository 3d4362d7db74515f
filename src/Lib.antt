-- ===== src/Lib.antt =====
-- Cliros, a library for orchestrating sagas over a message broker with a transactional outbox and an
-- inbox: its core logic and the theorems that make it correct.
--
-- A message arrives at a topic's handler (Controller), which has the executor run a step's action or
-- its compensation (Executor). An attempt is one transaction: it claims the message's key in the
-- inbox (Inbox), runs the user's action, adds one row for each topic to the outbox (Outbox/Writer)
-- and commits. Attempts are repeated by two loops, the infrastructure's and the user's (Retry). The
-- reader polls the outbox, publishes its rows and marks them (Outbox/Reader). The broker is NATS
-- (Nats), Kafka (Kafka) or any other.
--
-- The files and the code that they model:
--   Env          what the code calls: database/sql, encoding/json, google/uuid, OpenTelemetry,
--                Prometheus, time, context and the broker, as fields of one record over a type of
--                worlds; the user's callbacks and the backoff policies pass a world on, too
--   Errors       wrapped errors and the tests errors.Is and errors.As of retry/retry.go and
--                internal/executor/errors.go
--   Effect       a call that may fail: a world in, a result and a world out; `wrapping` is
--                fmt.Errorf with %w, `deferring` is defer; Effect/Rules has their laws, and
--                Effect/Follows relates a call to one with fewer variables
--   Message      message/message.go and message/types.go
--   Database     the dialects, the placeholders and the context of database/database.go, and the
--                statements' values; Database/Adapters has the interfaces and their adapters
--   Retry        retry/retry.go; Retry/Rules is an invariant rule for the loop, Retry/Count counts
--                its runs
--   Backoff      backoff/backoff.go over the operations of float64, a record; Backoff/Capped and
--                Backoff/Jittered prove
--   Tracing      internal/observability/tracing
--   Metrics      internal/observability/metrics and its copy observability/metrics;
--                Metrics/Registered is about New
--   Inbox        internal/inbox; Inbox/Claims says what a claim does
--   Outbox       internal/outbox: message.go and table.go, and in its children writer.go, reader.go
--                and migrations.go; Outbox/Rows, Outbox/Transaction and Outbox/Work are about the
--                writer, Outbox/Scan, Outbox/Polling and Outbox/Delivery about the reader's loop, and
--                Outbox/Progress, Outbox/Marking and Outbox/Publishing about what it does to the
--                rows, Outbox/Unreadable about rows that cannot be decoded, and Outbox/Attempts
--                about the attempts that it counts
--   Outbox/Lifecycle   Start and Close of the reader as a step relation on any number of calls, one
--                atomic operation at a time; its children prove
--   Step         step/step.go and step/routing.go; Step/Retries counts the calls under WithRetry
--   Store        what PostgreSQL promises of the statements on the two tables: a record `Postgres`
--                of the committed tables, those that a transaction sees, and laws; Store/Within and
--                Store/Atomic are rules for calls inside a transaction and for a whole one,
--                Store/Keys is about the primary keys, and Store/Queue has the laws of the reader's
--                two UPDATE statements
--   Executor     internal/executor: Executor/Attempt is atomicRun, Executor/Runs has the retry loops,
--                the error handler and the publication of an event, Executor/Phases has ExecuteStep
--                and CompensateStep; Executor/Execution and Executor/Undoing say as relations on the
--                tables what the two phases may do with a message that is claimed, and
--                Executor/Opening and Executor/Beginning with one that comes from no step;
--                Executor/Tries and Executor/Outcomes are about any effect of an attempt, and
--                the other children prove
--   Controller   controller/controller.go: the migrations, the handler and the start of a saga;
--                Controller/Startup is the configuration, New, Init and Close, and Controller/Made
--                proves of it; Controller/Deliveries says as a relation what the handler may do, with
--                histories of deliveries; Controller/Starts and Controller/Sagas are about the start of a saga
--   Nats         pubsub/nats/nats.go; Nats/Closing and Nats/Calls are about its client, and
--                Nats/Transport and Nats/Pipeline about messages on their way to a controller
--   Kafka        examples/kafka-pubsub/kafka.go; Kafka/Offsets is about ConsumeClaim, and
--                Kafka/Running has Run and Close with the goroutine of Run as a step relation on any
--                number of calls, one atomic operation at a time; its children prove
--   OrderSaga    examples/order-saga/main.go over a record of what it uses beside the library;
--                OrderSaga/Orders and OrderSaga/Start are about the start of its saga
--   Demo         a small world, with the proof that it keeps the promises of `Postgres` and `Queue`;
--                the tests and the examples of the theorems run in it
--
-- The retry loop recurs on the attempts that are left and the polling loop on the ticks that there
-- are, so no function needs fuel but the decimal text of a placeholder's number, which is given as
-- many steps as the number. Times and durations are whole numbers of nanoseconds. Texts in error
-- messages leave out the formatted arguments. A nil pointer is `none` or `false`, and a nil map is an
-- empty one. A method that holds its object's lock from its first line to its last is one step.
--
-- Not modelled: the ticker; logging; the broker's interfaces, which have no code; the goroutine of
-- examples/order-saga that logs the reader's errors; adapter/pgx, which opens a connection.
pub mod Prelude
pub mod Errors
pub mod Effect
pub mod Message
pub mod Database
pub mod Env
pub mod Retry
pub mod Tracing
pub mod Metrics
pub mod Inbox
pub mod Outbox
pub mod Step
pub mod Store
pub mod Executor
pub mod Backoff
pub mod Controller
pub mod Demo
pub mod Nats
pub mod Kafka
pub mod OrderSaga
