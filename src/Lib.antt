-- ===== src/Lib.antt =====
-- Orders, from the HTTP command to the decision of the worker.
--
-- The program has three processes around one PostgreSQL database and one Kafka cluster. The order
-- service stores an order and its OrderCreated event in one transaction (internal/order). The outbox
-- publisher claims stored events under a lease and sends them to Kafka (internal/outbox). The order
-- worker reads them, decides on the order with a pipeline of operations and completes it in one
-- transaction, which also stores an OrderStatusChanged event (internal/consumer, internal/processing).
-- Every message is an envelope (internal/event).
--
-- The files and what they model:
--   Event.antt               internal/event/envelope.go
--   Order/Model.antt         internal/order/model.go
--   Order/Service.antt       internal/order/service.go: Create
--   Order/Store.antt         internal/order/postgres.go: CreateWithEvent and Get
--   Database.antt, Database/ migrations/000001_init.up.sql: tables, constraints; transactions, INSERTs
--                            and the SELECTs of orders
--   Outbox/Postgres.antt     internal/outbox/postgres.go
--   Order/Http.antt          internal/order/http.go: handlers, middleware and routes;
--                            internal/platform/correlation/context.go
--   Outbox/Publisher.antt    internal/outbox/publisher.go: publishOne, and internal/outbox/model.go
--   Outbox/Publisher/Batch.antt   the same file: publishBatch and Run
--   Outbox/Publisher/Stored.antt  the publisher on the outbox table, as a handler of the worker pool
--   Kafka.antt               internal/platform/kafka/producer.go: the record of Publish
--   Consumer/Handler.antt    internal/consumer/consumer.go: processRecord, retry, dlq, route
--   Consumer/Headers.antt    the same file: the readers of headers, and the record that route sends
--   Consumer/Backoff.antt    the same file: backoff
--   Consumer/Run.antt        the same file: Run
--   Consumer/Postgres.antt   internal/consumer/postgres.go
--   Consumer/Postgres/Interleaved.antt   the same file: Complete between other transactions
--   Processing.antt          internal/processing
--   WorkerPool.antt          internal/workerpool/pool.go
--   Http.antt                writeJSON, statusWriter and the end of a server, for internal/order/http.go and
--                            the probes
--   Health.antt              internal/platform/health/server.go
--   Config.antt              internal/platform/config/config.go
--   Shutdown.antt            internal/platform/shutdown/shutdown.go: Wait
--   Order/Http/Recorded.antt internal/order/http.go: the calls that handlers make on a statusWriter
--   Programs.antt            cmd/order-worker/main.go and cmd/outbox-publisher/main.go: settings and
--                            the tests on them
--   Programs/Clients.antt    internal/platform/database/database.go and the constructors of
--                            internal/platform/kafka
--   Programs/Frames.antt     the frame of a Go function with deferred calls
--   Programs/Run.antt        cmd: main and run of the three programs
--   Logging.antt             internal/platform/logging/logging.go: the level
--   System.antt              the tables under all programs: each call is a step, and the life of an order
--   Flow.antt                an order's way through the three programs
--   Json.antt                the parameters that stand for encoding/json and for PostgreSQL's columns
--   Base.antt, Base/         numbers, bytes, results and lists that the parts share
--   Tests.antt, Tests/       concrete values and the theorems at them
-- The modules below a part hold its theorems.
--
-- State and surroundings. The tables are lists of rows in the record Db, and a statement is a function
-- on them. What the server answers is not assumed: a statement is carried out or fails, a COMMIT is
-- acknowledged, refused, or carried out with the acknowledgement lost, and all of these are arguments
-- (Order.Store.Answers, Consumer.Postgres.Answers). The handler of records and the publisher of events
-- pass a World: the repository's state, the records given to Kafka and the counters raised. Clock
-- readings, new identifiers, the end of a context and the producer's answers are fields of their Env.
-- A sequence of statements of several publishers is a list, so that every order of them is covered.
--
-- Concurrency. Process of the worker pool is a step relation, in which a worker ends its job with what a
-- handler relation allows from the state that the handlers share; the loop closes the channel when all jobs
-- are sent, and Process returns when no worker is left. publishOne makes one statement, so that
-- it is one step on the outbox table, after any statements of other programs. processRecord makes several,
-- so that its step only says that the world has what the record has left there and has forgotten nothing:
-- no program deletes from processed_events, and the broker keeps the records. The loops of the publisher
-- and of the consumer are functions of the list of their turns. The pool's steps are also given with a clock,
-- under which a job is handed over at once and held for a limited time; closing and the workers' ends take no
-- time there, and pool_of forgets the clock.
--
-- Numbers. An int64 of the source is a signed integer whose products, sums and differences are wrapped
-- to 64 bits where the source computes them. A string is a list of bytes; characters are counted as
-- Go decodes them. A time is a number of nanoseconds from a day before the year 0. Loops are structural
-- recursions; the loop of backoff runs attempt - 1 rounds, which is its recursion's argument. No
-- definition needs fuel.
--
-- The whole system. A call of Create, of Complete or of a statement of the publisher, with any answer of the
-- server, is one Step on the tables, and Reaches lists any steps of any programs in any order. The life of an
-- order is its status, or that it is not stored; the types of the outbox's events about it are read off the
-- rows. A transaction is one step. For Complete, Consumer/Postgres/Interleaved.antt gives the statements of the
-- transaction one by one, with the tables that other transactions have left at each, and System/Apart.antt
-- says which calls of the programs may commit in between, given what the database keeps for an open
-- transaction: its key in a unique index and its row lock. The transaction of Create, which only inserts
-- rows under new identifiers, is taken as one step throughout.
--
-- The programs. run of a program is a sequence of parts over a frame with the acts so far and the deferred
-- closings, of which each part goes on or returns an error; the deferred closings run when it returns. The
-- answers of pgxpool and of the Kafka client are functions of the options that the program gives them.
--
-- Not modelled: the declarations of the metrics, the output of the logs, and what HTTP servers and Kafka
-- clients do inside, which are calls of third parties; and the code of third parties itself, which enters as
-- parameters. The wiring of constructed objects in the main functions only passes them on.
pub mod Base
pub mod Event
pub mod Order
pub mod Database
pub mod Json
pub mod Consumer
pub mod Processing
pub mod Outbox
pub mod Kafka
mod Tests
pub mod WorkerPool
pub mod Http
pub mod Health
pub mod Shutdown
pub mod Config
pub mod Logging
pub mod Programs
pub mod Flow
pub mod System
