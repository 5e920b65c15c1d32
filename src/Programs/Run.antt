-- ===== src/Programs/Run.antt =====
-- `main` and `run` of the three programs in cmd/: what is opened in which order, what is started, and what
-- is closed when `run` returns. The answers of the libraries, the environment and the order in which the
-- goroutines end are arguments. Logging is left out.
use Prim.Native.String.{String}
use wb_orders.Base.{
  ℕ, ◌≡◌, Bool, List, [], ◌∷◌, ◌++◌, Option, none, some, Result, ok, err, fail_if, map_err,
}
use wb_orders.Base.Int.{ℤ, pos, leb_ℤ}
use wb_orders.Base.Text.{Bytes, lit}
use wb_orders.Config.{Environment, Durations, Common, load_common, env}
use wb_orders.Http.{ServerEnd, ServerError, listen_and_serve}
use wb_orders.Shutdown.{First, Arrival, Outcome, waits, exceeded, returns, wait}
use wb_orders.Consumer.Handler
use wb_orders.Outbox.Publisher.{Topics}
use wb_orders.Programs
use wb_orders.Programs.{
  bad_setting, database_failed, batch_too_long, rebalance_timeout, worst_case, WorkerSettings,
  read_worker, worker_config, PublisherSettings, start_publisher, publisher_topics,
}
use wb_orders.Programs.Clients.{
  Libraries, Opening, no_pool, closed_again, open_pool, open_database, new_consumer, new_producer,
}
use wb_orders.Programs.Frames.{
  Resource, signals, pool, consumer_client, producer, run_context, Act, opened, closed, launched,
  canceled, Frame, M, ◌>>=◌, ◌>>◌, lift, acquire, note, leave,
}
pub mod History
pub mod Closing

-- `outbox.PublisherConfig`, whose fields `NewPublisher` takes over.
pub record PublisherConfig : Type 0 where
  pub owner : Bytes
  pub topics : Topics
  pub settings : PublisherSettings

-- What is started: the HTTP server, the worker with its configuration and its pool's sizes, the publisher.
pub data Launch : Type 0 where
  serves : Common → Launch
  works : Handler.Config → WorkerSettings → Launch
  publishes : PublisherConfig → Launch

-- What `run` returns.
pub data Error : Type 0 where
  refused : Programs.Error → Error
  client_failed : Bytes → Error
  server_failed : ServerError → Error
  goroutine_failed : Bytes → Error
  shutdown_exceeded : Error

-- What a program meets.
pub record Outside : Type 0 where
  pub getenv : Environment
  pub durations : Durations
  pub libraries : Libraries
  pub hostname : Bytes
  pub new_uuid : Bytes
  pub server_end : ServerEnd
  pub first : First
  pub arrivals : List Arrival
  pub root_ended : Bool

-- `run` has not returned yet, or it has.
pub data Ending : Type 0 where
  runs : Ending
  returned : Option Error → Ending

abbrev pub Part : Type 0 → Type 0
Part = M Launch Error

-- The result of `Open`: a pool to be closed at the end, or an error, before which a pool may have been
-- opened and closed.
abbrev pub opened_as : Opening → Part (Unit {0})
opened_as (no_pool x) = lift (err (refused (database_failed x)))
opened_as (closed_again x) = do
  note (opened pool)
  note (closed pool)
  lift (err (refused (database_failed x)))
opened_as open_pool = acquire pool

-- A client to be closed at the end, or the error of its construction.
abbrev pub acquire_client : Resource → Option Bytes → Part (Unit {0})
acquire_client r none = acquire r
acquire_client r (some x) = lift (err (client_failed x))

abbrev pub ending_of : Outcome → Ending
ending_of waits = runs
ending_of exceeded = returned (some shutdown_exceeded)
ending_of (returns none) = returned none
ending_of (returns (some x)) = returned (some (goroutine_failed x))

abbrev pub served : Option ServerError → Ending
served none = returned none
served (some x) = returned (some (server_failed x))

-- The program's own context, the two goroutines, and `Wait`, which cancels the context.
unfoldable pub launch : Outside → Launch → Part Ending
launch o l = do
  acquire run_context
  note (launched l)
  note canceled
  lift (ok (ending_of (wait o.first o.arrivals o.root_ended)))

-- cmd/order-service.
unfoldable pub service : Outside → Part Ending
service o = do
  acquire signals
  common ← lift (
      map_err (λ x. refused (bad_setting x))
        (load_common o.getenv (lit "wb-orders-api") (lit ":8080")))
  opened_as (open_database o.libraries common.database_url)
  note (launched (serves common))
  lift (ok (served (listen_and_serve o.server_end)))

-- cmd/order-worker.
unfoldable pub worker : Outside → Part Ending
worker o = do
  acquire signals
  s ← lift (map_err (λ x. refused (bad_setting x)) (read_worker o.getenv o.durations))
  opened_as (open_database o.libraries s.common.database_url)
  lift (
      fail_if (leb_ℤ (pos rebalance_timeout) (worst_case s))
        (refused (batch_too_long (worst_case s))))
  let config = worker_config o.getenv s
  let created = env o.getenv (lit "KAFKA_ORDERS_CREATED_TOPIC") (lit "wb.orders.created")
  let group = env o.getenv (lit "KAFKA_CONSUMER_GROUP") (lit "wb-orders-worker-v1")
  acquire_client consumer_client (
      new_consumer o.libraries s.common.kafka_brokers s.common.service_name group
        (created ∷ config.retry_topic ∷ []) rebalance_timeout)
  acquire_client producer (
      new_producer o.libraries s.common.kafka_brokers
        (s.common.service_name ++ lit "-retry-producer"))
  launch o (works config s)

-- cmd/outbox-publisher.
unfoldable pub publisher : Outside → Part Ending
publisher o = do
  acquire signals
  s ← lift (map_err refused (start_publisher o.getenv o.durations))
  opened_as (open_database o.libraries s.common.database_url)
  acquire_client producer (new_producer o.libraries s.common.kafka_brokers s.common.service_name)
  launch o (
      publishes (record {
        owner = o.hostname ++ lit "-" ++ o.new_uuid;
        topics = publisher_topics o.getenv;
        settings = s;
      }))

pub data Program : Type 0 where
  order_service order_worker outbox_publisher : Program

abbrev pub body_of : Program → Outside → Part Ending
body_of order_service = service
body_of order_worker = worker
body_of outbox_publisher = publisher

-- The deferred calls run when `run` returns, with or without an error.
abbrev pub finish : Result Error Ending × Frame Launch → Ending × List (Act Launch)
finish (ok runs, f) = (runs, f.acts)
finish (ok (returned e), f) = (returned e, leave f.deferred f.acts)
finish (err e, f) = (returned (some e), leave f.deferred f.acts)

-- `run`.
unfoldable pub run : Program → Outside → Ending × List (Act Launch)
run p o = finish (body_of p o (record { acts = []; deferred = [] }))

-- `main`: the exit code, once the program exits.
abbrev pub exit_code : Ending → Option ℕ
exit_code runs = none
exit_code (returned none) = some 0
exit_code (returned (some x)) = some 1

-- The check of GET /ready in the worker and in the publisher: the database's Ping, then the producer's.
abbrev pub readiness_check : Option Bytes → Option Bytes → Option Bytes
readiness_check none of_producer = of_producer
readiness_check (some x) of_producer = some x
