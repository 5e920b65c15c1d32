-- ===== src/Programs.antt =====
-- cmd/order-worker/main.go and cmd/outbox-publisher/main.go: the settings, and the tests that they must pass.
-- Opening the database comes before the worker's test; its error is an argument.
use Prim.Native.String.{String}
use wb_orders.Base.{
  ℕ, ◌≡◌, Bool, List, [], ◌∷◌, Option, none, some, Result, ok, err, ◌>>=◌, ◌>>◌, fail_if, map_err,
  ◌+◌, ◌*◌,
}
use wb_orders.Base.Int.{ℤ, pos, ltb_ℤ, leb_ℤ, wrap64, quot, ◌+ℤ◌, ◌-ℤ◌, ◌*ℤ◌}
use wb_orders.Base.Text.{Bytes, lit}
use wb_orders.Config
use wb_orders.Config.{
  Environment, Durations, Common, load_common, env, int_setting, duration_setting,
}
use wb_orders.Consumer.Handler
use wb_orders.Outbox.Publisher.{Topics, second, minute}
pub mod Budgets
pub mod Clients
pub mod Frames
pub mod Run

pub data Error : Type 0 where
  bad_setting : Config.Error → Error
  database_failed : Bytes → Error
  batch_too_long : ℤ → Error
  lease_too_short : ℤ → Error

-- `time.Duration((batchSize+workers-1)/workers)`, with the wrap of int64.
unfoldable pub rounds : ℤ → ℤ → ℤ
rounds batch_size workers = quot (wrap64 (wrap64 (batch_size +ℤ workers) -ℤ pos 1)) workers

-- `worstCaseBatch` of the worker.
unfoldable pub worst_case_batch : ℤ → ℤ → ℤ → ℤ → ℤ
worst_case_batch batch_size workers max_backoff processing_timeout = wrap64 (
    rounds batch_size workers
    *ℤ wrap64 (wrap64 (max_backoff +ℤ processing_timeout) +ℤ pos (15 * second)))

abbrev pub rebalance_timeout : ℕ
rebalance_timeout = 5 * minute

pub record WorkerSettings : Type 0 where
  pub common : Common
  pub workers : ℤ
  pub batch_size : ℤ
  pub max_retries : ℤ
  pub processing_timeout : ℤ
  pub base_backoff : ℤ
  pub max_backoff : ℤ

abbrev pub worst_case : WorkerSettings → ℤ
worst_case s = worst_case_batch s.batch_size s.workers s.max_backoff s.processing_timeout

-- `run` of the worker up to its clients.
unfoldable pub read_worker : Environment → Durations → Result Config.Error WorkerSettings
read_worker getenv d = do
  common ← load_common getenv (lit "wb-orders-worker") (lit ":8082")
  workers ← int_setting getenv (lit "ORDER_WORKERS") (pos 8)
  batch_size ← int_setting getenv (lit "KAFKA_BATCH_SIZE") (wrap64 (workers *ℤ pos 2))
  max_retries ← int_setting getenv (lit "KAFKA_MAX_RETRIES") (pos 5)
  processing_timeout ←
      duration_setting getenv d (lit "ORDER_PROCESSING_TIMEOUT") (pos (30 * second))
  base_backoff ← duration_setting getenv d (lit "KAFKA_RETRY_BASE_BACKOFF") (pos second)
  max_backoff ← duration_setting getenv d (lit "KAFKA_RETRY_MAX_BACKOFF") (pos minute)
  ok (record {
    common = common;
    workers = workers;
    batch_size = batch_size;
    max_retries = max_retries;
    processing_timeout = processing_timeout;
    base_backoff = base_backoff;
    max_backoff = max_backoff;
  })

-- An error of database.Open.
abbrev pub opening : Option Bytes → Result Error (Unit {0})
opening none = ok tt
opening (some x) = err (database_failed x)

unfoldable pub start_worker : Environment → Durations → Option Bytes → Result Error WorkerSettings
start_worker getenv d opened = do
  s ← map_err bad_setting (read_worker getenv d)
  opening opened
  fail_if (leb_ℤ (pos rebalance_timeout) (worst_case s)) (batch_too_long (worst_case s))
  ok s

-- The consumer's configuration.
abbrev pub worker_config : Environment → WorkerSettings → Handler.Config
worker_config getenv s = record {
  consumer_name = env getenv (lit "CONSUMER_NAME") (lit "wb-orders-worker-v1");
  retry_topic = env getenv (lit "KAFKA_ORDERS_RETRY_TOPIC") (lit "wb.orders.created.retry");
  dlq_topic = env getenv (lit "KAFKA_ORDERS_DLQ_TOPIC") (lit "wb.orders.created.dlq");
  max_retries = s.max_retries;
  base_backoff = s.base_backoff;
  max_backoff = s.max_backoff;
}

-- `PublishTimeout` and `DatabaseTimeout` of internal/outbox/publisher.go.
abbrev pub publish_timeout : ℕ
publish_timeout = 10 * second

abbrev pub database_timeout : ℕ
database_timeout = 5 * second

-- `minimumLease` of the publisher.
unfoldable pub minimum_lease : ℤ → ℤ → ℤ
minimum_lease batch_size workers = wrap64 (
    wrap64 (rounds batch_size workers *ℤ pos (publish_timeout + database_timeout))
    +ℤ pos (5 * second))

pub record PublisherSettings : Type 0 where
  pub common : Common
  pub workers : ℤ
  pub batch_size : ℤ
  pub poll : ℤ
  pub lease : ℤ

-- `run` of the publisher up to its clients.
unfoldable pub start_publisher : Environment → Durations → Result Error PublisherSettings
start_publisher getenv d = do
  common ← map_err bad_setting (load_common getenv (lit "wb-orders-outbox-publisher") (lit ":8081"))
  workers ← map_err bad_setting (int_setting getenv (lit "OUTBOX_WORKERS") (pos 4))
  batch_size ← map_err bad_setting (int_setting getenv (lit "OUTBOX_BATCH_SIZE") (pos 50))
  poll ← map_err bad_setting (duration_setting getenv d (lit "OUTBOX_POLL_INTERVAL") (pos second))
  lease ←
      map_err bad_setting
        (duration_setting getenv d (lit "OUTBOX_LEASE_DURATION") (pos (4 * minute)))
  fail_if (ltb_ℤ lease (minimum_lease batch_size workers))
      (lease_too_short (minimum_lease batch_size workers))
  ok (record {
    common = common;
    workers = workers;
    batch_size = batch_size;
    poll = poll;
    lease = lease;
  })

-- The topics of the publisher.
abbrev pub publisher_topics : Environment → Topics
publisher_topics getenv = record {
  order_created = env getenv (lit "KAFKA_ORDERS_CREATED_TOPIC") (lit "wb.orders.created");
  order_status_changed =
      env getenv (lit "KAFKA_STATUS_CHANGED_TOPIC") (lit "wb.orders.status-changed");
}
