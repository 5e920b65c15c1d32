-- ===== src/Programs/Clients.antt =====
-- The clients that the programs open: internal/platform/database/database.go and the constructors of
-- internal/platform/kafka. What the client libraries answer is an argument: none, or an error's text.
use wb_orders.Base.{ℕ, ◌*◌, List, [], ◌∷◌, ◌++◌, Option, none, some}
use wb_orders.Base.Text.{Bytes, lit}
use wb_orders.Outbox.Publisher.{second, minute}

-- pgxpool.Config, as far as the program sets it.
pub record PoolConfig : Type 0 where
  pub url : Bytes
  pub max_conns : ℕ
  pub min_conns : ℕ
  pub max_conn_lifetime : ℕ
  pub max_conn_idle_time : ℕ

-- The options of kgo.NewClient that the program uses.
pub data ClientOption : Type 0 where
  seed_brokers : List Bytes → ClientOption
  client_id : Bytes → ClientOption
  consumer_group : Bytes → ClientOption
  consume_topics : List Bytes → ClientOption
  disable_auto_commit block_rebalance_on_poll : ClientOption
  rebalance_timeout session_timeout fetch_max_wait : ℕ → ClientOption
  reset_offset_at_start : ClientOption
  required_acks_all_isr : ClientOption
  producer_linger : ℕ → ClientOption
  snappy_compression : ClientOption

-- What pgxpool and kgo answer.
pub record Libraries : Type 0 where
  pub parse_config : Bytes → Option Bytes
  pub new_pool : PoolConfig → Option Bytes
  pub ping_pool : Option Bytes
  pub new_client : List ClientOption → Option Bytes

abbrev pub pool_config : Bytes → PoolConfig
pool_config url = record {
  url = url;
  max_conns = 20;
  min_conns = 2;
  max_conn_lifetime = 60 * minute;
  max_conn_idle_time = 15 * minute;
}

-- How `Open` ends: without a pool, with a pool that it has closed again, or with an open pool.
pub data Opening : Type 0 where
  no_pool : Bytes → Opening
  closed_again : Bytes → Opening
  open_pool : Opening

abbrev pub pinged : Option Bytes → Opening
pinged none = open_pool
pinged (some x) = closed_again (lit "ping database: " ++ x)

abbrev pub connected : Libraries → Option Bytes → Opening
connected l none = pinged l.ping_pool
connected l (some x) = no_pool (lit "create database pool: " ++ x)

abbrev pub configured : Libraries → Bytes → Option Bytes → Opening
configured l url none = connected l (l.new_pool (pool_config url))
configured l url (some x) = no_pool (lit "parse database config: " ++ x)

-- `Open`.
unfoldable pub open_database : Libraries → Bytes → Opening
open_database l url = configured l url (l.parse_config url)

unfoldable pub consumer_options : List Bytes → Bytes → Bytes → List Bytes → ℕ → List ClientOption
consumer_options brokers id group topics timeout =
    seed_brokers brokers
    ∷ client_id id
    ∷ consumer_group group
    ∷ consume_topics topics
    ∷ disable_auto_commit
    ∷ block_rebalance_on_poll
    ∷ rebalance_timeout timeout
    ∷ session_timeout (30 * second)
    ∷ fetch_max_wait second
    ∷ reset_offset_at_start
    ∷ []

abbrev pub millisecond : ℕ
millisecond = 1_000_000

unfoldable pub producer_options : List Bytes → Bytes → List ClientOption
producer_options brokers id =
    seed_brokers brokers
    ∷ client_id id
    ∷ required_acks_all_isr
    ∷ producer_linger (5 * millisecond)
    ∷ snappy_compression
    ∷ []

abbrev pub wrapped : Bytes → Option Bytes → Option Bytes
wrapped context none = none
wrapped context (some x) = some (context ++ x)

-- `NewConsumer`: an error, or none.
unfoldable pub new_consumer : Libraries → List Bytes → Bytes → Bytes → List Bytes → ℕ → Option Bytes
new_consumer l brokers id group topics timeout =
    wrapped (lit "create kafka consumer: ")
      (l.new_client (consumer_options brokers id group topics timeout))

-- `NewProducer`.
unfoldable pub new_producer : Libraries → List Bytes → Bytes → Option Bytes
new_producer l brokers id =
    wrapped (lit "create kafka producer: ") (l.new_client (producer_options brokers id))
