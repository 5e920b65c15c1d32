-- ===== src/Tests/Records.antt =====
-- Records of the consumer at concrete values: one is completed by the tables, one is tried again.
use wb_orders.Base.{true, ◌≤◌, ◌≡◌, take, refl, false, [], ◌∷◌, none, some, ok, err, arith}
use wb_orders.Base.Int.{pos, wrap64, ◌+ℤ◌}
use wb_orders.Base.Text.{Bytes, lit, bytes_eq, itoa}
use wb_orders.Kafka.{KafkaRecord, sent}
use wb_orders.Database.{Db, done}
use wb_orders.Order.Model.{confirmed}
use wb_orders.Processing.{Decision}
use wb_orders.Consumer.Postgres.{is_processed, is_recorded}
use wb_orders.Consumer.Backoff.{backoff}
use wb_orders.Consumer.Headers.{
  Clock, attempt_key, failure_reason_key, original_topic_key, not_before_key, find_header,
  header_int, header_time, header_string, routed,
}
use wb_orders.Consumer.Headers.Routed.{CameFrom, routed_reads}
use wb_orders.Consumer.Handler.{
  Config, Repository, Texts, Env, World, success, retried, inspect, inspect_attempt, inspect_delay,
  inspect_value, inspect_envelope, wait_until, handle_payload, conclude, retry, route, add_duration,
  process_record,
}
use wb_orders.Consumer.Handler.Redelivery.{tables, process_record-is_recorded}
use wb_orders.Consumer.Handler.Fate.{Fate}
use wb_orders.Consumer.Handler.Retries.{again, Chain, start, step, Chain-attempt}
use wb_orders.Tests.Fixtures.{the_event, noon, document, codec, server}
use wb_orders.Tests.Orders.{stored_db, event_valid, payload_valid}
use wb_orders.Tests.Completions.{worker, answers, confirmed_db, confirms}

abbrev pub clock : Clock
clock = record { parse = λ text. some noon; format = λ t. document }

abbrev created : Bytes
created = lit "orders.created"

abbrev pub config : Config
config = record {
  consumer_name = worker;
  retry_topic = lit "orders.retry";
  dlq_topic = lit "orders.dlq";
  max_retries = pos 3;
  base_backoff = pos 1_000_000_000;
  max_backoff = pos 60_000_000_000;
}

abbrev pub texts : Texts
texts = record {
  json_error = λ text. lit "json";
  event_error = λ x. lit "event";
  unsupported_type = λ text. lit "type";
  payload_error = λ x. lit "payload";
  process_error = λ x. lit "process";
  uuid = λ id. itoa (pos id);
}

-- A repository that never answers.
abbrev pub silent : Repository Db
silent = record {
  is_processed = λ id name db. (err (lit "down"), db);
  complete = λ id name k db. (err (lit "down"), db);
}

abbrev pub decision : Decision
decision = record { status = confirmed; reason = []; outcomes = [] }

abbrev pub env_of : Repository Db → Env Db
env_of repository = record {
  now_bound = noon;
  now_wait = noon;
  wait_ends = none;
  ctx_ended = false;
  now_retry = noon;
  repository = repository;
  publish = λ m. sent;
  process = λ input. ok decision;
}

abbrev pub incoming : KafkaRecord
incoming = record { topic = created; key = lit "11"; value = document; headers = [] }

abbrev pub world : World Db
world = record { store = stored_db; published = []; counted = [] }

abbrev pub completed_world : World Db
completed_world = record { store = confirmed_db; published = []; counted = (created, success) ∷ [] }

pub completes :
    process_record codec clock texts config
      (env_of (tables codec server (λ x. document) done answers))
      incoming
      world
    ≡ (ok tt, completed_world)
unfolding process_record inspect header_int find_header header_time inspect_attempt inspect_delay
    inspect_value wait_until inspect_envelope bytes_eq handle_payload conclude is_processed
    is_recorded wrap64 ◌+ℤ◌ itoa
completes = ground (arith, event_valid, payload_valid, confirms)

-- The record that waits in the retry topic.
abbrev delayed : KafkaRecord
delayed =
    routed clock incoming config.retry_topic (pos 1) (lit "down")
      (add_duration noon (backoff (pos 1) config.base_backoff config.max_backoff))

abbrev delayed_world : World Db
delayed_world = record {
  store = stored_db;
  published = delayed ∷ [];
  counted = (created, retried) ∷ [];
}

delays :
    process_record codec clock texts config (env_of silent) incoming world ≡ (ok tt, delayed_world)
unfolding process_record inspect header_int find_header header_time inspect_attempt inspect_delay
    inspect_value wait_until inspect_envelope bytes_eq retry route wrap64 ◌+ℤ◌ itoa
delays = ground (arith, event_valid)

delayed_topic : delayed.topic ≡ config.retry_topic
unfolding routed
delayed_topic = refl

one_retry : Chain Db codec clock texts config incoming 1 delayed
one_retry = step start (again (env_of silent) world delayed_world delays refl delayed_topic)

no_attempt : header_int incoming.headers attempt_key ≡ some (pos 0)
unfolding header_int find_header
no_attempt = refl

Chain-attempt_example : (header_int delayed.headers attempt_key ≡ some (pos 1)) × (1 ≤ 3)
Chain-attempt_example =
    Chain-attempt Db codec clock texts config 0 3 incoming 1 delayed refl (λ e. ground arith)
      (omega arith) (omega arith) no_attempt one_retry

routed_reads_example :
    let sent = routed clock incoming created (pos 2) document noon in
    (sent.topic ≡ created)
    × (sent.key ≡ incoming.key)
    × (sent.value ≡ incoming.value)
    × (header_int sent.headers attempt_key ≡ some (pos 2))
    × (header_time clock sent.headers not_before_key ≡ some noon)
    × (header_string sent.headers failure_reason_key ≡ take 1024 document)
    × CameFrom incoming (header_string sent.headers original_topic_key)
routed_reads_example = routed_reads clock incoming created 2 document noon (omega arith) refl

confirmed_is_recorded : is_recorded the_event.event_id worker confirmed_db.processed_events ≡ true
unfolding is_recorded bytes_eq
confirmed_is_recorded = refl

process_record-is_recorded_example :
    let on_tables = record (env_of silent) {
      repository = tables codec server (λ x. document) done answers;
    } in
    (process_record codec clock texts config on_tables delayed
      (record world { store = confirmed_db })).1.store
    ≡ confirmed_db
process_record-is_recorded_example =
    process_record-is_recorded codec server clock texts config (env_of silent) (λ x. document) done
      answers delayed (record world { store = confirmed_db }) the_event refl confirmed_is_recorded
