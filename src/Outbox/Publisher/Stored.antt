-- ===== src/Outbox/Publisher/Stored.antt =====
-- The publisher on the outbox table, as cmd/outbox-publisher/main.go puts them together.
use wb_orders.Base.{◌≡◌, List, Option, none, some, Result, ok, err}
use wb_orders.Base.Text.{Bytes}
use wb_orders.Event.{Uuid, Time}
use wb_orders.Json.{Codec}
use wb_orders.Kafka.{KafkaRecord, Delivery}
use wb_orders.Database.{OutboxRow, CommitReply}
use wb_orders.Outbox.Postgres.{Error, Claimed, mark_published, release, mark_failed}
use wb_orders.Outbox.Postgres.Rows.{Statement, run}
use wb_orders.Outbox.Publisher.{Topics, Repository, Fault, Env, World, Failure, publish_one}

-- An error of the repository, for the publisher, is its text.
abbrev pub texted :
    (Error → Bytes) → Result Error (Unit {0}) × List OutboxRow → Option Bytes × List OutboxRow
texted text (ok u, rows) = (none, rows)
texted text (err x, rows) = (some (text x), rows)

-- The texts that do not change, and left of PostgreSQL.
pub record Texts : Type 0 where
  pub uuid : Uuid → Bytes
  pub fault : Fault → Bytes
  pub error : Error → Bytes
  pub left : Bytes → Bytes

-- The methods of `PostgresRepository`, with the server's answer to the one statement and its clock.
abbrev pub postgres : Texts → CommitReply → Time → Repository (List OutboxRow)
postgres texts reply now = record {
  mark_published = λ id owner rows. texted texts.error (mark_published reply now id owner rows);
  release = λ id owner message next rows.
      texted texts.error (release reply texts.left id owner message next rows);
  mark_failed = λ id owner message rows.
      texted texts.error (mark_failed reply texts.left id owner message rows);
}

-- What one event meets: the server's answer and clock, the broker, and the publisher's clock.
pub record Meets : Type 0 where
  pub reply : CommitReply
  pub server_now : Time
  pub publish : KafkaRecord → Delivery
  pub now : Time

abbrev pub env_of : Texts → Meets → Env (List OutboxRow)
env_of texts m = record {
  repository = postgres texts m.reply m.server_now;
  publish = m.publish;
  now = m.now;
  uuid_text = texts.uuid;
  fault_text = texts.fault;
}

-- `publishOne` as a handler of the pool. It makes one statement, and others, of any program, run between
-- those of two events.
pub record Publishes (c : Codec) (topics : Topics) (owner : Bytes) (texts : Texts)
    (claimed : Claimed) (before : World (List OutboxRow)) (r : Option Failure)
    (after : World (List OutboxRow)) : Type 0 where
  pub others : List Statement
  pub meets : Meets
  pub result :
      publish_one c topics owner
        (env_of texts meets)
        claimed
        (record before { store = run others before.store })
      ≡ (r, after)
