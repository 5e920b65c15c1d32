-- ===== src/Consumer/Handler/Redelivery.antt =====
-- The handler on the tables: a record whose event is recorded as processed changes nothing.
use wb_orders.Base.{◌≡◌, refl, arith, true, some, map_err}
use wb_orders.Base.Text.{Bytes}
use wb_orders.Event.{Envelope}
use wb_orders.Json.{Codec, Server}
use wb_orders.Kafka.{KafkaRecord}
use wb_orders.Database.{Db, Reply}
use wb_orders.Consumer.Headers.{Clock}
use wb_orders.Consumer.Postgres
use wb_orders.Consumer.Postgres.{Answers, is_recorded, is_processed}
use wb_orders.Consumer.Postgres.Once.{complete-old}
use wb_orders.Consumer.Handler.{change_of, Config, Repository, Texts, Env, World, process_record}
use wb_orders.Consumer.Handler.Stores.{process_record-store}

-- The repository on the tables: what the server answers to the check and to the completion, and the wording
-- of errors, are arguments.
abbrev pub tables : Codec → Server → (Postgres.Error → Bytes) → Reply → Answers → Repository Db
tables c s text checked a = record {
  is_processed = λ id name db. (map_err text (is_processed checked id name db), db);
  complete = λ id name k db.
      let (r, after) = Postgres.complete c s a id name k db in (map_err text r, after);
}

-- A record whose event the tables hold as processed by this consumer is handled without a change of the
-- tables, whatever the server, the producer, the processor and the clock answer, and whatever its headers say.
pub process_record-is_recorded :
    (c : Codec) (s : Server) (clock : Clock) (texts : Texts) (config : Config) (env : Env Db)
    (text : Postgres.Error → Bytes) (checked : Reply) (a : Answers) (source : KafkaRecord)
    (w : World Db) (e : Envelope)
    → c.unmarshal_envelope source.value ≡ some e
    → is_recorded e.event_id config.consumer_name w.store.processed_events ≡ true
    → let on_tables = record env { repository = tables c s text checked a } in
      (process_record c clock texts config on_tables source w).1.store ≡ w.store
process_record-is_recorded c s clock texts config env text checked a source w e decoded old =
    let on_tables : Env Db = record env { repository = tables c s text checked a } in
    process_record-store c clock texts config on_tables (λ db. db ≡ w.store) source w refl
      (λ x read.
        let same : x ≡ e = ground arith in
        (
          refl,
          λ input d decided.
              (complete-old c s a x.event_id config.consumer_name (change_of x d) w.store
                (rw same old)).0,
        ))
