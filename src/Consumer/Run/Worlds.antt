-- ===== src/Consumer/Run/Worlds.antt =====
-- The consumer's batches on the tables and the topics, with other workers and other programs between the
-- steps of a record.
use mathlib.Core.List.{Mem, mem-cons_self}
use wb_orders.Base.{◌≡◌, ap, arith, Bool, true, false, Option, none, some, Result, ok, err, map_err}
use wb_orders.Base.Int.{ℤ, ltb_ℤ}
use wb_orders.Base.Text.{Bytes}
use wb_orders.Event.{Uuid, Envelope}
use wb_orders.Json.{Codec, Server}
use wb_orders.Kafka.{KafkaRecord}
use wb_orders.Database.{Db, Reply, done, broken}
use wb_orders.WorkerPool.Results.{Settles}
use wb_orders.Consumer.Headers.{Clock}
use wb_orders.Consumer.Headers.Routed.{Carries}
use wb_orders.Consumer.Postgres
use wb_orders.Consumer.Postgres.{Answers, is_recorded, is_processed, complete}
use wb_orders.Consumer.Postgres.Endings.{complete_lem}
use wb_orders.Consumer.Postgres.Once.{Ends-is_recorded}
use wb_orders.Consumer.Handler.{
  Config, Repository, Texts, Env, World, Failure, change_of, process_record,
}
use wb_orders.Consumer.Handler.Fate.{Fate, repeats, completes, retries, buries, process_record-Fate}

abbrev pub Outside : Type 0
Outside = World Db

-- Nothing that was noted as processed is forgotten.
abbrev pub KeepsNotes : Db → Db → Type 0
KeepsNotes before after =
    (event : Uuid) (consumer : Bytes)
    → is_recorded event consumer before.processed_events ≡ true
    → is_recorded event consumer after.processed_events ≡ true

-- Time passes: no program deletes a row of `processed_events`, nor the broker a record.
pub record Grows (before after : Outside) : Type 0 where
  pub notes : KeepsNotes before.store after.store
  pub records : (x : KafkaRecord) → Mem x before.published → Mem x after.published

pub Grows-refl : (w : Outside) → Grows w w
Grows-refl w = record { notes = λ event consumer h. h; records = λ x h. h }

pub Grows-trans : {u v w : Outside} → Grows u v → Grows v w → Grows u w
Grows-trans g h = record {
  notes = λ event consumer old. h.notes event consumer (g.notes event consumer old);
  records = λ x old. h.records x (g.records x old);
}

-- The repository on tables that others change before each of its transactions.
abbrev pub shared_tables :
    Codec
    → Server
    → (Postgres.Error → Bytes)
    → Reply
    → Answers
    → (Db → Db)
    → (Db → Db)
    → Repository Db
shared_tables c s text checked a earlier between = record {
  is_processed =
      λ id name db. (map_err text (is_processed checked id name (earlier db)), earlier db);
  complete = λ id name k db.
      let (r, after) = Postgres.complete c s a id name k (between db) in (map_err text r, after);
}

abbrev result_of : Option Failure → Result Failure (Unit {0})
result_of none = ok tt
result_of (some x) = err x

module _ (c : Codec) (s : Server) (clock : Clock) (texts : Texts) (config : Config)
    (text : Postgres.Error → Bytes) where
  -- `processRecord` as a handler of the pool: from any tables it finds it takes the steps of the code, others'
  -- between them, and when the worker is done the world has all that it has left there.
  pub record Handles (source : KafkaRecord) (w : Outside) (r : Option Failure) (w' : Outside)
      : Type 0 where
    pub env : Env Db
    pub checked : Reply
    pub answers : Answers
    pub earlier : Db → Db
    pub between : Db → Db
    pub before : Outside
    pub after : Outside
    pub result :
        process_record c clock texts config
          (record env { repository = shared_tables c s text checked answers earlier between })
          source
          before
        ≡ (result_of r, after)
    pub left : Grows after w'
    pub passes : Grows w w'

  -- A record that needs no second reading: its event is noted as processed by this consumer, or the retry topic
  -- has its key and value with an attempt within the limit, or the dead letter topic has them.
  pub data IsSettled (source : KafkaRecord) (w : Outside) : Type 0 where
    noted :
        (e : Envelope)
        → c.unmarshal_envelope source.value ≡ some e
        → is_recorded e.event_id config.consumer_name w.store.processed_events ≡ true
        → IsSettled source w
    waits :
        (attempt : ℤ) (cause : Bytes) (sent : KafkaRecord)
        → ltb_ℤ config.max_retries attempt ≡ false
        → Carries source config.retry_topic attempt cause sent
        → Mem sent w.published
        → IsSettled source w
    lies :
        (attempt : ℤ) (reason : Bytes) (sent : KafkaRecord)
        → Carries source config.dlq_topic attempt reason sent
        → Mem sent w.published
        → IsSettled source w

  pub IsSettled-Grows :
      (source : KafkaRecord) (w w' : Outside)
      → Grows w w'
      → IsSettled source w
      → IsSettled source w'
  IsSettled-Grows source w w' g (noted e decoded old) =
      noted e decoded (g.notes e.event_id config.consumer_name old)
  IsSettled-Grows source w w' g (waits attempt cause x within carried m) =
      waits attempt cause x within carried (g.records x m)
  IsSettled-Grows source w w' g (lies attempt reason x carried m) =
      lies attempt reason x carried (g.records x m)

  checked-true :
      (checked : Reply) (event : Uuid) (consumer : Bytes) (db : Db)
      → map_err text (is_processed checked event consumer db) ≡ ok true
      → is_recorded event consumer db.processed_events ≡ true
  unfolding is_processed
  checked-true broken event consumer db h = absurd (ground arith)
  checked-true done event consumer db h = ground arith

  map_err-ok : (r : Result Postgres.Error Bool) (b : Bool) → map_err text r ≡ ok b → r ≡ ok b
  map_err-ok (ok x) b h = ground arith
  map_err-ok (err x) b h = absurd (ground arith)

  Fate-IsSettled :
      (env : Env Db) (checked : Reply) (a : Answers) (earlier between : Db → Db)
      (source : KafkaRecord) (before after : Outside)
      → Fate c clock texts config
          (record env { repository = shared_tables c s text checked a earlier between })
          source
          before
          after
      → IsSettled source after
  Fate-IsSettled env checked a earlier between source before after
        (repeats attempt e accepted told out n) =
      let known =
        checked-true checked e.event_id config.consumer_name (earlier before.store)
          (ap (λ p. p.0) told) in
      noted e accepted.decoded (rw (ap (λ p. p.1) told) at known)
  Fate-IsSettled env checked a earlier between source before after
        (completes attempt e p d db b accepted asked decoded valid decided told out n) =
      let k = change_of e d in
      let known =
        Ends-is_recorded c s a e.event_id config.consumer_name k (between db) _ _ b
          (map_err-ok _ b (ap (λ p. p.0) told))
          (complete_lem c s a e.event_id config.consumer_name k (between db)) in
      noted e accepted.decoded (rw (ap (λ p. p.1) told) at known)
  Fate-IsSettled env checked a earlier between source before after
        (retries attempt next cause at_attempt one_more within out carried n) =
      waits next cause _ within carried (rw out mem-cons_self)
  Fate-IsSettled env checked a earlier between source before after
        (buries attempt reason out carried n) =
      lies attempt reason _ carried (rw out mem-cons_self)

  pub handling-Settles : (start : Outside) → Settles Handles (λ w. Grows start w) IsSettled
  handling-Settles start = record {
    kept = λ source w r w' g h. Grows-trans g h.passes;
    settled = λ source w w' g h.
        let env : Env Db = record h.env {
          repository = shared_tables c s text h.checked h.answers h.earlier h.between;
        } in
        IsSettled-Grows source h.after w' h.left (
          Fate-IsSettled h.env h.checked h.answers h.earlier h.between source h.before h.after
            (process_record-Fate c clock texts config env source h.before h.after h.result));
    lasting = λ source other w r w' g good h. IsSettled-Grows source w w' h.passes good;
  }
