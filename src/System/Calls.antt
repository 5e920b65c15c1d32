-- ===== src/System/Calls.antt =====
-- The programs' handlers on the shared tables: what they do there is a step of the system.
use wb_orders.Base.{
  ◌+◌, none, ◌∙◌, ◌≡◌, ◌⊎◌, inl, inr, refl, ap, arith, Option, false, List, [], ◌∷◌, some, ok, err,
  Result, map,
}
use wb_orders.Base.Text.{Bytes}
use wb_orders.Event.{Envelope}
use wb_orders.Json.{Codec, Server}
use wb_orders.Kafka.{KafkaRecord, Delivery, sent, lost, unsure}
use wb_orders.Database.{Db, Reply, OutboxRow}
use wb_orders.Outbox.Postgres
use wb_orders.Outbox.Postgres.{Claimed}
use wb_orders.Outbox.Postgres.Rows.{Statement, publishes, releases, fails, apply}
use wb_orders.Outbox.Publisher
use wb_orders.Outbox.Publisher.{
  Topics, Fault, check, rejection, marking, freeing, put_back, delivered, checked, fail_permanently,
  publish_one, exponential_backoff, second, minute,
}
use wb_orders.Outbox.Publisher.Stored
use wb_orders.Outbox.Publisher.Stored.{Meets, env_of, texted}
use wb_orders.Processing.{
  Input, Outcome, OpError, Operation, CtxError, Decision, decide, failures, sort, collect, process,
}
use wb_orders.Consumer.Headers.{Clock}
use wb_orders.Consumer.Postgres.{Answers, Error, is_pending}
use wb_orders.Consumer.Handler.{Config, Texts, Env, World, change_of, process_record}
use wb_orders.Consumer.Handler.Stores.{process_record-store}
use wb_orders.Consumer.Handler.Redelivery.{tables}
use wb_orders.System.{Step, completes}

decide_settles : (fs : List Bytes) (os : List Outcome) → is_pending (decide fs os).status ≡ false
decide_settles [] os = refl
decide_settles (f ∷ fs) os = refl

collect_settles :
    (rs : List (Outcome × Option OpError)) (d : Decision)
    → collect rs ≡ ok d
    → is_pending d.status ≡ false
unfolding collect
collect_settles rs d h =
    ground (arith, decide_settles (failures (sort (map (λ r. r.0) rs))) (sort (map (λ r. r.0) rs)))

-- The pipeline never decides that an order stays pending.
process_settles :
    (ops : List Operation) (schedule : List (Operation × Option CtxError)) (input : Input)
    (d : Decision)
    → process ops schedule input ≡ ok d
    → is_pending d.status ≡ false
unfolding process
process_settles [] schedule input d h = ground arith
process_settles (op ∷ ops) schedule input d h = collect_settles _ d h

-- However the handling of a record ends, and whatever the server, the broker, the clock and the headers
-- say, the worker with a pipeline of any operations leaves the tables as they are or as one step of the
-- system makes them.
pub process_record-Step :
    (c : Codec) (s : Server) (clock : Clock) (texts : Texts) (config : Config) (env : Env Db)
    (text : Error → Bytes) (checked_reply : Reply) (a : Answers) (ops : List Operation)
    (schedule : List (Operation × Option CtxError)) (source : KafkaRecord) (w : World Db)
    → let worker = record env {
      repository = tables c s text checked_reply a;
      process = process ops schedule;
    } in
      let after = (process_record c clock texts config worker source w).1.store in
      (after ≡ w.store) ⊎ Step c s w.store after
process_record-Step c s clock texts config env text checked_reply a ops schedule source w =
    let worker : Env Db = record env {
      repository = tables c s text checked_reply a;
      process = process ops schedule;
    } in
    process_record-store c clock texts config worker (λ db. (db ≡ w.store) ⊎ Step c s w.store db)
      source w (inl refl)
      (λ e decoded. (
        inl refl,
        λ input d decided. inr (
            completes a e.event_id config.consumer_name (change_of e d)
              (process_settles ops schedule input d decided) refl),
      ))

texted-rows :
    (text : Postgres.Error → Bytes) (r : Result Postgres.Error (Unit {0}) × List OutboxRow)
    → (texted text r).1 ≡ r.1
texted-rows text (ok u, rows) = refl
texted-rows text (err x, rows) = refl

module _ (c : Codec) (topics : Topics) (owner : Bytes) (texts : Stored.Texts) (m : Meets) where
  abbrev Rows : Type 0
  Rows = Publisher.World (List OutboxRow)

  -- One statement of the repository, or none.
  abbrev OneStatement : List OutboxRow → List OutboxRow → Type 0
  OneStatement rows after = (st : Statement) × (after ≡ apply st rows)

  rejection_rows :
      (fault : Fault) (w : Rows) (answer : Option Bytes × List OutboxRow)
      → (rejection c topics owner (env_of texts m) fault w answer).1.store ≡ answer.1
  rejection_rows fault w (none, rows) = refl
  rejection_rows fault w (some x, rows) = refl

  marking_rows :
      (w : Rows) (answer : Option Bytes × List OutboxRow)
      → (marking c topics owner (env_of texts m) w answer).1.store ≡ answer.1
  marking_rows w (none, rows) = refl
  marking_rows w (some x, rows) = refl

  freeing_rows :
      (cause : Bytes) (w : Rows) (answer : Option Bytes × List OutboxRow)
      → (freeing c topics owner (env_of texts m) cause w answer).1.store ≡ answer.1
  freeing_rows cause w (none, rows) = refl
  freeing_rows cause w (some x, rows) = refl

  put_back_one :
      (claimed : Claimed) (cause : Bytes) (w : Rows)
      → OneStatement w.store (put_back c topics owner (env_of texts m) claimed cause w).1.store
  unfolding put_back apply
  put_back_one claimed cause w = (
    releases m.reply texts.left claimed.id owner cause
        (m.now + exponential_backoff claimed.attempts second minute),
    freeing_rows cause w _ ∙ texted-rows texts.error _,
  )

  delivered_one :
      (claimed : Claimed) (out : KafkaRecord) (w : Rows) (d : Delivery)
      → OneStatement w.store (delivered c topics owner (env_of texts m) claimed out w d).1.store
  unfolding apply
  delivered_one claimed out w sent = (
    publishes m.reply m.server_now claimed.id owner,
    marking_rows (record w { published = out ∷ w.published }) _ ∙ texted-rows texts.error _,
  )
  delivered_one claimed out w (lost x) = put_back_one claimed x w
  delivered_one claimed out w (unsure x) =
      put_back_one claimed x (record w { published = out ∷ w.published })

  checked_one :
      (claimed : Claimed) (w : Rows) (r : Result Fault (Bytes × Envelope))
      → OneStatement w.store (checked c topics owner (env_of texts m) claimed w r).1.store
  unfolding fail_permanently apply
  checked_one claimed w (err fault) = (
    fails m.reply texts.left claimed.id owner (texts.fault fault),
    rejection_rows fault w _ ∙ texted-rows texts.error _,
  )
  checked_one claimed w (ok (topic, e)) = delivered_one claimed _ w _

  -- However the broker and the server answer, `publishOne` makes exactly one statement of the
  -- repository, so that it is one step of the system.
  pub publish_one-Step :
      (s : Server) (claimed : Claimed) (db : Db) (w : Rows)
      → w.store ≡ db.outbox_events
      → let after = (publish_one c topics owner (env_of texts m) claimed w).1.store in
        Step c s db (record db { outbox_events = after })
  unfolding publish_one
  publish_one-Step s claimed db w same =
      let (st, went) = checked_one claimed w (check c topics claimed) in
      Step.publishes st
        (ap (λ rows. record db { outbox_events = rows }) (went ∙ ap (apply st) same))
