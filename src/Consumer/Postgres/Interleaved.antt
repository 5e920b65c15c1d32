-- ===== src/Consumer/Postgres/Interleaved.antt =====
-- `Complete` statement by statement, with the tables as other transactions have left them at each.
use wb_orders.Base.{
  ◌≡◌, ◌≢◌, ◌⊎◌, refl, ap, sym, ◌∙◌, inl, inr, arith, [], ◌∷◌, ◌++◌, Bool, Bool-cases, true, false,
  Option, Option-cases, some, none, Result, Result-cases, ok, err, ◌>>=◌, map_err,
}
use wb_orders.Base.Text.{Bytes}
use wb_orders.Event
use wb_orders.Event.{Uuid, Envelope, order_status_changed}
use wb_orders.Event.Laws
use wb_orders.Json.{Codec, Server}
use wb_orders.Database.{Db, OrderRow, OutboxRow, Reply, done, broken}
use wb_orders.Database.Transactions.{
  transact, transact-Settles, Settles, rolled_back, applied, unconfirmed,
}
use wb_orders.Database.Inserts.{or_fail, when_done, has_event, insert_event, outbox_row}
use wb_orders.Database.Queries.{find_order}
use wb_orders.Consumer.Postgres.{
  Verdict, duplicate, stale, is_applied, Error, begin_failed, record_failed, lock_failed,
  update_failed, marshal_failed, insert_failed, bad_event, commit_failed, is_recorded, Answers,
  Change, when_locked, set_status, update_order, is_pending, record_event, emit, change,
  settle_order, complete_body, complete,
}
use wb_orders.Consumer.Postgres.Completion.{noted, moved}
pub mod Atomic

-- The committed tables when the event is noted, when the order is locked and when the status event is stored.
pub record Moments : Type 0 where
  pub at_record : Db
  pub at_lock : Db
  pub at_insert : Db

-- The event and the row that the transaction inserts.
unfoldable pub status_event : Codec → Answers → OrderRow → Change → Result Error (Envelope × Bytes)
status_event c a r k = do
  event ← map_err bad_event (
      Event.new a.event_id a.occurred_at order_status_changed k.order_id k.request_id (
        c.marshal_status_changed
          (record { previous_status = r.status; current_status = k.status; reason = k.reason })))
  payload ← or_fail (c.marshal_envelope event) marshal_failed
  ok (event, payload)

-- What the transaction writes becomes visible when it commits, in the tables `db` of that time.
unfoldable pub change_between :
    Codec
    → Server
    → Answers
    → Uuid
    → Bytes
    → Change
    → Moments
    → OrderRow
    → Db
    → Result Error (Verdict × Db)
change_between c s a event consumer k m r db = elim (is_pending r.status) [
  | false ↦ ok (stale, noted a event consumer db)
  | true ↦ do
    updated ← or_fail (when_done a.updated (update_order r k.status a.now m.at_lock)) update_failed
    (e, payload) ← status_event c a r k
    inserted ←
        or_fail
          (when_done a.inserted
            (insert_event (outbox_row s a.now e k.order_id payload) m.at_insert))
          insert_failed
    ok (Verdict.applied, moved s a event consumer k r e payload db)
]

unfoldable pub body_between :
    Codec → Server → Answers → Uuid → Bytes → Change → Moments → Db → Result Error (Verdict × Db)
body_between c s a event consumer k m db =
    elim (is_recorded event consumer m.at_record.processed_events) [
      | true ↦ do
        same ← or_fail (when_done a.recorded (some db)) record_failed
        ok (duplicate, same)
      | false ↦ do
        recorded ←
            or_fail (when_done a.recorded (record_event event consumer a.now m.at_record))
              record_failed
        r ← or_fail (when_locked a.locked (find_order k.order_id m.at_lock.orders)) lock_failed
        change_between c s a event consumer k m r db
    ]

-- `Complete`, ended when the committed tables are `db`.
unfoldable pub complete_between :
    Codec → Server → Answers → Uuid → Bytes → Change → Moments → Db → Result Error Bool × Db
complete_between c s a event consumer k m db =
    let (r, after) =
      transact begin_failed commit_failed a.begin a.commit (body_between c s a event consumer k m)
        db in
    (r >>= λ verdict. ok (is_applied verdict), after)

-- What PostgreSQL keeps for a transaction until it ends: whether the event is noted, which the unique index
-- decides for the first to insert it; the row that FOR UPDATE has locked; the id of the inserted event.
pub record IsKept (a : Answers) (event : Uuid) (consumer : Bytes) (k : Change) (m : Moments)
    (db : Db) : Type 0 where
  pub noting :
      is_recorded event consumer db.processed_events
      ≡ is_recorded event consumer m.at_record.processed_events
  pub locking :
      (r : OrderRow)
      → find_order k.order_id m.at_lock.orders ≡ some r
      → find_order k.order_id db.orders ≡ some r
  pub inserting :
      has_event a.event_id m.at_insert.outbox_events ≡ false
      → has_event a.event_id db.outbox_events ≡ false
