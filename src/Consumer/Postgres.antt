-- ===== src/Consumer/Postgres.antt =====
-- internal/consumer/postgres.go: the idempotency table and the completion of an order.
use wb_orders.Base.{
  ℕ, ◌≡◌, Bool, true, false, ◌||◌, ◌&&◌, not, length, List, [], ◌∷◌, ◌++◌, map, Option, none, some,
  leb, ◌==◌, Result, ok, err, ◌>>=◌, ◌>>◌, fail_if, map_err, if◌then◌else◌,
}
use wb_orders.Base.Text.{Bytes, bytes_eq}
use wb_orders.Event
use wb_orders.Event.{Uuid, Time, Envelope, order_status_changed}
use wb_orders.Json.{Codec, Server}
use wb_orders.Database.{Db, OrderRow, OutboxRow, ProcessedRow, Reply, done, broken, CommitReply}
use wb_orders.Database.Transactions.{transact}
use wb_orders.Database.Queries.{find_order}
use wb_orders.Database.Inserts.{or_fail, when_done, insert_event, outbox_row}
use wb_orders.Order.Model.{Status, pending, confirmed, failed, StatusChangedPayload}
pub mod Completion
pub mod Endings
pub mod Interleaved
pub mod Once
pub mod Total

-- How a completion ends that its transaction commits.
pub data Verdict : Type 0 where
  duplicate stale applied : Verdict

abbrev pub is_applied : Verdict → Bool
is_applied applied = true
is_applied duplicate = false
is_applied stale = false

pub data Error : Type 0 where
  check_failed begin_failed record_failed lock_failed update_failed marshal_failed : Error
  insert_failed : Error
  bad_event : Event.Error → Error
  commit_failed : Verdict → Error

unfoldable pub is_recorded : Uuid → Bytes → List ProcessedRow → Bool
is_recorded event consumer [] = false
is_recorded event consumer (r ∷ rows) =
    r.event_id == event && bytes_eq r.consumer_name consumer || is_recorded event consumer rows

-- `IsProcessed`.
unfoldable pub is_processed : Reply → Uuid → Bytes → Db → Result Error Bool
is_processed broken event consumer db = err check_failed
is_processed done event consumer db = ok (is_recorded event consumer db.processed_events)

-- What the server answers to the statements of one `Complete`, its now(), and what uuid.New and
-- time.Now give for the status event.
pub record Answers : Type 0 where
  pub begin : Reply
  pub recorded : Reply
  pub locked : Reply
  pub updated : Reply
  pub inserted : Reply
  pub commit : CommitReply
  pub now : Time
  pub event_id : Uuid
  pub occurred_at : Time

-- The arguments of `Complete` after the event and the consumer's name.
pub record Change : Type 0 where
  pub order_id : Uuid
  pub status : Status
  pub reason : Bytes
  pub request_id : Bytes

-- `SELECT status FROM orders WHERE id = $1 FOR UPDATE`.
abbrev pub when_locked : Reply → Option OrderRow → Option OrderRow
when_locked broken o = none
when_locked done o = o

-- `UPDATE orders SET status = $2, updated_at = now() WHERE id = $1`.
unfoldable pub set_status : Uuid → Status → Time → List OrderRow → List OrderRow
set_status id status now [] = []
set_status id status now (r ∷ rows) =
    (if r.id == id then record r { status = status; updated_at = now } else r)
    ∷ set_status id status now rows

-- The row that the UPDATE makes must pass `CHECK (updated_at >= created_at)`.
unfoldable pub update_order : OrderRow → Status → Time → Db → Option Db
update_order r status now db =
    if leb r.created_at now
    then some (record db { orders = set_status r.id status now db.orders })
    else none

abbrev pub is_pending : Status → Bool
is_pending pending = true
is_pending confirmed = false
is_pending failed = false

-- The row of `processed_events`; its name must not be empty.
unfoldable pub record_event : Uuid → Bytes → Time → Db → Option Db
record_event event consumer now db =
    if length consumer == 0
    then none
    else some (record db {
      processed_events =
          record { event_id = event; consumer_name = consumer; processed_at = now }
          ∷ db.processed_events;
    })

-- The status event, and its row.
unfoldable pub emit : Codec → Server → Answers → Status → Change → Db → Result Error Db
emit c s a previous k db = do
  event ← map_err bad_event (
      Event.new a.event_id a.occurred_at order_status_changed k.order_id k.request_id (
        c.marshal_status_changed
          (record { previous_status = previous; current_status = k.status; reason = k.reason })))
  payload ← or_fail (c.marshal_envelope event) marshal_failed
  or_fail (when_done a.inserted (insert_event (outbox_row s a.now event k.order_id payload) db))
      insert_failed

-- From the row that FOR UPDATE has locked on.
unfoldable pub change :
    Codec → Server → Answers → Change → OrderRow → Db → Result Error (Verdict × Db)
change c s a k r db = elim (is_pending r.status) [
  | false ↦ ok (stale, db)
  | true ↦ do
    updated ← or_fail (when_done a.updated (update_order r k.status a.now db)) update_failed
    emitted ← emit c s a r.status k updated
    ok (applied, emitted)
]

-- The rest of the transaction, once the event is noted.
unfoldable pub settle_order : Codec → Server → Answers → Change → Db → Result Error (Verdict × Db)
settle_order c s a k db = do
  r ← or_fail (when_locked a.locked (find_order k.order_id db.orders)) lock_failed
  change c s a k r db

-- `INSERT … ON CONFLICT DO NOTHING` affects no row if the event is noted already.
unfoldable pub complete_body :
    Codec → Server → Answers → Uuid → Bytes → Change → Db → Result Error (Verdict × Db)
complete_body c s a event consumer k db = elim (is_recorded event consumer db.processed_events) [
  | true ↦ do same ← or_fail (when_done a.recorded (some db)) record_failed; ok (duplicate, same)
  | false ↦ do
    noted ← or_fail (when_done a.recorded (record_event event consumer a.now db)) record_failed
    settle_order c s a k noted
]

-- `Complete`: whether this call has changed the order.
unfoldable pub complete :
    Codec → Server → Answers → Uuid → Bytes → Change → Db → Result Error Bool × Db
complete c s a event consumer k db =
    let (r, after) =
      transact begin_failed commit_failed a.begin a.commit (complete_body c s a event consumer k)
        db in
    (r >>= λ verdict. ok (is_applied verdict), after)
