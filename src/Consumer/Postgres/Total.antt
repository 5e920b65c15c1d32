-- ===== src/Consumer/Postgres/Total.antt =====
-- The first completion of a pending order succeeds on a server that answers.
use wb_orders.Base.{◌≡◌, ◌≢◌, ◌≤◌, refl, arith, [], ◌∷◌, ◌++◌, true, false, some, ok}
use wb_orders.Base.Text.{Bytes}
use wb_orders.Event
use wb_orders.Event.{Uuid, Time, Envelope, order_status_changed, unchecked}
use wb_orders.Event.Laws
use wb_orders.Json.{Codec, Server}
use wb_orders.Database.{Db, OrderRow, done, committed}
use wb_orders.Database.Transactions.{transact}
use wb_orders.Database.Inserts.{insert_event, outbox_row, has_event}
use wb_orders.Order.Model.{pending}
use wb_orders.Consumer.Postgres.{
  is_recorded, Answers, Change, set_status, update_order, record_event, emit, change, settle_order,
  complete_body, complete,
}
use wb_orders.Database.Queries.{find_order}
use wb_orders.Consumer.Postgres.Completion.{noted_row, moved}

-- Every statement is carried out, and the commit is acknowledged.
pub record IsUp (a : Answers) : Type 0 where
  pub begin : a.begin ≡ done
  pub recorded : a.recorded ≡ done
  pub locked : a.locked ≡ done
  pub updated : a.updated ≡ done
  pub inserted : a.inserted ≡ done
  pub commit : a.commit ≡ committed

-- The event that reports the change of a pending order.
abbrev pub report : Answers → Change → Bytes → Envelope
report a k raw = unchecked a.event_id a.occurred_at order_status_changed k.order_id k.request_id raw

emit_total :
    (c : Codec) (s : Server) (a : Answers) (k : Change) (db : Db) (raw payload : Bytes)
    → IsUp a
    → c.marshal_status_changed
        (record { previous_status = pending; current_status = k.status; reason = k.reason })
      ≡ some raw
    → Event.Laws.IsValid (report a k raw)
    → c.marshal_envelope (report a k raw) ≡ some payload
    → has_event a.event_id db.outbox_events ≡ false
    → emit c s a pending k db
      ≡ ok (record db {
        outbox_events =
            db.outbox_events ++ outbox_row s a.now (report a k raw) k.order_id payload ∷ [];
      })
unfolding emit insert_event
emit_total c s a k db raw payload up m v m' new_event = ground (
  arith,
  (Event.Laws.new-IsValid a.event_id a.occurred_at order_status_changed k.order_id k.request_id raw
        (report a k raw)).1
      (v, refl),
)

-- The first completion of a pending order succeeds: if the consumer has a name, the server carries out
-- every statement, with a clock that is not behind the order's creation, and the status event can be
-- marshalled, is valid and is not stored, then the order takes the status, the event is noted, and the
-- status event waits in the outbox.
pub complete_total :
    (c : Codec) (s : Server) (a : Answers) (event : Uuid) (consumer : Bytes) (k : Change) (db : Db)
    (r : OrderRow) (raw payload : Bytes)
    → IsUp a
    → consumer ≢ []
    → is_recorded event consumer db.processed_events ≡ false
    → find_order k.order_id db.orders ≡ some r
    → r.status ≡ pending
    → r.created_at ≤ a.now
    → c.marshal_status_changed
        (record { previous_status = pending; current_status = k.status; reason = k.reason })
      ≡ some raw
    → Event.Laws.IsValid (report a k raw)
    → c.marshal_envelope (report a k raw) ≡ some payload
    → has_event a.event_id db.outbox_events ≡ false
    → complete c s a event consumer k db
      ≡ (ok true, moved s a event consumer k r (report a k raw) payload db)
unfolding complete transact complete_body record_event settle_order change update_order
complete_total c s a event consumer k db r raw payload up named new found was late m v m'
      new_event =
    let mid : Db = record db {
      orders = set_status r.id k.status a.now db.orders;
      processed_events = noted_row event consumer a.now ∷ db.processed_events;
    } in
    ground (arith, emit_total c s a k mid raw payload up m v m' new_event)
