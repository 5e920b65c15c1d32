-- ===== src/Tests/Completions.antt =====
-- The completion of one order in the tables, at concrete values.
use wb_orders.Base.{◌≡◌, refl, true, [], some, ok, arith}
use wb_orders.Base.Text.{Bytes, lit, is_blank}
use wb_orders.Event
use wb_orders.Event.{Envelope}
use wb_orders.Event.Laws
use wb_orders.Database.{Db, OrderRow, done, committed}
use wb_orders.Database.Inserts.{has_event}
use wb_orders.Order.Model.{confirmed, failed}
use wb_orders.Order.Store.{order_row}
use wb_orders.Consumer.Postgres.{Answers, Change, is_recorded, set_status, complete}
use wb_orders.Database.Queries.{find_order}
use wb_orders.Consumer.Postgres.Completion.{moved}
use wb_orders.Consumer.Postgres.Total.{report, complete_total}
use wb_orders.Tests.Fixtures.{noon, the_order, request, document, codec, server}
use wb_orders.Tests.Orders.{stored_db}

abbrev pub worker : Bytes
worker = lit "orders-worker"

abbrev pub confirmation : Change
confirmation = record { order_id = 11; status = confirmed; reason = []; request_id = request }

abbrev rejection : Change
rejection = record { order_id = 11; status = failed; reason = lit "late"; request_id = request }

abbrev pub answers : Answers
answers = record {
  begin = done;
  recorded = done;
  locked = done;
  updated = done;
  inserted = done;
  commit = committed;
  now = noon;
  event_id = 21;
  occurred_at = noon;
}

abbrev status_event : Envelope
status_event = report answers confirmation document

status_event-ok : Event.validate status_event ≡ ok tt
unfolding Event.validate is_blank
status_event-ok = refl

-- The tables after the confirmation.
abbrev pub confirmed_db : Db
confirmed_db =
    moved server answers 12 worker confirmation (order_row server the_order) status_event document
      stored_db

complete_total_example :
    complete codec server answers 12 worker confirmation stored_db ≡ (ok true, confirmed_db)
unfolding is_recorded find_order has_event
complete_total_example =
    complete_total codec server answers 12 worker confirmation stored_db
      (order_row server the_order) document document
      (record {
        begin = refl;
        recorded = refl;
        locked = refl;
        updated = refl;
        inserted = refl;
        commit = refl;
      })
      (λ e. ground arith) refl refl refl (omega arith) refl
      ((Event.Laws.validate-IsValid status_event).0 status_event-ok) refl refl

pub confirms :
    complete codec server answers 12 worker confirmation stored_db ≡ (ok true, confirmed_db)
unfolding is_recorded find_order has_event
confirms =
    complete_total codec server answers 12 worker confirmation stored_db
      (order_row server the_order) document document
      (record {
        begin = refl;
        recorded = refl;
        locked = refl;
        updated = refl;
        inserted = refl;
        commit = refl;
      })
      (λ e. ground arith) refl refl refl (omega arith) refl
      ((Event.Laws.validate-IsValid status_event).0 status_event-ok) refl refl

abbrev confirmed_row : OrderRow
confirmed_row = record (order_row server the_order) { status = confirmed; updated_at = noon }

finds_confirmed : find_order 11 confirmed_db.orders ≡ some confirmed_row
unfolding find_order set_status
finds_confirmed = refl
