-- ===== src/Database/Inserts.antt =====
-- The INSERT statements of internal/order/postgres.go and internal/consumer/postgres.go on the tables.
-- `none` is an error: of the server's (`broken`), or of a constraint of
-- migrations/000001_init.up.sql.
use wb_orders.Base.{
  Bool, false, ◌||◌, ◌&&◌, not, length, List, [], ◌∷◌, ◌++◌, Option, none, some, leb, ◌==◌, Result,
  ok, err, if◌then◌else◌,
}
use wb_orders.Base.Int.{pos, ltb_ℤ}
use wb_orders.Base.Text.{Bytes, bytes_eq, rune_count}
use wb_orders.Event.{Uuid, Time, Envelope}
use wb_orders.Json.{Server}
use wb_orders.Database.{Db, OrderRow, ItemRow, OutboxRow, Reply, done, broken, OutboxStatus}
use wb_orders.Order.Model.{currency_rub}

-- A statement that fails ends the transaction with an error.
abbrev pub or_fail {ℓ κ} : {E : Type ℓ} {A : Type κ} → Option A → E → Result E A
or_fail none e = err e
or_fail (some a) e = ok a

abbrev pub when_done : Reply → Option Db → Option Db
when_done broken o = none
when_done done o = o

unfoldable pub has_order : Uuid → List OrderRow → Bool
has_order id [] = false
has_order id (r ∷ rows) = r.id == id || has_order id rows

unfoldable pub has_item : Uuid → Bytes → List ItemRow → Bool
has_item id sku [] = false
has_item id sku (r ∷ rows) = r.order_id == id && bytes_eq r.sku sku || has_item id sku rows

unfoldable pub has_event : Uuid → List OutboxRow → Bool
has_event id [] = false
has_event id (r ∷ rows) = r.id == id || has_event id rows

-- The CHECK constraints of `orders` and of `order_items`.
unfoldable pub order_checks : OrderRow → Bool
order_checks r =
    bytes_eq r.currency currency_rub
    && ltb_ℤ (pos 0) r.total_amount_minor
    && leb r.created_at r.updated_at

unfoldable pub item_checks : ItemRow → Bool
item_checks r =
    leb 1 (rune_count r.sku)
    && leb (rune_count r.sku) 128
    && ltb_ℤ (pos 0) r.quantity
    && ltb_ℤ (pos 0) r.unit_price_minor

unfoldable pub insert_order : OrderRow → Db → Option Db
insert_order r db =
    if order_checks r && not (has_order r.id db.orders)
    then some (record db { orders = r ∷ db.orders })
    else none

unfoldable pub insert_item : ItemRow → Db → Option Db
insert_item r db =
    if item_checks r
      && has_order r.order_id db.orders
      && not (has_item r.order_id r.sku db.order_items)
    then some (record db { order_items = db.order_items ++ r ∷ [] })
    else none

unfoldable pub insert_event : OutboxRow → Db → Option Db
insert_event r db =
    if not (length r.event_type == 0) && not (has_event r.id db.outbox_events)
    then some (record db { outbox_events = db.outbox_events ++ r ∷ [] })
    else none

-- The columns that the INSERT into `outbox_events` leaves out take their defaults.
abbrev pub outbox_row : Server → Time → Envelope → Uuid → Bytes → OutboxRow
outbox_row s now e aggregate_id payload = record {
  id = e.event_id;
  aggregate_id = aggregate_id;
  event_type = e.event_type;
  payload = s.jsonb payload;
  status = OutboxStatus.pending;
  created_at = s.timestamptz e.occurred_at;
  published_at = none;
  attempts = 0;
  next_attempt_at = now;
  locked_by = none;
  locked_until = none;
  last_error = none;
}
