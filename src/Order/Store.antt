-- ===== src/Order/Store.antt =====
-- internal/order/postgres.go. Each statement is a function on the tables: `none` is an error, of the
-- server's (`broken`) or of a constraint of migrations/000001_init.up.sql.
use wb_orders.Base.{
  ℕ, ◌≡◌, Bool, ◌||◌, ◌&&◌, not, length, List, [], ◌∷◌, ◌++◌, map, Option, none, some, ltb, leb,
  ◌==◌, Result, ok, err, ◌>>=◌, if◌then◌else◌,
}
use wb_orders.Base.Int.{ℤ, pos, ltb_ℤ}
use wb_orders.Base.Text.{Bytes, bytes_eq, rune_count}
use wb_orders.Event.{Uuid, Time, Envelope}
use wb_orders.Json.{Codec, Server}
use wb_orders.Database.{
  Db, OrderRow, ItemRow, OutboxRow, Reply, done, broken, CommitReply, OutboxStatus,
}
use wb_orders.Database.Transactions.{transact}
use wb_orders.Database.Inserts.{
  or_fail, when_done, insert_order, insert_item, insert_event, outbox_row,
}
use wb_orders.Database.Queries.{find_order, items_of, order_by_sku}
use wb_orders.Order.Model.{Item, Order, currency_rub}
pub mod Create
pub mod Fresh
pub mod BySku
pub mod Reading
pub mod Total

pub data Error : Type 0 where
  begin_failed marshal_failed event_failed order_failed commit_failed : Error
  item_failed : Bytes → Error
  not_found select_failed select_items_failed : Error

-- What the server answers to the statements of one `CreateWithEvent`, and its now().
pub record Answers : Type 0 where
  pub begin : Reply
  pub order : Reply
  pub item : Item → Reply
  pub event : Reply
  pub commit : CommitReply
  pub now : Time

abbrev pub order_row : Server → Order → OrderRow
order_row s o = record {
  id = o.id;
  customer_id = o.customer_id;
  warehouse_id = o.warehouse_id;
  status = o.status;
  currency = o.currency;
  total_amount_minor = o.total_amount_minor;
  created_at = s.timestamptz o.created_at;
  updated_at = s.timestamptz o.updated_at;
}

abbrev pub item_row : Uuid → Item → ItemRow
item_row id i = record {
  order_id = id;
  sku = i.sku;
  quantity = i.quantity;
  unit_price_minor = i.unit_price_minor;
}

-- The loop over `created.Items`.
unfoldable pub insert_items : (Item → Reply) → Uuid → List Item → Db → Result Error Db
insert_items reply id [] db = ok db
insert_items reply id (i ∷ items) db =
    or_fail (when_done (reply i) (insert_item (item_row id i) db)) (item_failed i.sku) >>= λ next.
    insert_items reply id items next

unfoldable pub create_body :
    Codec → Server → Answers → Order → Envelope → Db → Result Error (Unit {0} × Db)
create_body c s a o e db = do
  with_order ← or_fail (when_done a.order (insert_order (order_row s o) db)) order_failed
  with_items ← insert_items a.item o.id o.items with_order
  payload ← or_fail (c.marshal_envelope e) marshal_failed
  let row = outbox_row s a.now e e.aggregate_id payload
  with_event ← or_fail (when_done a.event (insert_event row with_items)) event_failed
  ok (tt, with_event)

unfoldable pub create_with_event :
    Codec → Server → Answers → Order → Envelope → Db → Result Error (Unit {0}) × Db
create_with_event c s a o e =
    transact begin_failed (λ _. commit_failed) a.begin a.commit (create_body c s a o e)

abbrev pub selected : Reply → Option OrderRow → Result Error OrderRow
selected broken o = err select_failed
selected done none = err not_found
selected done (some r) = ok r

abbrev pub listed : Reply → List Item → Result Error (List Item)
listed broken items = err select_items_failed
listed done items = ok items

-- `Get`: its two queries see the tables at two times.
unfoldable pub get : Server → Reply → Reply → Uuid → Db → Db → Result Error Order
get s first second id db later = do
  r ← selected first (find_order id db.orders)
  items ← listed second (order_by_sku s.collate (items_of id later.order_items))
  ok (record {
    id = r.id;
    customer_id = r.customer_id;
    warehouse_id = r.warehouse_id;
    status = r.status;
    currency = r.currency;
    total_amount_minor = r.total_amount_minor;
    items = items;
    created_at = r.created_at;
    updated_at = r.updated_at;
  })
