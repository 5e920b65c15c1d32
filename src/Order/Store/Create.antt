-- ===== src/Order/Store/Create.antt =====
-- CreateWithEvent: an order and its event are stored together or not at all.
use wb_orders.Base.{
  ◌≡◌, ◌≢◌, ◌⊎◌, inl, inr, List, [], ◌∷◌, ◌++◌, map, Option-cases, some, ok, arith, Result-cases,
  Result,
}
use mathlib.Core.List.{append_assoc, append-nil}
use wb_orders.Base.Text.{Bytes}
use wb_orders.Event.{Uuid, Envelope}
use wb_orders.Json.{Codec, Server}
use wb_orders.Database.{Db, Reply, ItemRow, OrderRow, OutboxRow}
use wb_orders.Database.Transactions.{Settles, transact-Settles, rolled_back, applied, unconfirmed}
use wb_orders.Database.Inserts.{when_done, insert_order, insert_item, insert_event, outbox_row}
use wb_orders.Order.Model.{Item, Order}
use wb_orders.Order.Store.{
  Error, begin_failed, commit_failed, Answers, order_row, item_row, insert_items, create_body,
  create_with_event,
}

-- The tables with an order, its items and its event, whose payload is `payload`.
abbrev pub with_order : Server → Answers → Order → Envelope → Bytes → Db → Db
with_order s a o e payload db = record db {
  orders = order_row s o ∷ db.orders;
  order_items = db.order_items ++ map (item_row o.id) o.items;
  outbox_events = db.outbox_events ++ outbox_row s a.now e e.aggregate_id payload ∷ [];
}

pub insert_order-some :
    (reply : Reply) (row : OrderRow) (db next : Db)
    → when_done reply (insert_order row db) ≡ some next
    → next ≡ record db { orders = row ∷ db.orders }
unfolding insert_order
insert_order-some reply row db next h = ground arith

insert_item-some :
    (reply : Reply) (row : ItemRow) (db next : Db)
    → when_done reply (insert_item row db) ≡ some next
    → next ≡ record db { order_items = db.order_items ++ row ∷ [] }
unfolding insert_item
insert_item-some reply row db next h = ground arith

insert_event-some :
    (reply : Reply) (row : OutboxRow) (db next : Db)
    → when_done reply (insert_event row db) ≡ some next
    → next ≡ record db { outbox_events = db.outbox_events ++ row ∷ [] }
unfolding insert_event
insert_event-some reply row db next h = ground arith

pub insert_items-ok :
    (reply : Item → Reply) (id : Uuid) (items : List Item) (db next : Db)
    → insert_items reply id items db ≡ ok next
    → next ≡ record db { order_items = db.order_items ++ map (item_row id) items }
unfolding insert_items
insert_items-ok reply id [] db next h = ground (arith, append-nil db.order_items)
insert_items-ok reply id (i ∷ items) db next h =
    elim (Option-cases (when_done (reply i) (insert_item (item_row id i) db))) [
      | inl failed ↦ ground arith
      | inr (mid, went) ↦ ground (
        arith,
        insert_item-some (reply i) (item_row id i) db mid went,
        insert_items-ok reply id items mid next,
        append_assoc db.order_items (item_row id i ∷ []) (map (item_row id) items),
      )
    ]

pub create_body-ok :
    (c : Codec) (s : Server) (a : Answers) (o : Order) (e : Envelope) (db next : Db) (u : Unit {0})
    → create_body c s a o e db ≡ ok (u, next)
    → (payload : Bytes) × (c.marshal_envelope e ≡ some payload)
      × (next ≡ with_order s a o e payload db)
unfolding create_body
create_body-ok c s a o e db next u h =
    elim (Option-cases (when_done a.order (insert_order (order_row s o) db))) [
      | inl failed ↦ ground arith
      | inr (one, first) ↦ elim (Result-cases (insert_items a.item o.id o.items one)) [
        | inr (x, failed) ↦ ground arith
        | inl (two, second) ↦ elim (Option-cases (c.marshal_envelope e)) [
          | inl failed ↦ ground arith
          | inr (payload, third) ↦ (
            payload,
            third,
            ground (
              arith,
              insert_order-some a.order (order_row s o) db one first,
              insert_items-ok a.item o.id o.items one two second,
              insert_event-some a.event (outbox_row s a.now e e.aggregate_id payload) two next,
            ),
          )
        ]
      ]
    ]

-- Whatever the server answers, the tables end as they were or with the order, all its items and its
-- event together; and a call that succeeds has stored them.
pub create_with_event_atomic :
    (c : Codec) (s : Server) (a : Answers) (o : Order) (e : Envelope) (db : Db)
    → let (r, after) = create_with_event c s a o e db in
      ((after ≡ db) × (r ≢ ok tt))
      ⊎ ((payload : Bytes) × (c.marshal_envelope e ≡ some payload)
          × (after ≡ with_order s a o e payload db))
unfolding create_with_event
create_with_event_atomic c s a o e db =
    atomic _ _ (
      transact-Settles begin_failed (λ _. commit_failed) a.begin a.commit (create_body c s a o e)
        db)
  where
    atomic :
        (r : Result Error (Unit {0})) (after : Db)
        → Settles (create_body c s a o e db) db r after
        → ((after ≡ db) × (r ≢ ok tt))
          ⊎ ((payload : Bytes) × (c.marshal_envelope e ≡ some payload)
              × (after ≡ with_order s a o e payload db))
    atomic r after (rolled_back x failed same) = inl (same, ground arith)
    atomic r after (applied u went _) = inr (create_body-ok c s a o e db after u went)
    atomic r after (unconfirmed u x went _) = inr (create_body-ok c s a o e db after u went)
