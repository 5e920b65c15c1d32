-- ===== src/Order/Store/Fresh.antt =====
-- What a committed CreateWithEvent has found in the tables: neither its order's nor its event's id.
use wb_orders.Base.{
  ◌≡◌, ◌⊎◌, inl, inr, ap, sym, ◌∙◌, arith, false, Option-cases, some, ok, Result-cases, Result,
}
use wb_orders.Base.Text.{Bytes}
use wb_orders.Event.{Envelope}
use wb_orders.Json.{Codec, Server}
use wb_orders.Database.{Db, Reply, OrderRow, OutboxRow}
use wb_orders.Database.Transactions.{Settles, transact-Settles, rolled_back, applied, unconfirmed}
use wb_orders.Database.Inserts.{
  when_done, has_order, has_event, insert_order, insert_event, outbox_row,
}
use wb_orders.Order.Model.{Order}
use wb_orders.Order.Store.{
  Error, begin_failed, commit_failed, Answers, order_row, insert_items, create_body,
  create_with_event,
}
use wb_orders.Order.Store.Create.{with_order, insert_order-some, insert_items-ok, create_body-ok}

insert_order-fresh :
    (reply : Reply) (row : OrderRow) (db next : Db)
    → when_done reply (insert_order row db) ≡ some next
    → has_order row.id db.orders ≡ false
unfolding insert_order
insert_order-fresh reply row db next h = ground arith

insert_event-fresh :
    (reply : Reply) (row : OutboxRow) (db next : Db)
    → when_done reply (insert_event row db) ≡ some next
    → has_event row.id db.outbox_events ≡ false
unfolding insert_event
insert_event-fresh reply row db next h = ground arith

create_body-fresh :
    (c : Codec) (s : Server) (a : Answers) (o : Order) (e : Envelope) (db next : Db) (u : Unit {0})
    → create_body c s a o e db ≡ ok (u, next)
    → (has_order o.id db.orders ≡ false) × (has_event e.event_id db.outbox_events ≡ false)
unfolding create_body
create_body-fresh c s a o e db next u h =
    elim (Option-cases (when_done a.order (insert_order (order_row s o) db))) [
      | inl failed ↦ ground arith
      | inr (one, first) ↦ elim (Result-cases (insert_items a.item o.id o.items one)) [
        | inr (x, failed) ↦ ground arith
        | inl (two, second) ↦ elim (Option-cases (c.marshal_envelope e)) [
          | inl failed ↦ ground arith
          | inr (payload, third) ↦
              let row = outbox_row s a.now e e.aggregate_id payload in
              elim (Option-cases (when_done a.event (insert_event row two))) [
                | inl failed ↦ ground arith
                | inr (three, fourth) ↦ (
                  insert_order-fresh a.order (order_row s o) db one first,
                  ap (has_event e.event_id) (
                        sym (
                          ap (λ (d : Db). d.outbox_events)
                            (insert_order-some a.order (order_row s o) db one first))
                        ∙ sym (
                            ap (λ (d : Db). d.outbox_events)
                              (insert_items-ok a.item o.id o.items one two second)))
                      ∙ insert_event-fresh a.event row two three fourth,
                )
              ]
        ]
      ]
    ]

-- The tables hold the order and its event, whose ids were new.
pub record Stores (c : Codec) (s : Server) (a : Answers) (o : Order) (e : Envelope) (db after : Db)
    : Type 0 where
  pub payload : Bytes
  pub marshalled : c.marshal_envelope e ≡ some payload
  pub new_order : has_order o.id db.orders ≡ false
  pub new_event : has_event e.event_id db.outbox_events ≡ false
  pub shape : after ≡ with_order s a o e payload db

create_body-Stores :
    (c : Codec) (s : Server) (a : Answers) (o : Order) (e : Envelope) (db after : Db) (u : Unit {0})
    → create_body c s a o e db ≡ ok (u, after)
    → Stores c s a o e db after
create_body-Stores c s a o e db after u h =
    let (payload, marshalled, shape) = create_body-ok c s a o e db after u h in
    let (new_order, new_event) = create_body-fresh c s a o e db after u h in
    record {
      payload = payload;
      marshalled = marshalled;
      new_order = new_order;
      new_event = new_event;
      shape = shape;
    }

pub create_with_event-Stores :
    (c : Codec) (s : Server) (a : Answers) (o : Order) (e : Envelope) (db : Db)
    → let (r, after) = create_with_event c s a o e db in (after ≡ db) ⊎ Stores c s a o e db after
unfolding create_with_event
create_with_event-Stores c s a o e db =
    ends _ _ (
      transact-Settles begin_failed (λ _. commit_failed) a.begin a.commit (create_body c s a o e)
        db)
  where
    ends :
        (r : Result Error (Unit {0})) (after : Db)
        → Settles (create_body c s a o e db) db r after
        → (after ≡ db) ⊎ Stores c s a o e db after
    ends r after (rolled_back x failed same) = inl same
    ends r after (applied u went _) = inr (create_body-Stores c s a o e db after u went)
    ends r after (unconfirmed u x went _) = inr (create_body-Stores c s a o e db after u went)
