-- ===== src/Order/Service/Total.antt =====
-- A command that is an order is created on a server that answers.
use wb_orders.Base.{◌≡◌, refl, arith, ok, some, false}
use wb_orders.Base.Text.{Bytes}
use wb_orders.Event
use wb_orders.Event.{Envelope, uuid_nil, zero_time, order_created, unchecked}
use wb_orders.Event.Laws
use wb_orders.Json.{Codec, Server}
use wb_orders.Database.{Db}
use wb_orders.Database.Inserts.{has_order, has_event}
use wb_orders.Order.Model.{Order, CreateCommand}
use wb_orders.Order.Model.Laws.{IsOrderable, placed, new-placed}
use wb_orders.Order.Store.{Answers}
use wb_orders.Order.Store.Create.{with_order}
use wb_orders.Order.Store.Total.{IsUp, ItemsRefer, create_with_event_total}
use wb_orders.Order.Service.{Fresh, announce, created_payload, request_id_or, prepare, create}

-- The order and the event of a call, with the request id and the marshalled payload of the event.
abbrev pub order_of : Fresh → CreateCommand → Order
order_of f command = placed f.order_id f.created_at command

abbrev pub event_of : Fresh → Bytes → Bytes → Envelope
event_of f id raw = unchecked f.event_id f.occurred_at order_created f.order_id id raw

-- A server that carries out every statement, new identifiers, tables in which no item lacks its order, and
-- an event that is valid and can be marshalled.
pub record CanCreate (c : Codec) (a : Answers) (f : Fresh) (id : Bytes) (command : CreateCommand)
    (db : Db) (raw payload : Bytes) : Type 0 where
  pub up : IsUp a
  pub refers : ItemsRefer db
  pub new_order : has_order f.order_id db.orders ≡ false
  pub new_event : has_event f.event_id db.outbox_events ≡ false
  pub valid : Event.Laws.IsValid (event_of f id raw)
  pub carried : c.marshal_created (created_payload (order_of f command)) ≡ some raw
  pub marshalled : c.marshal_envelope (event_of f id raw) ≡ some payload

pub create_total :
    (c : Codec) (s : Server) (a : Answers) (f : Fresh) (id : Bytes) (command : CreateCommand)
    (db : Db) (raw payload : Bytes)
    → request_id_or id f.request_id ≡ id
    → IsOrderable command
    → CanCreate c a f id command db raw payload
    → create c s a f id command db ≡ (
      ok (order_of f command),
      with_order s a (order_of f command) (event_of f id raw) payload db,
    )
unfolding create prepare announce
create_total c s a f id command db raw payload given v can =
    let o = order_of f command in
    let made = (new-placed f.order_id f.created_at command o).1 (v, refl) in
    let built =
      (Event.Laws.new-IsValid f.event_id f.occurred_at order_created f.order_id id raw
          (event_of f id raw)).1
        (can.valid, refl) in
    let stored =
      create_with_event_total c s a f.order_id f.created_at command o (event_of f id raw) db payload
        made can.up can.refers can.new_order can.new_event can.valid.typed can.marshalled in
    ground (arith, can.carried)
