-- ===== src/Order/Service/Laws.antt =====
-- What a created order and its event have in common, and that they are stored as a pair.
use wb_orders.Base.{
  ◌≡◌, ap, sym, ◌∙◌, refl, ok, err, some, inl, inr, arith, map_err, ◌>>=◌, Result-cases,
}
use wb_orders.Base.Text.{Bytes}
use wb_orders.Event
use wb_orders.Event.{Envelope, order_created, unchecked}
use wb_orders.Event.Laws
use wb_orders.Json.{Codec, Server}
use wb_orders.Database.{Db}
use wb_orders.Order.Model.{Order, CreateCommand, Invalid, new, validate, validate_payload}
use wb_orders.Order.Model.Laws.{IsOrderable, placed, new-placed, validate_payload_iff}
use wb_orders.Order.Store.{Answers, create_with_event}
use wb_orders.Order.Store.Create.{with_order, create_with_event_atomic}
use wb_orders.Order.Service.{
  Error, invalid, not_created, Fresh, announce, created_payload, request_id_or, prepare, create,
}

-- An order and the envelope that announces it: a pending order for the command, and a valid
-- OrderCreated event about it whose payload passes the worker's check.
pub record Announces (c : Codec) (f : Fresh) (command : CreateCommand) (o : Order) (e : Envelope)
    : Type 0 where
  pub orderable : IsOrderable command
  pub order : o ≡ placed f.order_id f.created_at command
  pub valid : Event.Laws.IsValid e
  pub named : e.event_id ≡ f.event_id
  pub typed : e.event_type ≡ order_created
  pub about : e.aggregate_id ≡ o.id
  pub carried : c.marshal_created (created_payload o) ≡ some e.payload
  pub accepted : validate_payload (created_payload o) ≡ ok tt

placed-accepted :
    (f : Fresh) (command : CreateCommand) (o : Order)
    → IsOrderable command
    → o ≡ placed f.order_id f.created_at command
    → validate_payload (created_payload o) ≡ ok tt
placed-accepted f command o v same = rw same (
    (validate_payload_iff (created_payload (placed f.order_id f.created_at command))).1
      (refl, v, refl))

announce-ok :
    (c : Codec) (f : Fresh) (given : Bytes) (o : Order) (e : Envelope)
    → announce c f given o ≡ ok e
    → (raw : Bytes) × (c.marshal_created (created_payload o) ≡ some raw)
      × Event.Laws.IsValid e
      × (e
          ≡ unchecked f.event_id f.occurred_at order_created o.id
              (request_id_or given f.request_id)
              raw)
unfolding announce
announce-ok c f given o e h = Event.Laws.new-ok _ _ _ _ _ _ e h

pub prepare-Announces :
    (c : Codec) (f : Fresh) (given : Bytes) (command : CreateCommand) (o : Order) (e : Envelope)
    → prepare c f given command ≡ ok (o, e)
    → Announces c f command o e
unfolding prepare
prepare-Announces c f given command o e h =
    elim (Result-cases (new f.order_id f.created_at command)) [
      | inr (x, failed) ↦ ground arith
      | inl (o', made) ↦ elim (Result-cases (announce c f given o')) [
        | inr (x, failed) ↦ ground arith
        | inl (e', built) ↦
            let same_order : o ≡ o' = ground arith in
            let same_event : e ≡ e' = ground arith in
            let (v, placed_order) = (new-placed f.order_id f.created_at command o').0 made in
            let (raw, marshalled, valid, shape) = announce-ok c f given o' e' built in
            rw (same_order, same_event)
              (record {
                orderable = v;
                order = placed_order;
                valid = valid;
                named = ap (λ x. x.event_id) shape;
                typed = ap (λ x. x.event_type) shape;
                about = ap (λ x. x.aggregate_id) shape;
                carried = marshalled ∙ ap (λ x. some x.payload) (sym shape);
                accepted = placed-accepted f command o' v placed_order;
              })
      ]
    ]

-- What `Create` returns and leaves once its event is built.
pub create_of_ready :
    (c : Codec) (s : Server) (a : Answers) (f : Fresh) (given : Bytes) (command : CreateCommand)
    (db : Db) (o : Order) (e : Envelope)
    → prepare c f given command ≡ ok (o, e)
    → let (r, after) = create_with_event c s a o e db in
      create c s a f given command db ≡ (map_err not_created r >>= λ _. ok o, after)
unfolding create
create_of_ready c s a f given command db o e h = rw (h, create)

pub create_of_error :
    (c : Codec) (s : Server) (a : Answers) (f : Fresh) (given : Bytes) (command : CreateCommand)
    (db : Db) (x : Error)
    → prepare c f given command ≡ err x
    → create c s a f given command db ≡ (err x, db)
unfolding create
create_of_error c s a f given command db x h = rw (h, create)

-- A successful `Create` returns the pending order that the command describes, and has stored it
-- together with a valid OrderCreated event about it, which carries the marshalled payload of the order;
-- the worker's own check accepts that payload.
pub create-ok :
    (c : Codec) (s : Server) (a : Answers) (f : Fresh) (given : Bytes) (command : CreateCommand)
    (db after : Db) (o : Order)
    → create c s a f given command db ≡ (ok o, after)
    → (e : Envelope) × (payload : Bytes) × Announces c f command o e
      × (c.marshal_envelope e ≡ some payload)
      × (after ≡ with_order s a o e payload db)
create-ok c s a f given command db after o h = elim (Result-cases (prepare c f given command)) [
  | inr (x, failed) ↦ ground (arith, create_of_error c s a f given command db x failed)
  | inl ((o', e), ready) ↦
      let shape = create_of_ready c s a f given command db o' e ready in
      elim (create_with_event_atomic c s a o' e db) [
        | inl (same, failed) ↦ ground arith
        | inr (payload, marshalled, stored) ↦
            let same_order : o ≡ o' = ground arith in
            (
              e,
              payload,
              rw same_order (prepare-Announces c f given command o' e ready),
              marshalled,
              rw same_order (ground arith),
            )
      ]
]

-- A command that the validation refuses is refused by `Create` with that error, and nothing is stored.
pub create-invalid :
    (c : Codec) (s : Server) (a : Answers) (f : Fresh) (given : Bytes) (command : CreateCommand)
    (db : Db) (x : Invalid)
    → validate command ≡ err x
    → create c s a f given command db ≡ (err (invalid x), db)
unfolding create prepare new
create-invalid c s a f given command db x h = ground arith
