-- ===== src/Order/Http/RequestId.antt =====
-- The request id that the middleware chooses is fit for an event.
use wb_orders.Base.{
  ◌≡◌, ◌≢◌, ◌≤◌, ◌||◌, inl, inr, arith, Bool-cases, false, length, [], ◌∷◌, Result-cases, err,
  Option, none, some, ltb, ◌==◌,
}
use wb_orders.Base.Text.{Bytes, trim_space, is_blank}
use wb_orders.Base.Text.Space.Trimmed.{is_blank-trim_space}
use wb_orders.Event
use wb_orders.Event.{Uuid, Time, order_created, unchecked, request_id_length, Envelope, validate}
use wb_orders.Event.Laws.{validate-Violates}
use wb_orders.Json.{Codec, Server}
use wb_orders.Database.{Db}
use wb_orders.Order.Model.{Order, CreateCommand, new}
use wb_orders.Order.Store.{Answers}
use wb_orders.Order.Service.{
  Fresh, bad_event, announce, created_payload, request_id_or, prepare, create,
}
use wb_orders.Order.Http.{chosen_id}

-- Neither blank nor longer than 128 bytes.
pub record IsTraceable (id : Bytes) : Type 0 where
  pub visible : is_blank id ≡ false
  pub brief : length id ≤ 128

pub chosen_id-IsTraceable :
    (header fresh : Bytes) → IsTraceable fresh → IsTraceable (chosen_id header fresh)
unfolding chosen_id
chosen_id-IsTraceable header fresh v =
    let t = trim_space header in
    elim (Bool-cases (length t == 0 || ltb 128 (length t))) [
      | inl unfit ↦ ground arith
      | inr fit ↦ ground (arith, is_blank-trim_space header)
    ]

validate-ne-request_id_length :
    (e : Envelope) → IsTraceable e.request_id → validate e ≢ err request_id_length
validate-ne-request_id_length e v h = elim (validate-Violates e request_id_length h) [
  | inl blank ↦ ground arith
  | inr long ↦ ground arith
]

IsTraceable-ne-nil : (id : Bytes) → IsTraceable id → id ≢ []
unfolding is_blank
IsTraceable-ne-nil [] v e = ground arith
IsTraceable-ne-nil (b ∷ id) v e = ground arith

pub request_id_or_given : (id fresh : Bytes) → IsTraceable id → request_id_or id fresh ≡ id
request_id_or_given id fresh v = ground (arith, IsTraceable-ne-nil id v)

new-ne-request_id_length :
    (id : Uuid) (now : Time) (ty : Bytes) (agg : Uuid) (rid : Bytes) (marshalled : Option Bytes)
    → IsTraceable rid
    → Event.new id now ty agg rid marshalled ≢ err request_id_length
unfolding Event.new
new-ne-request_id_length id now ty agg rid none v h = ground arith
new-ne-request_id_length id now ty agg rid (some raw) v h =
    let e = unchecked id now ty agg rid raw in
    elim (Result-cases (validate e)) [
      | inl (u, good) ↦ ground arith
      | inr (x, bad) ↦
          let same : x ≡ request_id_length = ground arith in
          validate-ne-request_id_length e v (rw same at bad)
    ]

announce-ne-request_id_length :
    (c : Codec) (f : Fresh) (id : Bytes) (o : Order)
    → IsTraceable id
    → announce c f id o ≢ err request_id_length
unfolding announce
announce-ne-request_id_length c f id o v h =
    new-ne-request_id_length f.event_id f.occurred_at order_created o.id
      (request_id_or id f.request_id) (c.marshal_created (created_payload o))
      (rw (request_id_or_given id f.request_id v) v) h

-- If the id that would be new is neither blank nor longer than 128 bytes, then so is the id that the
-- middleware puts into the context, whatever X-Request-ID says, and `Create` with that id does not end in the
-- error of an envelope's request id.
pub create-ne-request_id_length :
    (c : Codec) (s : Server) (a : Answers) (f : Fresh) (header fresh : Bytes)
    (command : CreateCommand) (db : Db)
    → IsTraceable fresh
    → let id = chosen_id header fresh in
      IsTraceable id × ((create c s a f id command db).0 ≢ err (bad_event request_id_length))
unfolding create prepare
create-ne-request_id_length c s a f header fresh command db v =
    let id = chosen_id header fresh in
    let good = chosen_id-IsTraceable header fresh v in
    (
      good,
      λ h. elim (Result-cases (new f.order_id f.created_at command)) [
        | inr (x, bad) ↦ ground arith
        | inl (o, made) ↦ elim (Result-cases (announce c f id o)) [
          | inr (x, bad) ↦
              let same : x ≡ request_id_length = ground arith in
              announce-ne-request_id_length c f id o good (rw same at bad)
          | inl (e, built) ↦ ground arith
        ]
      ],
    )
