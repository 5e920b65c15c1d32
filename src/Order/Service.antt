-- ===== src/Order/Service.antt =====
-- internal/order/service.go. The request id that the context carries is an argument, empty if there is
-- none; so are the values of uuid.New, uuid.NewString and time.Now.
use wb_orders.Base.{ℕ, ◌≡◌, length, ◌==◌, Option, Result, ok, err, ◌>>=◌, map_err, if◌then◌else◌}
use wb_orders.Base.Text.{Bytes}
use wb_orders.Event
use wb_orders.Event.{Uuid, Time, Envelope, order_created}
use wb_orders.Json.{Codec, Server}
use wb_orders.Database.{Db}
use wb_orders.Order.Model.{Order, CreateCommand, CreatedPayload, Invalid, new}
use wb_orders.Order.Store
use wb_orders.Order.Store.{Answers, create_with_event}
pub mod Laws
pub mod Endings
pub mod Placing
pub mod Total

pub data Error : Type 0 where
  invalid : Invalid → Error
  bad_event : Event.Error → Error
  not_created : Store.Error → Error

-- The identifiers and the clock readings of one `Create`.
pub record Fresh : Type 0 where
  pub order_id : Uuid
  pub event_id : Uuid
  pub request_id : Bytes
  pub created_at : Time
  pub occurred_at : Time

-- The payload that `Create` publishes.
abbrev pub created_payload : Order → CreatedPayload
created_payload o = record {
  customer_id = o.customer_id;
  warehouse_id = o.warehouse_id;
  currency = o.currency;
  total_amount_minor = o.total_amount_minor;
  items = o.items;
}

-- The request id of the context, or a new one.
abbrev pub request_id_or : Bytes → Bytes → Bytes
request_id_or given fresh = if length given == 0 then fresh else given

-- The event of an order.
unfoldable pub announce : Codec → Fresh → Bytes → Order → Result Event.Error Envelope
announce c f given created =
    Event.new f.event_id f.occurred_at order_created created.id (request_id_or given f.request_id)
      (c.marshal_created (created_payload created))

-- What is stored: the order, and the envelope of its event.
unfoldable pub prepare : Codec → Fresh → Bytes → CreateCommand → Result Error (Order × Envelope)
prepare c f given command = do
  created ← map_err invalid (new f.order_id f.created_at command)
  envelope ← map_err bad_event (announce c f given created)
  ok (created, envelope)

-- `Service.Create`.
unfoldable pub create :
    Codec → Server → Answers → Fresh → Bytes → CreateCommand → Db → Result Error Order × Db
create c s a f given command db = elim (prepare c f given command) [
  | err e ↦ (err e, db)
  | ok (created, envelope) ↦
      let (stored, after) = create_with_event c s a created envelope db in
      (map_err not_created stored >>= λ _. ok created, after)
]
