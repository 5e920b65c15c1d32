-- ===== src/Event.antt =====
-- internal/event/envelope.go: the envelope that every message carries, from the outbox to the worker.
-- A uuid.UUID is the number that its 16 bytes spell, uuid.Nil is 0. A time is a number of nanoseconds
-- from a day before the year 0, so that Go's zero time, the first of January of the year 1, is
-- `zero_time`. uuid.New, time.Now and encoding/json enter as arguments.
use Prim.Native.String.{String}
use wb_orders.Base.{
  ℕ, ◌*◌, ◌≡◌, Bool, ◌||◌, not, length, Option, none, some, ltb, ◌==◌, Result, ok, err, ◌>>=◌, ◌>>◌,
  fail_if,
}
use wb_orders.Base.Int.{ℤ, pos, eqb_ℤ}
use wb_orders.Base.Text.{Bytes, lit, is_blank, bytes_eq}
pub mod Laws

abbrev pub Uuid : Type 0
Uuid = ℕ

abbrev pub uuid_nil : Uuid
uuid_nil = 0

abbrev pub Time : Type 0
Time = ℕ

abbrev pub zero_time : Time
zero_time = 367 * 86_400 * 1_000_000_000

-- `OrderCreated` and `OrderStatusChanged`, the event types.
abbrev pub order_created : Bytes
order_created = lit "OrderCreated"

abbrev pub order_status_changed : Bytes
order_status_changed = lit "OrderStatusChanged"

pub record Envelope : Type 0 where
  pub event_id : Uuid
  pub event_type : Bytes
  pub aggregate_id : Uuid
  pub request_id : Bytes
  pub occurred_at : Time
  pub version : ℤ
  pub payload : Bytes

pub data Error : Type 0 where
  event_id_required aggregate_id_required event_type_required request_id_length : Error
  occurred_at_required payload_required : Error
  unsupported_version : ℤ → Error
  payload_not_marshalled : Error

-- `Envelope.Validate`: the cases of its switch, in order.
unfoldable pub validate : Envelope → Result Error (Unit {0})
validate e = do
  fail_if (e.event_id == uuid_nil) event_id_required
  fail_if (e.aggregate_id == uuid_nil) aggregate_id_required
  fail_if (length e.event_type == 0) event_type_required
  fail_if (is_blank e.request_id || ltb 128 (length e.request_id)) request_id_length
  fail_if (e.occurred_at == zero_time) occurred_at_required
  fail_if (not (eqb_ℤ e.version (pos 1))) (unsupported_version e.version)
  fail_if (length e.payload == 0) payload_required

-- The literal in `event.New`.
abbrev pub unchecked : Uuid → Time → Bytes → Uuid → Bytes → Bytes → Envelope
unchecked id now event_type aggregate_id request_id raw = record {
  event_id = id;
  event_type = event_type;
  aggregate_id = aggregate_id;
  request_id = request_id;
  occurred_at = now;
  version = pos 1;
  payload = raw;
}

-- `event.New`: `marshalled` is what json.Marshal made of the payload, `id` is from uuid.New and `now`
-- from time.Now.
unfoldable pub new : Uuid → Time → Bytes → Uuid → Bytes → Option Bytes → Result Error Envelope
new id now event_type aggregate_id request_id none = err payload_not_marshalled
new id now event_type aggregate_id request_id (some raw) = do
  let envelope = unchecked id now event_type aggregate_id request_id raw
  validate envelope
  ok envelope
