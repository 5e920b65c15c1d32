-- ===== src/Json.antt =====
-- The uses of encoding/json on the program's own types, and what PostgreSQL does to the values that it
-- stores. Neither is code of the repository: both are arguments of the definitions that use them.
use wb_orders.Base.{Option, Bool}
use wb_orders.Base.Text.{Bytes}
use wb_orders.Event.{Envelope, Time}
use wb_orders.Order.Model.{CreatedPayload, StatusChangedPayload}

-- `none` is an error of json.Marshal or json.Unmarshal.
pub record Codec : Type 0 where
  pub marshal_envelope : Envelope → Option Bytes
  pub unmarshal_envelope : Bytes → Option Envelope
  pub marshal_created : CreatedPayload → Option Bytes
  pub unmarshal_created : Bytes → Option CreatedPayload
  pub marshal_status_changed : StatusChangedPayload → Option Bytes

-- `timestamptz` is the time that a column gives back, `jsonb` the text of a stored document, and
-- `collate` whether a text stands before another in ORDER BY.
pub record Server : Type 0 where
  pub timestamptz : Time → Time
  pub jsonb : Bytes → Bytes
  pub collate : Bytes → Bytes → Bool
