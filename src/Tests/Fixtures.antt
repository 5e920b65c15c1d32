-- ===== src/Tests/Fixtures.antt =====
-- One order, its event, and the surroundings that carry them.
use wb_orders.Base.{◌≡◌, true, false, ◌+◌, length, ltb, arith, List, [], ◌∷◌, some}
use wb_orders.Base.Int.{pos}
use wb_orders.Base.Text.{Bytes, lit}
use wb_orders.Event.{Time, Envelope, order_created, zero_time, unchecked}
use wb_orders.Json.{Codec, Server}
use wb_orders.Database.{Db, done, committed}
use wb_orders.Order.Model.{Item, Order, CreateCommand, CreatedPayload}
use wb_orders.Order.Model.Laws.{placed}
use wb_orders.Order.Store
use wb_orders.Order.Service.{Fresh, created_payload}

abbrev pub noon : Time
noon = zero_time + 1_000_000_000

abbrev pub two_items : List Item
two_items =
    record { sku = lit "SKU-1"; quantity = pos 2; unit_price_minor = pos 150 }
    ∷ record { sku = lit "SKU-2"; quantity = pos 1; unit_price_minor = pos 700 }
    ∷ []

abbrev pub command : CreateCommand
command = record { customer_id = 7; warehouse_id = 9; items = two_items }

abbrev pub fresh : Fresh
fresh = record {
  order_id = 11;
  event_id = 12;
  request_id = lit "fresh";
  created_at = noon;
  occurred_at = noon;
}

abbrev pub the_order : Order
the_order = placed 11 noon command

abbrev pub request : Bytes
request = lit "request-1"

abbrev pub document : Bytes
document = lit "{}"

abbrev pub the_event : Envelope
the_event = unchecked 12 noon order_created 11 request document

abbrev pub the_payload : CreatedPayload
the_payload = created_payload the_order

-- A codec with one document of each kind.
abbrev pub codec : Codec
codec = record {
  marshal_envelope = λ e. some document;
  unmarshal_envelope = λ text. some the_event;
  marshal_created = λ p. some document;
  unmarshal_created = λ text. some the_payload;
  marshal_status_changed = λ p. some document;
}

abbrev pub server : Server
server = record {
  timestamptz = λ t. t;
  jsonb = λ text. text;
  collate = λ a b. ltb (length a) (length b);
}

pub strict : (a b : Bytes) → server.collate a b ≡ true → server.collate b a ≡ false
strict a b h = ground arith

abbrev pub empty_db : Db
empty_db = record { orders = []; order_items = []; outbox_events = []; processed_events = [] }

abbrev pub store_answers : Store.Answers
store_answers = record {
  begin = done;
  order = done;
  item = λ i. done;
  event = done;
  commit = committed;
  now = noon;
}
