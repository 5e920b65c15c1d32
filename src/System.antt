-- ===== src/System.antt =====
-- The tables that the three programs share. Each call of one program is one step: `Create` of the
-- service (internal/order), `Complete` of the worker (internal/consumer) and the statements of the
-- publisher (internal/outbox), in any order and with every answer of the server. A transaction is one
-- step; Consumer/Postgres/Interleaved.antt opens that of `Complete`.
use wb_orders.Base.{◌≡◌, Bool, false, ◌==◌, List, [], ◌∷◌, Option, none, some, if◌then◌else◌}
use wb_orders.Base.Text.{Bytes}
use wb_orders.Event.{Uuid, order_created, order_status_changed}
use wb_orders.Json.{Codec, Server}
use wb_orders.Database.{Db, OrderRow, OutboxRow}
use wb_orders.Database.Queries.{find_order}
use wb_orders.Order.Model.{CreateCommand, Status, pending, confirmed, failed}
use wb_orders.Order.Store
use wb_orders.Order.Service.{Fresh, create}
use wb_orders.Outbox.Postgres.Rows.{Statement, apply}
use wb_orders.Consumer.Postgres
use wb_orders.Consumer.Postgres.{Change, is_pending, complete}
pub mod Trails
pub mod Stages
pub mod Invariant
pub mod Amounts
pub mod Calls
pub mod Apart
pub mod Events

-- What one call of one program makes of the tables. The worker completes no order as pending.
pub data Step (c : Codec) (s : Server) (db next : Db) : Type 0 where
  creates :
      (a : Store.Answers) (f : Fresh) (given : Bytes) (command : CreateCommand)
      → next ≡ (create c s a f given command db).1
      → Step c s db next
  completes :
      (a : Postgres.Answers) (event : Uuid) (consumer : Bytes) (k : Change)
      → is_pending k.status ≡ false
      → next ≡ (complete c s a event consumer k db).1
      → Step c s db next
  publishes :
      (st : Statement)
      → next ≡ record db { outbox_events = apply st db.outbox_events }
      → Step c s db next

pub data Reaches (c : Codec) (s : Server) (start : Db) : Db → Type 0 where
  starts : Reaches c s start start
  steps : {db next : Db} → Reaches c s start db → Step c s db next → Reaches c s start next

abbrev pub empty : Db
empty = record { orders = []; order_items = []; outbox_events = []; processed_events = [] }

-- How far an order has come: not stored, or its status.
abbrev pub status_of : Option OrderRow → Option Status
status_of none = none
status_of (some r) = some r.status

abbrev pub stage : Uuid → Db → Option Status
stage id db = status_of (find_order id db.orders)

-- The life of an order.
pub data Advances : Option Status → Option Status → Type 0 where
  stays : {x y : Option Status} → y ≡ x → Advances x y
  places : {x y : Option Status} → x ≡ none → y ≡ some pending → Advances x y
  settles :
      {x y : Option Status} (status : Status)
      → x ≡ some pending
      → is_pending status ≡ false
      → y ≡ some status
      → Advances x y

-- The types of the events that the outbox has about an order, in the order in which they were stored.
unfoldable pub types_about : Uuid → List OutboxRow → List Bytes
types_about id [] = []
types_about id (r ∷ rows) =
    if r.aggregate_id == id then r.event_type ∷ types_about id rows else types_about id rows

-- The events that an order must have told.
abbrev pub trail : Option Status → List Bytes
trail none = []
trail (some pending) = order_created ∷ []
trail (some confirmed) = order_created ∷ order_status_changed ∷ []
trail (some failed) = order_created ∷ order_status_changed ∷ []
