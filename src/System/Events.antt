-- ===== src/System/Events.antt =====
-- Every event that the programs store is one that the publisher can send.
use wb_orders.Base.{◌≡◌, ◌≢◌, ◌⊎◌, true, false, [], Bool, ok, some, All}
use wb_orders.Base.Text.{Bytes}
use wb_orders.Event
use wb_orders.Event.{Envelope, order_created, order_status_changed}
use wb_orders.Event.Laws
use wb_orders.Json.{Codec, Server}
use wb_orders.Database.{Db, OutboxRow}
use wb_orders.Outbox.Postgres.{claimed_of}
use wb_orders.Outbox.Publisher.{Topics, check}
use wb_orders.Outbox.Publisher.Topic.{IsTopicOf}
use wb_orders.Flow.{with_payload}
use wb_orders.Consumer.Postgres

-- The row of a valid envelope of one of the two types.
pub record IsMade (c : Codec) (s : Server) (r : OutboxRow) : Type 0 where
  pub event : Envelope
  pub document : Bytes
  pub valid : Event.Laws.IsValid event
  pub typed : (event.event_type ≡ order_created) ⊎ (event.event_type ≡ order_status_changed)
  pub marshalled : c.marshal_envelope event ≡ some document
  pub identified : event.event_id ≡ r.id
  pub about : event.aggregate_id ≡ r.aggregate_id
  pub kind : event.event_type ≡ r.event_type
  pub body : r.payload ≡ s.jsonb document

module _ (c : Codec) (s : Server) where
  abbrev AllMade : Db → Type 0
  AllMade db = All (IsMade c s) db.outbox_events

  -- What encoding/json and JSONB keep of a valid envelope whose request id is a text, as `text` tells: all but
  -- how the payload is written.
  abbrev pub Decodes : (Bytes → Bool) → Type 0
  Decodes text =
      (e : Envelope) (document : Bytes)
      → Event.Laws.IsValid e
      → c.marshal_envelope e ≡ some document
      → text e.request_id ≡ true
      → (raw : Bytes) × (raw ≢ [])
        × (c.unmarshal_envelope (s.jsonb document) ≡ some (with_payload e raw))

  -- The publisher's checks pass the row to the topic of its type; or its event's request id is no text.
  pub data IsFit (topics : Topics) (text : Bytes → Bool) (r : OutboxRow) : Type 0 where
    passes :
        (topic : Bytes) (e : Envelope)
        → IsTopicOf topics r.event_type topic
        → check c topics (claimed_of r) ≡ ok (topic, e)
        → IsFit topics text r
    garbled : (m : IsMade c s r) → text m.event.request_id ≡ false → IsFit topics text r
