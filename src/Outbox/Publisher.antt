-- ===== src/Outbox/Publisher.antt =====
-- internal/outbox/publisher.go and the topics of internal/outbox/model.go.
use wb_orders.Base.{
  ℕ, ◌+◌, ◌-◌, ◌*◌, ◌^◌, min, max, ◌≡◌, Bool, ◌&&◌, ◌||◌, not, List, [], ◌∷◌, Option, none, some,
  ◌==◌, Result, ok, err, if◌then◌else◌,
}
use Prim.Native.String.{String}
use wb_orders.Base.Text.{Bytes, lit, bytes_eq}
use wb_orders.Event
use wb_orders.Event.{Uuid, Time, Envelope, order_created, order_status_changed}
use wb_orders.Json.{Codec}
use wb_orders.Outbox.Postgres.{Claimed}
use wb_orders.Kafka.{Delivery, sent, lost, unsure, KafkaRecord, envelope_record}
pub mod Topic
pub mod Fate
pub mod Batch
pub mod Stored

pub record Topics : Type 0 where
  pub order_created : Bytes
  pub order_status_changed : Bytes

-- `Topics.For`.
unfoldable pub topic_for : Topics → Bytes → Option Bytes
topic_for topics event_type =
    if bytes_eq event_type Event.order_created
    then some topics.order_created
    else if bytes_eq event_type Event.order_status_changed
    then some topics.order_status_changed
    else none

-- `exponentialBackoff`. The source multiplies as float64: both calls' base is a second, and
-- 1e9 * 2^10 is far below 2^53, so the product is exact.
unfoldable pub exponential_backoff : ℕ → ℕ → ℕ → ℕ
exponential_backoff attempt base maximum =
    let exponent = min (max (attempt - 1) 0) 10 in min (base * 2 ^ exponent) maximum

abbrev pub second : ℕ
second = 1_000_000_000

abbrev pub minute : ℕ
minute = 60 * second

-- The methods of the interface `Repository` that `publishOne` calls: `none` is success, an error is its
-- text.
pub record Repository (S : Type 0) : Type 0 where
  pub mark_published : Uuid → Bytes → S → Option Bytes × S
  pub release : Uuid → Bytes → Bytes → Time → S → Option Bytes × S
  pub mark_failed : Uuid → Bytes → Bytes → S → Option Bytes × S

-- Why an event is rejected for good.
pub data Fault : Type 0 where
  unsupported : Bytes → Fault
  undecodable : Uuid → Fault
  invalid : Uuid → Event.Error → Fault
  mismatch : Uuid → Fault

-- The label of the counter `OutboxPublished`.
pub data Label : Type 0 where
  success failed unsupported_event invalid_event : Label

-- What the surroundings answer while one event is published.
pub record Env (S : Type 0) : Type 0 where
  pub repository : Repository S
  pub publish : KafkaRecord → Delivery
  pub now : Time
  pub uuid_text : Uuid → Bytes
  pub fault_text : Fault → Bytes

pub record World (S : Type 0) : Type 0 where
  pub store : S
  pub published : List KafkaRecord
  pub counted : List Label

pub data Failure : Type 0 where
  rejected : Fault → Failure
  not_rejected : Fault → Bytes → Failure
  not_published : Bytes → Failure
  not_released : Bytes → Bytes → Failure
  not_marked : Bytes → Failure

abbrev pub label_of : Fault → Label
label_of (unsupported t) = unsupported_event
label_of (undecodable id) = invalid_event
label_of (invalid id x) = invalid_event
label_of (mismatch id) = invalid_event

abbrev pub valid_fault : Uuid → Result Event.Error (Unit {0}) → Option Fault
valid_fault id (ok u) = none
valid_fault id (err x) = some (invalid id x)

abbrev pub matches : Claimed → Envelope → Bool
matches claimed e =
    e.event_id == claimed.id
    && e.aggregate_id == claimed.aggregate_id
    && bytes_eq e.event_type claimed.event_type

-- The checks before the publication: the fault, or the topic and the envelope.
unfoldable pub check_envelope : Claimed → Bytes → Envelope → Result Fault (Bytes × Envelope)
check_envelope claimed topic e = elim (valid_fault claimed.id (Event.validate e)) [
  | some fault ↦ err fault
  | none ↦ if matches claimed e then ok (topic, e) else err (mismatch claimed.id)
]

unfoldable pub check_payload : Codec → Claimed → Bytes → Result Fault (Bytes × Envelope)
check_payload c claimed topic = elim (c.unmarshal_envelope claimed.payload) [
  | none ↦ err (undecodable claimed.id)
  | some e ↦ check_envelope claimed topic e
]

unfoldable pub check : Codec → Topics → Claimed → Result Fault (Bytes × Envelope)
check c topics claimed = elim (topic_for topics claimed.event_type) [
  | none ↦ err (unsupported claimed.event_type)
  | some topic ↦ check_payload c claimed topic
]

module _ {S : Type 0} (c : Codec) (topics : Topics) (owner : Bytes) (env : Env S) where
  abbrev pub Handled : Type 0
  Handled = Option Failure × World S

  abbrev pub count : Label → World S → World S
  count label w = record w { counted = label ∷ w.counted }

  abbrev pub rejection : Fault → World S → Option Bytes × S → Handled
  rejection fault w (none, s) =
      (some (rejected fault), count (label_of fault) (record w { store = s }))
  rejection fault w (some x, s) = (some (not_rejected fault x), record w { store = s })

  -- `failPermanently`.
  unfoldable pub fail_permanently : Claimed → Fault → World S → Handled
  fail_permanently claimed fault w =
      rejection fault w (env.repository.mark_failed claimed.id owner (env.fault_text fault) w.store)

  abbrev pub marking : World S → Option Bytes × S → Handled
  marking w (none, s) = (none, count success (record w { store = s }))
  marking w (some x, s) = (some (not_marked x), record w { store = s })

  abbrev pub freeing : Bytes → World S → Option Bytes × S → Handled
  freeing cause w (none, s) = (some (not_published cause), count failed (record w { store = s }))
  freeing cause w (some x, s) = (some (not_released cause x), record w { store = s })

  -- After a failed publication the event is released for a later attempt.
  unfoldable pub put_back : Claimed → Bytes → World S → Handled
  put_back claimed cause w = freeing cause w (
      env.repository.release claimed.id owner cause
        (env.now + exponential_backoff claimed.attempts second minute) w.store)

  abbrev pub delivered : Claimed → KafkaRecord → World S → Delivery → Handled
  delivered claimed m w sent =
      let w' = record w { published = m ∷ w.published } in
      marking w' (env.repository.mark_published claimed.id owner w.store)
  delivered claimed m w (lost x) = put_back claimed x w
  delivered claimed m w (unsure x) = put_back claimed x (record w { published = m ∷ w.published })

  abbrev pub message : Claimed → Bytes → Envelope → KafkaRecord
  message claimed topic e =
      envelope_record env.uuid_text topic (env.uuid_text claimed.aggregate_id) claimed.payload e

  abbrev pub checked : Claimed → World S → Result Fault (Bytes × Envelope) → Handled
  checked claimed w (err fault) = fail_permanently claimed fault w
  checked claimed w (ok (topic, e)) =
      let m = message claimed topic e in delivered claimed m w (env.publish m)

  -- `publishOne`.
  unfoldable pub publish_one : Claimed → World S → Handled
  publish_one claimed w = checked claimed w (check c topics claimed)
