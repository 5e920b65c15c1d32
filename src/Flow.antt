-- ===== src/Flow.antt =====
-- An order's way through the programs: internal/order stores its event, internal/outbox sends it, and
-- internal/consumer handles it.
use wb_orders.Base.{ℕ, ◌≤◌, ◌≡◌, ◌≢◌, refl, arith, Bool, false, [], ◌∷◌, some, ok, if◌then◌else◌}
use wb_orders.Base.Int.{ℤ, pos, ltb_ℤ, wrap64, ◌+ℤ◌}
use wb_orders.Base.Text.{Bytes, bytes_eq, bytes_eq_refl}
use wb_orders.Event
use wb_orders.Event.{Time, zero_time, Envelope, order_created}
use wb_orders.Event.Laws
use wb_orders.Json.{Codec, Server}
use wb_orders.Kafka.{KafkaRecord, envelope_record}
use wb_orders.Database.Inserts.{outbox_row}
use wb_orders.Order.Model.{Order, CreateCommand, CreatedPayload, validate_payload}
use wb_orders.Order.Service.{Fresh, created_payload}
use wb_orders.Order.Service.Laws.{Announces}
use wb_orders.Processing.{Input, Decision}
use wb_orders.Outbox.Postgres.{claimed_of}
use wb_orders.Outbox.Publisher
use wb_orders.Outbox.Publisher.{Topics, check, message}
use wb_orders.Outbox.Publisher.Fate.{check_iff}
use wb_orders.Consumer.Headers.{Clock, header_int, header_time, find_header}
use wb_orders.Consumer.Handler.{
  Config, Texts, Env, World, success, duplicate, add_duration, accept, wait_until, inspect_envelope,
  inspect_value, inspect_delay, inspect_attempt, inspect, change_of, pipeline_input, conclude,
  handle_payload, process_record,
}

abbrev five_seconds : ℕ
five_seconds = 5_000_000_000

module _ {S : Type 0} (c : Codec) (clock : Clock) (texts : Texts) (config : Config)
    (env : Env S) where
  -- What the publisher sends has no attempt and no time to wait for.
  inspect-envelope_record :
      (topic value : Bytes) (e : Envelope)
      → ltb_ℤ config.max_retries (pos 0) ≡ false
      → zero_time ≤ add_duration env.now_bound (wrap64 (config.max_backoff +ℤ pos five_seconds))
      → c.unmarshal_envelope value ≡ some e
      → Event.Laws.IsValid e
      → e.event_type ≡ order_created
      → inspect c clock texts config env
          (envelope_record texts.uuid topic (texts.uuid e.aggregate_id) value e)
        ≡ accept (pos 0) e
  unfolding inspect inspect_attempt inspect_delay inspect_value inspect_envelope wait_until
      header_int header_time find_header envelope_record bytes_eq
  inspect-envelope_record topic value e tries late decoded valid typed =
      let checked = (Event.Laws.validate-IsValid e).1 valid in
      ground (arith, bytes_eq_refl order_created, bytes_eq_refl (texts.uuid e.aggregate_id))

  -- The handling of an accepted record up to its end.
  process_record-accepted :
      (source : KafkaRecord) (attempt : ℤ) (e : Envelope) (p : CreatedPayload) (d : Decision)
      (s t : S) (b : Bool) (w : World S)
      → inspect c clock texts config env source ≡ accept attempt e
      → env.repository.is_processed e.event_id config.consumer_name w.store ≡ (ok false, s)
      → c.unmarshal_created e.payload ≡ some p
      → validate_payload p ≡ ok tt
      → env.process (pipeline_input texts e p) ≡ ok d
      → env.repository.complete e.event_id config.consumer_name (change_of e d) s ≡ (ok b, t)
      → process_record c clock texts config env source w ≡ (
        ok tt,
        record w {
          store = t;
          counted = (source.topic, if b then success else duplicate) ∷ w.counted;
        },
      )
  unfolding process_record handle_payload conclude
  process_record-accepted source attempt e p d s t b w told new decoded valid decided done =
      ground arith

-- What the pipeline is to be asked about an order.
abbrev pub order_input : Texts → Order → Input
order_input texts o = record {
  order_id = texts.uuid o.id;
  warehouse_id = texts.uuid o.warehouse_id;
  currency = o.currency;
  total_amount_minor = o.total_amount_minor;
  items = o.items;
}

-- The same event with another text of its payload, as a stored document has it.
abbrev pub with_payload : Envelope → Bytes → Envelope
with_payload e raw = record e { payload = raw }

pub with_payload-IsValid :
    (e : Envelope) (raw : Bytes)
    → raw ≢ []
    → Event.Laws.IsValid e
    → Event.Laws.IsValid (with_payload e raw)
with_payload-IsValid e raw some_text v = record {
  identified = v.identified;
  addressed = v.addressed;
  typed = v.typed;
  traced = v.traced;
  brief = v.brief;
  dated = v.dated;
  first_version = v.first_version;
  filled = some_text;
}

-- An order's way. Let `Create` have made an order and its event, let the event's stored document decode to the
-- event, with a payload that may be written otherwise and is not empty, let that payload decode to what was
-- encoded, and let all programs write a UUID alike. Then the publisher's checks pass the event's row to the topic of
-- created orders; and the consumer, given the message that the publisher sends for that row, asks the repository to
-- complete the order with the pipeline's decision about the order's own id, warehouse, currency, total and items, and
-- ends without an error, if its limit of attempts is not negative, its clock with the longest back-off is not before the
-- zero time, the repository does not know the event, the pipeline decides and the completion is answered.
pub created_completed :
    {S T : Type 0} (c : Codec) (server : Server) (f : Fresh) (command : CreateCommand) (o : Order)
    (e : Envelope) (payload raw : Bytes) (now : Time) (topics : Topics) (owner : Bytes)
    (sender : Publisher.Env T) (clock : Clock) (texts : Texts) (config : Config) (env : Env S)
    (d : Decision) (s t : S) (b : Bool) (w : World S)
    → Announces c f command o e
    → raw ≢ []
    → c.unmarshal_envelope (server.jsonb payload) ≡ some (with_payload e raw)
    → c.unmarshal_created raw ≡ some (created_payload o)
    → sender.uuid_text ≡ texts.uuid
    → ltb_ℤ config.max_retries (pos 0) ≡ false
    → zero_time ≤ add_duration env.now_bound (wrap64 (config.max_backoff +ℤ pos five_seconds))
    → env.repository.is_processed e.event_id config.consumer_name w.store ≡ (ok false, s)
    → env.process (order_input texts o) ≡ ok d
    → env.repository.complete e.event_id config.consumer_name (change_of (with_payload e raw) d) s
      ≡ (ok b, t)
    → let claimed = claimed_of (outbox_row server now e e.aggregate_id payload) in
      let read = with_payload e raw in
      (check c topics claimed ≡ ok (topics.order_created, read))
      × ((change_of read d).order_id ≡ o.id)
      × ((change_of read d).status ≡ d.status)
      × (process_record c clock texts config env
            (message c topics owner sender claimed topics.order_created read)
            w
          ≡ (
            ok tt,
            record w {
              store = t;
              counted = (topics.order_created, if b then success else duplicate) ∷ w.counted;
            },
          ))
unfolding Publisher.topic_for envelope_record
created_completed c server f command o e payload raw now topics owner sender clock texts config env
      d s t b w said some_text decoded carried same tries late new decided done =
    let topic = topics.order_created in
    let read = with_payload e raw in
    let valid = with_payload-IsValid e raw some_text said.valid in
    let handed : env.process (pipeline_input texts read (created_payload o)) ≡ ok d =
      rw said.about decided in
    let accepted =
      inspect-envelope_record c clock texts config env topic (server.jsonb payload) read tries late
        decoded valid said.typed in
    (
      (check_iff c topics _ topic read).1
          (rw (said.typed, bytes_eq_refl order_created) refl, decoded, valid, refl, refl, refl),
      said.about,
      refl,
      rw same (
          process_record-accepted c clock texts config env _ (pos 0) read (created_payload o) d s t
            b w accepted new carried said.accepted handed done),
    )
