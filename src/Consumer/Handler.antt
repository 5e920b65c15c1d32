-- ===== src/Consumer/Handler.antt =====
-- `processRecord`, `retry`, `dlq` and `route` of internal/consumer/consumer.go.
use Prim.Native.String.{String}
use wb_orders.Base.{
  ℕ, ◌+◌, ◌-◌, ◌*◌, ◌≡◌, Bool, true, false, ◌&&◌, ◌||◌, not, List, [], ◌∷◌, ◌++◌, Option, none,
  some, ltb, ◌==◌, Result, ok, err, if◌then◌else◌,
}
use wb_orders.Base.Int.{ℤ, pos, pos_part, neg_part, ◌+ℤ◌, ltb_ℤ, wrap64}
use wb_orders.Base.Text.{Bytes, lit, bytes_eq}
use wb_orders.Event
use wb_orders.Event.{Uuid, Time, zero_time, Envelope, order_created}
use wb_orders.Json.{Codec}
use wb_orders.Kafka.{KafkaRecord, Delivery, sent, lost, unsure}
use wb_orders.Order.Model.{CreatedPayload, Invalid, validate_payload}
use wb_orders.Processing
use wb_orders.Processing.{
  CtxError, canceled, deadline_exceeded, OpError, ctx, other, Input, Decision, no_operations,
  operations_failed,
}
use wb_orders.Consumer.Backoff.{backoff}
use wb_orders.Consumer.Headers.{Clock, attempt_key, not_before_key, header_int, header_time, routed}
use wb_orders.Consumer.Postgres.{Change}
pub mod Inspect
pub mod Fate
pub mod Retries
pub mod Stores
pub mod Redelivery

-- The fields of `Config` that a record's handling reads; durations in nanoseconds.
pub record Config : Type 0 where
  pub consumer_name : Bytes
  pub retry_topic : Bytes
  pub dlq_topic : Bytes
  pub max_retries : ℤ
  pub base_backoff : ℤ
  pub max_backoff : ℤ

-- The interface `Repository`: an error is its text. `S` is what the calls may change.
pub record Repository (S : Type 0) : Type 0 where
  pub is_processed : Uuid → Bytes → S → Result Bytes Bool × S
  pub complete : Uuid → Bytes → Change → S → Result Bytes Bool × S

-- The wording of errors that other packages make, and UUID.String.
pub record Texts : Type 0 where
  pub json_error : Bytes → Bytes
  pub event_error : Event.Error → Bytes
  pub unsupported_type : Bytes → Bytes
  pub payload_error : Invalid → Bytes
  pub process_error : Processing.Error → Bytes
  pub uuid : Uuid → Bytes

-- What the surroundings answer while one record is handled: the clock at its three readings, whether
-- the wait is ended by the context, whether the context has ended after the processing, and the three
-- interfaces of the consumer.
pub record Env (S : Type 0) : Type 0 where
  pub now_bound : Time
  pub now_wait : Time
  pub wait_ends : Option CtxError
  pub ctx_ended : Bool
  pub now_retry : Time
  pub repository : Repository S
  pub publish : KafkaRecord → Delivery
  pub process : Input → Result Processing.Error Decision

-- The label of the counter `KafkaProcessed`.
pub data Label : Type 0 where
  success duplicate retried dead_lettered : Label

pub record World (S : Type 0) : Type 0 where
  pub store : S
  pub published : List KafkaRecord
  pub counted : List (Bytes × Label)

pub data Failure : Type 0 where
  wait_ended : CtxError → Failure
  processing_canceled : Processing.Error → Failure
  route_failed : Bytes → Bytes → Failure

-- time.Time.Add.
abbrev pub add_duration : Time → ℤ → Time
add_duration t d = t + pos_part d - neg_part d

abbrev five_seconds : ℤ
five_seconds = pos 5_000_000_000

-- What the checks before the database make of a record.
pub data Inspection : Type 0 where
  reject : ℤ → Bytes → Inspection
  stop : CtxError → Inspection
  accept : ℤ → Envelope → Inspection

-- `waitUntil`.
unfoldable pub wait_until : Option CtxError → Time → Time → Option CtxError
wait_until ends now target = if target == zero_time || not (ltb now target) then none else ends

abbrev event_fault : Texts → Envelope → Result Event.Error (Unit {0}) → Option Bytes
event_fault texts e (err x) = some (texts.event_error x)
event_fault texts e (ok u) =
    if bytes_eq e.event_type order_created then none else some (texts.unsupported_type e.event_type)

unfoldable pub inspect_envelope : Texts → KafkaRecord → ℤ → Envelope → Inspection
inspect_envelope texts record_in attempt e = elim (event_fault texts e (Event.validate e)) [
  | some reason ↦ reject attempt reason
  | none ↦
      if bytes_eq record_in.key (texts.uuid e.aggregate_id)
      then accept attempt e
      else reject attempt (lit "Kafka key does not match aggregate_id")
]

unfoldable pub inspect_value : Codec → Texts → KafkaRecord → ℤ → Inspection
inspect_value c texts record_in attempt = elim (c.unmarshal_envelope record_in.value) [
  | none ↦ reject attempt (lit "invalid JSON: " ++ texts.json_error record_in.value)
  | some e ↦ inspect_envelope texts record_in attempt e
]

-- errors.Is(err, context.Canceled).
unfoldable pub any_canceled : List (Bytes × OpError) → Bool
any_canceled [] = false
any_canceled ((name, ctx canceled) ∷ rest) = true
any_canceled ((name, ctx deadline_exceeded) ∷ rest) = any_canceled rest
any_canceled ((name, other text) ∷ rest) = any_canceled rest

unfoldable pub is_canceled : Processing.Error → Bool
is_canceled no_operations = false
is_canceled (operations_failed errors) = any_canceled errors

-- The arguments of `Complete` for a decision on an event.
abbrev pub change_of : Envelope → Decision → Change
change_of e d = record {
  order_id = e.aggregate_id;
  status = d.status;
  reason = d.reason;
  request_id = e.request_id;
}

-- The input of the pipeline for an event and its payload.
abbrev pub pipeline_input : Texts → Envelope → CreatedPayload → Input
pipeline_input texts e p = record {
  order_id = texts.uuid e.aggregate_id;
  warehouse_id = texts.uuid p.warehouse_id;
  currency = p.currency;
  total_amount_minor = p.total_amount_minor;
  items = p.items;
}

-- The decoding and the check of an event's payload.
abbrev pub check_payload : Texts → Option CreatedPayload → Bytes → Result Bytes CreatedPayload
check_payload texts none text = err (lit "invalid payload: " ++ texts.json_error text)
check_payload texts (some p) text = elim (validate_payload p) [
  | ok u ↦ ok p
  | err x ↦ err (lit "invalid payload: " ++ texts.payload_error x)
]

module _ {S : Type 0} (c : Codec) (clock : Clock) (texts : Texts) (config : Config)
    (env : Env S) where
  unfoldable pub inspect_delay : KafkaRecord → ℤ → Time → Inspection
  inspect_delay record_in attempt not_before =
      if ltb (add_duration env.now_bound (wrap64 (config.max_backoff +ℤ five_seconds))) not_before
      then reject attempt (lit "not_before exceeds configured retry delay")
      else elim (wait_until env.wait_ends env.now_wait not_before) [
        | some e ↦ stop e
        | none ↦ inspect_value c texts record_in attempt
      ]

  unfoldable pub inspect_attempt : KafkaRecord → ℤ → Inspection
  inspect_attempt record_in attempt =
      if ltb_ℤ config.max_retries attempt
      then reject attempt (lit "retry limit already exceeded")
      else elim (header_time clock record_in.headers not_before_key) [
        | none ↦ reject attempt (lit "invalid not_before header")
        | some not_before ↦ inspect_delay record_in attempt not_before
      ]

  unfoldable pub inspect : KafkaRecord → Inspection
  inspect record_in = elim (header_int record_in.headers attempt_key) [
    | none ↦ reject (pos 0) (lit "invalid attempt header")
    | some attempt ↦ inspect_attempt record_in attempt
  ]

  abbrev pub Handled : Type 0
  Handled = Result Failure (Unit {0}) × World S

  abbrev pub count : Bytes → Label → World S → World S
  count topic label w = record w { counted = (topic, label) ∷ w.counted }

  abbrev pub deliver : KafkaRecord → Delivery → Label → Bytes → World S → Handled
  deliver out sent label topic w =
      (ok tt, count topic label (record w { published = out ∷ w.published }))
  deliver out (lost x) label topic w = (err (route_failed out.topic x), w)
  deliver out (unsure x) label topic w =
      (err (route_failed out.topic x), record w { published = out ∷ w.published })

  -- `route`, and the counter that its callers raise.
  unfoldable pub route : KafkaRecord → Bytes → ℤ → Bytes → Time → Label → World S → Handled
  route source topic attempt reason not_before label w =
      let out = routed clock source topic attempt reason not_before in
      deliver out (env.publish out) label source.topic w

  unfoldable pub dlq : KafkaRecord → ℤ → Bytes → World S → Handled
  dlq source attempt reason = route source config.dlq_topic attempt reason zero_time dead_lettered

  unfoldable pub retry : KafkaRecord → ℤ → Bytes → World S → Handled
  retry source current cause w =
      let attempt = wrap64 (current +ℤ pos 1) in
      if ltb_ℤ config.max_retries attempt
      then dlq source attempt cause w
      else route source config.retry_topic attempt cause
          (add_duration env.now_retry (backoff attempt config.base_backoff config.max_backoff))
          retried w

  -- What follows `Complete`.
  abbrev pub completed : KafkaRecord → ℤ → World S → Result Bytes Bool × S → Handled
  completed source attempt w (err x, s) = retry source attempt x (record w { store = s })
  completed source attempt w (ok false, s) =
      (ok tt, count source.topic duplicate (record w { store = s }))
  completed source attempt w (ok true, s) =
      (ok tt, count source.topic success (record w { store = s }))

  -- From the processor's result on.
  unfoldable pub conclude :
      KafkaRecord → ℤ → Envelope → Result Processing.Error Decision → World S → Handled
  conclude source attempt e (err x) w =
      if is_canceled x && env.ctx_ended
      then (err (processing_canceled x), w)
      else retry source attempt (texts.process_error x) w
  conclude source attempt e (ok d) w =
      completed source attempt w
        (env.repository.complete e.event_id config.consumer_name (change_of e d) w.store)

  -- An event that was not processed before.
  unfoldable pub handle_payload : KafkaRecord → ℤ → Envelope → World S → Handled
  handle_payload source attempt e w =
      elim (check_payload texts (c.unmarshal_created e.payload) e.payload) [
        | err reason ↦ dlq source attempt reason w
        | ok p ↦ conclude source attempt e (env.process (pipeline_input texts e p)) w
      ]

  abbrev pub looked_up : KafkaRecord → ℤ → Envelope → World S → Result Bytes Bool × S → Handled
  looked_up source attempt e w (err x, s) = retry source attempt x (record w { store = s })
  looked_up source attempt e w (ok true, s) =
      (ok tt, count source.topic duplicate (record w { store = s }))
  looked_up source attempt e w (ok false, s) =
      handle_payload source attempt e (record w { store = s })

  abbrev pub handle_inspected : KafkaRecord → World S → Inspection → Handled
  handle_inspected source w (reject attempt reason) = dlq source attempt reason w
  handle_inspected source w (stop e) = (err (wait_ended e), w)
  handle_inspected source w (accept attempt e) =
      looked_up source attempt e w
        (env.repository.is_processed e.event_id config.consumer_name w.store)

  -- `processRecord`.
  unfoldable pub process_record : KafkaRecord → World S → Handled
  process_record source w = handle_inspected source w (inspect source)
