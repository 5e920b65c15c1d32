-- ===== src/Consumer/Handler/Fate.antt =====
-- What becomes of a record that `processRecord` handles without an error.
use wb_orders.Base.{
  ◌≡◌, refl, inl, inr, arith, ◌∷◌, Bool, Bool-cases, true, false, some, Result, Result-cases, ok,
  err, if◌then◌else◌,
}
use wb_orders.Base.Int.{ℤ, pos, ◌+ℤ◌, ltb_ℤ, wrap64}
use wb_orders.Base.Text.{Bytes}
use wb_orders.Kafka.{KafkaRecord}
use wb_orders.Event.{Time, zero_time, Envelope}
use wb_orders.Json.{Codec}
use wb_orders.Order.Model.{CreatedPayload, validate_payload}
use wb_orders.Processing.{Decision}
use wb_orders.Consumer.Backoff.{backoff}
use wb_orders.Consumer.Headers.{Clock, attempt_key, header_int, routed}
use wb_orders.Consumer.Headers.Routed.{Carries, routed-Carries}
use wb_orders.Consumer.Handler.{
  Config, Texts, Env, Label, success, duplicate, retried, dead_lettered, World, add_duration,
  Inspection, reject, stop, accept, inspect, route, dlq, retry, conclude, handle_payload,
  process_record, change_of, pipeline_input, completed, check_payload, looked_up, handle_inspected,
}
use wb_orders.Consumer.Handler.Inspect.{Accepted, inspect-Accepted}

module _ {S : Type 0} (c : Codec) (clock : Clock) (texts : Texts) (config : Config)
    (env : Env S) where
  -- A record handled without an error was done with, sent to be tried again, or buried.
  pub data Fate (source : KafkaRecord) (before after : World S) : Type 0 where
    -- The store knows the event as processed.
    repeats :
        (attempt : ℤ) (e : Envelope)
        → Accepted c texts config source attempt e
        → env.repository.is_processed e.event_id config.consumer_name before.store
          ≡ (ok true, after.store)
        → after.published ≡ before.published
        → after.counted ≡ (source.topic, duplicate) ∷ before.counted
        → Fate source before after
    -- The store has completed the event.
    completes :
        (attempt : ℤ) (e : Envelope) (p : CreatedPayload) (d : Decision) (s : S) (b : Bool)
        → Accepted c texts config source attempt e
        → env.repository.is_processed e.event_id config.consumer_name before.store ≡ (ok false, s)
        → c.unmarshal_created e.payload ≡ some p
        → validate_payload p ≡ ok tt
        → env.process (pipeline_input texts e p) ≡ ok d
        → env.repository.complete e.event_id config.consumer_name (change_of e d) s
          ≡ (ok b, after.store)
        → after.published ≡ before.published
        → after.counted ≡ (source.topic, if b then success else duplicate) ∷ before.counted
        → Fate source before after
    -- The record waits in the retry topic, one attempt further.
    retries :
        (attempt next : ℤ) (cause : Bytes)
        → header_int source.headers attempt_key ≡ some attempt
        → next ≡ wrap64 (attempt +ℤ pos 1)
        → ltb_ℤ config.max_retries next ≡ false
        → after.published
          ≡ routed clock source config.retry_topic next cause
              (add_duration env.now_retry (backoff next config.base_backoff config.max_backoff))
            ∷ before.published
        → Carries source config.retry_topic next cause (
            routed clock source config.retry_topic next cause
              (add_duration env.now_retry (backoff next config.base_backoff config.max_backoff)))
        → after.counted ≡ (source.topic, retried) ∷ before.counted
        → Fate source before after
    -- The record lies in the dead letter topic.
    buries :
        (attempt : ℤ) (reason : Bytes)
        → after.published
          ≡ routed clock source config.dlq_topic attempt reason zero_time ∷ before.published
        → Carries source config.dlq_topic attempt reason
            (routed clock source config.dlq_topic attempt reason zero_time)
        → after.counted ≡ (source.topic, dead_lettered) ∷ before.counted
        → Fate source before after

  route-ok :
      (source : KafkaRecord) (topic : Bytes) (attempt : ℤ) (reason : Bytes) (t : Time)
      (label : Label) (w after : World S)
      → route c clock texts config env source topic attempt reason t label w ≡ (ok tt, after)
      → (after.published ≡ routed clock source topic attempt reason t ∷ w.published)
        × (after.counted ≡ (source.topic, label) ∷ w.counted)
  unfolding route
  route-ok source topic attempt reason t label w after h = ground arith

  dlq-Fate :
      (source : KafkaRecord) (attempt : ℤ) (reason : Bytes) (before w after : World S)
      → w.published ≡ before.published
      → w.counted ≡ before.counted
      → dlq c clock texts config env source attempt reason w ≡ (ok tt, after)
      → Fate source before after
  unfolding dlq
  dlq-Fate source attempt reason before w after p n h =
      let (out, count) =
        route-ok source config.dlq_topic attempt reason zero_time dead_lettered w after h in
      buries attempt reason (ground arith)
        (routed-Carries clock source config.dlq_topic attempt reason zero_time) (ground arith)

  retry-Fate :
      (source : KafkaRecord) (attempt : ℤ) (cause : Bytes) (before w after : World S)
      → header_int source.headers attempt_key ≡ some attempt
      → w.published ≡ before.published
      → w.counted ≡ before.counted
      → retry c clock texts config env source attempt cause w ≡ (ok tt, after)
      → Fate source before after
  unfolding retry
  retry-Fate source attempt cause before w after a p n h =
      elim (Bool-cases (ltb_ℤ config.max_retries (wrap64 (attempt +ℤ pos 1)))) [
        | inl over ↦
            dlq-Fate source (wrap64 (attempt +ℤ pos 1)) cause before w after p n (ground arith)
        | inr within ↦
            let next = wrap64 (attempt +ℤ pos 1) in
            let (out, count) =
              route-ok source config.retry_topic next cause
                (add_duration env.now_retry (backoff next config.base_backoff config.max_backoff))
                retried w after (ground arith) in
            retries attempt next cause a refl within (ground arith)
              (routed-Carries clock source config.retry_topic next cause _) (ground arith)
      ]

  check_payload-ok :
      (e : Envelope) (p : CreatedPayload)
      → check_payload texts (c.unmarshal_created e.payload) e.payload ≡ ok p
      → (c.unmarshal_created e.payload ≡ some p) × (validate_payload p ≡ ok tt)
  check_payload-ok e p h = ground arith

  completed-Fate :
      (source : KafkaRecord) (attempt : ℤ) (e : Envelope) (p : CreatedPayload) (d : Decision)
      (before w after : World S) (answer : Result Bytes Bool × S)
      → Accepted c texts config source attempt e
      → env.repository.is_processed e.event_id config.consumer_name before.store
        ≡ (ok false, w.store)
      → c.unmarshal_created e.payload ≡ some p
      → validate_payload p ≡ ok tt
      → env.process (pipeline_input texts e p) ≡ ok d
      → w.published ≡ before.published
      → w.counted ≡ before.counted
      → env.repository.complete e.event_id config.consumer_name (change_of e d) w.store ≡ answer
      → completed c clock texts config env source attempt w answer ≡ (ok tt, after)
      → Fate source before after
  completed-Fate source attempt e p d before w after (err x, s) acc asked decoded valid decided out
        n told h =
      retry-Fate source attempt x before (record w { store = s }) after acc.counted out n h
  completed-Fate source attempt e p d before w after (ok b, s) acc asked decoded valid decided out n
        told h =
      completes attempt e p d w.store b acc asked decoded valid decided (ground arith)
        (ground arith) (ground arith)

  conclude-Fate :
      (source : KafkaRecord) (attempt : ℤ) (e : Envelope) (p : CreatedPayload)
      (before w after : World S)
      → Accepted c texts config source attempt e
      → env.repository.is_processed e.event_id config.consumer_name before.store
        ≡ (ok false, w.store)
      → c.unmarshal_created e.payload ≡ some p
      → validate_payload p ≡ ok tt
      → w.published ≡ before.published
      → w.counted ≡ before.counted
      → conclude c clock texts config env source attempt e
          (env.process (pipeline_input texts e p))
          w
        ≡ (ok tt, after)
      → Fate source before after
  unfolding conclude
  conclude-Fate source attempt e p before w after acc asked decoded valid out n h =
      elim (Result-cases (env.process (pipeline_input texts e p))) [
        | inr (x, failed) ↦
            retry-Fate source attempt (texts.process_error x) before w after acc.counted out n
              (ground arith)
        | inl (d, decided) ↦
            completed-Fate source attempt e p d before w after _ acc asked decoded valid decided out
              n refl (ground arith)
      ]

  handle_payload-Fate :
      (source : KafkaRecord) (attempt : ℤ) (e : Envelope) (before w after : World S)
      → Accepted c texts config source attempt e
      → env.repository.is_processed e.event_id config.consumer_name before.store
        ≡ (ok false, w.store)
      → w.published ≡ before.published
      → w.counted ≡ before.counted
      → handle_payload c clock texts config env source attempt e w ≡ (ok tt, after)
      → Fate source before after
  unfolding handle_payload
  handle_payload-Fate source attempt e before w after acc asked out n h =
      elim (Result-cases (check_payload texts (c.unmarshal_created e.payload) e.payload)) [
        | inr (reason, failed) ↦ dlq-Fate source attempt reason before w after out n (ground arith)
        | inl (p, checked) ↦
            let (decoded, valid) = check_payload-ok e p checked in
            conclude-Fate source attempt e p before w after acc asked decoded valid out n
              (ground arith)
      ]

  looked_up-Fate :
      (source : KafkaRecord) (attempt : ℤ) (e : Envelope) (before after : World S)
      (answer : Result Bytes Bool × S)
      → Accepted c texts config source attempt e
      → env.repository.is_processed e.event_id config.consumer_name before.store ≡ answer
      → looked_up c clock texts config env source attempt e before answer ≡ (ok tt, after)
      → Fate source before after
  looked_up-Fate source attempt e before after (err x, s) acc asked h =
      retry-Fate source attempt x before (record before { store = s }) after acc.counted refl refl h
  looked_up-Fate source attempt e before after (ok true, s) acc asked h =
      repeats attempt e acc (ground arith) (ground arith) (ground arith)
  looked_up-Fate source attempt e before after (ok false, s) acc asked h =
      handle_payload-Fate source attempt e before (record before { store = s }) after acc asked refl
        refl h

  pub process_record-Fate :
      (source : KafkaRecord) (before after : World S)
      → process_record c clock texts config env source before ≡ (ok tt, after)
      → Fate source before after
  unfolding process_record
  process_record-Fate source before after h =
      inspected (inspect c clock texts config env source) refl h
    where
      inspected :
          (i : Inspection)
          → inspect c clock texts config env source ≡ i
          → handle_inspected c clock texts config env source before i ≡ (ok tt, after)
          → Fate source before after
      inspected (reject attempt reason) e h =
          dlq-Fate source attempt reason before before after refl refl h
      inspected (stop x) e h = ground arith
      inspected (accept attempt x) e h =
          looked_up-Fate source attempt x before after _
            (inspect-Accepted c clock texts config env source attempt x e) refl h
