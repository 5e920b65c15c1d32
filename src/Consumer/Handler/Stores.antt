-- ===== src/Consumer/Handler/Stores.antt =====
-- What the handler does to its store: only the repository's methods change it.
use wb_orders.Base.{
  Bool-cases, Result-cases, inl, inr, ◌&&◌, ◌≡◌, refl, Bool, true, false, some, Result, ok, err,
}
use wb_orders.Base.Int.{ℤ, pos, ltb_ℤ, wrap64, ◌+ℤ◌}
use wb_orders.Base.Text.{Bytes}
use wb_orders.Event.{Envelope}
use wb_orders.Json.{Codec}
use wb_orders.Kafka.{KafkaRecord, Delivery, sent, lost, unsure}
use wb_orders.Processing
use wb_orders.Processing.{Input, Decision}
use wb_orders.Consumer.Headers.{Clock}
use wb_orders.Consumer.Handler.{
  is_canceled, change_of, pipeline_input, Config, Texts, Env, Label, World, Inspection, reject,
  stop, accept, inspect, deliver, route, dlq, retry, completed, conclude, handle_payload, looked_up,
  handle_inspected, process_record, check_payload,
}
use wb_orders.Consumer.Handler.Inspect.{inspect-Accepted}

module _ {S : Type 0} (c : Codec) (clock : Clock) (texts : Texts) (config : Config) (env : Env S)
    (P : S → Type 0) where
  deliver_store :
      (out : KafkaRecord) (d : Delivery) (label : Label) (topic : Bytes) (w : World S)
      → P w.store
      → P (deliver c clock texts config env out d label topic w).1.store
  deliver_store out sent label topic w h = h
  deliver_store out (lost x) label topic w h = h
  deliver_store out (unsure x) label topic w h = h

  dlq_store :
      (source : KafkaRecord) (attempt : ℤ) (reason : Bytes) (w : World S)
      → P w.store
      → P (dlq c clock texts config env source attempt reason w).1.store
  unfolding dlq route
  dlq_store source attempt reason w h = deliver_store _ _ _ _ w h

  retry_store :
      (source : KafkaRecord) (attempt : ℤ) (cause : Bytes) (w : World S)
      → P w.store
      → P (retry c clock texts config env source attempt cause w).1.store
  unfolding retry route
  retry_store source attempt cause w h =
      elim (Bool-cases (ltb_ℤ config.max_retries (wrap64 (attempt +ℤ pos 1)))) [
        | inl over ↦ rw over (dlq_store source (wrap64 (attempt +ℤ pos 1)) cause w h)
        | inr within ↦ rw within (deliver_store _ _ _ _ w h)
      ]

  completed_store :
      (source : KafkaRecord) (attempt : ℤ) (w : World S) (answer : Result Bytes Bool × S)
      → P answer.1
      → P (completed c clock texts config env source attempt w answer).1.store
  completed_store source attempt w (err x, s) h =
      retry_store source attempt x (record w { store = s }) h
  completed_store source attempt w (ok false, s) h = h
  completed_store source attempt w (ok true, s) h = h

  -- A decision of the pipeline is completed with the condition kept.
  abbrev pub CompletesWell : Envelope → S → Type 0
  CompletesWell e s =
      (input : Input) (d : Decision)
      → env.process input ≡ ok d
      → P (env.repository.complete e.event_id config.consumer_name (change_of e d) s).1

  conclude_store :
      (source : KafkaRecord) (attempt : ℤ) (e : Envelope) (input : Input)
      (r : Result Processing.Error Decision) (w : World S)
      → env.process input ≡ r
      → P w.store
      → CompletesWell e w.store
      → P (conclude c clock texts config env source attempt e r w).1.store
  unfolding conclude
  conclude_store source attempt e input (err x) w came h well =
      elim (Bool-cases (is_canceled x && env.ctx_ended)) [
        | inl ended ↦ rw ended h
        | inr alive ↦ rw alive (retry_store source attempt (texts.process_error x) w h)
      ]
  conclude_store source attempt e input (ok d) w came h well =
      completed_store source attempt w _ (well input d came)

  handle_payload_store :
      (source : KafkaRecord) (attempt : ℤ) (e : Envelope) (w : World S)
      → P w.store
      → CompletesWell e w.store
      → P (handle_payload c clock texts config env source attempt e w).1.store
  unfolding handle_payload
  handle_payload_store source attempt e w h well =
      elim (Result-cases (check_payload texts (c.unmarshal_created e.payload) e.payload)) [
        | inr (reason, bad) ↦ rw (bad, handle_payload) (dlq_store source attempt reason w h)
        | inl (p, good) ↦
            rw (good, handle_payload)
              (conclude_store source attempt e (pipeline_input texts e p) _ w refl h well)
      ]

  looked_up_store :
      (source : KafkaRecord) (attempt : ℤ) (e : Envelope) (w : World S)
      (answer : Result Bytes Bool × S)
      → P answer.1
      → CompletesWell e answer.1
      → P (looked_up c clock texts config env source attempt e w answer).1.store
  looked_up_store source attempt e w (err x, s) h well =
      retry_store source attempt x (record w { store = s }) h
  looked_up_store source attempt e w (ok true, s) h well = h
  looked_up_store source attempt e w (ok false, s) h well =
      handle_payload_store source attempt e (record w { store = s }) h well

  handle_inspected_store :
      (source : KafkaRecord) (w : World S) (i : Inspection)
      → inspect c clock texts config env source ≡ i
      → P w.store
      → ((e : Envelope)
          → c.unmarshal_envelope source.value ≡ some e
          → let (_, s) = env.repository.is_processed e.event_id config.consumer_name w.store in
            P s × CompletesWell e s)
      → P (handle_inspected c clock texts config env source w i).1.store
  handle_inspected_store source w (reject attempt reason) told h well =
      dlq_store source attempt reason w h
  handle_inspected_store source w (stop x) told h well = h
  handle_inspected_store source w (accept attempt e) told h well =
      let accepted = inspect-Accepted c clock texts config env source attempt e told in
      let (asked, completes) = well e accepted.decoded in
      looked_up_store source attempt e w _ asked completes

  -- A condition on the store that the check of the record's event and the completion of its order with
  -- a decision of the pipeline keep is kept by the handling of the record, however it ends.
  pub process_record-store :
      (source : KafkaRecord) (w : World S)
      → P w.store
      → ((e : Envelope)
          → c.unmarshal_envelope source.value ≡ some e
          → let (_, s) = env.repository.is_processed e.event_id config.consumer_name w.store in
            P s × CompletesWell e s)
      → P (process_record c clock texts config env source w).1.store
  unfolding process_record
  process_record-store source w h well = handle_inspected_store source w _ refl h well
