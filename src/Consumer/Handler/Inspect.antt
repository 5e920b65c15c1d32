-- ===== src/Consumer/Handler/Inspect.antt =====
-- What the checks before the database have established of a record that they accept.
use wb_orders.Base.{◌≡◌, inl, inr, ap, ◌∙◌, arith, false, Option-cases, some, ok}
use wb_orders.Base.Int.{ℤ, ltb_ℤ}
use wb_orders.Base.Text.{bytes_eq_iff}
use wb_orders.Event
use wb_orders.Kafka.{KafkaRecord}
use wb_orders.Event.{Uuid, Time, zero_time, Envelope, order_created}
use wb_orders.Json.{Codec}
use wb_orders.Consumer.Headers.{Clock, attempt_key, header_int, header_time, not_before_key}
use wb_orders.Consumer.Handler.{
  Config, Texts, Env, accept, inspect_envelope, inspect_value, inspect_delay, inspect_attempt,
  inspect,
}

inspect_envelope-accept :
    (texts : Texts) (source : KafkaRecord) (n attempt : ℤ) (x e : Envelope)
    → inspect_envelope texts source n x ≡ accept attempt e
    → (x ≡ e)
      × (n ≡ attempt)
      × (Event.validate e ≡ ok tt)
      × (e.event_type ≡ order_created)
      × (source.key ≡ texts.uuid e.aggregate_id)
unfolding inspect_envelope
inspect_envelope-accept texts source n attempt x e h = ground (
  arith,
  bytes_eq_iff x.event_type order_created,
  bytes_eq_iff source.key (texts.uuid x.aggregate_id),
)

-- The facts that the checks have established when a record is accepted.
pub record Accepted (c : Codec) (texts : Texts) (config : Config) (source : KafkaRecord)
    (attempt : ℤ) (e : Envelope) : Type 0 where
  pub counted : header_int source.headers attempt_key ≡ some attempt
  pub within : ltb_ℤ config.max_retries attempt ≡ false
  pub decoded : c.unmarshal_envelope source.value ≡ some e
  pub valid : Event.validate e ≡ ok tt
  pub typed : e.event_type ≡ order_created
  pub keyed : source.key ≡ texts.uuid e.aggregate_id

module _ {S : Type 0} (c : Codec) (clock : Clock) (texts : Texts) (config : Config)
    (env : Env S) where
  pub inspect-Accepted :
      (source : KafkaRecord) (attempt : ℤ) (e : Envelope)
      → inspect c clock texts config env source ≡ accept attempt e
      → Accepted c texts config source attempt e
  unfolding inspect inspect_attempt inspect_delay inspect_value
  inspect-Accepted source attempt e h =
      elim (Option-cases (header_int source.headers attempt_key)) [
        | inl bad ↦ ground arith
        | inr (n, counted) ↦ elim (Option-cases (header_time clock source.headers not_before_key)) [
          | inl bad ↦ ground arith
          | inr (t, dated) ↦ elim (Option-cases (c.unmarshal_envelope source.value)) [
            | inl bad ↦ ground arith
            | inr (x, decoded) ↦
                let (same, number, valid, typed, keyed) =
                  inspect_envelope-accept texts source n attempt x e (ground arith) in
                record {
                  counted = counted ∙ ap some number;
                  within = ground arith;
                  decoded = decoded ∙ ap some same;
                  valid = valid;
                  typed = typed;
                  keyed = keyed;
                }
          ]
        ]
      ]
