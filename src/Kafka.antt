-- ===== src/Kafka.antt =====
-- internal/platform/kafka/producer.go: the records that the producer sends, and how a sending ends.
use wb_orders.Base.{List, [], ◌∷◌}
use wb_orders.Base.Text.{Bytes, lit, itoa}
use wb_orders.Event.{Uuid, Envelope}

-- ProduceSync(...).FirstErr(): a record is acknowledged by all in-sync replicas, or lost with an error,
-- or stored with an error all the same.
pub data Delivery : Type 0 where
  sent : Delivery
  lost unsure : Bytes → Delivery

pub record Header : Type 0 where
  pub key : Bytes
  pub value : Bytes

-- The fields of a kgo.Record that the program sets or reads.
pub record KafkaRecord : Type 0 where
  pub topic : Bytes
  pub key : Bytes
  pub value : Bytes
  pub headers : List Header

-- The record that `Producer.Publish` sends; `uuid_text` is UUID.String.
unfoldable pub envelope_record : (Uuid → Bytes) → Bytes → Bytes → Bytes → Envelope → KafkaRecord
envelope_record uuid_text topic key value e = record {
  topic = topic;
  key = key;
  value = value;
  headers =
      record { key = lit "event_id"; value = uuid_text e.event_id }
      ∷ record { key = lit "event_type"; value = e.event_type }
      ∷ record { key = lit "event_version"; value = itoa e.version }
      ∷ record { key = lit "request_id"; value = e.request_id }
      ∷ [];
}
