-- ===== src/Tests/Publications.antt =====
-- A batch of the publisher at concrete values.
use wb_orders.Base.{true, List, [], ◌∷◌, none, ok}
use wb_orders.Kafka.{KafkaRecord, sent, envelope_record}
use wb_orders.Database.{OutboxRow, committed}
use wb_orders.WorkerPool.{Job, Pool, returned}
use wb_orders.Outbox.Postgres.{Claimed, claimed_of, published_row}
use wb_orders.Outbox.Publisher.{success, Failure}
use wb_orders.Outbox.Publisher.Stored.{Texts, Meets}
use wb_orders.Outbox.Publisher.Batch.{Calls}
use wb_orders.Outbox.Publisher.Batch.Effects.{Outside}
use wb_orders.Tests.Fixtures.{noon, document, the_event}
use wb_orders.Tests.Statements.{topics, leased}

abbrev pub publishing_texts : Texts
publishing_texts = record {
  uuid = λ id. document;
  fault = λ fault. document;
  error = λ x. document;
  left = λ text. text;
}

abbrev pub claimed : Claimed
claimed = claimed_of leased

abbrev before : Outside
before = record { store = leased ∷ []; published = []; counted = [] }

abbrev message : KafkaRecord
message = envelope_record publishing_texts.uuid topics.order_created document document the_event

abbrev afterwards : Outside
afterwards = record {
  store = published_row noon leased ∷ [];
  published = message ∷ [];
  counted = success ∷ [];
}

abbrev pub meets : Meets
meets = record { reply = committed; server_now = noon; publish = λ m. sent; now = noon }

abbrev job : Job Claimed
job = record { index = 0; item = claimed }

abbrev published_pool : Pool Claimed Failure Outside
published_pool = record {
  queue = [];
  running = [];
  idle = 0;
  written = (job, returned none) ∷ [];
  store = afterwards;
  closed = true;
}

abbrev calls : Calls (List OutboxRow)
calls = record { claim = ok (claimed ∷ []); pending = ok 0; pool = published_pool }
