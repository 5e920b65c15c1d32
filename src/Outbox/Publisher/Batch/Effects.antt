-- ===== src/Outbox/Publisher/Batch/Effects.antt =====
-- What one event does to the outbox table and to the broker.
use mathlib.Core.List.{Mem, mem-cons_self, mem-cons_of_mem}
use wb_orders.Base.{
  ◌≡◌, refl, ap, sym, inl, inr, arith, List, [], ◌∷◌, Option, none, some, Result, ok, err,
}
use wb_orders.Base.Text.{Bytes}
use wb_orders.Event
use wb_orders.Event.{Uuid, Envelope}
use wb_orders.Event.Laws
use wb_orders.Json.{Codec}
use wb_orders.Kafka.{KafkaRecord, envelope_record}
use wb_orders.Database.{OutboxRow}
use wb_orders.Outbox.Postgres
use wb_orders.Outbox.Postgres.{Claimed}
use wb_orders.Outbox.Postgres.Lookup.{HasUniqueIds}
use wb_orders.Outbox.Postgres.Rows
use wb_orders.Outbox.Postgres.Rows.{Statement, apply, run, run-HasUniqueIds}
use wb_orders.Outbox.Postgres.Leases.{run-final}
use wb_orders.Outbox.Postgres.Marking.{IsMarked, mark_published-IsMarked}
use wb_orders.Outbox.Publisher.{Topics, World, Failure, check}
use wb_orders.Outbox.Publisher.Fate.{Fate, check_iff, stays_unmarked, is_released, is_rejected}
use wb_orders.Outbox.Publisher.Topic.{IsTopicOf, topic_for-IsTopicOf}
use wb_orders.Outbox.Publisher.Stored.{Texts, Meets, texted, env_of}

-- The handlers' world: the outbox table, what the broker has, and the counter.
abbrev pub Outside : Type 0
Outside = World (List OutboxRow)

pub run-IsMarked :
    (ss : List Statement) (id : Uuid) (rows : List OutboxRow)
    → HasUniqueIds rows
    → IsMarked id rows
    → IsMarked id (run ss rows)
run-IsMarked ss id rows u m = record {
  row = m.row;
  found = run-final ss id rows m.row u m.found m.consistent (ground arith);
  consistent = m.consistent;
  done = m.done;
}

texted-rows :
    (text : Postgres.Error → Bytes) (x : Result Postgres.Error (Unit {0}) × List OutboxRow)
    (o : Option Bytes) (rows : List OutboxRow)
    → texted text x ≡ (o, rows)
    → x.1 ≡ rows
texted-rows text (ok u, found) o rows h = ap (λ p. p.1) h
texted-rows text (err x, found) o rows h = ap (λ p. p.1) h

texted-none :
    (text : Postgres.Error → Bytes) (x : Result Postgres.Error (Unit {0}) × List OutboxRow)
    (rows : List OutboxRow)
    → texted text x ≡ (none, rows)
    → x ≡ (ok tt, rows)
texted-none text (ok u, found) rows h = ground arith
texted-none text (err x, found) rows h = ground arith

module _ (c : Codec) (topics : Topics) (owner : Bytes) (texts : Texts) where
  -- The event is in the topic of its type, with the payload that was claimed under the aggregate's key, and the
  -- payload decodes to a valid envelope of the row's id.
  pub record IsSent (claimed : Claimed) (w : Outside) : Type 0 where
    pub envelope : Envelope
    pub sent : KafkaRecord
    pub decoded : c.unmarshal_envelope claimed.payload ≡ some envelope
    pub valid : Event.Laws.IsValid envelope
    pub identified : envelope.event_id ≡ claimed.id
    pub addressed : IsTopicOf topics claimed.event_type sent.topic
    pub keyed : sent.key ≡ texts.uuid claimed.aggregate_id
    pub carried : sent.value ≡ claimed.payload
    pub stored : Mem sent w.published

  fit-IsSent :
      (claimed : Claimed) (topic : Bytes) (e : Envelope) (w : Outside)
      → check c topics claimed ≡ ok (topic, e)
      → Mem
          (envelope_record texts.uuid topic (texts.uuid claimed.aggregate_id) claimed.payload e)
          w.published
      → IsSent claimed w
  unfolding envelope_record
  fit-IsSent claimed topic e w fit stored =
      let (found, decoded, valid, identified, _, _) = (check_iff c topics claimed topic e).0 fit in
      record {
        envelope = e;
        sent = envelope_record texts.uuid topic (texts.uuid claimed.aggregate_id) claimed.payload e;
        decoded = decoded;
        valid = valid;
        identified = identified;
        addressed = topic_for-IsTopicOf topics claimed.event_type topic found;
        keyed = refl;
        carried = refl;
        stored = stored;
      }

  -- What one event may do to the world: at most one statement, and nothing taken from the broker.
  pub record IsEffect (before after : Outside) : Type 0 where
    pub statements : List Statement
    pub stored : after.store ≡ run statements before.store
    pub remains : (x : KafkaRecord) → Mem x before.published → Mem x after.published

  one_statement :
      (s : Statement) (before after : Outside)
      → apply s before.store ≡ after.store
      → ((x : KafkaRecord) → Mem x before.published → Mem x after.published)
      → IsEffect before after
  unfolding run
  one_statement s before after told kept = record {
    statements = s ∷ [];
    stored = sym told;
    remains = kept;
  }

  remains_same :
      (before after : Outside)
      → after.published ≡ before.published
      → (x : KafkaRecord) → Mem x before.published
      → Mem x after.published
  remains_same before after e x h = rw e h

  remains_grown :
      (before after : Outside) (m : KafkaRecord)
      → after.published ≡ m ∷ before.published
      → (x : KafkaRecord) → Mem x before.published
      → Mem x after.published
  remains_grown before after m e x h = rw e (mem-cons_of_mem m h)

  pub Fate-IsEffect :
      (m : Meets) (claimed : Claimed) (before after : Outside) (r : Option Failure)
      → Fate c topics owner (env_of texts m) claimed before r after
      → IsEffect before after
  unfolding apply
  Fate-IsEffect m claimed before after r
        (Fate.publishes topic e fit acked told grown counted good) =
      one_statement (Rows.publishes m.reply m.server_now claimed.id owner) before after
        (texted-rows texts.error _ none after.store told) (remains_grown before after _ grown)
  Fate-IsEffect m claimed before after r (stays_unmarked topic e x fit acked told grown bad) =
      one_statement (Rows.publishes m.reply m.server_now claimed.id owner) before after
        (texted-rows texts.error _ (some x) after.store told) (remains_grown before after _ grown)
  Fate-IsEffect m claimed before after r
        (is_released topic e cause o fit lost_it told (inl same) bad) =
      one_statement (Rows.releases m.reply texts.left claimed.id owner cause _) before after
        (texted-rows texts.error _ o after.store told) (remains_same before after same)
  Fate-IsEffect m claimed before after r
        (is_released topic e cause o fit lost_it told (inr grown) bad) =
      one_statement (Rows.releases m.reply texts.left claimed.id owner cause _) before after
        (texted-rows texts.error _ o after.store told) (remains_grown before after _ grown)
  Fate-IsEffect m claimed before after r (is_rejected fault o unfit told same bad) =
      one_statement (Rows.fails m.reply texts.left claimed.id owner (texts.fault fault)) before
        after (texted-rows texts.error _ o after.store told) (remains_same before after same)

  pub Fate-published :
      (m : Meets) (claimed : Claimed) (before after : Outside)
      → HasUniqueIds before.store
      → Fate c topics owner (env_of texts m) claimed before none after
      → IsMarked claimed.id after.store × IsSent claimed after
  Fate-published m claimed before after u
        (Fate.publishes topic e fit acked told grown counted good) =
      (
        mark_published-IsMarked m.reply m.server_now claimed.id owner before.store after.store u
            (texted-none texts.error _ after.store told),
        fit-IsSent claimed topic e after fit (rw grown mem-cons_self),
      )
  Fate-published m claimed before after u (stays_unmarked topic e x fit acked told grown bad) =
      absurd (ground arith)
  Fate-published m claimed before after u (is_released topic e cause o fit lost_it told grown bad) =
      absurd (bad refl)
  Fate-published m claimed before after u (is_rejected fault o unfit told same bad) =
      absurd (bad refl)
