-- ===== src/Outbox/Publisher/Fate.antt =====
-- What becomes of a claimed event, and that the events which the program stores are publishable.
use wb_orders.Base.{
  ◌≡◌, ◌≢◌, ◌⊎◌, ◌↔◌, refl, inl, inr, arith, ◌∷◌, Option, Option-cases, none, some, Result, ok, err,
  ◌+◌,
}
use wb_orders.Base.Text.{Bytes, bytes_eq, bytes_eq_iff, bytes_eq_refl}
use wb_orders.Event
use wb_orders.Event.{Uuid, Time, Envelope, order_created, order_status_changed}
use wb_orders.Event.Laws
use wb_orders.Json.{Codec, Server}
use wb_orders.Kafka.{Delivery, sent, lost, unsure}
use wb_orders.Database.Inserts.{outbox_row}
use wb_orders.Outbox.Postgres.{Claimed, claimed_of}
use wb_orders.Outbox.Publisher.{
  Topics, topic_for, exponential_backoff, second, minute, Fault, success, Env, World, Failure,
  not_marked, check_envelope, check_payload, check, rejection, fail_permanently, marking, freeing,
  put_back, delivered, message, checked, publish_one,
}

check_envelope-ok :
    (claimed : Claimed) (topic t : Bytes) (x e : Envelope)
    → (check_envelope claimed topic x ≡ ok (t, e)) ↔ (
        (t ≡ topic)
        × (x ≡ e)
        × (Event.validate e ≡ ok tt)
        × (e.event_id ≡ claimed.id)
        × (e.aggregate_id ≡ claimed.aggregate_id)
        × (e.event_type ≡ claimed.event_type))
unfolding check_envelope
check_envelope-ok claimed topic t x e = (
  λ h. ground (arith, bytes_eq_iff x.event_type claimed.event_type),
  λ h. ground (arith, bytes_eq_iff x.event_type claimed.event_type),
)

-- An event is let through to the producer exactly if its type has a topic, and its payload decodes to a
-- valid envelope with the same identifier, aggregate and type as the columns.
pub check_iff :
    (c : Codec) (topics : Topics) (claimed : Claimed) (topic : Bytes) (e : Envelope)
    → (check c topics claimed ≡ ok (topic, e)) ↔ (
        (topic_for topics claimed.event_type ≡ some topic)
        × (c.unmarshal_envelope claimed.payload ≡ some e)
        × Event.Laws.IsValid e
        × (e.event_id ≡ claimed.id)
        × (e.aggregate_id ≡ claimed.aggregate_id)
        × (e.event_type ≡ claimed.event_type))
unfolding check check_payload
check_iff c topics claimed topic e = elim (Option-cases (topic_for topics claimed.event_type)) [
  | inl untold ↦ (λ h. ground arith, λ h. ground arith)
  | inr (t, told) ↦ elim (Option-cases (c.unmarshal_envelope claimed.payload)) [
    | inl bad ↦ (λ h. ground arith, λ h. ground arith)
    | inr (x, decoded) ↦ (
      λ h.
          ground
            (arith, (check_envelope-ok claimed t topic x e).0, (Event.Laws.validate-IsValid e).0),
      λ h.
          ground
            (arith, (check_envelope-ok claimed t topic x e).1, (Event.Laws.validate-IsValid e).1),
    )
  ]
]

-- What the program itself puts into the outbox passes the publisher's checks: the row of a valid
-- envelope of one of the two types, if the stored document decodes to that envelope again, is given a
-- topic and that envelope.
pub check-outbox_row :
    (c : Codec) (s : Server) (topics : Topics) (now : Time) (e : Envelope) (payload : Bytes)
    → Event.Laws.IsValid e
    → (e.event_type ≡ order_created) ⊎ (e.event_type ≡ order_status_changed)
    → c.unmarshal_envelope (s.jsonb payload) ≡ some e
    → (topic : Bytes) × (check c topics (claimed_of (outbox_row s now e e.aggregate_id payload))
        ≡ ok (topic, e))
unfolding topic_for
check-outbox_row c s topics now e payload v (inl typed) decoded = (
  topics.order_created,
  (check_iff c topics _ topics.order_created e).1
      (rw (typed, bytes_eq_refl order_created) refl, decoded, v, refl, refl, refl),
)
check-outbox_row c s topics now e payload v (inr typed) decoded = (
  topics.order_status_changed,
  (check_iff c topics _ topics.order_status_changed e).1
      (rw typed (unfold bytes_eq in refl), decoded, v, refl, refl, refl),
)

module _ {S : Type 0} (c : Codec) (topics : Topics) (owner : Bytes) (env : Env S) where
  -- The four ends of an event: published and marked; published but not marked; not acknowledged, and
  -- released for a later attempt; rejected. Only the first is a success.
  pub data Fate (claimed : Claimed) (before : World S) (r : Option Failure) (after : World S)
      : Type 0 where
    publishes :
        (topic : Bytes) (e : Envelope)
        → check c topics claimed ≡ ok (topic, e)
        → env.publish (message c topics owner env claimed topic e) ≡ sent
        → env.repository.mark_published claimed.id owner before.store ≡ (none, after.store)
        → after.published ≡ message c topics owner env claimed topic e ∷ before.published
        → after.counted ≡ success ∷ before.counted
        → r ≡ none
        → Fate claimed before r after
    stays_unmarked :
        (topic : Bytes) (e : Envelope) (x : Bytes)
        → check c topics claimed ≡ ok (topic, e)
        → env.publish (message c topics owner env claimed topic e) ≡ sent
        → env.repository.mark_published claimed.id owner before.store ≡ (some x, after.store)
        → after.published ≡ message c topics owner env claimed topic e ∷ before.published
        → r ≡ some (not_marked x)
        → Fate claimed before r after
    is_released :
        (topic : Bytes) (e : Envelope) (cause : Bytes) (o : Option Bytes)
        → check c topics claimed ≡ ok (topic, e)
        → env.publish (message c topics owner env claimed topic e) ≢ sent
        → env.repository.release claimed.id owner cause
            (env.now + exponential_backoff claimed.attempts second minute)
            before.store
          ≡ (o, after.store)
        → (after.published ≡ before.published)
          ⊎ (after.published ≡ message c topics owner env claimed topic e ∷ before.published)
        → r ≢ none
        → Fate claimed before r after
    is_rejected :
        (fault : Fault) (o : Option Bytes)
        → check c topics claimed ≡ err fault
        → env.repository.mark_failed claimed.id owner (env.fault_text fault) before.store
          ≡ (o, after.store)
        → after.published ≡ before.published
        → r ≢ none
        → Fate claimed before r after

  rejection-Fate :
      (claimed : Claimed) (fault : Fault) (before : World S) (answer : Option Bytes × S)
      → check c topics claimed ≡ err fault
      → env.repository.mark_failed claimed.id owner (env.fault_text fault) before.store ≡ answer
      → let (r, after) = rejection c topics owner env fault before answer in
        Fate claimed before r after
  rejection-Fate claimed fault before (none, s) bad told =
      is_rejected fault none bad told refl (λ e. ground arith)
  rejection-Fate claimed fault before (some x, s) bad told =
      is_rejected fault (some x) bad told refl (λ e. ground arith)

  marking-Fate :
      (claimed : Claimed) (topic : Bytes) (e : Envelope) (before : World S)
      (answer : Option Bytes × S)
      → check c topics claimed ≡ ok (topic, e)
      → env.publish (message c topics owner env claimed topic e) ≡ sent
      → env.repository.mark_published claimed.id owner before.store ≡ answer
      → let m = message c topics owner env claimed topic e in
        let w = record before { published = m ∷ before.published } in
        let (r, after) = marking c topics owner env w answer in Fate claimed before r after
  marking-Fate claimed topic e before (none, s) good acked told =
      publishes topic e good acked told refl refl refl
  marking-Fate claimed topic e before (some x, s) good acked told =
      stays_unmarked topic e x good acked told refl refl

  freeing-Fate :
      (claimed : Claimed) (topic : Bytes) (e : Envelope) (cause : Bytes) (before w : World S)
      (answer : Option Bytes × S)
      → check c topics claimed ≡ ok (topic, e)
      → env.publish (message c topics owner env claimed topic e) ≢ sent
      → env.repository.release claimed.id owner cause
          (env.now + exponential_backoff claimed.attempts second minute)
          before.store
        ≡ answer
      → (w.published ≡ before.published)
        ⊎ (w.published ≡ message c topics owner env claimed topic e ∷ before.published)
      → let (r, after) = freeing c topics owner env cause w answer in Fate claimed before r after
  freeing-Fate claimed topic e cause before w (none, s) good lost_it told grown =
      is_released topic e cause none good lost_it told grown (λ e. ground arith)
  freeing-Fate claimed topic e cause before w (some x, s) good lost_it told grown =
      is_released topic e cause (some x) good lost_it told grown (λ e. ground arith)

  delivered-Fate :
      (claimed : Claimed) (topic : Bytes) (e : Envelope) (before : World S) (d : Delivery)
      → check c topics claimed ≡ ok (topic, e)
      → env.publish (message c topics owner env claimed topic e) ≡ d
      → let m = message c topics owner env claimed topic e in
        let (r, after) = delivered c topics owner env claimed m before d in
        Fate claimed before r after
  unfolding put_back
  delivered-Fate claimed topic e before sent good told =
      marking-Fate claimed topic e before _ good told refl
  delivered-Fate claimed topic e before (lost x) good told =
      freeing-Fate claimed topic e x before before _ good (λ s. ground arith) refl (inl refl)
  delivered-Fate claimed topic e before (unsure x) good told =
      freeing-Fate claimed topic e x before
        (record before {
          published = message c topics owner env claimed topic e ∷ before.published;
        })
        _ good (λ s. ground arith) refl (inr refl)

  checked-Fate :
      (claimed : Claimed) (before : World S) (found : Result Fault (Bytes × Envelope))
      → check c topics claimed ≡ found
      → let (r, after) = checked c topics owner env claimed before found in
        Fate claimed before r after
  unfolding fail_permanently
  checked-Fate claimed before (err fault) told = rejection-Fate claimed fault before _ told refl
  checked-Fate claimed before (ok (topic, e)) told =
      delivered-Fate claimed topic e before _ told refl

  -- Whatever the checks, the producer and the repository answer, the event meets one of four ends. It is
  -- published and marked, and only then is the result a success; it is published but the marking fails; the
  -- producer does not acknowledge it and it is released until the back-off is over; or a check
  -- refuses it, nothing is published, and it is marked as failed.
  pub publish_one-Fate :
      (claimed : Claimed) (before : World S)
      → let (r, after) = publish_one c topics owner env claimed before in
        Fate claimed before r after
  unfolding publish_one
  publish_one-Fate claimed before = checked-Fate claimed before _ refl
