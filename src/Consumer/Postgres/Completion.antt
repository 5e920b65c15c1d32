-- ===== src/Consumer/Postgres/Completion.antt =====
-- What `Complete` does to the tables: it moves a pending order once, with its event, and never again.
use wb_orders.Base.{
  sym, ◌≡◌, ◌≢◌, ◌⊎◌, inl, inr, ap, ◌∙◌, arith, [], ◌∷◌, ◌++◌, Bool-cases, true, false, Option,
  Option-cases, some, Result-cases, ok,
}
use wb_orders.Base.Text.{Bytes}
use wb_orders.Event
use wb_orders.Event.{Uuid, Time, Envelope, order_status_changed, unchecked}
use wb_orders.Event.Laws
use wb_orders.Json.{Codec, Server}
use wb_orders.Database.{Db, OrderRow, ProcessedRow, Reply}
use wb_orders.Database.Inserts.{when_done, has_event, insert_event, outbox_row}
use wb_orders.Order.Model.{Status, pending}
use wb_orders.Consumer.Postgres.{
  Verdict, duplicate, stale, applied, is_recorded, Answers, Change, set_status, update_order,
  is_pending, record_event, emit, change, when_locked, settle_order, complete_body,
}
use wb_orders.Database.Queries.{find_order}

-- The row that notes an event as processed.
abbrev pub noted_row : Uuid → Bytes → Time → ProcessedRow
noted_row event consumer now = record {
  event_id = event;
  consumer_name = consumer;
  processed_at = now;
}

abbrev pub noted : Answers → Uuid → Bytes → Db → Db
noted a event consumer db = record db {
  processed_events = noted_row event consumer a.now ∷ db.processed_events;
}

-- The tables after a completion that changed the order `r`.
abbrev pub moved : Server → Answers → Uuid → Bytes → Change → OrderRow → Envelope → Bytes → Db → Db
moved s a event consumer k r e payload db = record db {
  orders = set_status r.id k.status a.now db.orders;
  outbox_events = db.outbox_events ++ outbox_row s a.now e k.order_id payload ∷ [];
  processed_events = noted_row event consumer a.now ∷ db.processed_events;
}

-- A valid OrderStatusChanged event about the order of a completion, with its old and its new status.
pub record Reports (c : Codec) (previous : Status) (k : Change) (e : Envelope) : Type 0 where
  pub valid : Event.Laws.IsValid e
  pub typed : e.event_type ≡ order_status_changed
  pub about : e.aggregate_id ≡ k.order_id
  pub traced : e.request_id ≡ k.request_id
  pub carried :
      c.marshal_status_changed
        (record { previous_status = previous; current_status = k.status; reason = k.reason })
      ≡ some e.payload

emit-ok :
    (c : Codec) (s : Server) (a : Answers) (previous : Status) (k : Change) (db next : Db)
    → emit c s a previous k db ≡ ok next
    → (e : Envelope) × (payload : Bytes) × Reports c previous k e
      × (c.marshal_envelope e ≡ some payload)
      × (e.event_id ≡ a.event_id)
      × (has_event e.event_id db.outbox_events ≡ false)
      × (next ≡ record db {
        outbox_events = db.outbox_events ++ outbox_row s a.now e k.order_id payload ∷ [];
      })
unfolding emit insert_event
emit-ok c s a previous k db next h =
    elim (Result-cases (
      Event.new a.event_id a.occurred_at order_status_changed k.order_id k.request_id (
        c.marshal_status_changed
          (record { previous_status = previous; current_status = k.status; reason = k.reason })))) [
            | inr (x, bad) ↦ ground arith
            | inl (e, built) ↦
                let (raw, marshalled, valid, shape) = Event.Laws.new-ok _ _ _ _ _ _ e built in
                let reports : Reports c previous k e = record {
                  valid = valid;
                  typed = ap (λ x. x.event_type) shape;
                  about = ap (λ x. x.aggregate_id) shape;
                  traced = ap (λ x. x.request_id) shape;
                  carried = marshalled ∙ ap (λ x. some x.payload) (sym shape);
                } in
                elim (Option-cases (c.marshal_envelope e)) [
                  | inl bad ↦ ground arith
                  | inr (payload, m) ↦ (
                    e,
                    payload,
                    reports,
                    m,
                    ap (λ x. x.event_id) shape,
                    ground arith,
                    ground arith,
                  )
                ]
          ]

update_order-some :
    (reply : Reply) (r : OrderRow) (status : Status) (now : Time) (db next : Db)
    → when_done reply (update_order r status now db) ≡ some next
    → next ≡ record db { orders = set_status r.id status now db.orders }
unfolding update_order
update_order-some reply r status now db next h = ground arith

change-ok :
    (c : Codec) (s : Server) (a : Answers) (k : Change) (r : OrderRow) (db next : Db) (v : Verdict)
    → change c s a k r db ≡ ok (v, next)
    → ((v ≡ stale) × (next ≡ db) × (r.status ≢ pending))
      ⊎ ((e : Envelope) × (payload : Bytes) × Reports c r.status k e
          × (c.marshal_envelope e ≡ some payload)
          × (e.event_id ≡ a.event_id)
          × (has_event e.event_id db.outbox_events ≡ false)
          × (v ≡ applied)
          × (r.status ≡ pending)
          × (next ≡ record db {
            orders = set_status r.id k.status a.now db.orders;
            outbox_events = db.outbox_events ++ outbox_row s a.now e k.order_id payload ∷ [];
          }))
unfolding change
change-ok c s a k r db next v h = elim (Bool-cases (is_pending r.status)) [
  | inr settled ↦ inl (ground arith, ground arith, ground arith)
  | inl open_order ↦ elim (Option-cases (when_done a.updated (update_order r k.status a.now db))) [
    | inl bad ↦ ground arith
    | inr (mid, went) ↦ elim (Result-cases (emit c s a r.status k mid)) [
      | inr (x, bad) ↦ ground arith
      | inl (last, emitted) ↦
          let (e, payload, reports, m, named, new, shape) =
            emit-ok c s a r.status k mid last emitted in
          let moved_row = update_order-some a.updated r k.status a.now db mid went in
          inr (
            e,
            payload,
            reports,
            m,
            named,
            ap (λ (d : Db). has_event e.event_id d.outbox_events) (sym moved_row) ∙ new,
            ground arith,
            ground arith,
            ground arith,
          )
    ]
  ]
]

-- The three ways in which a completion commits.
pub data Completes (c : Codec) (s : Server) (a : Answers) (event : Uuid) (consumer : Bytes)
    (k : Change) (db : Db) (v : Verdict) (next : Db) : Type 0 where
  repeats :
      v ≡ duplicate
      → is_recorded event consumer db.processed_events ≡ true
      → next ≡ db
      → Completes c s a event consumer k db v next
  keeps :
      (r : OrderRow)
      → v ≡ stale
      → is_recorded event consumer db.processed_events ≡ false
      → find_order k.order_id db.orders ≡ some r
      → r.status ≢ pending
      → next ≡ noted a event consumer db
      → Completes c s a event consumer k db v next
  moves :
      (r : OrderRow) (e : Envelope) (payload : Bytes)
      → v ≡ applied
      → is_recorded event consumer db.processed_events ≡ false
      → find_order k.order_id db.orders ≡ some r
      → r.status ≡ pending
      → Reports c r.status k e
      → c.marshal_envelope e ≡ some payload
      → e.event_id ≡ a.event_id
      → has_event e.event_id db.outbox_events ≡ false
      → next ≡ moved s a event consumer k r e payload db
      → Completes c s a event consumer k db v next

record_event-some :
    (reply : Reply) (event : Uuid) (consumer : Bytes) (now : Time) (db next : Db)
    → when_done reply (record_event event consumer now db) ≡ some next
    → next ≡ record db { processed_events = noted_row event consumer now ∷ db.processed_events }
unfolding record_event
record_event-some reply event consumer now db next h = ground arith

when_locked-some :
    (reply : Reply) (o : Option OrderRow) (r : OrderRow) → when_locked reply o ≡ some r → o ≡ some r
when_locked-some reply o r h = ground arith

pub complete_body-Completes :
    (c : Codec) (s : Server) (a : Answers) (event : Uuid) (consumer : Bytes) (k : Change)
    (db next : Db) (v : Verdict)
    → complete_body c s a event consumer k db ≡ ok (v, next)
    → Completes c s a event consumer k db v next
unfolding complete_body settle_order
complete_body-Completes c s a event consumer k db next v h =
    elim (Bool-cases (is_recorded event consumer db.processed_events)) [
      | inl old ↦ repeats (ground arith) old (ground arith)
      | inr new ↦
          elim (Option-cases (when_done a.recorded (record_event event consumer a.now db))) [
            | inl bad ↦ ground arith
            | inr (mid, went) ↦
                let shape = record_event-some a.recorded event consumer a.now db mid went in
                elim (Option-cases (when_locked a.locked (find_order k.order_id mid.orders))) [
                  | inl bad ↦ ground arith
                  | inr (r, locked) ↦
                      let found : find_order k.order_id db.orders ≡ some r =
                        rw (ap (λ (d : Db). d.orders) shape) at
                          (when_locked-some a.locked (find_order k.order_id mid.orders) r locked) in
                      elim (change-ok c s a k r mid next v (ground arith)) [
                        | inl (stayed, same, settled) ↦
                            keeps r stayed new found settled (same ∙ shape)
                        | inr (e, payload, reports, m, named, unused, went', was, moved') ↦
                            let free = rw (ap (λ (d : Db). d.outbox_events) shape) at unused in
                            moves r e payload went' new found was reports m named free
                              (ground arith)
                      ]
                ]
          ]
    ]
