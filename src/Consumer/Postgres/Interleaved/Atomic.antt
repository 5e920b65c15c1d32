-- ===== src/Consumer/Postgres/Interleaved/Atomic.antt =====
-- `Complete` with other transactions between its statements does what it does at one stroke.
use wb_orders.Base.{
  ◌≡◌, ◌⊎◌, ap, ◌∙◌, inl, inr, arith, [], ◌∷◌, ◌++◌, Bool-cases, false, Option-cases, some, Result,
  Result-cases, ok, err, ◌>>=◌,
}
use wb_orders.Base.Text.{Bytes}
use wb_orders.Event
use wb_orders.Event.{Uuid, Envelope, order_status_changed}
use wb_orders.Event.Laws
use wb_orders.Json.{Codec, Server}
use wb_orders.Database.{Db, OrderRow, OutboxRow, Reply, done, broken}
use wb_orders.Database.Transactions.{
  transact, transact-Settles, Settles, rolled_back, applied, unconfirmed,
}
use wb_orders.Database.Inserts.{or_fail, when_done, has_event, insert_event, outbox_row}
use wb_orders.Database.Queries.{find_order}
use wb_orders.Consumer.Postgres.{
  Verdict, is_applied, Error, begin_failed, insert_failed, commit_failed, is_recorded, Answers,
  Change, when_locked, set_status, update_order, is_pending, record_event, emit, change,
  settle_order, complete_body, complete,
}
use wb_orders.Consumer.Postgres.Completion.{noted}
use wb_orders.Consumer.Postgres.Interleaved.{
  Moments, status_event, change_between, body_between, complete_between, IsKept,
}

module _ (c : Codec) (s : Server) (a : Answers) where
  status_event-emit :
      (r : OrderRow) (k : Change) (e : Envelope) (payload : Bytes) (db : Db)
      → status_event c a r k ≡ ok (e, payload)
      → (e.event_id ≡ a.event_id)
        × (emit c s a r.status k db
            ≡ or_fail
                (when_done a.inserted (insert_event (outbox_row s a.now e k.order_id payload) db))
                insert_failed)
  unfolding status_event emit
  status_event-emit r k e payload db h =
      elim (Result-cases (
        Event.new a.event_id a.occurred_at order_status_changed k.order_id k.request_id (
          c.marshal_status_changed (record {
            previous_status = r.status;
            current_status = k.status;
            reason = k.reason;
          })))) [
            | inr (x, bad) ↦ ground arith
            | inl (e', built) ↦ elim (Option-cases (c.marshal_envelope e')) [
              | inl bad ↦ ground arith
              | inr (payload', marshalled) ↦
                  let (_, _, _, shape) = Event.Laws.new-ok _ _ _ _ _ _ e' built in
                  let same : e ≡ e' = ground arith in
                  (ap (λ x. x.event_id) (same ∙ shape), ground arith)
            ]
          ]

  insert_event_later :
      (reply : Reply) (row : OutboxRow) (early later : Db) (next : Db)
      → when_done reply (insert_event row early) ≡ some next
      → (has_event row.id early.outbox_events ≡ false
          → has_event row.id later.outbox_events ≡ false)
      → when_done reply (insert_event row later)
        ≡ some (record later { outbox_events = later.outbox_events ++ row ∷ [] })
  unfolding insert_event
  insert_event_later reply row early later next h kept = ground (arith, kept)

  update_later :
      (reply : Reply) (r : OrderRow) (k : Change) (early later next : Db)
      → when_done reply (update_order r k.status a.now early) ≡ some next
      → when_done reply (update_order r k.status a.now later)
        ≡ some (record later { orders = set_status r.id k.status a.now later.orders })
  unfolding update_order
  update_later reply r k early later next h = ground arith

  module _ (event : Uuid) (consumer : Bytes) (k : Change) (m : Moments) (db : Db)
      (kept : IsKept a event consumer k m db) where
    change_between-change :
        (r : OrderRow) (v : Verdict) (next : Db)
        → change_between c s a event consumer k m r db ≡ ok (v, next)
        → change c s a k r (noted a event consumer db) ≡ ok (v, next)
    unfolding change_between change
    change_between-change r v next h = elim (Bool-cases (is_pending r.status)) [
      | inr settled ↦ ground arith
      | inl open_order ↦
          elim (Option-cases (when_done a.updated (update_order r k.status a.now m.at_lock))) [
            | inl bad ↦ ground arith
            | inr (updated, went) ↦ elim (Result-cases (status_event c a r k)) [
              | inr (x, bad) ↦ ground arith
              | inl ((e, payload), built) ↦
                  elim (Option-cases (
                    when_done a.inserted
                      (insert_event (outbox_row s a.now e k.order_id payload) m.at_insert))) [
                        | inl bad ↦ ground arith
                        | inr (inserted, stored) ↦
                            let mid = noted a event consumer db in
                            let moving : Db = record mid {
                              orders = set_status r.id k.status a.now mid.orders;
                            } in
                            let (own, emits) = status_event-emit r k e payload moving built in
                            let row = outbox_row s a.now e k.order_id payload in
                            let later =
                              insert_event_later a.inserted row m.at_insert moving inserted stored
                                (rw own kept.inserting) in
                            let updates = update_later a.updated r k m.at_lock mid updated went in
                            ground arith
                      ]
            ]
          ]
    ]

    record_later :
        (next : Db)
        → when_done a.recorded (record_event event consumer a.now m.at_record) ≡ some next
        → when_done a.recorded (record_event event consumer a.now db)
          ≡ some (noted a event consumer db)
    unfolding record_event
    record_later next h = ground arith

    lock_later :
        (r : OrderRow)
        → when_locked a.locked (find_order k.order_id m.at_lock.orders) ≡ some r
        → when_locked a.locked (find_order k.order_id db.orders) ≡ some r
    lock_later r h = locked a.locked h
      where
        locked :
            (reply : Reply)
            → when_locked reply (find_order k.order_id m.at_lock.orders) ≡ some r
            → when_locked reply (find_order k.order_id db.orders) ≡ some r
        locked done h = kept.locking r h
        locked broken h = ground arith

    body_between-complete_body :
        (v : Verdict) (next : Db)
        → body_between c s a event consumer k m db ≡ ok (v, next)
        → complete_body c s a event consumer k db ≡ ok (v, next)
    unfolding body_between complete_body settle_order
    body_between-complete_body v next h =
        let same = kept.noting in
        elim (Bool-cases (is_recorded event consumer m.at_record.processed_events)) [
          | inl old ↦ ground arith
          | inr new ↦
              elim (Option-cases
                (when_done a.recorded (record_event event consumer a.now m.at_record))) [
                  | inl bad ↦ ground arith
                  | inr (next_db, went) ↦
                      elim (Option-cases
                        (when_locked a.locked (find_order k.order_id m.at_lock.orders))) [
                          | inl bad ↦ ground arith
                          | inr (r, locked) ↦
                              let changed = change_between-change r v next (ground arith) in
                              ground (arith, record_later next_db went, lock_later r locked)
                        ]
                ]
        ]

    -- `Complete` with other transactions between its statements: if the database keeps for it what it has noted,
    -- locked and inserted, then either it leaves the tables as it finds them at its end and returns an error, or
    -- it does and returns what it would at one stroke in the tables that its end finds.
    pub complete_between-complete :
        let (r, after) = complete_between c s a event consumer k m db in
        ((after ≡ db) × ((x : Error) × (r ≡ err x)))
        ⊎ (complete_between c s a event consumer k m db ≡ complete c s a event consumer k db)
    unfolding complete_between complete transact
    complete_between-complete = elim (Result-cases (body_between c s a event consumer k m db)) [
      | inl ((v, next), went) ↦
          inr (let atomic = body_between-complete_body v next went in ground arith)
      | inr (x, bad) ↦ inl (
          failed x bad _ _ (
            transact-Settles begin_failed commit_failed a.begin a.commit
              (body_between c s a event consumer k m) db))
    ]
      where
        failed :
            (x : Error)
            → body_between c s a event consumer k m db ≡ err x
            → (r : Result Error Verdict) (after : Db)
            → Settles (body_between c s a event consumer k m db) db r after
            → (after ≡ db) × ((y : Error) × ((r >>= λ verdict. ok (is_applied verdict)) ≡ err y))
        failed x bad r after (rolled_back y told same) = (same, (y, ground arith))
        failed x bad r after (applied v went told) = ground arith
        failed x bad r after (unconfirmed v y went told) = ground arith
