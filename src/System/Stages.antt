-- ===== src/System/Stages.antt =====
-- What a step does to the life of each order: nothing, or it takes one order one stage further and
-- tells of it with one new event.
use wb_orders.Base.{
  ◌≡◌, ◌≢◌, refl, ap, ◌∙◌, sym, inl, inr, arith, false, [], ◌∷◌, ◌++◌, List, Result, Bool, some,
  none,
}
use wb_orders.Base.Text.{Bytes}
use wb_orders.Event.{Uuid, order_created, order_status_changed}
use wb_orders.Json.{Codec, Server}
use wb_orders.Database.{Db, OrderRow, OutboxRow}
use wb_orders.Database.Inserts.{has_event, outbox_row}
use wb_orders.Database.Queries.{find_order}
use wb_orders.Order.Model.{CreateCommand, Status, pending, confirmed, failed}
use wb_orders.Order.Store
use wb_orders.Order.Store.{order_row}
use wb_orders.Order.Service.{Fresh}
use wb_orders.Order.Service.Placing.{Places, create-Places}
use wb_orders.Outbox.Postgres.Lookup.{HasUniqueIds}
use wb_orders.Outbox.Postgres.Rows.{apply-HasUniqueIds}
use wb_orders.Consumer.Postgres
use wb_orders.Consumer.Postgres.{Change, Verdict, is_pending, set_status, complete}
use wb_orders.Consumer.Postgres.Completion.{Completes, repeats, keeps, moves}
use wb_orders.Consumer.Postgres.Endings.{Ends, leaves, tells, hides, complete_lem}
use wb_orders.Consumer.Postgres.Once.{
  find_order-id, find_order-set_status, find_order-set_status_ne,
}
use wb_orders.System.{
  Step, creates, completes, publishes, status_of, stage, Advances, places, settles, types_about,
  trail,
}
use wb_orders.System.Trails.{types_about-apply, find_order_absent}

-- A step of one order with the event that tells of it.
pub record Told (db after : Db) : Type 0 where
  pub id : Uuid
  pub row : OutboxRow
  pub advance : Advances (stage id db) (stage id after)
  pub trailed : trail (stage id after) ≡ trail (stage id db) ++ row.event_type ∷ []
  pub about : row.aggregate_id ≡ id
  pub new : has_event row.id db.outbox_events ≡ false
  pub others : (j : Uuid) → id ≢ j → stage j after ≡ stage j db
  pub appended : after.outbox_events ≡ db.outbox_events ++ row ∷ []

-- A step of no order.
pub record Quiet (db after : Db) : Type 0 where
  pub staged : (id : Uuid) → stage id after ≡ stage id db
  pub told : (id : Uuid) → types_about id after.outbox_events ≡ types_about id db.outbox_events
  pub unique : HasUniqueIds db.outbox_events → HasUniqueIds after.outbox_events

pub data Effect (db after : Db) : Type 0 where
  quiet : Quiet db after → Effect db after
  told : Told db after → Effect db after

-- The orders and the outbox stay.
Effect-constant :
    (db after : Db)
    → after.orders ≡ db.orders
    → after.outbox_events ≡ db.outbox_events
    → Effect db after
Effect-constant db after orders events = quiet (record {
  staged = λ id. ap (λ rows. status_of (find_order id rows)) orders;
  told = λ id. ap (types_about id) events;
  unique = λ u. rw events u;
})

trail_settled :
    (status : Status)
    → is_pending status ≡ false
    → trail (some status) ≡ order_created ∷ order_status_changed ∷ []
trail_settled pending h = ground arith
trail_settled confirmed h = refl
trail_settled failed h = refl

pub find_order_cons_ne :
    (id : Uuid) (r : OrderRow) (rows : List OrderRow)
    → r.id ≢ id
    → find_order id (r ∷ rows) ≡ find_order id rows
unfolding find_order
find_order_cons_ne id r rows h = ground arith

pub find_order_cons :
    (id : Uuid) (r : OrderRow) (rows : List OrderRow)
    → r.id ≡ id
    → find_order id (r ∷ rows) ≡ some r
unfolding find_order
find_order_cons id r rows h = ground arith

module _ (c : Codec) (s : Server) (db : Db) where
  Places-Told :
      (a : Store.Answers) (f : Fresh) (command : CreateCommand) (after : Db)
      → Places c s a f command db after
      → Told db after
  Places-Told a f command after p =
      let o = p.order in
      let e = p.event in
      let before : stage o.id db ≡ none =
        ap status_of (find_order_absent o.id db.orders p.stored.new_order) in
      let now : stage o.id after ≡ some pending =
        ap (λ (d : Db). stage o.id d) p.stored.shape
        ∙ ap status_of (find_order_cons o.id (order_row s o) db.orders refl)
        ∙ ap (λ x. some x.status) p.announced.order in
      record {
        id = o.id;
        row = outbox_row s a.now e e.aggregate_id p.stored.payload;
        advance = places before now;
        trailed = rw (before, now, p.announced.typed) refl;
        about = p.announced.about;
        new = p.stored.new_event;
        others = λ j different.
            ap (λ (d : Db). stage j d) p.stored.shape
            ∙ ap status_of (find_order_cons_ne j (order_row s o) db.orders different);
        appended = ap (λ (d : Db). d.outbox_events) p.stored.shape;
      }

  Completes-Effect :
      (a : Postgres.Answers) (event : Uuid) (consumer : Bytes) (k : Change) (after : Db)
      (v : Verdict)
      → is_pending k.status ≡ false
      → Completes c s a event consumer k db v after
      → Effect db after
  Completes-Effect a event consumer k after v settled (repeats _ _ same) =
      Effect-constant db after (ap (λ (d : Db). d.orders) same)
        (ap (λ (d : Db). d.outbox_events) same)
  Completes-Effect a event consumer k after v settled (keeps r _ _ _ _ same) =
      Effect-constant db after (ap (λ (d : Db). d.orders) same)
        (ap (λ (d : Db). d.outbox_events) same)
  Completes-Effect a event consumer k after v settled
        (moves r e payload _ _ found was reports _ _ free same) =
      let own : r.id ≡ k.order_id = find_order-id k.order_id db.orders r found in
      let before : stage k.order_id db ≡ some pending = ap status_of found ∙ ap some was in
      let rows : after.orders ≡ set_status k.order_id k.status a.now db.orders =
        ap (λ (d : Db). d.orders) same ∙ ap (λ id. set_status id k.status a.now db.orders) own in
      let now : stage k.order_id after ≡ some k.status =
        ap (λ x. status_of (find_order k.order_id x)) rows
        ∙ ap status_of (find_order-set_status k.order_id k.status a.now db.orders r found) in
      told (record {
        id = k.order_id;
        row = outbox_row s a.now e k.order_id payload;
        advance = settles k.status before settled now;
        trailed = rw (before, now, reports.typed) (trail_settled k.status settled);
        about = refl;
        new = free;
        others = λ j different.
            ap (λ x. status_of (find_order j x)) rows
            ∙ ap status_of (
                find_order-set_status_ne j k.order_id k.status a.now db.orders
                  (λ clash. different (sym clash)));
        appended = ap (λ (d : Db). d.outbox_events) same;
      })

  Ends-Effect :
      (a : Postgres.Answers) (event : Uuid) (consumer : Bytes) (k : Change)
      (r : Result Postgres.Error Bool) (after : Db)
      → is_pending k.status ≡ false
      → Ends c s a event consumer k db r after
      → Effect db after
  Ends-Effect a event consumer k r after settled (leaves x bad same) =
      Effect-constant db after (ap (λ (d : Db). d.orders) same)
        (ap (λ (d : Db). d.outbox_events) same)
  Ends-Effect a event consumer k r after settled (tells v how _) =
      Completes-Effect a event consumer k after v settled how
  Ends-Effect a event consumer k r after settled (hides v x how _) =
      Completes-Effect a event consumer k after v settled how

  pub Step-Effect : (next : Db) → Step c s db next → Effect db next
  Step-Effect next (creates a f given command went) =
      rw went (elim (create-Places c s a f given command db) [
        | inl same ↦
            Effect-constant db _ (ap (λ (d : Db). d.orders) same)
              (ap (λ (d : Db). d.outbox_events) same)
        | inr placed ↦ told (Places-Told a f command _ placed)
      ])
  Step-Effect next (completes a event consumer k settled went) =
      rw went (Ends-Effect a event consumer k _ _ settled (complete_lem c s a event consumer k db))
  Step-Effect next (publishes st went) = quiet (record {
    staged = λ id. ap (λ (d : Db). stage id d) went;
    told = λ id.
        ap (λ (d : Db). types_about id d.outbox_events) went
        ∙ types_about-apply id st db.outbox_events;
    unique = λ u. rw went (apply-HasUniqueIds st db.outbox_events u);
  })
