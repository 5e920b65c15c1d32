-- ===== src/System/Apart.antt =====
-- The other transactions that may commit while one `Complete` is open: none that inserts its note, changes the
-- order that it has locked, or inserts an event with its id. They keep what `Complete` relies on.
use wb_orders.Base.{
  ◌≡◌, ◌≢◌, ◌⊎◌, refl, ap, sym, ◌∙◌, inl, inr, arith, Bool, true, false, ◌&&◌, ◌||◌, ◌==◌, List, [],
  ◌∷◌, ◌++◌, some, none, Result, err,
}
use wb_orders.Base.Text.{Bytes, bytes_eq}
use wb_orders.Event.{Uuid, Time}
use wb_orders.Json.{Codec, Server}
use wb_orders.Database.{Db, OrderRow, ProcessedRow, OutboxRow}
use wb_orders.Database.Inserts.{has_order, has_event, outbox_row}
use wb_orders.Database.Queries.{find_order}
use wb_orders.Order.Model.{CreateCommand}
use wb_orders.Order.Store
use wb_orders.Order.Store.{order_row}
use wb_orders.Order.Service.{Fresh, create}
use wb_orders.Order.Service.Placing.{Places, create-Places}
use wb_orders.Outbox.Postgres.Rows.{Statement, apply}
use wb_orders.Consumer.Postgres
use wb_orders.Consumer.Postgres.{Change, Verdict, is_recorded, complete, set_status}
use wb_orders.Consumer.Postgres.Completion.{Completes, repeats, keeps, moves, noted_row}
use wb_orders.Consumer.Postgres.Endings.{Ends, leaves, tells, hides, complete_lem}
use wb_orders.Consumer.Postgres.Once.{find_order-id, find_order-set_status_ne}
use wb_orders.Consumer.Postgres.Interleaved.{Moments, IsKept, complete_between}
use wb_orders.Consumer.Postgres.Interleaved.Atomic.{complete_between-complete}
use wb_orders.System.Trails.{find_order_absent, has_event-append, has_event-apply}
use wb_orders.System.Stages.{find_order_cons_ne}
pub mod Atomic

-- What the open transaction holds: its note, and then the order's row, and then the event's id.
pub record Held : Type 0 where
  pub event : Uuid
  pub consumer : Bytes
  pub order_id : Uuid
  pub event_id : Uuid
  pub locked : Bool
  pub inserted : Bool

-- One commit of another transaction.
pub data Apart (c : Codec) (s : Server) (h : Held) (db next : Db) : Type 0 where
  creates :
      (a : Store.Answers) (f : Fresh) (given : Bytes) (command : CreateCommand)
      → (h.inserted ≡ true → f.event_id ≢ h.event_id)
      → next ≡ (create c s a f given command db).1
      → Apart c s h db next
  completes :
      (a : Postgres.Answers) (event : Uuid) (consumer : Bytes) (k : Change)
      → (event == h.event && bytes_eq consumer h.consumer) ≡ false
      → (h.locked ≡ true → k.order_id ≢ h.order_id)
      → (h.inserted ≡ true → a.event_id ≢ h.event_id)
      → next ≡ (complete c s a event consumer k db).1
      → Apart c s h db next
  publishes :
      (st : Statement)
      → next ≡ record db { outbox_events = apply st db.outbox_events }
      → Apart c s h db next

-- What they keep.
pub record Keeps (h : Held) (db next : Db) : Type 0 where
  pub noting :
      is_recorded h.event h.consumer next.processed_events
      ≡ is_recorded h.event h.consumer db.processed_events
  pub locking :
      h.locked ≡ true
      → (r : OrderRow) → find_order h.order_id db.orders ≡ some r
      → find_order h.order_id next.orders ≡ some r
  pub inserting :
      h.inserted ≡ true
      → has_event h.event_id db.outbox_events ≡ false
      → has_event h.event_id next.outbox_events ≡ false

pub Keeps-refl : (h : Held) (db : Db) → Keeps h db db
Keeps-refl h db = record { noting = refl; locking = λ l r f. f; inserting = λ l f. f }

has_event_other :
    (id : Uuid) (rows : List OutboxRow) (r : OutboxRow)
    → r.id ≢ id
    → has_event id rows ≡ false
    → has_event id (rows ++ r ∷ []) ≡ false
has_event_other id rows r other free = ground (arith, has_event-append id rows r)

is_recorded_other :
    (event e : Uuid) (consumer n : Bytes) (now : Time) (rows : List ProcessedRow)
    → (e == event && bytes_eq n consumer) ≡ false
    → is_recorded event consumer (noted_row e n now ∷ rows) ≡ is_recorded event consumer rows
unfolding is_recorded
is_recorded_other event e consumer n now rows other = ground arith

-- An order that is found has not the id of a new one.
found_other :
    (id new : Uuid) (rows : List OrderRow) (r : OrderRow)
    → find_order id rows ≡ some r
    → has_order new rows ≡ false
    → new ≢ id
found_other id new rows r found absent same =
    let lost = find_order_absent new rows absent in
    absurd (none_some (sym (ap (λ x. find_order x rows) same ∙ found) ∙ lost))
  where
    none_some : some r ≡ none → ⊥
    none_some e = ground arith

module _ (c : Codec) (s : Server) (h : Held) (db : Db) where
  Places-Keeps :
      (a : Store.Answers) (f : Fresh) (command : CreateCommand) (next : Db)
      → (h.inserted ≡ true → f.event_id ≢ h.event_id)
      → Places c s a f command db next
      → Keeps h db next
  Places-Keeps a f command next other p =
      let o = p.order in
      let e = p.event in
      record {
        noting = ap (λ (d : Db). is_recorded h.event h.consumer d.processed_events) p.stored.shape;
        locking = λ l r found.
            ap (λ (d : Db). find_order h.order_id d.orders) p.stored.shape
            ∙ find_order_cons_ne h.order_id (order_row s o) db.orders
                (found_other h.order_id o.id db.orders r found p.stored.new_order)
            ∙ found;
        inserting = λ l free.
            ap (λ (d : Db). has_event h.event_id d.outbox_events) p.stored.shape
            ∙ has_event_other h.event_id db.outbox_events
                (outbox_row s a.now e e.aggregate_id p.stored.payload)
                (λ clash. other l (sym p.announced.named ∙ clash)) free;
      }

  Completes-Keeps :
      (a : Postgres.Answers) (event : Uuid) (consumer : Bytes) (k : Change) (next : Db)
      (v : Verdict)
      → (event == h.event && bytes_eq consumer h.consumer) ≡ false
      → (h.locked ≡ true → k.order_id ≢ h.order_id)
      → (h.inserted ≡ true → a.event_id ≢ h.event_id)
      → Completes c s a event consumer k db v next
      → Keeps h db next
  Completes-Keeps a event consumer k next v note row id (repeats _ _ same) =
      rw same (Keeps-refl h db)
  Completes-Keeps a event consumer k next v note row id (keeps r _ _ _ _ same) = rw same (record {
    noting = is_recorded_other h.event event h.consumer consumer a.now db.processed_events note;
    locking = λ l r f. f;
    inserting = λ l f. f;
  })
  Completes-Keeps a event consumer k next v note row id
        (moves r e payload _ _ found was reports _ named _ same) =
      rw same (record {
        noting = is_recorded_other h.event event h.consumer consumer a.now db.processed_events note;
        locking = λ l q f.
            find_order-set_status_ne h.order_id r.id k.status a.now db.orders
              (λ clash. row l (sym (find_order-id k.order_id db.orders r found) ∙ sym clash))
            ∙ f;
        inserting = λ l free.
            has_event_other h.event_id db.outbox_events (outbox_row s a.now e k.order_id payload)
              (λ clash. id l (sym named ∙ clash)) free;
      })

  Ends-Keeps :
      (a : Postgres.Answers) (event : Uuid) (consumer : Bytes) (k : Change)
      (r : Result Postgres.Error Bool) (next : Db)
      → (event == h.event && bytes_eq consumer h.consumer) ≡ false
      → (h.locked ≡ true → k.order_id ≢ h.order_id)
      → (h.inserted ≡ true → a.event_id ≢ h.event_id)
      → Ends c s a event consumer k db r next
      → Keeps h db next
  Ends-Keeps a event consumer k r next note row id (leaves x _ same) = rw same (Keeps-refl h db)
  Ends-Keeps a event consumer k r next note row id (tells v how _) =
      Completes-Keeps a event consumer k next v note row id how
  Ends-Keeps a event consumer k r next note row id (hides v x how _) =
      Completes-Keeps a event consumer k next v note row id how

  pub Apart-Keeps : (next : Db) → Apart c s h db next → Keeps h db next
  Apart-Keeps next (creates a f given command other went) =
      rw went (elim (create-Places c s a f given command db) [
        | inl same ↦ rw same (Keeps-refl h db)
        | inr placed ↦ Places-Keeps a f command _ other placed
      ])
  Apart-Keeps next (completes a event consumer k note row id went) =
      rw went
        (Ends-Keeps a event consumer k _ _ note row id (complete_lem c s a event consumer k db))
  Apart-Keeps next (publishes st went) = rw went (record {
    noting = refl;
    locking = λ l r f. f;
    inserting = λ l free. has_event-apply h.event_id st db.outbox_events ∙ free;
  })
