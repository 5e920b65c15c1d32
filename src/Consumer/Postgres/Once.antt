-- ===== src/Consumer/Postgres/Once.antt =====
-- An event changes an order at most once, and a settled order never changes.
use wb_orders.Base.{◌≡◌, ◌≢◌, refl, ◌∙◌, arith, List, [], ◌∷◌, Bool, true, some, Result, ok}
use wb_orders.Base.Text.{Bytes, bytes_eq_refl}
use wb_orders.Event.{Uuid, Time}
use wb_orders.Json.{Codec, Server}
use wb_orders.Database.{Db, OrderRow, ProcessedRow}
use wb_orders.Order.Model.{Status, pending}
use wb_orders.Consumer.Postgres.{
  Verdict, duplicate, Error, is_recorded, Answers, Change, set_status, complete,
}
use wb_orders.Database.Queries.{find_order}
use wb_orders.Consumer.Postgres.Completion.{noted_row, Completes, repeats, keeps, moves}
use wb_orders.Consumer.Postgres.Endings.{Ends, leaves, tells, hides, complete_lem}

is_recorded-cons :
    (event : Uuid) (consumer : Bytes) (now : Time) (rows : List ProcessedRow)
    → is_recorded event consumer (noted_row event consumer now ∷ rows) ≡ true
unfolding is_recorded
is_recorded-cons event consumer now rows = ground (arith, bytes_eq_refl consumer)

Completes-is_recorded :
    (c : Codec) (s : Server) (a : Answers) (event : Uuid) (consumer : Bytes) (k : Change)
    (db next : Db) (v : Verdict)
    → Completes c s a event consumer k db v next
    → is_recorded event consumer next.processed_events ≡ true
Completes-is_recorded c s a event consumer k db next v (repeats e old same) = rw same old
Completes-is_recorded c s a event consumer k db next v (keeps r e new found settled same) =
    rw same (is_recorded-cons event consumer a.now db.processed_events)
Completes-is_recorded c s a event consumer k db next v
      (moves r e p w new found was reports m named free same) =
    rw same (is_recorded-cons event consumer a.now db.processed_events)

Completes-old :
    (c : Codec) (s : Server) (a : Answers) (event : Uuid) (consumer : Bytes) (k : Change)
    (db next : Db) (v : Verdict)
    → is_recorded event consumer db.processed_events ≡ true
    → Completes c s a event consumer k db v next
    → (next ≡ db) × (v ≡ duplicate)
Completes-old c s a event consumer k db next v old (repeats e _ same) = (same, e)
Completes-old c s a event consumer k db next v old (keeps r e new found settled same) = ground arith
Completes-old c s a event consumer k db next v old
      (moves r e p w new found was reports m named free same) =
    ground arith

Ends-old :
    (c : Codec) (s : Server) (a : Answers) (event : Uuid) (consumer : Bytes) (k : Change) (db : Db)
    (r : Result Error Bool) (after : Db)
    → is_recorded event consumer db.processed_events ≡ true
    → Ends c s a event consumer k db r after
    → (after ≡ db) × (r ≢ ok true)
Ends-old c s a event consumer k db r after old (leaves x bad same) = (same, λ h. ground arith)
Ends-old c s a event consumer k db r after old (tells v how told) =
    let (same, e) = Completes-old c s a event consumer k db after v old how in
    (same, λ h. ground arith)
Ends-old c s a event consumer k db r after old (hides v x how bad) =
    ((Completes-old c s a event consumer k db after v old how).0, λ h. ground arith)

pub Ends-is_recorded :
    (c : Codec) (s : Server) (a : Answers) (event : Uuid) (consumer : Bytes) (k : Change) (db : Db)
    (r : Result Error Bool) (after : Db) (b : Bool)
    → r ≡ ok b
    → Ends c s a event consumer k db r after
    → is_recorded event consumer after.processed_events ≡ true
Ends-is_recorded c s a event consumer k db r after b good (leaves x bad same) = ground arith
Ends-is_recorded c s a event consumer k db r after b good (tells v how told) =
    Completes-is_recorded c s a event consumer k db after v how
Ends-is_recorded c s a event consumer k db r after b good (hides v x how bad) =
    Completes-is_recorded c s a event consumer k db after v how

-- A completion forgets no note.
Completes-keeps :
    (c : Codec) (s : Server) (a : Answers) (event : Uuid) (consumer : Bytes) (k : Change)
    (db next : Db) (v : Verdict) (other : Uuid) (name : Bytes)
    → Completes c s a event consumer k db v next
    → is_recorded other name db.processed_events ≡ true
    → is_recorded other name next.processed_events ≡ true
unfolding is_recorded
Completes-keeps c s a event consumer k db next v other name (repeats e old same) noted =
    rw same noted
Completes-keeps c s a event consumer k db next v other name (keeps r e new found settled same)
      noted =
    rw same (ground arith)
Completes-keeps c s a event consumer k db next v other name
      (moves r e p w new found was reports m named free same) noted =
    rw same (ground arith)

Ends-keeps :
    (c : Codec) (s : Server) (a : Answers) (event : Uuid) (consumer : Bytes) (k : Change) (db : Db)
    (r : Result Error Bool) (after : Db) (other : Uuid) (name : Bytes)
    → Ends c s a event consumer k db r after
    → is_recorded other name db.processed_events ≡ true
    → is_recorded other name after.processed_events ≡ true
Ends-keeps c s a event consumer k db r after other name (leaves x bad same) noted = rw same noted
Ends-keeps c s a event consumer k db r after other name (tells v how told) noted =
    Completes-keeps c s a event consumer k db after v other name how noted
Ends-keeps c s a event consumer k db r after other name (hides v x how bad) noted =
    Completes-keeps c s a event consumer k db after v other name how noted

pub complete-keeps :
    (c : Codec) (s : Server) (a : Answers) (event : Uuid) (consumer : Bytes) (k : Change) (db : Db)
    (other : Uuid) (name : Bytes)
    → is_recorded other name db.processed_events ≡ true
    → is_recorded other name (complete c s a event consumer k db).1.processed_events ≡ true
complete-keeps c s a event consumer k db other name =
    Ends-keeps c s a event consumer k db _ _ other name (complete_lem c s a event consumer k db)

-- A completion of a noted event.
pub complete-old :
    (c : Codec) (s : Server) (a : Answers) (event : Uuid) (consumer : Bytes) (k : Change) (db : Db)
    → is_recorded event consumer db.processed_events ≡ true
    → let (r, after) = complete c s a event consumer k db in (after ≡ db) × (r ≢ ok true)
complete-old c s a event consumer k db old =
    Ends-old c s a event consumer k db _ _ old (complete_lem c s a event consumer k db)

pub find_order-id :
    (id : Uuid) (rows : List OrderRow) (r : OrderRow) → find_order id rows ≡ some r → r.id ≡ id
unfolding find_order
find_order-id id [] r h = cc
find_order-id id (x ∷ rows) r h = ground (arith, find_order-id id rows r)

pub find_order-set_status_ne :
    (id j : Uuid) (status : Status) (now : Time) (rows : List OrderRow)
    → id ≢ j
    → find_order id (set_status j status now rows) ≡ find_order id rows
unfolding find_order set_status
find_order-set_status_ne id j status now [] h = refl
find_order-set_status_ne id j status now (x ∷ rows) h =
    ground (arith, find_order-set_status_ne id j status now rows h)

pub find_order-set_status :
    (id : Uuid) (status : Status) (now : Time) (rows : List OrderRow) (r : OrderRow)
    → find_order id rows ≡ some r
    → find_order id (set_status id status now rows)
      ≡ some (record r { status = status; updated_at = now })
unfolding find_order set_status
find_order-set_status id status now [] r h = cc
find_order-set_status id status now (x ∷ rows) r h =
    ground (arith, find_order-set_status id status now rows r)

Completes-settled :
    (c : Codec) (s : Server) (a : Answers) (event : Uuid) (consumer : Bytes) (k : Change)
    (db next : Db) (v : Verdict) (id : Uuid) (r : OrderRow)
    → find_order id db.orders ≡ some r
    → r.status ≢ pending
    → Completes c s a event consumer k db v next
    → find_order id next.orders ≡ some r
Completes-settled c s a event consumer k db next v id r f n (repeats e _ same) = rw same f
Completes-settled c s a event consumer k db next v id r f n (keeps r' e new found settled same) =
    rw same f
Completes-settled c s a event consumer k db next v id r f n
      (moves r' e p w new found was reports m named free same) =
    rw same (
      find_order-set_status_ne id r'.id k.status a.now db.orders
        (λ clash. let own = find_order-id k.order_id db.orders r' found in ground arith)
      ∙ f)

Ends-settled :
    (c : Codec) (s : Server) (a : Answers) (event : Uuid) (consumer : Bytes) (k : Change) (db : Db)
    (result : Result Error Bool) (after : Db) (id : Uuid) (r : OrderRow)
    → find_order id db.orders ≡ some r
    → r.status ≢ pending
    → Ends c s a event consumer k db result after
    → find_order id after.orders ≡ some r
Ends-settled c s a event consumer k db result after id r f n (leaves x bad same) = rw same f
Ends-settled c s a event consumer k db result after id r f n (tells v how told) =
    Completes-settled c s a event consumer k db after v id r f n how
Ends-settled c s a event consumer k db result after id r f n (hides v x how bad) =
    Completes-settled c s a event consumer k db after v id r f n how

-- An order that is stored as confirmed or failed stays as it is, whatever event is completed with
-- whatever change and whatever the server answers.
pub complete_settled :
    (c : Codec) (s : Server) (a : Answers) (event : Uuid) (consumer : Bytes) (k : Change) (db : Db)
    (id : Uuid) (r : OrderRow)
    → find_order id db.orders ≡ some r
    → r.status ≢ pending
    → find_order id (complete c s a event consumer k db).1.orders ≡ some r
complete_settled c s a event consumer k db id r f n =
    Ends-settled c s a event consumer k db _ _ id r f n (complete_lem c s a event consumer k db)
