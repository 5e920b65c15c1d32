-- ===== src/System/Amounts.antt =====
-- The total of every stored order is the sum over its stored items.
use wb_orders.Base.{
  ◌≡◌, ◌≢◌, refl, ap, ◌∙◌, sym, inl, inr, arith, Bool-cases, ◌==◌, [], ◌∷◌, ◌++◌, List, map, Result,
  Bool, some, none, Option,
}
use wb_orders.Base.Int.{pos}
use wb_orders.Base.Text.{Bytes}
use mathlib.Core.List.{append-nil}
use wb_orders.Event.{Uuid, Time}
use wb_orders.Json.{Codec, Server}
use wb_orders.Database.{Db, OrderRow}
use wb_orders.Database.Queries.{find_order, items_of}
use wb_orders.Order.Model.{Item, CreateCommand, Status}
use wb_orders.Order.Model.Items.{amount}
use wb_orders.Order.Store
use wb_orders.Order.Store.{item_row, order_row}
use wb_orders.Order.Store.Reading.{items_of-append, items_of-item_row}
use wb_orders.Order.Service.{Fresh}
use wb_orders.Order.Service.Placing.{Places, create-Places}
use wb_orders.Consumer.Postgres
use wb_orders.Consumer.Postgres.{Change, Verdict, set_status}
use wb_orders.Consumer.Postgres.Completion.{Completes, repeats, keeps, moves}
use wb_orders.Consumer.Postgres.Endings.{Ends, leaves, tells, hides, complete_lem}
use wb_orders.System.{Step, Reaches, starts, steps, empty, creates, completes, publishes}
use wb_orders.System.Trails.{find_order_absent}
use wb_orders.System.Stages.{find_order_cons, find_order_cons_ne}

-- An order that is not stored has no items; a stored one has items that sum up to its total.
abbrev pub Sums : Option OrderRow → List Item → Type 0
Sums none items = items ≡ []
Sums (some r) items = r.total_amount_minor ≡ pos (amount items)

abbrev pub SumsAt : Uuid → Db → Type 0
SumsAt id db = Sums (find_order id db.orders) (items_of id db.order_items)

items_of-item_row_ne :
    (id j : Uuid) (items : List Item) → j ≢ id → items_of id (map (item_row j) items) ≡ []
unfolding items_of
items_of-item_row_ne id j [] h = refl
items_of-item_row_ne id j (i ∷ items) h = ground (arith, items_of-item_row_ne id j items h)

-- The UPDATE of an order's status changes no total.
Sums-set_status :
    (id j : Uuid) (status : Status) (now : Time) (rows : List OrderRow) (items : List Item)
    → Sums (find_order id rows) items
    → Sums (find_order id (set_status j status now rows)) items
unfolding find_order set_status
Sums-set_status id j status now [] items h = h
Sums-set_status id j status now (r ∷ rows) items h =
    ground (arith, Sums-set_status id j status now rows items)

module _ (c : Codec) (s : Server) (id : Uuid) where
  SumsAt-Places :
      (a : Store.Answers) (f : Fresh) (command : CreateCommand) (db after : Db)
      → Places c s a f command db after
      → SumsAt id db
      → SumsAt id after
  SumsAt-Places a f command db after p h =
      let o = p.order in
      let orders : after.orders ≡ order_row s o ∷ db.orders =
        ap (λ (d : Db). d.orders) p.stored.shape in
      let items : items_of id after.order_items
          ≡ items_of id db.order_items ++ items_of id (map (item_row o.id) o.items) =
        ap (λ (d : Db). items_of id d.order_items) p.stored.shape
        ∙ items_of-append id db.order_items (map (item_row o.id) o.items) in
      elim (Bool-cases (o.id == id)) [
        | inl hit ↦
            let same : o.id ≡ id = ground arith in
            let total : o.total_amount_minor ≡ pos (amount o.items) =
              ap (λ x. x.total_amount_minor) p.announced.order
              ∙ ap (λ x. pos (amount x.items)) (sym p.announced.order) in
            let none_yet : find_order id db.orders ≡ none =
              rw same at (find_order_absent o.id db.orders p.stored.new_order) in
            let no_items : items_of id db.order_items ≡ [] = rw none_yet at h in
            let found : find_order id (order_row s o ∷ db.orders) ≡ some (order_row s o) =
              find_order_cons id (order_row s o) db.orders same in
            let mine : items_of id (map (item_row o.id) o.items) ≡ o.items =
              ap (λ j. items_of j (map (item_row o.id) o.items)) (sym same)
              ∙ items_of-item_row o.id o.items in
            rw (orders, items, found, no_items, mine) total
        | inr miss ↦
            let different : o.id ≢ id = ground arith in
            rw
              (
                orders,
                items,
                find_order_cons_ne id (order_row s o) db.orders different,
                items_of-item_row_ne id o.id o.items different,
                append-nil (items_of id db.order_items),
              )
              h
      ]

  SumsAt-constant :
      (db after : Db)
      → after.orders ≡ db.orders
      → after.order_items ≡ db.order_items
      → SumsAt id db
      → SumsAt id after
  SumsAt-constant db after orders items h = rw (orders, items) h

  SumsAt-Completes :
      (a : Postgres.Answers) (event : Uuid) (consumer : Bytes) (k : Change) (db after : Db)
      (v : Verdict)
      → Completes c s a event consumer k db v after
      → SumsAt id db
      → SumsAt id after
  SumsAt-Completes a event consumer k db after v (repeats _ _ same) h = rw same h
  SumsAt-Completes a event consumer k db after v (keeps r _ _ _ _ same) h = rw same h
  SumsAt-Completes a event consumer k db after v (moves r _ _ _ _ _ _ _ _ _ _ same) h =
      rw same (Sums-set_status id r.id k.status a.now db.orders (items_of id db.order_items) h)

  SumsAt-Ends :
      (a : Postgres.Answers) (event : Uuid) (consumer : Bytes) (k : Change) (db : Db)
      (r : Result Postgres.Error Bool) (after : Db)
      → Ends c s a event consumer k db r after
      → SumsAt id db
      → SumsAt id after
  SumsAt-Ends a event consumer k db r after (leaves x bad same) h = rw same h
  SumsAt-Ends a event consumer k db r after (tells v how _) h =
      SumsAt-Completes a event consumer k db after v how h
  SumsAt-Ends a event consumer k db r after (hides v x how _) h =
      SumsAt-Completes a event consumer k db after v how h

  Step-SumsAt : (db next : Db) → Step c s db next → SumsAt id db → SumsAt id next
  Step-SumsAt db next (creates a f given command went) h =
      rw went (elim (create-Places c s a f given command db) [
        | inl same ↦ rw same h
        | inr placed ↦ SumsAt-Places a f command db _ placed h
      ])
  Step-SumsAt db next (completes a event consumer k settled went) h =
      rw went (SumsAt-Ends a event consumer k db _ _ (complete_lem c s a event consumer k db) h)
  Step-SumsAt db next (publishes st went) h = rw went h

  -- In all tables that the programs reach from empty ones, the stored items of an order sum up, without
  -- any overflow, to the order's stored total, and no item is stored for an order that is not.
  pub Reaches-SumsAt : (db : Db) → Reaches c s empty db → SumsAt id db
  unfolding find_order items_of
  Reaches-SumsAt _ starts = refl
  Reaches-SumsAt _ (steps {db} {next} reached step) =
      Step-SumsAt db next step (Reaches-SumsAt db reached)
