-- ===== src/Order/Store/Total.antt =====
-- A validated order meets every constraint of the tables: with new identifiers and a server that
-- answers, CreateWithEvent succeeds.
use wb_orders.Base.{
  ◌≡◌, ◌≢◌, refl, inl, inr, List, [], ◌∷◌, ◌++◌, Bool-cases, true, false, some, ok, arith, All,
}
use wb_orders.Base.Text.{Bytes, bytes_eq, bytes_eq_iff, rune_count-pos, bytes_eq_refl}
use wb_orders.Event.{Uuid, Time, Envelope}
use wb_orders.Json.{Codec, Server}
use wb_orders.Database.{Db, Reply, done, committed, ItemRow}
use wb_orders.Database.Transactions.{transact}
use wb_orders.Database.Inserts.{
  insert_order, insert_item, insert_event, outbox_row, has_item, has_order, has_event, item_checks,
  order_checks,
}
use wb_orders.Order.Model.{Item, Order, CreateCommand, new, currency_rub}
use wb_orders.Order.Model.Laws.{IsOrderable, placed, new-placed}
use wb_orders.Order.Model.Items.{IsSellable, Distinct, skus, amount-pos}
use wb_orders.Order.Store.{
  Answers, order_row, item_row, insert_items, create_body, create_with_event,
}
use wb_orders.Order.Store.Create.{with_order, create_body-ok}

item_checks-IsSellable : (id : Uuid) (i : Item) → IsSellable i → item_checks (item_row id i) ≡ true
unfolding item_checks
item_checks-IsSellable id i s = ground (arith, rune_count-pos i.sku s.named)

has_item-append :
    (id : Uuid) (sku : Bytes) (rows : List ItemRow) (r : ItemRow)
    → bytes_eq r.sku sku ≡ false
    → has_item id sku (rows ++ r ∷ []) ≡ has_item id sku rows
unfolding has_item
has_item-append id sku [] r h = ground arith
has_item-append id sku (x ∷ rows) r h = ground (arith, has_item-append id sku rows r h)

abbrev Unstored : Uuid → List Item → List ItemRow → Type 0
Unstored id items rows = All (λ i. has_item id i.sku rows ≡ false) items

Unstored-append :
    (id : Uuid) (items : List Item) (rows : List ItemRow) (r : ItemRow)
    → All (λ y. y ≢ r.sku) (skus items)
    → Unstored id items rows
    → Unstored id items (rows ++ r ∷ [])
Unstored-append id [] rows r h u = tt
Unstored-append id (i ∷ items) rows r h u = ground (
  arith,
  bytes_eq_iff r.sku i.sku,
  has_item-append id i.sku rows r,
  Unstored-append id items rows r h.1 u.1,
)

insert_items-total :
    (reply : Item → Reply) (id : Uuid) (items : List Item) (db : Db)
    → ((i : Item) → reply i ≡ done)
    → has_order id db.orders ≡ true
    → All IsSellable items
    → Distinct (skus items)
    → Unstored id items db.order_items
    → (next : Db) × (insert_items reply id items db ≡ ok next)
      × (next.outbox_events ≡ db.outbox_events)
unfolding insert_items insert_item
insert_items-total reply id [] db up o s d u = (db, refl, refl)
insert_items-total reply id (i ∷ items) db up o s d u =
    let mid : Db = record db { order_items = db.order_items ++ item_row id i ∷ [] } in
    let (next, rest, same) =
      insert_items-total reply id items mid up o s.1 d.1
        (Unstored-append id items db.order_items (item_row id i) d.0 u.1) in
    (next, ground (arith, up i, item_checks-IsSellable id i s.0), same)

-- Every statement is carried out and the commit is acknowledged.
pub record IsUp (a : Answers) : Type 0 where
  pub begin : a.begin ≡ done
  pub order : a.order ≡ done
  pub items : (i : Item) → a.item i ≡ done
  pub event : a.event ≡ done
  pub commit : a.commit ≡ committed

-- The foreign key of `order_items`.
abbrev pub ItemsRefer : Db → Type 0
ItemsRefer db =
    (id : Uuid) (sku : Bytes)
    → has_item id sku db.order_items ≡ true
    → has_order id db.orders ≡ true

Unstored-new :
    (id : Uuid) (items : List Item) (db : Db)
    → ItemsRefer db
    → has_order id db.orders ≡ false
    → Unstored id items db.order_items
Unstored-new id [] db refers new_order = tt
Unstored-new id (i ∷ items) db refers new_order = (
  elim (Bool-cases (has_item id i.sku db.order_items)) [
    | inl stored ↦ ground (arith, refers id i.sku stored)
    | inr free ↦ free
  ],
  Unstored-new id items db refers new_order,
)

order_checks-placed :
    (s : Server) (id : Uuid) (now : Time) (c : CreateCommand)
    → IsOrderable c
    → order_checks (order_row s (placed id now c)) ≡ true
unfolding order_checks
order_checks-placed s id now c v =
    ground (arith, bytes_eq_refl currency_rub, amount-pos c.items v.non_empty v.sellable)

create_body-total :
    (c : Codec) (s : Server) (a : Answers) (id : Uuid) (now : Time) (command : CreateCommand)
    (e : Envelope) (db : Db) (payload : Bytes)
    → IsUp a
    → IsOrderable command
    → ItemsRefer db
    → has_order id db.orders ≡ false
    → has_event e.event_id db.outbox_events ≡ false
    → e.event_type ≢ []
    → c.marshal_envelope e ≡ some payload
    → (after : Db) × (create_body c s a (placed id now command) e db ≡ ok (tt, after))
unfolding create_body insert_order insert_event has_order
create_body-total c s a id now command e db payload up v refers new_order new_event typed m =
    let o : Order = placed id now command in
    let one : Db = record db { orders = order_row s o ∷ db.orders } in
    let (two, second, same) =
      insert_items-total a.item id command.items one up.items (ground arith) v.sellable v.distinct
        (Unstored-new id command.items db refers new_order) in
    let three : Db = record two {
      outbox_events = two.outbox_events ++ outbox_row s a.now e e.aggregate_id payload ∷ [];
    } in
    (three, ground (arith, order_checks-placed s id now command v))

-- An order that `New` made, with an identifier that no order has, and its event, which has a type, can
-- be marshalled and is not stored, are stored if the server carries out every statement and no item
-- lacks its order: no constraint of the tables refuses what the validation lets through.
pub create_with_event_total :
    (c : Codec) (s : Server) (a : Answers) (id : Uuid) (now : Time) (command : CreateCommand)
    (o : Order) (e : Envelope) (db : Db) (payload : Bytes)
    → new id now command ≡ ok o
    → IsUp a
    → ItemsRefer db
    → has_order id db.orders ≡ false
    → has_event e.event_id db.outbox_events ≡ false
    → e.event_type ≢ []
    → c.marshal_envelope e ≡ some payload
    → create_with_event c s a o e db ≡ (ok tt, with_order s a o e payload db)
unfolding create_with_event transact
create_with_event_total c s a id now command o e db payload made up refers new_order new_event typed
      m =
    let (v, same) = (new-placed id now command o).0 made in
    let (after, went) =
      create_body-total c s a id now command e db payload up v refers new_order new_event typed m in
    let (stored, marshalled, tables) =
      create_body-ok c s a (placed id now command) e db after tt went in
    rw same (ground arith)
