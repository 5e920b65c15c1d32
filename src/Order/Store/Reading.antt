-- ===== src/Order/Store/Reading.antt =====
-- What Get reads of a created order.
use mathlib.Core.List.{Perm}
use wb_orders.Base.{
  ◌≡◌, refl, ◌∙◌, ap, Bool-cases, inl, inr, false, List, [], ◌∷◌, ◌++◌, map, ok, arith,
}
use wb_orders.Base.Text.{Bytes, bytes_eq_refl}
use wb_orders.Event.{Uuid, Envelope}
use wb_orders.Json.{Codec, Server}
use wb_orders.Database.{Db, ItemRow, done}
use wb_orders.Database.Inserts.{has_item, has_order}
use wb_orders.Database.Queries.{find_order, items_of, order_by_sku}
use wb_orders.Order.Model.{Item, Order}
use wb_orders.Order.Store.{Answers, item_row, create_with_event, get}
use wb_orders.Order.Store.BySku.{IsCollation, IsBySku, order_by_sku-perm, order_by_sku-IsBySku}
use wb_orders.Order.Store.Create.{with_order, create_with_event_atomic}
use wb_orders.Order.Store.Total.{ItemsRefer}

pub items_of-append :
    (id : Uuid) (xs ys : List ItemRow) → items_of id (xs ++ ys) ≡ items_of id xs ++ items_of id ys
unfolding items_of
items_of-append id [] ys = refl
items_of-append id (x ∷ xs) ys = ground (arith, items_of-append id xs ys)

pub items_of-item_row :
    (id : Uuid) (items : List Item) → items_of id (map (item_row id) items) ≡ items
unfolding items_of
items_of-item_row id [] = refl
items_of-item_row id (i ∷ items) = ground (arith, items_of-item_row id items)

items_of_absent :
    (id : Uuid) (rows : List ItemRow)
    → ((sku : Bytes) → has_item id sku rows ≡ false)
    → items_of id rows ≡ []
unfolding items_of has_item
items_of_absent id [] h = refl
items_of_absent id (r ∷ rows) h =
    let rest = items_of_absent id rows (λ sku. let g = h sku in ground arith) in
    let own = h r.sku in ground (arith, bytes_eq_refl r.sku)

-- The order as the columns give it back.
abbrev pub as_stored : Server → Order → Order
as_stored s o = record o {
  items = order_by_sku s.collate o.items;
  created_at = s.timestamptz o.created_at;
  updated_at = s.timestamptz o.updated_at;
}

has_item_absent :
    (id : Uuid) (db : Db) (sku : Bytes)
    → ItemsRefer db
    → has_order id db.orders ≡ false
    → has_item id sku db.order_items ≡ false
has_item_absent id db sku refers absent = elim (Bool-cases (has_item id sku db.order_items)) [
  | inl stored ↦ ground (arith, refers id sku stored)
  | inr free ↦ free
]

pub get-with_order :
    (s : Server) (a : Answers) (o : Order) (e : Envelope) (payload : Bytes) (db : Db)
    → ItemsRefer db
    → has_order o.id db.orders ≡ false
    → let after = with_order s a o e payload db in
      get s done done o.id after after ≡ ok (as_stored s o)
unfolding get find_order
get-with_order s a o e payload db refers absent =
    let empty =
      items_of_absent o.id db.order_items (λ sku. has_item_absent o.id db sku refers absent) in
    let mine : items_of o.id (db.order_items ++ map (item_row o.id) o.items) ≡ o.items =
      items_of-append o.id db.order_items (map (item_row o.id) o.items)
      ∙ rw empty (items_of-item_row o.id o.items) in
    ground arith

-- The order that was stored: its items are the same ones in the order of their SKUs, its times as the columns keep
-- them, and the rest as it was.
pub record IsReadBack (s : Server) (o found : Order) : Type 0 where
  pub items : Perm found.items o.items
  pub sorted : IsBySku s.collate found.items
  pub rest : found ≡ record o {
    items = found.items;
    created_at = s.timestamptz o.created_at;
    updated_at = s.timestamptz o.updated_at;
  }

pub as_stored-IsReadBack :
    (s : Server) (o : Order) → IsCollation s.collate → IsReadBack s o (as_stored s o)
as_stored-IsReadBack s o strict = record {
  items = order_by_sku-perm s.collate o.items;
  sorted = order_by_sku-IsBySku s.collate o.items strict;
  rest = refl;
}

-- An order that was created with an identifier that no order had, in tables where no item lacks its order, is
-- read back: the same items, in the order of their SKUs if the server's collation puts no two texts each before
-- the other, its times as the columns keep them, and the rest as it was.
pub get-create_with_event :
    (c : Codec) (s : Server) (a : Answers) (o : Order) (e : Envelope) (db after : Db)
    → ItemsRefer db
    → has_order o.id db.orders ≡ false
    → create_with_event c s a o e db ≡ (ok tt, after)
    → IsCollation s.collate
    → (found : Order) × (get s done done o.id after after ≡ ok found) × IsReadBack s o found
get-create_with_event c s a o e db after refers absent h strict =
    elim (create_with_event_atomic c s a o e db) [
      | inl (same, failed) ↦ absurd (failed (ap (λ p. p.0) h))
      | inr (payload, marshalled, stored) ↦
          let tables : after ≡ with_order s a o e payload db = ground arith in
          (
            as_stored s o,
            rw tables (get-with_order s a o e payload db refers absent),
            as_stored-IsReadBack s o strict,
          )
    ]
