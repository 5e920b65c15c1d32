-- ===== src/Database/Queries.antt =====
-- The SELECT statements of internal/order/postgres.go and internal/consumer/postgres.go on the tables.
use wb_orders.Base.{Bool, List, [], ◌∷◌, Option, none, some, ◌==◌, if◌then◌else◌}
use wb_orders.Base.Text.{Bytes}
use wb_orders.Event.{Uuid}
use wb_orders.Database.{OrderRow, ItemRow}
use wb_orders.Order.Model.{Item}

unfoldable pub find_order : Uuid → List OrderRow → Option OrderRow
find_order id [] = none
find_order id (r ∷ rows) = if r.id == id then some r else find_order id rows

-- The rows of one order, `WHERE order_id = $1`.
unfoldable pub items_of : Uuid → List ItemRow → List Item
items_of id [] = []
items_of id (r ∷ rows) =
    if r.order_id == id
    then record { sku = r.sku; quantity = r.quantity; unit_price_minor = r.unit_price_minor }
      ∷ items_of id rows
    else items_of id rows

-- `ORDER BY sku` in the collation `before` of the server; the SKUs of one order are distinct.
unfoldable pub insert_by_sku : (Bytes → Bytes → Bool) → Item → List Item → List Item
insert_by_sku before i [] = i ∷ []
insert_by_sku before i (j ∷ items) =
    if before j.sku i.sku then j ∷ insert_by_sku before i items else i ∷ j ∷ items

unfoldable pub order_by_sku : (Bytes → Bytes → Bool) → List Item → List Item
order_by_sku before [] = []
order_by_sku before (i ∷ items) = insert_by_sku before i (order_by_sku before items)
