-- ===== src/Order/Model.antt =====
-- internal/order/model.go: orders, their validation and their total. Amounts and quantities are
-- signed integers; the products and sums of the source are wrapped to 64 bits where they stand.
use Prim.Native.String.{String}
use wb_orders.Base.{
  ℕ, suc, ◌≡◌, Bool, ◌||◌, not, length, List, [], ◌∷◌, ltb, ◌==◌, Result, ok, err, ◌>>=◌, ◌>>◌,
  fail_if,
}
use wb_orders.Base.Int.{ℤ, pos, ◌*ℤ◌, ◌+ℤ◌, ◌-ℤ◌, ltb_ℤ, leb_ℤ, eqb_ℤ, max_int64, quot, wrap64}
use wb_orders.Base.Text.{Bytes, lit, is_blank, rune_count, bytes_eq, contains}
use wb_orders.Event.{Uuid, uuid_nil, Time}
pub mod Amount
pub mod Items
pub mod Laws

-- The Go type is a string, but only these three values are written.
pub data Status : Type 0 where
  pending confirmed failed : Status

abbrev pub currency_rub : Bytes
currency_rub = lit "RUB"

pub record Item : Type 0 where
  pub sku : Bytes
  pub quantity : ℤ
  pub unit_price_minor : ℤ

pub record Order : Type 0 where
  pub id : Uuid
  pub customer_id : Uuid
  pub warehouse_id : Uuid
  pub status : Status
  pub currency : Bytes
  pub total_amount_minor : ℤ
  pub items : List Item
  pub created_at : Time
  pub updated_at : Time

pub record CreateCommand : Type 0 where
  pub customer_id : Uuid
  pub warehouse_id : Uuid
  pub items : List Item

-- The messages that wrap ErrInvalidRequest.
pub data Invalid : Type 0 where
  customer_required warehouse_required no_items sku_length not_positive overflow : Invalid
  duplicate_sku unsupported_currency : Bytes → Invalid
  total_mismatch : Invalid

-- The end of the loop's body in `validate`: the two overflow tests, then the new total.
unfoldable pub add_line : ℤ → Item → Result Invalid ℤ
add_line total item = do
  fail_if (ltb_ℤ (quot (pos max_int64) item.quantity) item.unit_price_minor) overflow
  let line_total = wrap64 (item.quantity *ℤ item.unit_price_minor)
  fail_if (ltb_ℤ (wrap64 (pos max_int64 -ℤ line_total)) total) overflow
  ok (wrap64 (total +ℤ line_total))

-- The loop's body: `seen` is the set of the earlier items' SKUs.
unfoldable pub check_item : List Bytes → ℤ → Item → Result Invalid ℤ
check_item seen total item = do
  fail_if (is_blank item.sku || ltb 128 (rune_count item.sku)) sku_length
  fail_if (leb_ℤ item.quantity (pos 0) || leb_ℤ item.unit_price_minor (pos 0)) not_positive
  fail_if (contains item.sku seen) (duplicate_sku item.sku)
  add_line total item

unfoldable pub check_items : List Bytes → ℤ → List Item → Result Invalid ℤ
check_items seen total [] = ok total
check_items seen total (item ∷ items) =
    check_item seen total item >>= λ next. check_items (item.sku ∷ seen) next items

unfoldable pub validate : CreateCommand → Result Invalid ℤ
validate command = do
  fail_if (command.customer_id == uuid_nil) customer_required
  fail_if (command.warehouse_id == uuid_nil) warehouse_required
  fail_if (length command.items == 0) no_items
  check_items [] (pos 0) command.items

-- `order.New`; `id` is from uuid.New and `now` from time.Now.
unfoldable pub new : Uuid → Time → CreateCommand → Result Invalid Order
new id now command = do
  total ← validate command
  ok (record {
    id = id;
    customer_id = command.customer_id;
    warehouse_id = command.warehouse_id;
    status = pending;
    currency = currency_rub;
    total_amount_minor = total;
    items = command.items;
    created_at = now;
    updated_at = now;
  })

pub record CreatedPayload : Type 0 where
  pub customer_id : Uuid
  pub warehouse_id : Uuid
  pub currency : Bytes
  pub total_amount_minor : ℤ
  pub items : List Item

-- The command that `CreatedPayload.Validate` checks again.
abbrev pub command_of : CreatedPayload → CreateCommand
command_of p = record {
  customer_id = p.customer_id;
  warehouse_id = p.warehouse_id;
  items = p.items;
}

-- `CreatedPayload.Validate`.
unfoldable pub validate_payload : CreatedPayload → Result Invalid (Unit {0})
validate_payload p = do
  fail_if (not (bytes_eq p.currency currency_rub)) (unsupported_currency p.currency)
  total ← validate (command_of p)
  fail_if (not (eqb_ℤ total p.total_amount_minor)) total_mismatch

pub record StatusChangedPayload : Type 0 where
  pub previous_status : Status
  pub current_status : Status
  pub reason : Bytes
