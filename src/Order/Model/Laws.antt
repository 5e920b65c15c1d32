-- ===== src/Order/Model/Laws.antt =====
-- Which commands are orders: the conditions of `validate` without its loop.
use wb_orders.Base.{
  ◌≤◌, ◌<◌, ◌≡◌, ◌≢◌, ◌↔◌, refl, List, [], ◌∷◌, arith, Result-cases, inl, inr, ok, err, All, length,
}
use wb_orders.Base.Int.{ℤ, pos, max_int64}
use wb_orders.Base.Text.{bytes_eq_iff}
use wb_orders.Event.{uuid_nil, Uuid, Time}
use wb_orders.Order.Model.{
  Item, CreateCommand, overflow, check_items, validate, CreatedPayload, validate_payload, new,
  Order, pending, currency_rub, command_of,
}
use wb_orders.Order.Model.Items.{
  IsSellable, amount, skus, Distinct, Fresh_iff, Unseen-nil, Passes, check_items_sound,
  check_items_complete, check_items-overflow,
}

-- The commands that make an order.
pub record IsOrderable (c : CreateCommand) : Type 0 where
  pub customer : c.customer_id ≢ uuid_nil
  pub warehouse : c.warehouse_id ≢ uuid_nil
  pub non_empty : c.items ≢ []
  pub sellable : All IsSellable c.items
  pub distinct : Distinct (skus c.items)
  pub bounded : amount c.items ≤ max_int64

-- A command is accepted with total `z` exactly if it names a customer and a warehouse, its items are
-- sellable with distinct SKUs, their exact sum fits an int64, and `z` is that sum.
pub validate-IsOrderable :
    (c : CreateCommand) (z : ℤ) → (validate c ≡ ok z) ↔ (IsOrderable c × (z ≡ pos (amount c.items)))
unfolding validate
validate-IsOrderable c z = (
  λ e.
      let loop : check_items [] (pos 0) c.items ≡ ok z = ground arith in
      let passes = check_items_sound [] 0 c.items z (omega arith) loop in
      let distinct = (Fresh_iff [] (skus c.items)).0 passes.fresh in ground arith,
  λ (o, e).
      let fresh = (Fresh_iff [] (skus c.items)).1 (Unseen-nil (skus c.items), o.distinct) in
      let passes : Passes [] 0 c.items z = record {
        sellable = o.sellable;
        fresh = fresh;
        bounded = omega arith;
        sum = ground arith;
      } in
      ground (arith, check_items_complete [] 0 c.items z passes),
)

length_of_amount-pos : (items : List Item) → 0 < amount items → 0 < length items
unfolding amount
length_of_amount-pos [] h = h
length_of_amount-pos (i ∷ items) h = omega arith

-- A command that is an order but for the size of its sum is refused as an overflow: no total wraps.
pub validate-overflow :
    (c : CreateCommand)
    → c.customer_id ≢ uuid_nil
    → c.warehouse_id ≢ uuid_nil
    → All IsSellable c.items
    → Distinct (skus c.items)
    → max_int64 < amount c.items
    → validate c ≡ err overflow
unfolding validate
validate-overflow c cu wa s d o =
    let fresh = (Fresh_iff [] (skus c.items)).1 (Unseen-nil (skus c.items), d) in
    ground (
      arith,
      check_items-overflow [] 0 c.items (omega arith) s fresh (omega arith),
      length_of_amount-pos c.items (omega arith),
    )

-- The worker accepts a payload exactly if its currency is RUB, its command is an order, and the total
-- that it states is the exact sum.
pub validate_payload_iff :
    (p : CreatedPayload)
    → (validate_payload p ≡ ok tt) ↔ (
        (p.currency ≡ currency_rub)
        × IsOrderable (command_of p)
        × (p.total_amount_minor ≡ pos (amount p.items)))
unfolding validate_payload
validate_payload_iff p = elim (Result-cases (validate (command_of p))) [
  | inl (z, good) ↦
      let sum = (validate-IsOrderable (command_of p) z).0 good in
      (
        λ e. ground (arith, bytes_eq_iff p.currency currency_rub),
        λ c. ground (arith, bytes_eq_iff p.currency currency_rub),
      )
  | inr (x, bad) ↦ (
    λ e. ground arith,
    λ (c, o, e).
        ground (arith, (validate-IsOrderable (command_of p) p.total_amount_minor).1 (o, e)),
  )
]

-- The order that a command describes.
abbrev pub placed : Uuid → Time → CreateCommand → Order
placed id now c = record {
  id = id;
  customer_id = c.customer_id;
  warehouse_id = c.warehouse_id;
  status = pending;
  currency = currency_rub;
  total_amount_minor = pos (amount c.items);
  items = c.items;
  created_at = now;
  updated_at = now;
}

-- `New` gives an order exactly for the commands that make one: a pending order in RUB over the
-- command's items, with their exact sum.
pub new-placed :
    (id : Uuid) (now : Time) (c : CreateCommand) (o : Order)
    → (new id now c ≡ ok o) ↔ (IsOrderable c × (o ≡ placed id now c))
unfolding new
new-placed id now c o = elim (Result-cases (validate c)) [
  | inl (z, good) ↦
      let sum = (validate-IsOrderable c z).0 good in (λ e. ground arith, λ e. ground arith)
  | inr (x, bad) ↦ (
    λ e. ground arith,
    λ (v, e). ground (arith, (validate-IsOrderable c (pos (amount c.items))).1 (v, refl)),
  )
]
