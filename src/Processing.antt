-- ===== src/Processing.antt =====
-- internal/processing: the pipeline of operations that decides on an order, and its three operations.
-- The operations run side by side; a schedule lists them in the order in which their results reach the
-- channel, each with the error of its context when it started.
use Prim.Native.Nat.{compare, Ordering}
use wb_orders.Base.{
  Bool, true, false, ◌&&◌, not, length, List, [], ◌∷◌, ◌++◌, map, Option, none, some, ◌==◌, Result,
  ok, err, if◌then◌else◌,
}
use wb_orders.Base.Int.{ℤ, pos, ltb_ℤ, leb_ℤ}
use wb_orders.Base.Text.{Bytes, lit}
use wb_orders.Order.Model.{Item, Status, confirmed, failed}
pub mod Arrival
pub mod Verdict

-- context.Canceled and context.DeadlineExceeded.
pub data CtxError : Type 0 where
  canceled deadline_exceeded : CtxError

pub data OpError : Type 0 where
  ctx : CtxError → OpError
  other : Bytes → OpError

pub record Input : Type 0 where
  pub order_id : Bytes
  pub warehouse_id : Bytes
  pub currency : Bytes
  pub total_amount_minor : ℤ
  pub items : List Item

pub record Outcome : Type 0 where
  pub operation : Bytes
  pub success : Bool
  pub required : Bool
  pub details : Bytes

-- `Name` and `Execute`.
pub record Operation : Type 0 where
  pub name : Bytes
  pub execute : Option CtxError → Input → Outcome × Option OpError

pub record Decision : Type 0 where
  pub status : Status
  pub reason : Bytes
  pub outcomes : List Outcome

-- errors.Join of the operations' errors, each behind its operation's name.
pub data Error : Type 0 where
  no_operations : Error
  operations_failed : List (Bytes × OpError) → Error

abbrev pub inventory_name : Bytes
inventory_name = lit "inventory"

abbrev pub delivery_name : Bytes
delivery_name = lit "delivery"

abbrev pub notification_name : Bytes
notification_name = lit "notification"

-- The first item with more than `limit` pieces.
unfoldable pub first_over : ℤ → List Item → Option Item
first_over limit [] = none
first_over limit (i ∷ items) = if ltb_ℤ limit i.quantity then some i else first_over limit items

abbrev pub limit_or_default : ℤ → ℤ
limit_or_default most = if leb_ℤ most (pos 0) then pos 100 else most

abbrev pub stock_outcome : Bytes → Option Item → Outcome
stock_outcome warehouse (some i) = record {
  operation = inventory_name;
  success = false;
  required = true;
  details = lit "insufficient stock for " ++ i.sku;
}
stock_outcome warehouse none = record {
  operation = inventory_name;
  success = true;
  required = true;
  details = lit "reserved at warehouse " ++ warehouse;
}

-- An operation whose context has ended gives its context's error.
abbrev pub interrupted : Bytes → Bool → CtxError → Outcome × Option OpError
interrupted name required e =
    (record { operation = name; success = false; required = required; details = [] }, some (ctx e))

-- `Inventory{MaxQuantityPerSKU: most}`.
unfoldable pub execute_inventory : ℤ → Option CtxError → Input → Outcome × Option OpError
execute_inventory most (some e) input = interrupted inventory_name true e
execute_inventory most none input =
    (stock_outcome input.warehouse_id (first_over (limit_or_default most) input.items), none)

unfoldable pub execute_delivery : Option CtxError → Input → Outcome × Option OpError
execute_delivery (some e) input = interrupted delivery_name true e
execute_delivery none input = (
  record { operation = delivery_name; success = true; required = true; details = lit "calculated" },
  none,
)

unfoldable pub execute_notification : Option CtxError → Input → Outcome × Option OpError
execute_notification (some e) input = interrupted notification_name false e
execute_notification none input = (
  record {
    operation = notification_name;
    success = true;
    required = false;
    details = lit "prepared";
  },
  none,
)

abbrev pub inventory : ℤ → Operation
inventory most = record { name = inventory_name; execute = execute_inventory most }

abbrev pub delivery : Operation
delivery = record { name = delivery_name; execute = execute_delivery }

abbrev pub notification : Operation
notification = record { name = notification_name; execute = execute_notification }

-- One goroutine: an outcome without a name takes the operation's.
unfoldable pub run_operation : Input → Operation × Option CtxError → Outcome × Option OpError
run_operation input (op, ctx_error) =
    let (outcome, e) = op.execute ctx_error input in
    (if length outcome.operation == 0 then record outcome { operation = op.name } else outcome, e)

-- `<` on Go strings.
unfoldable pub bytes_lt : Bytes → Bytes → Bool
bytes_lt [] [] = false
bytes_lt [] (b ∷ t) = true
bytes_lt (a ∷ s) [] = false
bytes_lt (a ∷ s) (b ∷ t) = elim (compare a b) [
  | Ordering.lt ↦ true
  | Ordering.eq ↦ bytes_lt s t
  | Ordering.gt ↦ false
]

-- sort.Slice by the operations' names; for distinct names there is one sorted order.
unfoldable pub insert : Outcome → List Outcome → List Outcome
insert o [] = o ∷ []
insert o (p ∷ rest) = if bytes_lt p.operation o.operation then p ∷ insert o rest else o ∷ p ∷ rest

unfoldable pub sort : List Outcome → List Outcome
unfolding insert bytes_lt
sort [] = []
sort (o ∷ rest) = insert o (sort rest)

abbrev cons_error : Bytes → Option OpError → List (Bytes × OpError) → List (Bytes × OpError)
cons_error name none errors = errors
cons_error name (some e) errors = (name, e) ∷ errors

-- The errors among the results, in the order of arrival.
unfoldable pub joined : List (Outcome × Option OpError) → List (Bytes × OpError)
joined [] = []
joined ((o, e) ∷ rest) = cons_error o.operation e (joined rest)

unfoldable pub failures : List Outcome → List Bytes
failures [] = []
failures (o ∷ rest) =
    if o.required && not o.success
    then (o.operation ++ lit ": " ++ o.details) ∷ failures rest
    else failures rest

-- strings.Join(texts, "; ").
unfoldable pub join : List Bytes → Bytes
join [] = []
join (t ∷ []) = t
join (t ∷ u ∷ rest) = t ++ lit "; " ++ join (u ∷ rest)

abbrev pub decide : List Bytes → List Outcome → Decision
decide [] outcomes = record { status = confirmed; reason = []; outcomes = outcomes }
decide (t ∷ rest) outcomes = record {
  status = failed;
  reason = join (t ∷ rest);
  outcomes = outcomes;
}

-- `Process` after the last result has arrived.
unfoldable pub collect : List (Outcome × Option OpError) → Result Error Decision
collect results =
    let outcomes = sort (map (λ r. r.0) results) in
    elim (joined results) [
      | [] ↦ ok (decide (failures outcomes) outcomes)
      | e ∷ errors ↦ err (operations_failed (e ∷ errors))
    ]

unfoldable pub process :
    List Operation → List (Operation × Option CtxError) → Input → Result Error Decision
process [] schedule input = err no_operations
process (op ∷ ops) schedule input = collect (map (run_operation input) schedule)
