-- ===== src/Order/Model/Amount.antt =====
-- The total of an order, and the overflow tests that guard it.
use wb_orders.Base.{
  ℕ, ◌+◌, ◌*◌, ◌/◌, ◌≤◌, ◌<◌, ◌≡◌, arith, Bool-cases, inl, inr, ltb, leb, if◌then◌else◌, ok, err,
}
use wb_orders.Base.Int.{pos, pos_part, max_int64, quot, wrap64-mul, wrap64-sub, wrap64-add}
use wb_orders.Base.Text.{Bytes}
use wb_orders.Order.Model.{Item, overflow, add_line}

div_overflow : (p m q : ℕ) → 0 < q → ltb (m / q) p ≡ ltb m (q * p)
div_overflow p m q g = grind arith

-- What a line of an order costs, with no bound.
abbrev pub line_amount : Item → ℕ
line_amount item = pos_part item.quantity * pos_part item.unit_price_minor

-- From a total in range, a line of positive numbers is added exactly, and refused exactly if the sum
-- leaves the range of int64.
pub add_line_lem :
    (t q p : ℕ) (sku : Bytes)
    → t ≤ max_int64
    → 0 < q
    → add_line (pos t) (record { sku = sku; quantity = pos q; unit_price_minor = pos p })
      ≡ (if leb (t + q * p) max_int64 then ok (pos (t + q * p)) else err overflow)
unfolding add_line quot
add_line_lem t q p sku h g = elim (Bool-cases (leb (q * p) max_int64)) [
  | inl fits ↦
      rw (wrap64-mul q p (ground arith), wrap64-sub max_int64 (q * p) (ground arith) (omega arith))
        (ground (arith, div_overflow p max_int64 q g, wrap64-add t (q * p)))
  | inr large ↦ ground (arith, div_overflow p max_int64 q g)
]
