-- ===== src/Processing/Verdict.antt =====
-- When the pipeline confirms an order, and that the order of arrival does not matter.
use wb_orders.Base.{
  ℕ, zero, suc, ap, ◌≡◌, refl, ◌↔◌, arith, false, ◌&&◌, not, List, [], ◌∷◌, map, Option,
  Option-cases, none, some, ok, All, Bool-cases, inl, inr,
}
use wb_orders.Base.Int.{ℤ, pos, negsuc, ltb_ℤ}
use wb_orders.Base.Text.{Bytes}
use wb_orders.Order.Model.{Item, confirmed}
use wb_orders.Processing.{
  OpError, Input, Outcome, Operation, Decision, first_over, limit_or_default, stock_outcome,
  execute_inventory, execute_delivery, execute_notification, inventory, delivery, notification,
  run_operation, bytes_lt, insert, sort, joined, failures, decide, collect, process,
}
use wb_orders.Processing.Arrival.{Entry, Arrives, All-Arrives, All-map}

-- A required operation has succeeded.
abbrev pub IsFine : Outcome → Type 0
IsFine o = (o.required && not o.success) ≡ false

failures-IsFine : (os : List Outcome) → (failures os ≡ []) ↔ All IsFine os
unfolding failures
failures-IsFine [] = (λ e. tt, λ h. refl)
failures-IsFine (o ∷ os) =
    (λ e. ground (arith, (failures-IsFine os).0), λ h. ground (arith, (failures-IsFine os).1 h.1))

module _ (P : Outcome → Type 0) where
  All-insert : (o : Outcome) (os : List Outcome) → All P (insert o os) ↔ (P o × All P os)
  unfolding insert
  All-insert o [] = (λ h. h, λ h. h)
  All-insert o (p ∷ os) = elim (Bool-cases (bytes_lt p.operation o.operation)) [
    | inl later ↦ (
      λ h. ground (arith, (All-insert o os).0),
      λ h. ground (arith, (All-insert o os).1 (h.0, h.1.1)),
    )
    | inr here ↦ (λ h. ground arith, λ h. ground arith)
  ]

  All-sort : (os : List Outcome) → All P (sort os) ↔ All P os
  unfolding sort
  All-sort [] = (λ h. h, λ h. h)
  All-sort (o ∷ os) = (
    λ h. let (one, rest) = (All-insert o (sort os)).0 h in (one, (All-sort os).0 rest),
    λ (one, rest). (All-insert o (sort os)).1 (one, (All-sort os).1 rest),
  )

joined-nil : (rs : List (Outcome × Option OpError)) → (joined rs ≡ []) ↔ All (λ r. r.1 ≡ none) rs
unfolding joined
joined-nil [] = (λ e. tt, λ h. refl)
joined-nil ((o, none) ∷ rs) = (λ e. (refl, (joined-nil rs).0 e), λ h. (joined-nil rs).1 h.1)
joined-nil ((o, some x) ∷ rs) = (λ e. ground arith, λ h. ground arith)

decide-confirmed :
    (fs : List Bytes) (os : List Outcome) → ((decide fs os).status ≡ confirmed) ↔ (fs ≡ [])
decide-confirmed [] os = (λ e. refl, λ e. refl)
decide-confirmed (f ∷ fs) os = (λ e. ground arith, λ e. ground arith)

abbrev outcomes_of : List (Outcome × Option OpError) → List Outcome
outcomes_of rs = map (λ r. r.0) rs

collect-ok :
    (rs : List (Outcome × Option OpError))
    → joined rs ≡ []
    → collect rs ≡ ok (decide (failures (sort (outcomes_of rs))) (sort (outcomes_of rs)))
unfolding collect
collect-ok rs h = ground arith

-- In whatever order the operations arrive, if none of them returns an error then the pipeline decides, and it
-- confirms the order exactly if every required operation has succeeded.
pub process-confirmed :
    (op : Operation) (ops : List Operation) (schedule : List Entry) (input : Input)
    → Arrives (op ∷ ops) schedule
    → All (λ o. (run_operation input (o, none)).1 ≡ none) (op ∷ ops)
    → (d : Decision) × (process (op ∷ ops) schedule input ≡ ok d)
      × ((d.status ≡ confirmed) ↔ All (λ o. IsFine (run_operation input (o, none)).0) (op ∷ ops))
unfolding process
process-confirmed op ops schedule input a quiet =
    let rs = map (run_operation input) schedule in
    let os = outcomes_of rs in
    let silent = (joined-nil rs).1 (
      (All-map (λ r. r.1 ≡ none) (run_operation input) schedule).1
        ((All-Arrives (λ e. (run_operation input e).1 ≡ none) (op ∷ ops) schedule a).1 quiet)) in
    let fine = All-Arrives (λ e. IsFine (run_operation input e).0) (op ∷ ops) schedule a in
    let over_schedule = All-map (λ r. IsFine r.0) (run_operation input) schedule in
    let over_results = All-map IsFine (λ (r : Outcome × Option OpError). r.0) rs in
    let decided = decide-confirmed (failures (sort os)) (sort os) in
    (
      decide (failures (sort os)) (sort os),
      collect-ok rs silent,
      (
        λ e. fine.0 (
            over_schedule.0 (
              over_results.0
                ((All-sort IsFine os).0 ((failures-IsFine (sort os)).0 (decided.0 e))))),
        λ h. decided.1 (
            (failures-IsFine (sort os)).1
              ((All-sort IsFine os).1 (over_results.1 (over_schedule.1 (fine.1 h))))),
      ),
    )

-- No more pieces than the limit.
abbrev pub IsWithin : ℤ → Item → Type 0
IsWithin limit i = ltb_ℤ limit i.quantity ≡ false

first_over-IsWithin :
    (limit : ℤ) (items : List Item) → (first_over limit items ≡ none) ↔ All (IsWithin limit) items
unfolding first_over
first_over-IsWithin limit [] = (λ e. tt, λ h. refl)
first_over-IsWithin limit (i ∷ items) = (
  λ e. ground (arith, (first_over-IsWithin limit items).0),
  λ h. ground (arith, (first_over-IsWithin limit items).1 h.1),
)

none_over :
    (limit allowed : ℤ) (items : List Item)
    → limit ≡ allowed
    → (first_over limit items ≡ none) ↔ All (IsWithin allowed) items
none_over limit allowed items e = rw e (first_over-IsWithin allowed items)

stock_outcome-IsFine :
    (warehouse : Bytes) (found : Option Item)
    → IsFine (stock_outcome warehouse found) ↔ (found ≡ none)
stock_outcome-IsFine warehouse none = (λ h. refl, λ e. refl)
stock_outcome-IsFine warehouse (some i) = (λ h. ground arith, λ e. ground arith)

-- The worker's operations.
abbrev pub worker_operations : ℤ → List Operation
worker_operations most = inventory most ∷ delivery ∷ notification ∷ []

run_operation-stock :
    (most : ℤ) (input : Input)
    → run_operation input (inventory most, none)
      ≡ (stock_outcome input.warehouse_id (first_over (limit_or_default most) input.items), none)
unfolding run_operation execute_inventory
run_operation-stock most input =
    elim (Option-cases (first_over (limit_or_default most) input.items)) [
      | inl within ↦ rw within refl
      | inr (i, over) ↦ rw over refl
    ]

inventory-IsFine :
    (most : ℤ) (input : Input)
    → IsFine (run_operation input (inventory most, none)).0
      ↔ (first_over (limit_or_default most) input.items ≡ none)
inventory-IsFine most input =
    rw (run_operation-stock most input)
      (stock_outcome-IsFine input.warehouse_id (first_over (limit_or_default most) input.items))

-- The most pieces of one item: what the inventory was made with if that is positive, and 100 otherwise.
abbrev pub most_pieces : ℤ → ℕ
most_pieces (pos zero) = 100
most_pieces (pos (suc n)) = suc n
most_pieces (negsuc n) = 100

limit_or_default-pos : (most : ℤ) → limit_or_default most ≡ pos (most_pieces most)
limit_or_default-pos (pos zero) = refl
limit_or_default-pos (pos (suc n)) = ground arith
limit_or_default-pos (negsuc n) = ground arith

-- The worker's pipeline decides in whatever order its three operations arrive, if none of their contexts
-- has ended, and it confirms an order exactly if no item has more pieces than the limit that the inventory was
-- made with, or than 100 if that is not positive.
pub process-IsWithin :
    (most : ℤ) (schedule : List Entry) (input : Input)
    → Arrives (worker_operations most) schedule
    → (d : Decision) × (process (worker_operations most) schedule input ≡ ok d)
      × ((d.status ≡ confirmed) ↔ All (IsWithin (pos (most_pieces most))) input.items)
unfolding run_operation execute_delivery execute_notification
process-IsWithin most schedule input a =
    let stock = run_operation-stock most input in
    let (d, decided, verdict) =
      process-confirmed (inventory most) (delivery ∷ notification ∷ []) schedule input a
        (ap (λ r. r.1) stock, (refl, (refl, tt))) in
    let judged = inventory-IsFine most input in
    let within =
      none_over (limit_or_default most) (pos (most_pieces most)) input.items
        (limit_or_default-pos most) in
    (
      d,
      decided,
      (
        λ e. within.0 (judged.0 (verdict.0 e).0),
        λ h. verdict.1 (judged.1 (within.1 h), (refl, (refl, tt))),
      ),
    )
