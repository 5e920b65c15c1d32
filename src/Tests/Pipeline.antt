-- ===== src/Tests/Pipeline.antt =====
-- The worker's pipeline at one order whose notification arrives first.
use wb_orders.Base.{◌≡◌, ◌↔◌, refl, List, [], ◌∷◌, none, ok, All}
use wb_orders.Base.Int.{pos}
use wb_orders.Order.Model.{confirmed}
use wb_orders.Processing.{
  Input, Decision, inventory, delivery, notification, run_operation, first_over, execute_inventory,
  execute_delivery, execute_notification, process,
}
use wb_orders.Base.{here, there}
use wb_orders.Processing.Arrival.{Entry, Arrives, nothing, arrives}
use wb_orders.Processing.Verdict.{
  IsFine, IsWithin, worker_operations, process-confirmed, process-IsWithin,
}
use wb_orders.Tests.Fixtures.{two_items, document}

abbrev input : Input
input = record {
  order_id = document;
  warehouse_id = document;
  currency = document;
  total_amount_minor = pos 1_000;
  items = two_items;
}

abbrev pub arrivals : List Entry
arrivals = (notification, none) ∷ (inventory (pos 100), none) ∷ (delivery, none) ∷ []

all_arrive : Arrives (worker_operations (pos 100)) arrivals
all_arrive = arrives (arrives (arrives nothing here) (there here)) (there here)

process-IsWithin_example :
    (d : Decision) × (process (worker_operations (pos 100)) arrivals input ≡ ok d)
    × ((d.status ≡ confirmed) ↔ All (IsWithin (pos 100)) two_items)
process-IsWithin_example = process-IsWithin (pos 100) arrivals input all_arrive

process-confirmed_example :
    (d : Decision) × (process (worker_operations (pos 100)) arrivals input ≡ ok d)
    × ((d.status ≡ confirmed)
        ↔ All (λ o. IsFine (run_operation input (o, none)).0) (worker_operations (pos 100)))
unfolding run_operation execute_inventory first_over execute_delivery execute_notification
process-confirmed_example =
    process-confirmed (inventory (pos 100)) (delivery ∷ notification ∷ []) arrivals input all_arrive
      (refl, (refl, (refl, tt)))
