-- ===== src/Tests/Orders.antt =====
-- Orders, their events and their creation, at concrete values.
use wb_orders.Base.{◌≡◌, ◌≢◌, ◌⊎◌, ◌↔◌, refl, some, ok, err, arith}
use wb_orders.Base.Int.{pos, quot, wrap64, ◌-ℤ◌, ◌*ℤ◌, ◌+ℤ◌}
use wb_orders.Base.Text.{Bytes, is_blank, rune_count, contains, bytes_eq}
use wb_orders.Event
use wb_orders.Event.{Envelope, event_id_required}
use wb_orders.Event.Laws
use wb_orders.Database.{done, Db}
use wb_orders.Database.Inserts.{has_item, has_order, has_event}
use wb_orders.Order.Model.{
  check_items, check_item, add_line, Order, CreateCommand, customer_required, validate,
  validate_payload,
}
use wb_orders.Order.Model.Laws.{IsOrderable, validate-IsOrderable, validate_payload_iff, new-placed}
use wb_orders.Order.Model.Items.{amount}
use wb_orders.Order.Store.Reading.{IsReadBack, get-create_with_event}
use wb_orders.Order.Store.{get, create_with_event}
use wb_orders.Order.Store.Create.{with_order, create_with_event_atomic}
use wb_orders.Order.Store.Total.{ItemsRefer, create_with_event_total}
use wb_orders.Order.Service.{prepare, announce, create}
use wb_orders.Order.Service.Laws.{Announces, create-ok}
use wb_orders.Tests.Fixtures.{
  noon, two_items, command, fresh, the_order, request, document, the_event, the_payload, codec,
  server, strict, empty_db, store_answers,
}

valid_command : validate command ≡ ok (pos 1000)
unfolding validate check_items check_item add_line quot wrap64 ◌-ℤ◌ ◌*ℤ◌ ◌+ℤ◌ is_blank rune_count
    contains bytes_eq
valid_command = refl

pub orderable : IsOrderable command
orderable = ((validate-IsOrderable command (pos 1000)).0 valid_command).0

validate-IsOrderable_example :
    (validate command ≡ ok (pos 1000)) ↔ (IsOrderable command × (pos 1000 ≡ pos (amount two_items)))
validate-IsOrderable_example = validate-IsOrderable command (pos 1000)

pub event_valid : Event.validate the_event ≡ ok tt
unfolding Event.validate is_blank
event_valid = refl

pub event_IsValid : Event.Laws.IsValid the_event
event_IsValid = (Event.Laws.validate-IsValid the_event).0 event_valid

pub payload_valid : validate_payload the_payload ≡ ok tt
payload_valid = (validate_payload_iff the_payload).1 (refl, orderable, refl)

-- The tables after the creation.
abbrev pub stored_db : Db
stored_db = with_order server store_answers the_order the_event document empty_db

pub items_refer : ItemsRefer empty_db
unfolding has_item
items_refer id sku h = ground arith

creates_with_event :
    create_with_event codec server store_answers the_order the_event empty_db ≡ (ok tt, stored_db)
unfolding has_order has_event
creates_with_event =
    create_with_event_total codec server store_answers 11 noon command the_order the_event empty_db
      document ((new-placed 11 noon command the_order).1 (orderable, refl))
      (record { begin = refl; order = refl; items = λ i. refl; event = refl; commit = refl })
      items_refer refl refl event_IsValid.typed refl

create_with_event_total_example :
    create_with_event codec server store_answers the_order the_event empty_db ≡ (ok tt, stored_db)
unfolding has_order has_event
create_with_event_total_example =
    create_with_event_total codec server store_answers 11 noon command the_order the_event empty_db
      document ((new-placed 11 noon command the_order).1 (orderable, refl))
      (record { begin = refl; order = refl; items = λ i. refl; event = refl; commit = refl })
      items_refer refl refl event_IsValid.typed refl

announces : announce codec fresh request the_order ≡ ok the_event
unfolding announce Event.new Event.validate is_blank
announces = refl

pub prepares : prepare codec fresh request command ≡ ok (the_order, the_event)
unfolding prepare
prepares = ground (arith, (new-placed 11 noon command the_order).1 (orderable, refl), announces)

pub creates :
    create codec server store_answers fresh request command empty_db ≡ (ok the_order, stored_db)
unfolding create
creates = ground (arith, prepares, creates_with_event)

create-ok_example :
    (e : Envelope) × (payload : Bytes) × Announces codec fresh command the_order e
    × (codec.marshal_envelope e ≡ some payload)
    × (stored_db ≡ with_order server store_answers the_order e payload empty_db)
create-ok_example =
    create-ok codec server store_answers fresh request command empty_db stored_db the_order creates

abbrev anonymous : CreateCommand
anonymous = record { customer_id = 0; warehouse_id = 9; items = two_items }

anonymous_invalid : validate anonymous ≡ err customer_required
unfolding validate
anonymous_invalid = refl

create_with_event_atomic_example :
    let (r, after) = create_with_event codec server store_answers the_order the_event empty_db in
    ((after ≡ empty_db) × (r ≢ ok tt))
    ⊎ ((payload : Bytes) × (codec.marshal_envelope the_event ≡ some payload)
        × (after ≡ with_order server store_answers the_order the_event payload empty_db))
create_with_event_atomic_example =
    create_with_event_atomic codec server store_answers the_order the_event empty_db

abbrev nameless_event : Envelope
nameless_event = record the_event { event_id = 0 }

nameless_invalid : Event.validate nameless_event ≡ err event_id_required
unfolding Event.validate
nameless_invalid = refl

get-create_with_event_example :
    (found : Order) × (get server done done 11 stored_db stored_db ≡ ok found)
    × IsReadBack server the_order found
unfolding has_order
get-create_with_event_example =
    get-create_with_event codec server store_answers the_order the_event empty_db stored_db
      items_refer refl creates_with_event strict
