-- ===== src/Tests/Flow.antt =====
-- The way of one order at concrete values.
use wb_orders.Base.{ℕ, ◌≡◌, refl, true, ◌∷◌, ok, arith}
use wb_orders.Base.Int.{wrap64, ◌+ℤ◌}
use wb_orders.Database.{done, Db}
use wb_orders.Database.Inserts.{outbox_row}
use wb_orders.Order.Service.Laws.{Announces, prepare-Announces}
use wb_orders.Outbox.Postgres.{claimed_of}
use wb_orders.Outbox.Publisher
use wb_orders.Outbox.Publisher.{check, message}
use wb_orders.Consumer.Postgres.{is_processed, is_recorded}
use wb_orders.Consumer.Handler.{Env, process_record, success, change_of}
use wb_orders.Consumer.Handler.Redelivery.{tables}
use wb_orders.Flow.{created_completed}
use wb_orders.Tests.Fixtures.{
  noon, command, fresh, the_order, the_event, request, document, codec, server,
}
use wb_orders.Tests.Orders.{stored_db, prepares}
use wb_orders.Tests.Completions.{answers, confirmed_db, confirms}
use wb_orders.Tests.Statements
use wb_orders.Tests.Statements.{topics, one}
use wb_orders.Tests.Records.{clock, texts, config, env_of, decision, world}

announced : Announces codec fresh command the_order the_event
announced = prepare-Announces codec fresh request command the_order the_event prepares

-- The publisher's surroundings, with the same wording of UUIDs.
abbrev sender : Publisher.Env ℕ
sender = record Statements.env { uuid_text = texts.uuid }

abbrev on_tables : Env Db
on_tables = env_of (tables codec server (λ x. document) done answers)

created_completed_example :
    let claimed = claimed_of (outbox_row server noon the_event 11 document) in
    (check codec topics claimed ≡ ok (topics.order_created, the_event))
    × ((change_of the_event decision).order_id ≡ the_order.id)
    × ((change_of the_event decision).status ≡ decision.status)
    × (process_record codec clock texts config on_tables
          (message codec topics one sender claimed topics.order_created the_event)
          world
        ≡ (
          ok tt,
          record world {
            store = confirmed_db;
            counted = (topics.order_created, success) ∷ world.counted;
          },
        ))
unfolding is_processed is_recorded wrap64 ◌+ℤ◌
created_completed_example =
    created_completed codec server fresh command the_order the_event document document noon topics
      one sender clock texts config on_tables decision stored_db confirmed_db true world announced
      (λ e. ground arith) refl refl refl refl (omega arith) refl refl (ground (arith, confirms))
