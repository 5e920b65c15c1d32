-- ===== src/Tests/Life.antt =====
-- The tables from empty ones on, at concrete values: an order is created, its event is claimed, the order
-- is confirmed.
use wb_orders.Base.{◌≡◌, ◌⊎◌, refl, sym, ap}
use wb_orders.Database.{Db, done}
use wb_orders.Outbox.Postgres.Rows.{apply}
use wb_orders.Base.Int.{pos}
use wb_orders.Processing.Verdict.{worker_operations}
use wb_orders.Tests.Pipeline.{arrivals}
use wb_orders.Consumer.Handler.{process_record}
use wb_orders.Consumer.Handler.Redelivery.{tables}
use wb_orders.Processing.{process}
use wb_orders.System.{Step, creates, completes, publishes, Reaches, starts, steps, stage, Advances}
use wb_orders.System.Invariant.{IsWhole, Reaches-IsWhole, Step-Advances}
use wb_orders.System.Amounts.{SumsAt, Reaches-SumsAt}
use wb_orders.System.Calls.{process_record-Step}
use wb_orders.Base.{err}
use wb_orders.Consumer.Postgres.{Error, complete}
use wb_orders.Consumer.Postgres.Interleaved.{Moments, complete_between}
use wb_orders.System.Apart.{Held, Apart}
use wb_orders.System.Apart.Atomic.{Aparts, alone, along, held, Aparts-complete}
use wb_orders.Base.{Bool, true}
use wb_orders.Tests.Fixtures.{
  command, fresh, request, document, codec, server, empty_db, store_answers,
}
use wb_orders.Tests.Orders
use wb_orders.Tests.Orders.{stored_db}
use wb_orders.Tests.Completions
use wb_orders.Tests.Completions.{worker, confirmation, answers, confirmed_db}
use wb_orders.Tests.Records
use wb_orders.Tests.Statements.{first_claim}

placed_first : Step codec server empty_db stored_db
placed_first = creates store_answers fresh request command (sym (ap (λ p. p.1) Orders.creates))

confirmed_next : Step codec server stored_db confirmed_db
confirmed_next =
    completes answers 12 worker confirmation refl (sym (ap (λ p. p.1) Completions.confirms))

-- The tables after the event of the confirmed order was claimed.
abbrev claimed_db : Db
claimed_db = record confirmed_db { outbox_events = apply first_claim confirmed_db.outbox_events }

reached : Reaches codec server empty_db claimed_db
reached = steps (steps (steps starts placed_first) confirmed_next) (publishes first_claim refl)

Reaches-IsWhole_example : IsWhole claimed_db
Reaches-IsWhole_example = Reaches-IsWhole codec server claimed_db reached

Step-Advances_example : Advances (stage 11 stored_db) (stage 11 confirmed_db)
Step-Advances_example = Step-Advances codec server stored_db confirmed_db confirmed_next 11

Reaches-SumsAt_example : SumsAt 11 claimed_db
Reaches-SumsAt_example = Reaches-SumsAt codec server 11 claimed_db reached

process_record-Step_example :
    let on_tables = record (Records.env_of Records.silent) {
      repository = tables codec server (λ x. document) done answers;
      process = process (worker_operations (pos 100)) arrivals;
    } in
    let after =
      (process_record codec Records.clock Records.texts Records.config on_tables Records.incoming
        Records.world).1.store in
    (after ≡ stored_db) ⊎ Step codec server stored_db after
process_record-Step_example =
    process_record-Step codec server Records.clock Records.texts Records.config
      (Records.env_of Records.silent) (λ x. document) done answers (worker_operations (pos 100))
      arrivals Records.incoming Records.world

-- A confirmation during which the publisher claims the order's event.
abbrev disturbed_db : Db
disturbed_db = record stored_db { outbox_events = apply first_claim stored_db.outbox_events }

abbrev moments : Moments
moments = record { at_record = stored_db; at_lock = stored_db; at_insert = stored_db }

abbrev holding : Bool → Bool → Held
holding = held answers 12 worker confirmation

claimed_between : Aparts codec server (holding true true) stored_db disturbed_db
claimed_between = along alone (Apart.publishes first_claim refl)

Aparts-complete_example :
    let (r, after) =
      complete_between codec server answers 12 worker confirmation moments disturbed_db in
    ((after ≡ disturbed_db) × ((x : Error) × (r ≡ err x)))
    ⊎ (complete_between codec server answers 12 worker confirmation moments disturbed_db
        ≡ complete codec server answers 12 worker confirmation disturbed_db)
Aparts-complete_example =
    Aparts-complete codec server answers 12 worker confirmation moments disturbed_db alone alone
      claimed_between
