-- ===== src/Programs/Run/Closing.antt =====
-- All that the programs open is closed.
use wb_orders.Base.{
  ◌≡◌, refl, arith, Bool, true, false, List, [], ◌∷◌, Option, none, some, Result, ok, err, map_err,
  fail_if, Result-cases, inl, inr,
}
use wb_orders.Base.Int.{pos, leb_ℤ}
use wb_orders.Base.Text.{lit}
use wb_orders.Config
use wb_orders.Config.{Common, load_common}
use wb_orders.Programs
use wb_orders.Programs.{
  bad_setting, database_failed, batch_too_long, rebalance_timeout, worst_case, WorkerSettings,
  read_worker, worker_config, start_worker, start_publisher,
}
use wb_orders.Programs.Frames.{
  Resource, signals, pool, consumer_client, producer, run_context, Act, launched, Frame, ◌>>◌, lift,
  acquire, note,
}
use wb_orders.Programs.Run.{
  Launch, serves, works, publishes, Error, refused, Outside, Ending, runs, returned, opened_as,
  acquire_client, service, worker, publisher, Program, order_service, order_worker,
  outbox_publisher, body_of, finish, run,
}
use wb_orders.Programs.Run.History.{
  IsEarly, History, nothing, launches, After, Leads, leave-History, bind-Leads, lift-Leads,
  acquire-Leads, opened_as-Leads, acquire_client-Leads, launch-Leads,
}

module _ (o : Outside) where
  setting-IsEarly :
      {A : Type 0} (r : Result Config.Error A) (e : Error)
      → map_err (λ x. refused (bad_setting x)) r ≡ err e
      → IsEarly e
  setting-IsEarly (ok a) e h = ground arith
  setting-IsEarly (err x) e h = inl (bad_setting x, ground arith)

  setting_ok :
      {A : Type 0} (r : Result Config.Error A) (a : A)
      → map_err (λ x. refused (bad_setting x)) r ≡ ok a
      → r ≡ ok a
  setting_ok (ok b) a h = ground arith
  setting_ok (err x) a h = ground arith

  serve-Leads :
      (common : Common) (e : Ending)
      → load_common o.getenv (lit "wb-orders-api") (lit ":8080") ≡ ok common
      → Leads o false
          (pool ∷ signals ∷ [])
          (note (launched (serves common)) >> lift (ok e))
          true
          (pool ∷ signals ∷ [])
  unfolding note
  serve-Leads common e loaded f d h = (d, launches (serves common) loaded h)

  service-Leads : Leads o false [] (service o) true (pool ∷ signals ∷ [])
  unfolding service
  service-Leads =
      bind-Leads o false false true [] (signals ∷ []) _ (acquire signals) _
        (acquire-Leads o false [] signals)
        (λ _. lift-Leads o true (signals ∷ []) _ _ _ (setting-IsEarly _) (λ common loaded.
          bind-Leads o false false true (signals ∷ []) (pool ∷ signals ∷ []) (pool ∷ signals ∷ [])
            (opened_as _) _ (opened_as-Leads o (signals ∷ []) _)
            (λ _. serve-Leads common _ (setting_ok _ common loaded))))

  publisher-Leads :
      Leads o false [] (publisher o) true (run_context ∷ producer ∷ pool ∷ signals ∷ [])
  unfolding publisher
  publisher-Leads =
      bind-Leads o false false true [] (signals ∷ []) _ (acquire signals) _
        (acquire-Leads o false [] signals)
        (λ _. lift-Leads o true (signals ∷ []) _ _ _ refused-IsEarly (λ s loaded.
          bind-Leads o false false true (signals ∷ []) (pool ∷ signals ∷ []) _ (opened_as _) _
            (opened_as-Leads o (signals ∷ []) _)
            (λ _.
              bind-Leads o false false true (pool ∷ signals ∷ []) (producer ∷ pool ∷ signals ∷ []) _
                (acquire_client producer _) _
                (acquire_client-Leads o (pool ∷ signals ∷ []) producer _)
                (λ _.
                  launch-Leads o (publishes _) (producer ∷ pool ∷ signals ∷ []) refl
                    (refused_ok _ s loaded)))))
    where
      refused-IsEarly :
          (e : Error) → map_err refused (start_publisher o.getenv o.durations) ≡ err e → IsEarly e
      refused-IsEarly e h = elim (Result-cases (start_publisher o.getenv o.durations)) [
        | inl (s, good) ↦ ground arith
        | inr (x, bad) ↦ inl (x, ground arith)
      ]

      refused_ok :
          {A : Type 0} (r : Result Programs.Error A) (a : A) → map_err refused r ≡ ok a → r ≡ ok a
      refused_ok (ok b) a h = ground arith
      refused_ok (err x) a h = ground arith

  start_worker-ok :
      (s : WorkerSettings) (u : Unit {0})
      → map_err (λ x. refused (bad_setting x)) (read_worker o.getenv o.durations) ≡ ok s
      → fail_if
          (leb_ℤ (pos rebalance_timeout) (worst_case s))
          (refused (batch_too_long (worst_case s)))
        ≡ ok u
      → start_worker o.getenv o.durations none ≡ ok s
  unfolding start_worker
  start_worker-ok s u read short =
      let good = setting_ok (read_worker o.getenv o.durations) s read in ground arith

  test-IsEarly :
      (long : Bool) (x : Programs.Error) (e : Error)
      → fail_if {0} long (refused x) ≡ err e
      → IsEarly e
  test-IsEarly true x e h = inl (x, ground arith)
  test-IsEarly false x e h = ground arith

  worker-Leads :
      Leads o false []
        (worker o)
        true
        (run_context ∷ producer ∷ consumer_client ∷ pool ∷ signals ∷ [])
  unfolding worker
  worker-Leads =
      bind-Leads o false false true [] (signals ∷ []) _ (acquire signals) _
        (acquire-Leads o false [] signals)
        (λ _. lift-Leads o true (signals ∷ []) _ _ _ (setting-IsEarly _) (λ s loaded.
          bind-Leads o false false true (signals ∷ []) (pool ∷ signals ∷ []) _ (opened_as _) _
            (opened_as-Leads o (signals ∷ []) _)
            (λ _. lift-Leads o true (pool ∷ signals ∷ []) _ _ _ (test-IsEarly _ _) (λ u short.
              bind-Leads o false false true (pool ∷ signals ∷ [])
                (consumer_client ∷ pool ∷ signals ∷ []) _ (acquire_client consumer_client _) _
                (acquire_client-Leads o (pool ∷ signals ∷ []) consumer_client _)
                (λ _.
                  bind-Leads o false false true (consumer_client ∷ pool ∷ signals ∷ [])
                    (producer ∷ consumer_client ∷ pool ∷ signals ∷ []) _ (acquire_client producer _)
                    _ (acquire_client-Leads o (consumer_client ∷ pool ∷ signals ∷ []) producer _)
                    (λ _.
                      launch-Leads o (works _ s) (producer ∷ consumer_client ∷ pool ∷ signals ∷ [])
                        refl (start_worker-ok s u loaded short, refl)))))))

  abbrev held : Program → List Resource
  held order_service = pool ∷ signals ∷ []
  held order_worker = run_context ∷ producer ∷ consumer_client ∷ pool ∷ signals ∷ []
  held outbox_publisher = run_context ∷ producer ∷ pool ∷ signals ∷ []

  body_of-Leads : (p : Program) → Leads o false [] (body_of p o) true (held p)
  body_of-Leads order_service = service-Leads
  body_of-Leads order_worker = worker-Leads
  body_of-Leads outbox_publisher = publisher-Leads

  -- How a program ends: it still runs; or it has started and returned, or it has returned without a
  -- start, and then all that it opened is closed.
  pub data Closes (p : Program) (ending : Ending) (acts : List (Act Launch)) : Type 0 where
    open_still : ending ≡ runs → History o true acts (held p) → Closes p ending acts
    stopped :
        (e : Option Error) → ending ≡ returned e → History o true acts [] → Closes p ending acts
    not_started :
        (e : Error)
        → ending ≡ returned (some e)
        → IsEarly e
        → History o false acts []
        → Closes p ending acts

  finish-Closes :
      (p : Program) (r : Result Error Ending × Frame Launch)
      → After o true (held p) r
      → let (ending, acts) = finish r in Closes p ending acts
  finish-Closes p (ok runs, f) (d, h) = open_still refl h
  finish-Closes p (ok (returned e), f) (d, h) =
      stopped e refl (leave-History o true f.deferred f.acts (rw d h))
  finish-Closes p (err e, f) (early, h) =
      not_started e refl early (leave-History o false f.deferred f.acts h)

  -- Whatever the environment, the libraries and the goroutines do, each program starts its goroutines at most
  -- once, with settings that were accepted and with all resources open that it needs; when `run` returns,
  -- with or without an error, all that was opened is closed, the latest first; and a program that
  -- returns without a start returns the error of its settings, of the database or of a Kafka client.
  pub run-Closes : (p : Program) → let (ending, acts) = run p o in Closes p ending acts
  unfolding run
  run-Closes p =
      finish-Closes p _ (body_of-Leads p (record { acts = []; deferred = [] }) refl nothing)
