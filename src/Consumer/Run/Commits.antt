-- ===== src/Consumer/Run/Commits.antt =====
-- What the consumer has done with the records whose offsets it commits.
use wb_orders.Base.{
  ℕ, ◌≡◌, ◌≢◌, ◌⊎◌, refl, inl, inr, arith, Bool-cases, true, List, [], ◌∷◌, Option, none, some, All,
  All-map_of,
}
use wb_orders.Base.Text.{Bytes}
use wb_orders.Json.{Codec, Server}
use wb_orders.Kafka.{KafkaRecord}
use wb_orders.WorkerPool
use wb_orders.WorkerPool.{Pool, Ended, errors_from}
use wb_orders.WorkerPool.Results.{results_settled, results_invariant}
use wb_orders.Consumer.Headers.{Clock}
use wb_orders.Consumer.Postgres
use wb_orders.Consumer.Handler.{Config, Texts, Failure}
use wb_orders.Consumer.Run.{
  Turn, State, initial, joined, conclude, handle_batch, fetched, turn, run,
}
use wb_orders.Consumer.Run.Worlds.{
  Outside, Grows, Grows-refl, Grows-trans, Handles, IsSettled, IsSettled-Grows, handling-Settles,
}
use wb_orders.Consumer.Run.Turns.{turn_ended, turn_alive, run_continues, run_returns, Next-cases}

joined-nil : {E : Type 0} (errs : List (Option E)) → joined errs ≡ [] → All (λ r. r ≡ none) errs
unfolding joined
joined-nil [] h = tt
joined-nil (none ∷ errs) h = (refl, joined-nil errs h)
joined-nil (some x ∷ errs) h = absurd (ground arith)

module _ (c : Codec) (s : Server) (clock : Clock) (texts : Texts) (config : Config)
    (text : Postgres.Error → Bytes) (workers : ℕ) where
  -- The world from turn to turn: a turn without a batch leaves it to others, a batch is handled by the pool.
  pub data Follows : Outside → List (Turn Outside) → Outside → Type 0 where
    stays : {w : Outside} → Follows w [] w
    idles :
        {w w' last : Outside} (t : Turn Outside) (turns : List (Turn Outside))
        → (t.ended ≡ true) ⊎ (t.fetch_errors ≢ [])
        → Grows w w'
        → Follows w' turns last
        → Follows w (t ∷ turns) last
    works :
        {w before last : Outside} (t : Turn Outside) (turns : List (Turn Outside))
        → Grows w before
        → Ended (Handles c s clock texts config text) workers t.records before t.pool
        → Follows t.pool.store turns last
        → Follows w (t ∷ turns) last

  abbrev pub AllSettled : Outside → List KafkaRecord → Type 0
  AllSettled w = All (λ source. IsSettled c s clock texts config text source w)

  AllSettled-Grows :
      (w w' : Outside) (records : List KafkaRecord)
      → Grows w w'
      → AllSettled w records
      → AllSettled w' records
  AllSettled-Grows w w' records g h =
      All-map_of records
        (λ source good. IsSettled-Grows c s clock texts config text source w w' g good) h

  abbrev CommitsSettled : Outside → List (List KafkaRecord) → Type 0
  CommitsSettled w = All (AllSettled w)

  CommitsSettled-Grows :
      (w w' : Outside) (commits : List (List KafkaRecord))
      → Grows w w'
      → CommitsSettled w commits
      → CommitsSettled w' commits
  CommitsSettled-Grows w w' commits g h =
      All-map_of commits (λ records good. AllSettled-Grows w w' records g good) h

  conclude-CommitsSettled :
      (w : Outside) (records : List KafkaRecord) (errs : List (WorkerPool.Error Failure))
      (commit : Option Bytes) (st : State)
      → CommitsSettled w st.commits
      → (errs ≡ [] → AllSettled w records)
      → CommitsSettled w (conclude records errs commit st).1.commits
  conclude-CommitsSettled w records [] commit st h good = (good refl, h)
  conclude-CommitsSettled w records (x ∷ errs) commit st h good = h

  handle_batch-CommitsSettled :
      (before : Outside) (records : List KafkaRecord) (pool : Pool KafkaRecord Failure Outside)
      (commit : Option Bytes) (st : State)
      → Ended (Handles c s clock texts config text) workers records before pool
      → CommitsSettled pool.store st.commits
      → CommitsSettled pool.store (handle_batch records pool commit st).1.commits
  handle_batch-CommitsSettled before [] pool commit st ended h = h
  handle_batch-CommitsSettled before (r ∷ records) pool commit st ended h =
      conclude-CommitsSettled pool.store (r ∷ records) _ commit st h (λ fine.
        (results_settled (Handles c s clock texts config text) _ _
          (handling-Settles c s clock texts config text before) workers (r ∷ records) before pool
          (Grows-refl before) ended (joined-nil _ fine)).1)

  fetched-commits :
      (errors : List Bytes) (t : Turn Outside) (st : State)
      → errors ≢ []
      → (fetched errors t st).1.commits ≡ st.commits
  fetched-commits [] t st some_error = absurd (some_error refl)
  fetched-commits (x ∷ errors) t st some_error = refl

  idle-commits :
      (t : Turn Outside) (st : State)
      → (t.ended ≡ true) ⊎ (t.fetch_errors ≢ [])
      → (turn t st).1.commits ≡ st.commits
  idle-commits t st (inl over) = rw (turn_ended t st over) refl
  idle-commits t st (inr failing) = elim (Bool-cases t.ended) [
    | inl over ↦ rw (turn_ended t st over) refl
    | inr alive ↦ rw (turn_alive t st alive) (fetched-commits t.fetch_errors t st failing)
  ]

  fetched-CommitsSettled :
      (errors : List Bytes) (before : Outside) (t : Turn Outside) (st : State)
      → Ended (Handles c s clock texts config text) workers t.records before t.pool
      → CommitsSettled t.pool.store st.commits
      → CommitsSettled t.pool.store (fetched errors t st).1.commits
  fetched-CommitsSettled [] before t st ended h =
      handle_batch-CommitsSettled before t.records t.pool t.commit st ended h
  fetched-CommitsSettled (x ∷ errors) before t st ended h = h

  turn-CommitsSettled :
      (before : Outside) (t : Turn Outside) (st : State)
      → Ended (Handles c s clock texts config text) workers t.records before t.pool
      → CommitsSettled t.pool.store st.commits
      → CommitsSettled t.pool.store (turn t st).1.commits
  turn-CommitsSettled before t st ended h = elim (Bool-cases t.ended) [
    | inl over ↦ rw (turn_ended t st over) h
    | inr alive ↦
        rw (turn_alive t st alive) (fetched-CommitsSettled t.fetch_errors before t st ended h)
  ]

  batch-Grows :
      (w before : Outside) (t : Turn Outside)
      → Grows w before
      → Ended (Handles c s clock texts config text) workers t.records before t.pool
      → Grows w t.pool.store
  batch-Grows w before t g ended = Grows-trans g (
      results_invariant (Handles c s clock texts config text) _ _
        (handling-Settles c s clock texts config text before) workers t.records before t.pool
        (Grows-refl before) ended)

  Follows-Grows :
      (w : Outside) (turns : List (Turn Outside)) (last : Outside)
      → Follows w turns last
      → Grows w last
  Follows-Grows w _ _ stays = Grows-refl w
  Follows-Grows w _ last (idles {w' = w'} t turns idle g f) =
      Grows-trans g (Follows-Grows w' turns last f)
  Follows-Grows w _ last (works {before = before} t turns g ended f) =
      Grows-trans (batch-Grows w before t g ended) (Follows-Grows t.pool.store turns last f)

  run_of_turn :
      (w' last : Outside) (t : Turn Outside) (turns : List (Turn Outside)) (st : State)
      → Grows w' last
      → CommitsSettled w' (turn t st).1.commits
      → (CommitsSettled w' (turn t st).1.commits
          → CommitsSettled last (run turns (turn t st).1).1.commits)
      → CommitsSettled last (run (t ∷ turns) st).1.commits
  run_of_turn w' last t turns st g now later = elim (Next-cases (turn t st).0) [
    | inl onwards ↦ rw (run_continues t st turns onwards) (later now)
    | inr (e, over) ↦
        rw (run_returns t st turns e over)
          (CommitsSettled-Grows w' last (turn t st).1.commits g now)
  ]

  run-CommitsSettled :
      (w : Outside) (turns : List (Turn Outside)) (last : Outside) (st : State)
      → Follows w turns last
      → CommitsSettled w st.commits
      → CommitsSettled last (run turns st).1.commits
  unfolding run
  run-CommitsSettled w _ _ st stays h = h
  run-CommitsSettled w _ last st (idles {w' = w'} t turns idle g f) h =
      run_of_turn w' last t turns st (Follows-Grows w' turns last f)
        (rw (idle-commits t st idle) (CommitsSettled-Grows w w' st.commits g h))
        (λ now. run-CommitsSettled w' turns last (turn t st).1 f now)
  run-CommitsSettled w _ last st (works {before = before} t turns g ended f) h =
      let grown = batch-Grows w before t g ended in
      run_of_turn t.pool.store last t turns st (Follows-Grows t.pool.store turns last f)
        (turn-CommitsSettled before t st ended
          (CommitsSettled-Grows w t.pool.store st.commits grown h))
        (λ now. run-CommitsSettled t.pool.store turns last (turn t st).1 f now)

  -- Whenever `Run` has called CommitRecords with some records, then for every order in which the workers have
  -- handled the batches, whatever the server, the broker and the clock have answered, and whatever other programs
  -- have done that forgets no note and no record, each record of each call is settled: its event is noted as processed, or the retry
  -- topic has its key and value with an attempt within the limit, or the dead letter topic has them.
  pub run_commits :
      (w : Outside) (turns : List (Turn Outside)) (last : Outside)
      → Follows w turns last
      → All (AllSettled last) (run turns initial).1.commits
  run_commits w turns last f = run-CommitsSettled w turns last initial f tt
