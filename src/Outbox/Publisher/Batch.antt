-- ===== src/Outbox/Publisher/Batch.antt =====
-- `publishBatch` and `Run` of internal/outbox/publisher.go, over the results of the calls that they make.
use wb_orders.Base.{
  ℕ, ◌≡◌, Bool, true, false, List, [], ◌∷◌, ◌++◌, Option, none, some, Result, ok, err,
  if◌then◌else◌,
}
use wb_orders.Base.Text.{Bytes}
use wb_orders.WorkerPool
use wb_orders.WorkerPool.{Pool, errors_from}
use wb_orders.Outbox.Postgres.{Claimed}
use wb_orders.Outbox.Publisher.{Failure, World}
pub mod Effects
pub mod Results

pub data Error : Type 0 where
  claim_error : Bytes → Error
  event_error : WorkerPool.Error Failure → Error

-- The first error of the loop over `errs`.
unfoldable pub first_error : List (Option (WorkerPool.Error Failure)) → Option Error
first_error [] = none
first_error (none ∷ errs) = first_error errs
first_error (some x ∷ errs) = some (event_error x)

-- The new value of the gauge `OutboxPending`, if it is set.
abbrev pub gauge_of : Result Bytes ℕ → Option ℕ
gauge_of (ok count) = some count
gauge_of (err x) = none

-- What the calls of one batch give: `Claim`, `PendingCount`, and the pool that `Process` ends with.
pub record Calls (S : Type 0) : Type 0 where
  pub claim : Result Bytes (List Claimed)
  pub pending : Result Bytes ℕ
  pub pool : Pool Claimed Failure (World S)

-- After the claim; the errors are those of `Process`.
unfoldable pub publish_claimed :
    {S : Type 0} → List Claimed → Pool Claimed Failure (World S) → Option Error
publish_claimed [] pool = none
publish_claimed (x ∷ claimed) pool = first_error (errors_from 0 (x ∷ claimed) pool.written)

-- `publishBatch`: its error, and the gauge.
unfoldable pub publish_batch : {S : Type 0} → Calls S → Option Error × Option ℕ
publish_batch calls = elim calls.claim [
  | err x ↦ (some (claim_error x), none)
  | ok claimed ↦ (publish_claimed claimed calls.pool, gauge_of calls.pending)
]

-- A turn of the loop in `Run`: a batch, whether its context has ended when the batch is over, and
-- whether the select takes the end of the context.
pub record Turn (S : Type 0) : Type 0 where
  pub calls : Calls S
  pub ended : Bool
  pub leaves : Bool

abbrev pub logged : Bool → Option Error → List Error
logged true e = []
logged false none = []
logged false (some e) = e ∷ []

-- `Run` over its turns: whether it has returned, which it does without an error, and what it has logged.
unfoldable pub run : {S : Type 0} → List (Turn S) → Bool × List Error
run [] = (false, [])
run (t ∷ turns) =
    let error = logged t.ended (publish_batch t.calls).0 in
    let (returned, rest) = run turns in
    if t.leaves then (true, error) else (returned, error ++ rest)
