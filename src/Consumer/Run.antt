-- ===== src/Consumer/Run.antt =====
-- `Run` of internal/consumer/consumer.go, over what each turn of its loop polls and what its batch ends with.
use wb_orders.Base.{ℕ, ◌+◌, ◌≡◌, Bool, List, [], ◌∷◌, Option, none, some, if◌then◌else◌}
use wb_orders.Base.Text.{Bytes}
use wb_orders.Kafka.{KafkaRecord}
use wb_orders.WorkerPool
use wb_orders.WorkerPool.{Pool, errors_from}
use wb_orders.Consumer.Handler.{Failure}
pub mod Worlds
pub mod Turns
pub mod Commits
pub mod Endings

-- What one turn meets: whether the context has ended after the poll, the errors and the records of the fetches, the
-- pool that `Process` ends with, and the error of CommitRecords, if it has one.
pub record Turn (S : Type 0) : Type 0 where
  pub ended : Bool
  pub fetch_errors : List Bytes
  pub records : List KafkaRecord
  pub pool : Pool KafkaRecord Failure S
  pub commit : Option Bytes

-- What `Run` returns with: the joined errors of a batch, or the error of the commit.
pub data Error : Type 0 where
  batch_incomplete : List (WorkerPool.Error Failure) → Error
  commit_failed : Bytes → Error

-- The calls of CommitRecords with their records, the latest first, and the number of calls of AllowRebalance.
pub record State : Type 0 where
  pub commits : List (List KafkaRecord)
  pub allowed : ℕ

abbrev pub initial : State
initial = record { commits = []; allowed = 0 }

abbrev pub allow_rebalance : State → State
allow_rebalance s = record s { allowed = s.allowed + 1 }

-- The loop over `errs` that joins those which are not nil.
unfoldable pub joined : {E : Type 0} → List (Option E) → List E
joined [] = []
joined (none ∷ errs) = joined errs
joined (some x ∷ errs) = x ∷ joined errs

-- Whether the loop goes on, or `Run` returns an error or nil.
pub data Next : Type 0 where
  continues : Next
  returns : Option Error → Next

-- After CommitRecords.
abbrev pub committed : Option Bytes → Next
committed none = continues
committed (some x) = returns (some (commit_failed x))

-- With the joined errors of the batch.
abbrev pub conclude :
    List KafkaRecord → List (WorkerPool.Error Failure) → Option Bytes → State → Next × State
conclude records [] commit s =
    (committed commit, allow_rebalance (record s { commits = records ∷ s.commits }))
conclude records (x ∷ errs) commit s =
    (returns (some (batch_incomplete (x ∷ errs))), allow_rebalance s)

-- After the tests on the poll.
abbrev pub handle_batch :
    {S : Type 0}
    → List KafkaRecord
    → Pool KafkaRecord Failure S
    → Option Bytes
    → State
    → Next × State
handle_batch [] pool commit s = (continues, allow_rebalance s)
handle_batch (r ∷ records) pool commit s =
    conclude (r ∷ records) (joined (errors_from 0 (r ∷ records) pool.written)) commit s

abbrev pub fetched : {S : Type 0} → List Bytes → Turn S → State → Next × State
fetched [] t s = handle_batch t.records t.pool t.commit s
fetched (x ∷ errors) t s = (continues, allow_rebalance s)

-- One turn of the loop.
unfoldable pub turn : {S : Type 0} → Turn S → State → Next × State
turn t s = if t.ended then (returns none, s) else fetched t.fetch_errors t s

-- `Run` over its turns: what it returns, if it has, and its calls.
unfoldable pub run : {S : Type 0} → List (Turn S) → State → Next × State
run [] s = (continues, s)
run (t ∷ turns) s =
    let (next, after) = turn t s in
    let rest = run turns after in elim next [ continues ↦ rest | returns e ↦ (returns e, after) ]
