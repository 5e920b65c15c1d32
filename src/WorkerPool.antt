-- ===== src/WorkerPool.antt =====
-- internal/workerpool/pool.go: `Process`, as the steps that its goroutines may take in any order.
use wb_orders.Base.{
  ℕ, zero, suc, ◌+◌, min, max, ◌≡◌, Bool, true, false, length, List, [], ◌∷◌, Option, none, some,
  ◌==◌, if◌then◌else◌, Inserted,
}
pub mod Ending
pub mod Laws
pub mod Results
pub mod Timed

-- What a worker writes at the index of its job: the context had ended, or what the handler returned.
pub data Entry (E : Type 0) : Type 0 where
  canceled : Entry E
  returned : Option E → Entry E

-- The struct `job`.
pub record Job (A : Type 0) : Type 0 where
  pub index : ℕ
  pub item : A

-- The jobs that the loop has still to send, the jobs that workers hold, the number of workers that wait
-- for one, what has been written, with its job, what the handlers share, and whether the channel is closed. The
-- counter of the WaitGroup is the number of the workers that hold a job or wait for one.
pub record Pool (A E S : Type 0) : Type 0 where
  pub queue : List (Job A)
  pub running : List (Job A)
  pub idle : ℕ
  pub written : List (Job A × Entry E)
  pub store : S
  pub closed : Bool

-- `for index, item := range items`.
unfoldable pub jobs_from : {A : Type 0} → ℕ → List A → List (Job A)
jobs_from n [] = []
jobs_from n (x ∷ items) = record { index = n; item = x } ∷ jobs_from (suc n) items

abbrev pub actual_workers : {A : Type 0} → ℕ → List A → ℕ
actual_workers workers items = min workers (max 1 (length items))

-- The pool after its workers have started.
abbrev pub started : {A E S : Type 0} → ℕ → List A → S → Pool A E S
started workers items s = record {
  queue = jobs_from 0 items;
  running = [];
  idle = actual_workers workers items;
  written = [];
  store = s;
  closed = false;
}

-- `handles x s r s'`: the handler of `x` may return `r` and take what is shared from `s` to `s'`.
abbrev pub Handler : Type 0 → Type 0 → Type 0 → Type 1
Handler A E S = A → S → Option E → S → Type 0

module _ {A E S : Type 0} (handles : Handler A E S) where
  -- The channel has no buffer: sending a job hands it to a waiting worker. A worker ends its job with the
  -- error of the context or with what the handler returns for the item, and waits for the next. When all jobs are
  -- sent the channel is closed, and a worker that waits for a job is done.
  pub data Step (p p' : Pool A E S) : Type 0 where
    sends :
        (j : Job A) (rest : List (Job A)) (n : ℕ)
        → p.queue ≡ j ∷ rest
        → p.idle ≡ suc n
        → p' ≡ record p { queue = rest; running = j ∷ p.running; idle = n }
        → Step p p'
    skips :
        (j : Job A) (rest : List (Job A))
        → Inserted j rest p.running
        → p' ≡ record p { running = rest; idle = suc p.idle; written = (j, canceled) ∷ p.written }
        → Step p p'
    ends :
        (j : Job A) (rest : List (Job A)) (r : Option E) (s : S)
        → Inserted j rest p.running
        → handles j.item p.store r s
        → p' ≡ record p {
          running = rest;
          idle = suc p.idle;
          written = (j, returned r) ∷ p.written;
          store = s;
        }
        → Step p p'
    closes : p.queue ≡ [] → p.closed ≡ false → p' ≡ record p { closed = true } → Step p p'
    exits : (n : ℕ) → p.closed ≡ true → p.idle ≡ suc n → p' ≡ record p { idle = n } → Step p p'

  -- The pools after `n` steps.
  pub data Runs (first : Pool A E S) : ℕ → Pool A E S → Type 0 where
    stay : Runs first zero first
    after : {n : ℕ} {p p' : Pool A E S} → Runs first n p → Step p p' → Runs first (suc n) p'

  -- A pool that `Process` may end with, after `wg.Wait`: no job is left to be sent or with a worker, the channel is
  -- closed, and no worker is left.
  pub record Ended (workers : ℕ) (items : List A) (before : S) (p : Pool A E S) : Type 0 where
    pub steps : ℕ
    pub runs : Runs (started workers items before) steps p
    pub unsent : p.queue ≡ []
    pub shut : p.closed ≡ true
    pub unheld : p.running ≡ []
    pub exited : p.idle ≡ 0

-- An element of the result: the cancellation of the pool, or the handler's error.
pub data Error (E : Type 0) : Type 0 where
  pool_canceled : Error E
  handler_error : E → Error E

abbrev pub error_of : {E : Type 0} → Entry E → Option (Error E)
error_of canceled = some pool_canceled
error_of (returned none) = none
error_of (returned (some x)) = some (handler_error x)

module _ {A E : Type 0} where
  -- `errorsByIndex[i]`, nil where nothing was written.
  unfoldable pub error_at : ℕ → List (Job A × Entry E) → Option (Error E)
  error_at i [] = none
  error_at i ((j, r) ∷ written) = if j.index == i then error_of r else error_at i written

  -- `errorsByIndex` from index `n`, an element for each item.
  unfoldable pub errors_from : ℕ → List A → List (Job A × Entry E) → List (Option (Error E))
  errors_from n [] written = []
  errors_from n (x ∷ items) written = error_at n written ∷ errors_from (suc n) items written
