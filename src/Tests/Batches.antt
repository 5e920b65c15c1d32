-- ===== src/Tests/Batches.antt =====
-- A batch of one item on two workers.
use wb_orders.Base.{
  ℕ, suc, true, false, ◌+◌, ◌*◌, ◌≤◌, ◌≡◌, ◌⊎◌, refl, arith, List, [], ◌∷◌, none, length, here, All,
}
use wb_orders.WorkerPool.{
  Handler, Job, Pool, returned, jobs_from, actual_workers, started, Step, sends, ends, closes,
  exits, Ended, Runs, stay, after, errors_from, error_at,
}
use wb_orders.WorkerPool.Laws.{count_written, written_once}
use wb_orders.WorkerPool.Ending.{pool_ends}
use wb_orders.WorkerPool.Results.{Settles, results_settled}

abbrev items : List ℕ
items = 5 ∷ []

-- A handler that succeeds and counts its calls.
abbrev counts : Handler ℕ ℕ ℕ
counts x s r s' = (r ≡ none) × (s' ≡ suc s)

abbrev job : Job ℕ
job = record { index = 0; item = 5 }

abbrev busy : Pool ℕ ℕ ℕ
busy = record { queue = []; running = job ∷ []; idle = 0; written = []; store = 0; closed = false }

abbrev finished : Pool ℕ ℕ ℕ
finished = record {
  queue = [];
  running = [];
  idle = 1;
  written = (job, returned none) ∷ [];
  store = 1;
  closed = false;
}

-- The channel is closed, and the worker is done.
abbrev over : Pool ℕ ℕ ℕ
over = record finished { idle = 0; closed = true }

one_step : Runs counts (started 2 items 0) 1 busy
unfolding jobs_from
one_step = after stay (sends job [] 0 refl refl refl)

two_steps : Runs counts (started 2 items 0) 2 finished
two_steps = after one_step (ends job [] none 1 here (refl, refl) refl)

all_steps : Runs counts (started 2 items 0) 4 over
all_steps = after (after two_steps (closes refl refl refl)) (exits 0 refl refl refl)

written_once_example : count_written 0 finished.written ≡ 1
written_once_example = written_once counts 2 items 0 2 finished 0 two_steps refl refl

pool_ends_example :
    let most = 2 * length items + actual_workers 2 items + 1 in
    (1 ≤ most)
    × (((1 ≡ most) × Ended counts 2 items 0 busy) ⊎ ((p' : Pool ℕ ℕ ℕ) × Step counts busy p'))
pool_ends_example =
    pool_ends counts 2 items 0 1 busy (λ x s. (none, suc s, (refl, refl))) (omega arith) one_step

ended : Ended counts 2 items 0 over
ended = record {
  steps = 4;
  runs = all_steps;
  unsent = refl;
  shut = refl;
  unheld = refl;
  exited = refl;
}

counting : Settles counts (λ s. 0 ≤ s) (λ x s. 1 ≤ s)
counting = record {
  kept = λ x s r s' v h. omega arith;
  settled = λ x s s' v h. omega (arith, h.1);
  lasting = λ x y s r s' v good h. omega (arith, h.1);
}

results_settled_example : (0 ≤ over.store) × All (λ x. 1 ≤ over.store) items
unfolding errors_from error_at
results_settled_example =
    results_settled counts (λ s. 0 ≤ s) (λ x s. 1 ≤ s) counting 2 items 0 over (omega arith) ended
      (refl, tt)
