-- ===== src/WorkerPool/Timed.antt =====
-- internal/workerpool/pool.go with time: the steps of `Process` under a clock. A job is handed over as soon as a
-- worker waits for one, and a worker holds a job for at most `limit`. Closing the channel and the ends of the workers,
-- which take no time, are left to the pool without a clock.
use wb_orders.Base.{
  ℕ, zero, suc, ◌+◌, ◌*◌, ◌≤◌, ◌≡◌, ◌≢◌, ◌⊎◌, refl, inl, inr, ap, arith, length, false, List, [],
  ◌∷◌, map, Option, Inserted, here, there, All,
}
use wb_orders.WorkerPool.{
  Job, Entry, canceled, returned, Pool, jobs_from, actual_workers, started, Handler, Step, sends,
  skips, ends, Runs, stay, after,
}
pub mod Rounds
pub mod Makespan

-- A job with the worker that holds it: how many jobs that worker has taken, and since when it has this
-- one.
pub record Held (A : Type 0) : Type 0 where
  pub job : Job A
  pub round : ℕ
  pub since : ℕ

-- A pool with its clock; a waiting worker is the number of jobs that it has taken.
pub record TimedPool (A E S : Type 0) : Type 0 where
  pub queue : List (Job A)
  pub running : List (Held A)
  pub idle : List ℕ
  pub written : List (Job A × Entry E)
  pub store : S
  pub now : ℕ

abbrev pub at_start : ℕ → List ℕ
at_start zero = []
at_start (suc workers) = 0 ∷ at_start workers

abbrev pub timed_started : {A E S : Type 0} → ℕ → List A → S → TimedPool A E S
timed_started workers items s = record {
  queue = jobs_from 0 items;
  running = [];
  idle = at_start (actual_workers workers items);
  written = [];
  store = s;
  now = 0;
}

abbrev pub held_jobs : {A : Type 0} → List (Held A) → List (Job A)
held_jobs = map λ b. b.job

-- The pool without the clock, before the channel is closed.
abbrev pub pool_of : {A E S : Type 0} → TimedPool A E S → Pool A E S
pool_of t = record {
  queue = t.queue;
  running = held_jobs t.running;
  idle = length t.idle;
  written = t.written;
  store = t.store;
  closed = false;
}

module _ {A E S : Type 0} (handles : Handler A E S) (limit : ℕ) where
  -- Time passes while a job is held, and while no job can be handed over.
  pub data TimedStep (t t' : TimedPool A E S) : Type 0 where
    hands :
        (j : Job A) (rest : List (Job A)) (taken : ℕ) (others : List ℕ)
        → t.queue ≡ j ∷ rest
        → Inserted taken others t.idle
        → t' ≡ record t {
          queue = rest;
          running = record { job = j; round = suc taken; since = t.now } ∷ t.running;
          idle = others;
        }
        → TimedStep t t'
    drops :
        (b : Held A) (rest : List (Held A))
        → Inserted b rest t.running
        → t' ≡ record t {
          running = rest;
          idle = b.round ∷ t.idle;
          written = (b.job, canceled) ∷ t.written;
        }
        → TimedStep t t'
    completes :
        (b : Held A) (rest : List (Held A)) (r : Option E) (s : S)
        → Inserted b rest t.running
        → handles b.job.item t.store r s
        → t' ≡ record t {
          running = rest;
          idle = b.round ∷ t.idle;
          written = (b.job, returned r) ∷ t.written;
          store = s;
        }
        → TimedStep t t'
    passes :
        (d : ℕ)
        → (t.queue ≡ []) ⊎ (t.idle ≡ [])
        → t.running ≢ []
        → All (λ b. t.now + d ≤ b.since + limit) t.running
        → t' ≡ record t { now = t.now + d }
        → TimedStep t t'

  pub data TimedRuns (first : TimedPool A E S) : TimedPool A E S → Type 0 where
    begins : TimedRuns first first
    goes_on : {t t' : TimedPool A E S} → TimedRuns first t → TimedStep t t' → TimedRuns first t'

  length-Inserted-suc : (x : ℕ) (xs ys : List ℕ) → Inserted x xs ys → length ys ≡ suc (length xs)
  length-Inserted-suc x xs _ here = refl
  length-Inserted-suc x _ _ (there {y} {xs} {ys} i) =
      ap (λ n. suc n) (length-Inserted-suc x xs ys i)

  held_jobs-Inserted :
      (b : Held A) (xs ys : List (Held A))
      → Inserted b xs ys
      → Inserted b.job (held_jobs xs) (held_jobs ys)
  held_jobs-Inserted b xs _ here = here
  held_jobs-Inserted b _ _ (there {y} {xs} {ys} i) = there (held_jobs-Inserted b xs ys i)

  -- Without the clock, a step is a step of the pool, or none.
  TimedStep-Step :
      (t t' : TimedPool A E S)
      → TimedStep t t'
      → (pool_of t' ≡ pool_of t) ⊎ Step handles (pool_of t) (pool_of t')
  TimedStep-Step t t' (hands j rest taken others sent free same) = inr (
      sends j (rest) (length others) sent (length-Inserted-suc taken others t.idle free)
        (ap (λ u. pool_of u) same))
  TimedStep-Step t t' (drops b rest i same) = inr (
      skips b.job (held_jobs rest) (held_jobs-Inserted b rest t.running i)
        (ap (λ u. pool_of u) same))
  TimedStep-Step t t' (completes b rest r s i handled same) = inr (
      ends b.job (held_jobs rest) r s (held_jobs-Inserted b rest t.running i) handled
        (ap (λ u. pool_of u) same))
  TimedStep-Step t t' (passes d waits busy short same) = inl (ap (λ u. pool_of u) same)

  -- What a pool does under a clock, it may do without one.
  pub TimedRuns-Runs :
      (first t : TimedPool A E S)
      → TimedRuns first t
      → (n : ℕ) × Runs handles (pool_of first) n (pool_of t)
  TimedRuns-Runs first _ begins = (zero, stay)
  TimedRuns-Runs first _ (goes_on {t} {t'} before step) =
      let (n, runs) = TimedRuns-Runs first t before in
      elim (TimedStep-Step t t' step) [
        | inl same ↦ (n, rw same runs)
        | inr one ↦ (suc n, after runs one)
      ]
