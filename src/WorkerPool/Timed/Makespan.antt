-- ===== src/WorkerPool/Timed/Makespan.antt =====
-- How long a batch takes, if each job takes at most some time: no longer than the fullest rounds of all workers.
use native.Mathlib.Nat.{suc-mul}
use wb_orders.Base.{
  ℕ, suc, ◌+◌, ◌*◌, ◌≤◌, ◌≡◌, ◌≢◌, ◌⊎◌, refl, ap, inl, inr, arith, length, List, [], ◌∷◌, Inserted,
  length-Inserted, All,
}
use wb_orders.WorkerPool.{Job, Entry, Handler, actual_workers}
use wb_orders.WorkerPool.Timed.Rounds.{
  sum, rounds, sum-Inserted, rounds-Inserted, All-Inserted, busy_rounds, next_ends, length-at_start,
  sum-at_start, All-at_start, length-jobs_from,
}
use wb_orders.WorkerPool.Timed.{
  Held, TimedPool, timed_started, TimedStep, hands, drops, completes, passes, TimedRuns, begins,
  goes_on,
}

module _ {A E S : Type 0} (limit workers n q : ℕ) where
  -- No worker is behind while jobs wait, and no job ends after `q` rounds.
  record InTime (t : TimedPool A E S) : Type 0 where
    manned : length t.running + length t.idle ≡ workers
    counted : sum (rounds t.running) + sum t.idle + length t.queue ≡ n
    steady : All (λ b. b.since + limit ≤ b.round * limit) t.running
    alive : All (λ b. t.now ≤ b.since + limit) t.running
    soon : All (λ b. b.since + limit ≤ q * limit) t.running
    ready : t.queue ≢ [] → All (λ x. t.now ≤ x * limit) t.idle
    bounded : t.now ≤ q * limit

  hands-InTime :
      (t : TimedPool A E S) (j : Job A) (rest : List (Job A)) (taken : ℕ) (others : List ℕ)
      → n ≤ workers * q
      → t.queue ≡ j ∷ rest
      → Inserted taken others t.idle
      → InTime t
      → InTime (record t {
        queue = rest;
        running = record { job = j; round = suc taken; since = t.now } ∷ t.running;
        idle = others;
      })
  unfolding sum
  hands-InTime t j rest taken others enough sent i w =
      let waiting : t.queue ≢ [] = λ e. ground arith in
      let left : length t.queue ≡ suc (length rest) = ap (λ q. length q) sent in
      let free = w.ready waiting in
      let (own, others_free) = All-Inserted (λ x. t.now ≤ x * limit) taken others t.idle i free in
      let size = length-Inserted taken others t.idle i in
      let total = sum-Inserted taken others t.idle i in
      record {
        manned = omega (arith, size, w.manned);
        counted = omega (arith, total, left, w.counted);
        steady = (omega (arith, own, suc-mul taken limit), w.steady);
        alive = (omega arith, w.alive);
        soon = (
          next_ends limit n workers q t.now (length rest) t.running t.idle w.manned
              (rw left at w.counted) enough (busy_rounds limit t.now t.running w.steady w.alive)
              free,
          w.soon,
        );
        ready = λ more. others_free;
        bounded = w.bounded;
      }

  -- A worker is free again, whatever it has written.
  frees-InTime :
      (t : TimedPool A E S) (b : Held A) (rest : List (Held A)) (written : List (Job A × Entry E))
      (store : S)
      → Inserted b rest t.running
      → InTime t
      → InTime
          (record t { running = rest; idle = b.round ∷ t.idle; written = written; store = store })
  unfolding sum
  frees-InTime t b rest written store i w =
      let (own_steady, steady) =
        All-Inserted (λ b. b.since + limit ≤ b.round * limit) b rest t.running i w.steady in
      let (own_alive, alive) =
        All-Inserted (λ b. t.now ≤ b.since + limit) b rest t.running i w.alive in
      let (_, soon) = All-Inserted (λ b. b.since + limit ≤ q * limit) b rest t.running i w.soon in
      let size = length-Inserted b rest t.running i in
      let total =
        sum-Inserted b.round (rounds rest) (rounds t.running)
          (rounds-Inserted b rest t.running i) in
      record {
        manned = omega (arith, size, w.manned);
        counted = omega (arith, total, w.counted);
        steady = steady;
        alive = alive;
        soon = soon;
        ready = λ more. (omega (arith, own_steady, own_alive), w.ready more);
        bounded = w.bounded;
      }

  passes-InTime :
      (t : TimedPool A E S) (d : ℕ)
      → (t.queue ≡ []) ⊎ (t.idle ≡ [])
      → t.running ≢ []
      → All (λ b. t.now + d ≤ b.since + limit) t.running
      → InTime t
      → InTime (record t { now = t.now + d })
  passes-InTime t d waits busy short w = record {
    manned = w.manned;
    counted = w.counted;
    steady = w.steady;
    alive = short;
    soon = w.soon;
    ready = λ more. elim waits [
      | inl none_left ↦ absurd (more none_left)
      | inr all_busy ↦ rw all_busy tt
    ];
    bounded = last t.running busy short w.soon;
  }
    where
      last :
          (held : List (Held A))
          → held ≢ []
          → All (λ b. t.now + d ≤ b.since + limit) held
          → All (λ b. b.since + limit ≤ q * limit) held
          → t.now + d ≤ q * limit
      last [] busy short soon = absurd (busy refl)
      last (b ∷ held) busy (own, short) (ends_soon, soon) = omega (arith, own, ends_soon)

  TimedStep-InTime :
      (handles : Handler A E S) (t t' : TimedPool A E S)
      → n ≤ workers * q
      → TimedStep handles limit t t'
      → InTime t
      → InTime t'
  TimedStep-InTime handles t t' enough (hands j rest taken others sent i same) w =
      rw same (hands-InTime t j rest taken others enough sent i w)
  TimedStep-InTime handles t t' enough (drops b rest i same) w =
      rw same (frees-InTime t b rest _ _ i w)
  TimedStep-InTime handles t t' enough (completes b rest r s i _ same) w =
      rw same (frees-InTime t b rest _ _ i w)
  TimedStep-InTime handles t t' enough (passes d waits busy short same) w =
      rw same (passes-InTime t d waits busy short w)

  TimedRuns-InTime :
      (handles : Handler A E S) (first t : TimedPool A E S)
      → n ≤ workers * q
      → InTime first
      → TimedRuns handles limit first t
      → InTime t
  TimedRuns-InTime handles first _ enough w begins = w
  TimedRuns-InTime handles first _ enough w (goes_on {t} {t'} before step) =
      TimedStep-InTime handles t t' enough step (TimedRuns-InTime handles first t enough w before)

-- If each job takes at most `limit` and there are at most `q` jobs for each worker, then no more than `q`
-- times the limit passes while `Process` works on a batch, whatever the handler does.
pub makespan :
    {A E S : Type 0} (handles : Handler A E S) (limit workers q : ℕ) (items : List A) (s : S)
    (t : TimedPool A E S)
    → length items ≤ actual_workers workers items * q
    → TimedRuns handles limit (timed_started workers items s) t
    → t.now ≤ q * limit
unfolding sum
makespan {A} {E} {S} handles limit workers q items s t enough runs =
    let crew = actual_workers workers items in
    let free = sum-at_start crew in
    let size = length-jobs_from 0 items in
    let pool : TimedPool A E S = timed_started workers items s in
    let first : InTime limit crew (length items) q pool = record {
      manned = omega (arith, length-at_start crew);
      counted = omega (arith, free, size);
      steady = tt;
      alive = tt;
      soon = tt;
      ready = λ more. All-at_start limit crew;
      bounded = omega arith;
    } in
    (TimedRuns-InTime limit crew (length items) q handles pool t enough first runs).bounded
