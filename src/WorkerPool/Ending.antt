-- ===== src/WorkerPool/Ending.antt =====
-- `Process` returns.
use wb_orders.Base.{
  ℕ, zero, suc, ◌+◌, ◌*◌, ◌≤◌, ◌≡◌, ◌⊎◌, true, refl, ap, sym, ◌∙◌, arith, inl, inr, length, List,
  [], ◌∷◌, Option, if◌then◌else◌, here, length-Inserted,
}
use wb_orders.WorkerPool.{
  Job, Pool, jobs_from, actual_workers, started, Handler, Step, sends, skips, ends, closes, exits,
  Runs, stay, after, Ended,
}
use wb_orders.WorkerPool.Laws.{workers_of, IsManned, opened, shut, Runs-IsManned, length-jobs_from}

-- Two steps for each job to be sent, one for each job that is held, one for each worker that is not done, and one for
-- closing the channel.
abbrev pub remaining : {A E S : Type 0} → Pool A E S → ℕ
remaining p = 2 * length p.queue + length p.running + workers_of p + (if p.closed then 0 else 1)

module _ {A E S : Type 0} (handles : Handler A E S) where
  Step-remaining : (p p' : Pool A E S) → Step handles p p' → suc (remaining p') ≡ remaining p
  Step-remaining p p' (sends j rest n queued free e) = rw (e, queued) (omega (arith, free))
  Step-remaining p p' (skips j rest held e) =
      rw e (omega (arith, length-Inserted j rest p.running held))
  Step-remaining p p' (ends j rest r s held told e) =
      rw e (omega (arith, length-Inserted j rest p.running held))
  Step-remaining p p' (closes sent unshut e) = rw (e, unshut) (omega arith)
  Step-remaining p p' (exits n done free e) = rw e (omega (arith, free))

  Runs-remaining :
      (first p : Pool A E S) (n : ℕ) → Runs handles first n p → n + remaining p ≡ remaining first
  Runs-remaining first _ _ stay = omega arith
  Runs-remaining first p' _ (after {n} {p} runs step) =
      omega (arith, Step-remaining p p' step, Runs-remaining first p n runs)

  -- All jobs are sent, the channel is closed, and no worker is left; or a step can be taken.
  abbrev pub Advances : Pool A E S → Type 0
  Advances p =
      ((p.queue ≡ []) × (p.closed ≡ true) × (p.running ≡ []) × (p.idle ≡ 0))
      ⊎ ((p' : Pool A E S) × Step handles p p')

  module _ (p : Pool A E S) (crew : ℕ) (some_worker : 1 ≤ crew) where
    unheld-Advances :
        (queued : List (Job A)) (free : ℕ)
        → p.queue ≡ queued
        → p.running ≡ []
        → p.idle ≡ free
        → IsManned crew p
        → Advances p
    unheld-Advances [] free q r i (opened unshut all) = inr (_, closes q unshut refl)
    unheld-Advances [] zero q r i (shut done empty few) = inl (q, done, r, i)
    unheld-Advances [] (suc n) q r i (shut done empty few) = inr (_, exits n done i refl)
    unheld-Advances (j ∷ queued) zero q r i (opened unshut all) =
        absurd (omega (arith, some_worker, all, ap length r, i))
    unheld-Advances (j ∷ queued) (suc n) q r i (opened unshut all) =
        inr (_, sends j queued n q i refl)
    unheld-Advances (j ∷ queued) free q r i (shut done empty few) =
        absurd (let both = sym q ∙ empty in ground arith)

    advance :
        (held : List (Job A))
        → ((x : A) (s : S) → (r : Option E) × (s' : S) × handles x s r s')
        → p.running ≡ held
        → IsManned crew p
        → Advances p
    advance [] returns r manned = unheld-Advances p.queue p.idle refl r refl manned
    advance (j ∷ held) returns r manned =
        let (o, s, told) = returns j.item p.store in inr (_, ends j held o s (rw r here) told refl)

  -- `Process` returns if the handler always returns: a run with a positive number of workers has at most
  -- two steps for each item, one for closing the channel and one for each worker that is started. Either it has
  -- just as many, and then all jobs are sent, the channel is closed and no worker is left, or another
  -- step can be taken.
  pub pool_ends :
      (workers : ℕ) (items : List A) (before : S) (n : ℕ) (p : Pool A E S)
      → ((x : A) (s : S) → (r : Option E) × (s' : S) × handles x s r s')
      → 1 ≤ workers
      → Runs handles (started workers items before) n p
      → let most = 2 * length items + actual_workers workers items + 1 in
        (n ≤ most)
        × (((n ≡ most) × Ended handles workers items before p)
            ⊎ ((p' : Pool A E S) × Step handles p p'))
  pool_ends workers items before n p returns some_worker runs =
      let first : Pool A E S = started workers items before in
      let left = Runs-remaining first p n runs in
      let total = length-jobs_from 0 items in
      let crew = actual_workers workers items in
      let manned = Runs-IsManned handles crew first p n runs (opened refl (omega arith)) in
      (
        omega (arith, left, total),
        elim (advance p crew (omega (arith, some_worker)) p.running returns refl manned) [
          | inl (unsent, closed, unheld, exited) ↦ inl (
            all_steps left total (ap length unsent) closed (ap length unheld) exited,
            record {
              steps = n;
              runs = runs;
              unsent = unsent;
              shut = closed;
              unheld = unheld;
              exited = exited;
            },
          )
          | inr more ↦ inr more
        ],
      )
    where
      all_steps :
          n + remaining p ≡ remaining (started {E = E} workers items before)
          → length (jobs_from 0 items) ≡ length items
          → length p.queue ≡ 0
          → p.closed ≡ true
          → length p.running ≡ 0
          → p.idle ≡ 0
          → n ≡ 2 * length items + actual_workers workers items + 1
      all_steps left total unsent closed unheld exited =
          omega (arith, rw closed at left, total, unsent, unheld, exited)
