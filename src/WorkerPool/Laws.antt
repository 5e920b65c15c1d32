-- ===== src/WorkerPool/Laws.antt =====
-- Every item of a batch is handled exactly once, on a bounded number of workers.
use wb_orders.Base.{
  ℕ, suc, ◌+◌, ◌≤◌, ◌≡◌, ◌&&◌, true, false, refl, sym, ◌∙◌, arith, length, List, [], ◌∷◌, map, ltb,
  leb, ◌==◌, if◌then◌else◌, Inserted, here, there, length-Inserted,
}
use wb_orders.WorkerPool.{
  Entry, Job, Pool, jobs_from, actual_workers, started, Handler, Step, sends, skips, ends, closes,
  exits, Runs, stay, after,
}

-- How many jobs have the index.
unfoldable pub count_index : {A : Type 0} → ℕ → List (Job A) → ℕ
count_index i [] = 0
count_index i (j ∷ js) = if j.index == i then count_index i js + 1 else count_index i js

abbrev pub count_written : {A E : Type 0} → ℕ → List (Job A × Entry E) → ℕ
count_written i written = count_index i (map (λ w. w.0) written)

count_index-Inserted :
    {A : Type 0} (i : ℕ) (j : Job A) (xs ys : List (Job A))
    → Inserted j xs ys
    → count_index i ys ≡ count_index i (j ∷ xs)
unfolding count_index
count_index-Inserted i j xs _ here = refl
count_index-Inserted i j _ _ (there {y} {xs} {ys} k) =
    ground (arith, count_index-Inserted i j xs ys k)

count_index-jobs_from :
    {A : Type 0} (i n : ℕ) (items : List A)
    → count_index i (jobs_from n items) ≡ (if leb n i && ltb i (n + length items) then 1 else 0)
unfolding count_index jobs_from
count_index-jobs_from i n [] = ground arith
count_index-jobs_from i n (x ∷ items) = ground (arith, count_index-jobs_from i (suc n) items)

pub length-jobs_from :
    {A : Type 0} (n : ℕ) (items : List A) → length (jobs_from n items) ≡ length items
unfolding jobs_from
length-jobs_from n [] = refl
length-jobs_from n (x ∷ items) = ground (arith, length-jobs_from (suc n) items)

-- The jobs with an index, wherever they are.
abbrev everywhere : {A E S : Type 0} → ℕ → Pool A E S → ℕ
everywhere i p = count_index i p.queue + count_index i p.running + count_written i p.written

abbrev pub workers_of : {A E S : Type 0} → Pool A E S → ℕ
workers_of p = length p.running + p.idle

abbrev known : {A E S : Type 0} → Pool A E S → ℕ
known p = length p.queue + length p.running + length p.written

-- All workers are there until the channel is closed, which it is when all jobs are sent.
pub data IsManned {A E S : Type 0} (crew : ℕ) (p : Pool A E S) : Type 0 where
  opened : p.closed ≡ false → workers_of p ≡ crew → IsManned crew p
  shut : p.closed ≡ true → p.queue ≡ [] → workers_of p ≤ crew → IsManned crew p

module _ {A E S : Type 0} (handles : Handler A E S) where
  Step-everywhere :
      (i : ℕ) (p p' : Pool A E S) → Step handles p p' → everywhere i p' ≡ everywhere i p
  unfolding count_index
  Step-everywhere i p p' (sends j rest n queued free e) = rw (e, queued) (ground arith)
  Step-everywhere i p p' (closes sent unshut e) = rw e refl
  Step-everywhere i p p' (exits n done free e) = rw e refl
  Step-everywhere i p p' (skips j rest held e) =
      rw e (ground (arith, count_index-Inserted i j rest p.running held))
  Step-everywhere i p p' (ends j rest r s held told e) =
      rw e (ground (arith, count_index-Inserted i j rest p.running held))

  Step-IsManned :
      (crew : ℕ) (p p' : Pool A E S) → Step handles p p' → IsManned crew p → IsManned crew p'
  Step-IsManned crew p p' (sends j rest n queued free e) (opened unshut all) =
      opened (rw e unshut) (rw e (omega (arith, free, all)))
  Step-IsManned crew p p' (sends j rest n queued free e) (shut done empty few) =
      absurd (let both = sym queued ∙ empty in ground arith)
  Step-IsManned crew p p' (skips j rest held e) (opened unshut all) =
      opened (rw e unshut) (rw e (omega (arith, all, length-Inserted j rest p.running held)))
  Step-IsManned crew p p' (skips j rest held e) (shut done empty few) =
      shut (rw e done) (rw e empty)
        (rw e (omega (arith, few, length-Inserted j rest p.running held)))
  Step-IsManned crew p p' (ends j rest r s held told e) (opened unshut all) =
      opened (rw e unshut) (rw e (omega (arith, all, length-Inserted j rest p.running held)))
  Step-IsManned crew p p' (ends j rest r s held told e) (shut done empty few) =
      shut (rw e done) (rw e empty)
        (rw e (omega (arith, few, length-Inserted j rest p.running held)))
  Step-IsManned crew p p' (closes sent unshut e) (opened _ all) =
      shut (rw e refl) (rw e sent) (rw e (omega (arith, all)))
  Step-IsManned crew p p' (closes sent unshut e) (shut done empty few) =
      shut (rw e refl) (rw e sent) (rw e few)
  Step-IsManned crew p p' (exits n done free e) (opened unshut all) =
      absurd (let both = sym done ∙ unshut in ground arith)
  Step-IsManned crew p p' (exits n done free e) (shut _ empty few) =
      shut (rw e done) (rw e empty) (rw e (omega (arith, few, free)))

  pub Runs-IsManned :
      (crew : ℕ) (first p : Pool A E S) (n : ℕ)
      → Runs handles first n p
      → IsManned crew first
      → IsManned crew p
  Runs-IsManned crew first _ _ stay v = v
  Runs-IsManned crew first p' _ (after {n} {p} runs step) v =
      Step-IsManned crew p p' step (Runs-IsManned crew first p n runs v)

  Step-known : (p p' : Pool A E S) → Step handles p p' → known p' ≡ known p
  Step-known p p' (sends j rest n queued free e) = rw (e, queued) (omega arith)
  Step-known p p' (closes sent unshut e) = rw e refl
  Step-known p p' (exits n done free e) = rw e refl
  Step-known p p' (skips j rest held e) =
      rw e (omega (arith, length-Inserted j rest p.running held))
  Step-known p p' (ends j rest r s held told e) =
      rw e (omega (arith, length-Inserted j rest p.running held))

  -- What no step changes, no run changes.
  pub Runs-constant :
      (f : Pool A E S → ℕ)
      → ((p p' : Pool A E S) → Step handles p p' → f p' ≡ f p)
      → (first p : Pool A E S) (n : ℕ) → Runs handles first n p
      → f p ≡ f first
  Runs-constant f constant first _ _ stay = refl
  Runs-constant f constant first p' _ (after {n} {p} runs step) =
      constant p p' step ∙ Runs-constant f constant first p n runs

  -- Whatever the handler and the order of the steps, when no job is left in the channel or with a worker, one
  -- entry has been written for each index of the items, and none for another.
  pub written_once :
      (workers : ℕ) (items : List A) (before : S) (n : ℕ) (p : Pool A E S) (i : ℕ)
      → Runs handles (started workers items before) n p
      → p.queue ≡ []
      → p.running ≡ []
      → count_written i p.written ≡ (if ltb i (length items) then 1 else 0)
  unfolding count_index
  written_once workers items before n p i runs unsent unheld =
      let same =
        Runs-constant (everywhere i) (Step-everywhere i) (started workers items before) p n runs in
      ground (arith, count_index-jobs_from i 0 items)

  -- At no time of a run over a batch do workers hold more jobs than there are workers, nor more than there
  -- are items.
  pub running_bound :
      (workers : ℕ) (items : List A) (before : S) (n : ℕ) (p : Pool A E S)
      → Runs handles (started workers items before) n p
      → (length p.running ≤ workers) × (length p.running ≤ length items)
  running_bound workers items before n p runs =
      let first : Pool A E S = started workers items before in
      (
        crew_bound (
            Runs-IsManned (actual_workers workers items) first p n runs
              (opened refl (omega arith))),
        omega (arith, Runs-constant known Step-known first p n runs, length-jobs_from 0 items),
      )
    where
      crew_bound : IsManned (actual_workers workers items) p → length p.running ≤ workers
      crew_bound (opened _ all) = omega (arith, all)
      crew_bound (shut _ _ few) = omega (arith, few)
