-- ===== src/WorkerPool/Results.antt =====
-- What the errors that `Process` returns say of the items.
use wb_orders.Base.{
  ℕ, zero, suc, ◌+◌, ◌≤◌, ◌<◌, ◌≡◌, refl, arith, inl, inr, length, List, [], ◌∷◌, Bool-cases,
  Option, none, some, ◌==◌, Inserted, here, there, get_elem?, All, All-get_elem, All-map_of,
}
use wb_orders.WorkerPool.{
  Entry, returned, Job, Pool, jobs_from, started, Handler, Step, sends, skips, ends, closes, exits,
  Runs, stay, after, Ended, error_of, error_at, errors_from,
}
use wb_orders.WorkerPool.Laws.{count_index, count_written, written_once}

-- An invariant of what the handlers share, and what holds for an item from a successful return on.
pub record Settles {A E S : Type 0} (handles : Handler A E S) (invariant : S → Type 0)
    (good : A → S → Type 0) : Type 0 where
  pub kept : (x : A) (s : S) (r : Option E) (s' : S) → invariant s → handles x s r s' → invariant s'
  pub settled : (x : A) (s s' : S) → invariant s → handles x s none s' → good x s'
  pub lasting :
      (x y : A) (s : S) (r : Option E) (s' : S)
      → invariant s
      → good x s
      → handles y s r s'
      → good x s'

All-Inserted {κ} :
    {A : Type 0} (P : A → Type κ) (x : A) (xs ys : List A)
    → Inserted x xs ys
    → All P ys
    → P x × All P xs
All-Inserted P x xs _ here h = h
All-Inserted P x _ _ (there {y} {xs} {ys} i) h =
    let (own, rest) = All-Inserted P x xs ys i h.1 in (own, (h.0, rest))

get_elem-lt : {A : Type 0} (xs : List A) (n : ℕ) (x : A) → get_elem? xs n ≡ some x → n < length xs
get_elem-lt [] n x h = ground arith
get_elem-lt (y ∷ xs) zero x h = omega arith
get_elem-lt (y ∷ xs) (suc n) x h = omega (arith, get_elem-lt xs n x h)

abbrev IsJob : {A : Type 0} → List A → Job A → Type 0
IsJob items j = get_elem? items j.index ≡ some j.item

jobs_from-IsJob :
    {A : Type 0} (all items : List A) (n : ℕ)
    → ((k m : ℕ) (x : A) → m ≡ k + n → get_elem? items k ≡ some x → get_elem? all m ≡ some x)
    → All (IsJob all) (jobs_from n items)
unfolding jobs_from
jobs_from-IsJob all [] n h = tt
jobs_from-IsJob all (x ∷ items) n h = (
  h 0 n x (omega arith) refl,
  jobs_from-IsJob all items (suc n) (λ k m y e at_k. h (suc k) m y (omega (arith, e)) at_k),
)

returned-none : {E : Type 0} (r : Option E) → error_of (returned r) ≡ none → r ≡ none
returned-none none h = refl
returned-none (some x) h = ground arith

module _ {A E S : Type 0} (handles : Handler A E S) (invariant : S → Type 0)
    (good : A → S → Type 0) where
  abbrev HasSettled : S → Job A × Entry E → Type 0
  HasSettled s (j, r) = error_of r ≡ none → good j.item s

  -- Every job is one of the batch's, and what has been handled well is settled.
  record IsSound (items : List A) (p : Pool A E S) : Type 0 where
    steady : invariant p.store
    queued : All (IsJob items) p.queue
    held : All (IsJob items) p.running
    owned : All (λ w. IsJob items w.0) p.written
    settled : All (HasSettled p.store) p.written

  Step-IsSound :
      Settles handles invariant good
      → (items : List A) (p p' : Pool A E S) → Step handles p p'
      → IsSound items p
      → IsSound items p'
  Step-IsSound l items p p' (sends j rest n queued free e) v =
      let (own, others) : IsJob items j × All (IsJob items) rest = rw queued at v.queued in
      rw e (record {
        steady = v.steady;
        queued = others;
        held = (own, v.held);
        owned = v.owned;
        settled = v.settled;
      })
  Step-IsSound l items p p' (skips j rest i e) v =
      let (own, others) = All-Inserted (IsJob items) j rest p.running i v.held in
      rw e (record {
        steady = v.steady;
        queued = v.queued;
        held = others;
        owned = (own, v.owned);
        settled = ((λ h. ground arith), v.settled);
      })
  Step-IsSound l items p p' (ends j rest r s i told e) v =
      let (own, others) = All-Inserted (IsJob items) j rest p.running i v.held in
      let next_ok : HasSettled s (j, returned r) =
        λ h. l.settled j.item p.store s v.steady (rw (returned-none r h) at told) in
      let old_ok : All (HasSettled s) p.written =
        All-map_of p.written (λ w g h. l.lasting w.0.item j.item p.store r s v.steady (g h) told)
          v.settled in
      rw e (record {
        queued = v.queued;
        steady = l.kept j.item p.store r s v.steady told;
        held = others;
        owned = (own, v.owned);
        settled = (next_ok, old_ok);
      })
  Step-IsSound l items p p' (closes sent unshut e) v = rw e (record {
    steady = v.steady;
    queued = v.queued;
    held = v.held;
    owned = v.owned;
    settled = v.settled;
  })
  Step-IsSound l items p p' (exits n done free e) v = rw e (record {
    steady = v.steady;
    queued = v.queued;
    held = v.held;
    owned = v.owned;
    settled = v.settled;
  })

  Runs-IsSound :
      Settles handles invariant good
      → (items : List A) (first p : Pool A E S) (n : ℕ) → Runs handles first n p
      → IsSound items first
      → IsSound items p
  Runs-IsSound l items first _ _ stay v = v
  Runs-IsSound l items first p' _ (after {n} {p} runs step) v =
      Step-IsSound l items p p' step (Runs-IsSound l items first p n runs v)

  -- The entry of an index that has one: the first, and the error of the index.
  find_entry :
      (items : List A) (i : ℕ) (x : A) (s : S) (written : List (Job A × Entry E))
      → get_elem? items i ≡ some x
      → All (λ w. IsJob items w.0) written
      → All (HasSettled s) written
      → 1 ≤ count_written i written
      → error_at i written ≡ none
      → good x s
  unfolding count_index error_at
  find_entry items i x s [] at_i own done some_entry fine = absurd (omega (arith, some_entry))
  find_entry items i x s ((j, r) ∷ written) at_i own done some_entry fine =
      elim (Bool-cases (j.index == i)) [
        | inl hit ↦
            let same : j.index ≡ i = ground arith in
            let item : j.item ≡ x = ground arith in rw item at (done.0 (ground arith))
        | inr miss ↦ find_entry items i x s written at_i own.1 done.1 (ground arith) (ground arith)
      ]

  error_at-errors_from :
      (items : List A) (n i m : ℕ) (x : A) (written : List (Job A × Entry E))
      → All (λ r. r ≡ none) (errors_from n items written)
      → get_elem? items i ≡ some x
      → m ≡ i + n
      → error_at m written ≡ none
  unfolding errors_from
  error_at-errors_from [] n i m x written fine at_i e = ground arith
  error_at-errors_from (y ∷ items) n zero m x written fine at_i e =
      let same : m ≡ n = omega (arith, e) in rw same fine.0
  error_at-errors_from (y ∷ items) n (suc i) m x written fine at_i e =
      error_at-errors_from items (suc n) i m x written fine.1 at_i (omega (arith, e))

  Ended-IsSound :
      Settles handles invariant good
      → (workers : ℕ) (items : List A) (before : S) (p : Pool A E S) → invariant before
      → Ended handles workers items before p
      → IsSound items p
  Ended-IsSound l workers items before p steady ended =
      let first : Pool A E S = started workers items before in
      Runs-IsSound l items first p ended.steps ended.runs (record {
        steady = steady;
        queued =
            jobs_from-IsJob items items 0
              (λ k m x e at_k. let same : m ≡ k = omega (arith, e) in rw same at_k);
        held = tt;
        owned = tt;
        settled = tt;
      })

  pub results_invariant :
      Settles handles invariant good
      → (workers : ℕ) (items : List A) (before : S) (p : Pool A E S) → invariant before
      → Ended handles workers items before p
      → invariant p.store
  results_invariant l workers items before p steady ended =
      (Ended-IsSound l workers items before p steady ended).steady

  -- If the handlers keep an invariant, and what a successful one brings about is kept by every other, then a
  -- batch of which no item has an error leaves all its items settled, whatever the order of the steps.
  pub results_settled :
      Settles handles invariant good
      → (workers : ℕ) (items : List A) (before : S) (p : Pool A E S) → invariant before
      → Ended handles workers items before p
      → All (λ r. r ≡ none) (errors_from 0 items p.written)
      → invariant p.store × All (λ x. good x p.store) items
  results_settled l workers items before p steady ended fine =
      let sound = Ended-IsSound l workers items before p steady ended in
      (
        sound.steady,
        All-get_elem _ items (λ i x at_i.
            let within = get_elem-lt items i x at_i in
            let once =
              written_once handles workers items before ended.steps p i ended.runs ended.unsent
                ended.unheld in
            find_entry items i x p.store p.written at_i sound.owned sound.settled (ground arith)
              (error_at-errors_from items 0 i i x p.written fine at_i (omega arith))),
      )
