-- ===== src/WorkerPool/Timed/Rounds.antt =====
-- How many jobs the workers of a pool have taken, and when a job ends that is handed over next.
use native.Mathlib.Nat.{add-mul, suc-mul}
use wb_orders.Base.{
  ℕ, zero, suc, ◌+◌, ◌*◌, ◌≤◌, ◌≡◌, ◌⊎◌, refl, sym, ap, inl, inr, arith, length, List, [], ◌∷◌, map,
  leb, Bool-cases, Inserted, here, there, All,
}
use wb_orders.WorkerPool.{jobs_from}
use wb_orders.WorkerPool.Timed.{Held, at_start}

unfoldable pub sum : List ℕ → ℕ
sum [] = 0
sum (n ∷ ns) = n + sum ns

abbrev pub rounds : {A : Type 0} → List (Held A) → List ℕ
rounds = map λ b. b.round

pub sum-Inserted : (x : ℕ) (xs ys : List ℕ) → Inserted x xs ys → sum ys ≡ x + sum xs
unfolding sum
sum-Inserted x xs _ here = refl
sum-Inserted x _ _ (there {y} {xs} {ys} i) = omega (arith, sum-Inserted x xs ys i)

pub rounds-Inserted :
    {A : Type 0} (b : Held A) (xs ys : List (Held A))
    → Inserted b xs ys
    → Inserted b.round (rounds xs) (rounds ys)
rounds-Inserted b xs _ here = here
rounds-Inserted b _ _ (there {y} {xs} {ys} i) = there (rounds-Inserted b xs ys i)

pub All-Inserted :
    {A : Type 0} (P : A → Type 0) (x : A) (xs ys : List A)
    → Inserted x xs ys
    → All P ys
    → P x × All P xs
All-Inserted P x xs _ here h = h
All-Inserted P x _ _ (there {y} {xs} {ys} i) (own, rest) =
    let (found, others) = All-Inserted P x xs ys i rest in (found, (own, others))

early : (now limit x q : ℕ) → now ≤ x * limit → suc x ≤ q → now + limit ≤ q * limit
early now limit x zero h less = absurd (omega (arith, less))
early now limit x (suc q) h less =
    omega (arith, suc-mul q limit, le_times x q limit (omega (arith, less)))
  where
    le_times : (x q limit : ℕ) → x ≤ q → x * limit ≤ q * limit
    le_times zero q limit h = omega arith
    le_times (suc x) zero limit h = absurd (omega (arith, h))
    le_times (suc x) (suc q) limit h =
        omega (arith, suc-mul x limit, suc-mul q limit, le_times x q limit (omega (arith, h)))

-- If no worker is behind its rounds, then all have had `q` rounds or a job that starts now ends in time.
pigeon :
    (now limit q : ℕ) (xs : List ℕ)
    → All (λ x. now ≤ x * limit) xs
    → (length xs * q ≤ sum xs) ⊎ (now + limit ≤ q * limit)
unfolding sum
pigeon now limit q [] h = inl (omega arith)
pigeon now limit q (x ∷ xs) (own, rest) = elim (Bool-cases (leb q x)) [
  | inr less ↦ inr (early now limit x q own (ground arith))
  | inl enough ↦ elim (pigeon now limit q xs rest) [
    | inr soon ↦ inr soon
    | inl all ↦ inl (ground (arith, suc-mul (length xs) q))
  ]
]

pub busy_rounds :
    {A : Type 0} (limit now : ℕ) (held : List (Held A))
    → All (λ b. b.since + limit ≤ b.round * limit) held
    → All (λ b. now ≤ b.since + limit) held
    → All (λ x. now ≤ x * limit) (rounds held)
busy_rounds limit now [] steady alive = tt
busy_rounds limit now (b ∷ held) (s, steady) (a, alive) =
    (omega (arith, s, a), busy_rounds limit now held steady alive)

length-rounds : {A : Type 0} (held : List (Held A)) → length (rounds held) ≡ length held
length-rounds [] = refl
length-rounds (b ∷ held) = ap (λ n. suc n) (length-rounds held)

-- A job that is handed over now ends in time.
pub next_ends :
    {A : Type 0} (limit n workers q now left : ℕ) (held : List (Held A)) (idle : List ℕ)
    → length held + length idle ≡ workers
    → sum (rounds held) + sum idle + suc left ≡ n
    → n ≤ workers * q
    → All (λ x. now ≤ x * limit) (rounds held)
    → All (λ x. now ≤ x * limit) idle
    → now + limit ≤ q * limit
next_ends limit n workers q now left held idle manned counted enough busy free =
    elim (pigeon now limit q (rounds held) busy) [
      | inr soon ↦ soon
      | inl all_busy ↦ elim (pigeon now limit q idle free) [
        | inr soon ↦ soon
        | inl all_free ↦ absurd (
            omega (
              arith,
              rw (length-rounds held) at all_busy,
              all_free,
              rw (sym manned) at enough,
              add-mul (length held) (length idle) q,
            ))
      ]
    ]

pub length-at_start : (workers : ℕ) → length (at_start workers) ≡ workers
length-at_start zero = refl
length-at_start (suc workers) = ap (λ n. suc n) (length-at_start workers)

pub sum-at_start : (workers : ℕ) → sum (at_start workers) ≡ 0
unfolding sum
sum-at_start zero = refl
sum-at_start (suc workers) = omega (arith, sum-at_start workers)

pub All-at_start : (limit workers : ℕ) → All (λ x. 0 ≤ x * limit) (at_start workers)
All-at_start limit zero = tt
All-at_start limit (suc workers) = (omega arith, All-at_start limit workers)

pub length-jobs_from :
    {A : Type 0} (n : ℕ) (items : List A) → length (jobs_from n items) ≡ length items
unfolding jobs_from
length-jobs_from n [] = refl
length-jobs_from n (x ∷ items) = ap (λ n. suc n) (length-jobs_from (suc n) items)
