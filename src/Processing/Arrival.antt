-- ===== src/Processing/Arrival.antt =====
-- The order in which the operations' results reach the channel.
use wb_orders.Base.{Inserted, here, there, ◌↔◌, List, [], ◌∷◌, map, Option, none, All}
use wb_orders.Processing.{CtxError, Operation}

-- A goroutine of the schedule: an operation, and the error of its context when it starts.
abbrev pub Entry : Type 0
Entry = Operation × Option CtxError

-- An order of arrival in which each operation arrives once, and has started with its context alive.
pub data Arrives : List Operation → List Entry → Type 0 where
  nothing : Arrives [] []
  arrives :
      {op : Operation} {ops : List Operation} {before after : List Entry}
      → Arrives ops before
      → Inserted (op, none) before after
      → Arrives (op ∷ ops) after

module _ (P : Entry → Type 0) where
  All-Inserted : (x : Entry) (xs ys : List Entry) → Inserted x xs ys → All P ys ↔ (P x × All P xs)
  All-Inserted x xs _ here = (λ h. h, λ h. h)
  All-Inserted x _ _ (there {y} {xs} {ys} i) = (
    λ h. let (one, rest) = (All-Inserted x xs ys i).0 h.1 in (one, (h.0, rest)),
    λ h. (h.1.0, (All-Inserted x xs ys i).1 (h.0, h.1.1)),
  )

  pub All-Arrives :
      (ops : List Operation) (schedule : List Entry)
      → Arrives ops schedule
      → All P schedule ↔ All (λ op. P (op, none)) ops
  All-Arrives _ _ nothing = (λ h. tt, λ h. tt)
  All-Arrives _ schedule (arrives {op} {ops} {before} earlier i) = (
    λ h.
        let (one, rest) = (All-Inserted (op, none) before schedule i).0 h in
        (one, (All-Arrives ops before earlier).0 rest),
    λ h.
        (All-Inserted (op, none) before schedule i).1 (h.0, (All-Arrives ops before earlier).1 h.1),
  )

pub All-map {ℓ κ} :
    {A : Type ℓ} {B : Type κ} (P : B → Type 0) (f : A → B) (xs : List A)
    → All P (map f xs) ↔ All (λ x. P (f x)) xs
All-map P f [] = (λ h. h, λ h. h)
All-map P f (x ∷ xs) = (λ h. (h.0, (All-map P f xs).0 h.1), λ h. (h.0, (All-map P f xs).1 h.1))
