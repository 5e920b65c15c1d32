-- ===== src/Shutdown/Laws.antt =====
-- What `Wait` returns, and when.
use wb_orders.Base.{
  ◌≡◌, refl, Bool, true, false, List, [], ◌∷◌, ◌++◌, map, Option, none, some, if◌then◌else◌, ◌⊎◌,
  inl, inr,
}
use wb_orders.Base.Text.{Bytes}
use wb_orders.Shutdown.{
  First, one_ended, root_done, Arrival, ended, timer, Outcome, waits, exceeded, returns, keep_first,
  drain, wait,
}

-- The ends that the first select has received.
abbrev pub received : First → List (Option Bytes)
received (one_ended e) = e ∷ []
received root_done = []

-- What the two ends give when the first is `a` and the second `b`: nil if the context has ended, and otherwise
-- the first error of the two in the order in which they came.
pub data Given (root_ended : Bool) (a b : Option Bytes) (o : Outcome) : Type 0 where
  quiet : root_ended ≡ true → o ≡ returns none → Given root_ended a b o
  first_failed :
      (x : Bytes) → root_ended ≡ false → a ≡ some x → o ≡ returns (some x) → Given root_ended a b o
  second_failed :
      (y : Bytes)
      → root_ended ≡ false
      → a ≡ none
      → b ≡ some y
      → o ≡ returns (some y)
      → Given root_ended a b o
  neither_failed :
      root_ended ≡ false → a ≡ none → b ≡ none → o ≡ returns none → Given root_ended a b o

-- Both programs have ended, the first with `a` and the second with `b`; or the time limit came before that; or
-- neither has come yet.
pub data Answer (first : First) (arrivals : List Arrival) (root_ended : Bool) (o : Outcome)
    : Type 0 where
  both :
      (a b : Option Bytes) (rest : List Arrival)
      → map ended (received first) ++ arrivals ≡ ended a ∷ ended b ∷ rest
      → Given root_ended a b o
      → Answer first arrivals root_ended o
  late :
      (before : List (Option Bytes)) (rest : List Arrival)
      → map ended (received first) ++ arrivals ≡ map ended before ++ timer ∷ rest
      → (before ≡ []) ⊎ ((a : Option Bytes) × (before ≡ a ∷ []))
      → o ≡ exceeded
      → Answer first arrivals root_ended o
  early :
      (before : List (Option Bytes))
      → map ended (received first) ++ arrivals ≡ map ended before
      → (before ≡ []) ⊎ ((a : Option Bytes) × (before ≡ a ∷ []))
      → o ≡ waits
      → Answer first arrivals root_ended o

kept-Given :
    (root_ended : Bool) (a b : Option Bytes)
    → Given root_ended a b (returns (if root_ended then none else keep_first a b))
kept-Given true a b = quiet refl refl
kept-Given false (some x) b = first_failed x refl refl refl
kept-Given false none (some y) = second_failed y refl refl refl refl
kept-Given false none none = neither_failed refl refl refl refl

-- `Wait` returns when both goroutines have ended, or the time limit has come first, and not before. In the first
-- case the result is nil if the context has ended, and otherwise the error of the goroutine that ended first,
-- or that of the second if the first ended without one, or nil if neither has one; in the second case it is the error of the time limit.
pub wait-Answer :
    (first : First) (arrivals : List Arrival) (root_ended : Bool)
    → Answer first arrivals root_ended (wait first arrivals root_ended)
unfolding wait drain
wait-Answer (one_ended a) [] r = early (a ∷ []) refl (inr (a, refl)) refl
wait-Answer (one_ended a) (ended b ∷ rest) r = both a b rest refl (kept-Given r a b)
wait-Answer (one_ended a) (timer ∷ rest) r = late (a ∷ []) rest refl (inr (a, refl)) refl
wait-Answer root_done [] r = early [] refl (inl refl) refl
wait-Answer root_done (ended a ∷ []) r = early (a ∷ []) refl (inr (a, refl)) refl
wait-Answer root_done (ended a ∷ ended b ∷ rest) r = both a b rest refl (kept-Given r a b)
wait-Answer root_done (ended a ∷ timer ∷ rest) r = late (a ∷ []) rest refl (inr (a, refl)) refl
wait-Answer root_done (timer ∷ rest) r = late [] rest refl (inl refl) refl
