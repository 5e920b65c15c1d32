-- ===== src/Shutdown.antt =====
-- internal/platform/shutdown/shutdown.go: `Wait`, over what it receives. The two ends that it waits for are
-- those of a program's two goroutines; cancel and the signals are third parties'.
use wb_orders.Base.{ℕ, zero, suc, ◌≡◌, Bool, List, [], ◌∷◌, Option, none, some, if◌then◌else◌}
use wb_orders.Base.Text.{Bytes}
pub mod Laws

-- What the first select receives: an end, with its error if it has one, or the end of the context.
pub data First : Type 0 where
  one_ended : Option Bytes → First
  root_done : First

-- What a select of the loop receives.
pub data Arrival : Type 0 where
  ended : Option Bytes → Arrival
  timer : Arrival

-- The loop still waits, or `Wait` returns the error of the time limit, or a result.
pub data Outcome : Type 0 where
  waits : Outcome
  exceeded : Outcome
  returns : Option Bytes → Outcome

-- `if result == nil { result = err }`.
abbrev pub keep_first : Option Bytes → Option Bytes → Option Bytes
keep_first none e = e
keep_first (some x) e = some x

-- The loop, with the ends that remain and the result so far.
unfoldable pub drain : ℕ → Option Bytes → List Arrival → Bool → Outcome
drain zero result arrivals root_ended = returns (if root_ended then none else result)
drain (suc n) result [] root_ended = waits
drain (suc n) result (ended e ∷ arrivals) root_ended =
    drain n (keep_first result e) arrivals root_ended
drain (suc n) result (timer ∷ arrivals) root_ended = exceeded

-- `Wait`; `root_ended` is root.Err() at its end.
unfoldable pub wait : First → List Arrival → Bool → Outcome
wait (one_ended e) arrivals root_ended = drain 1 e arrivals root_ended
wait root_done arrivals root_ended = drain 2 none arrivals root_ended
