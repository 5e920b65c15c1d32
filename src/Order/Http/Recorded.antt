-- ===== src/Order/Http/Recorded.antt =====
-- The calls that a handler makes on the `statusWriter` of internal/order/http.go, and when what it records is what is
-- sent.
use wb_orders.Base.{
  ℕ, ◌≡◌, ◌≢◌, refl, sym, inl, inr, arith, Bool, Bool-cases, true, false, List, [], ◌∷◌, ◌==◌, not,
  if◌then◌else◌,
}
use wb_orders.Base.Text.{Bytes}
use wb_orders.Http.{Writer, Body, set_header, write_header, write}
pub mod Answers

-- What a handler calls on its http.ResponseWriter.
pub data Call : Type 0 where
  sets_header : Bytes → Bytes → Call
  writes_header : ℕ → Call
  writes : Body → Call

-- The methods of a statusWriter; Header is the embedded writer's.
unfoldable pub perform : Call → Writer → Writer
perform (sets_header key value) w = set_header key value w
perform (writes_header status) w = write_header status w
perform (writes value) w = write value w

unfoldable pub perform_all : List Call → Writer → Writer
perform_all [] w = w
perform_all (c ∷ calls) w = perform_all calls (perform c w)

-- `started` tells whether a status has gone out: then WriteHeader is not called again, and it is never called
-- with 0.
abbrev pub IsProper : Bool → List Call → Type 0
IsProper started [] = Unit
IsProper started (sets_header key value ∷ calls) = IsProper started calls
IsProper started (writes_header status ∷ calls) =
    (started ≡ false) × (status ≢ 0) × IsProper true calls
IsProper started (writes value ∷ calls) = IsProper true calls

-- What is recorded is what is sent.
abbrev pub Agrees : Writer → Type 0
Agrees w = w.recorded ≡ w.status

perform-Agrees :
    (c : Call) (calls : List Call) (w : Writer) (started : Bool)
    → Agrees w
    → started ≡ not (w.status == 0)
    → IsProper started (c ∷ calls)
    → let next = perform c w in Agrees next × IsProper (not (next.status == 0)) calls
unfolding perform write
perform-Agrees (sets_header key value) calls w started same now proper = (same, rw (sym now) proper)
perform-Agrees (writes_header status) calls w started same now (unsent, some_status, rest) =
    let next : ((if w.status == 0 then status else w.status) == 0) ≡ false = ground arith in
    (ground arith, rw next rest)
perform-Agrees (writes value) calls w started same now proper = elim (Bool-cases (w.status == 0)) [
  | inl fresh ↦ (ground arith, ground arith)
  | inr sent ↦ (ground arith, ground arith)
]

pub perform_all-Agrees :
    (calls : List Call) (w : Writer)
    → Agrees w
    → IsProper (not (w.status == 0)) calls
    → Agrees (perform_all calls w)
unfolding perform_all
perform_all-Agrees [] w same proper = same
perform_all-Agrees (c ∷ calls) w same proper =
    let (next, rest) = perform-Agrees c calls w (not (w.status == 0)) same refl proper in
    perform_all-Agrees calls (perform c w) next rest
