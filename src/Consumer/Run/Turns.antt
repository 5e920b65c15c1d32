-- ===== src/Consumer/Run/Turns.antt =====
-- The cases of a turn of the loop, and how the run goes on after it.
use wb_orders.Base.{◌≡◌, ◌⊎◌, inl, inr, refl, arith, true, false, List, ◌∷◌, Option, none}
use wb_orders.Consumer.Run
use wb_orders.Consumer.Run.{
  Turn, State, initial, joined, Next, continues, returns, committed, conclude, handle_batch,
  fetched, turn, run,
}
use wb_orders.Consumer.Run.Worlds.{Outside}

module _ (t : Turn Outside) (st : State) where
  pub turn_ended : t.ended ≡ true → turn t st ≡ (returns none, st)
  unfolding turn
  turn_ended over = ground arith

  pub turn_alive : t.ended ≡ false → turn t st ≡ fetched t.fetch_errors t st
  unfolding turn
  turn_alive alive = ground arith

  pub run_continues :
      (turns : List (Turn Outside))
      → (turn t st).0 ≡ continues
      → run (t ∷ turns) st ≡ run turns (turn t st).1
  unfolding run
  run_continues turns h = ground arith

  pub run_returns :
      (turns : List (Turn Outside)) (e : Option Run.Error)
      → (turn t st).0 ≡ returns e
      → run (t ∷ turns) st ≡ (returns e, (turn t st).1)
  unfolding run
  run_returns turns e h = ground arith

pub Next-cases : (n : Next) → (n ≡ continues) ⊎ ((e : Option Run.Error) × (n ≡ returns e))
Next-cases continues = inl refl
Next-cases (returns e) = inr (e, refl)
