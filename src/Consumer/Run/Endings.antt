-- ===== src/Consumer/Run/Endings.antt =====
-- How a turn of the consumer's loop ends, and the whole loop.
use wb_orders.Base.{◌+◌, ◌≡◌, ◌≢◌, true, false, length, List, [], ◌∷◌, ◌++◌, none, some}
use wb_orders.Base.Text.{Bytes}
use wb_orders.WorkerPool
use wb_orders.WorkerPool.{Pool, errors_from}
use wb_orders.Consumer.Handler.{Failure}
use wb_orders.Consumer.Run.{
  Turn, batch_incomplete, commit_failed, State, joined, Next, continues, returns,
}
use wb_orders.Consumer.Run.Worlds.{Outside}

-- The poll has failed, and what it brought is left; the poll was empty; the batch was handled and committed: in
-- these three cases the loop goes on. Or the context has ended; a record of the batch was not handled, and
-- nothing is committed; or the commit of the batch has failed. AllowRebalance is called but when the context has
-- ended.
pub data TurnEnds (t : Turn Outside) (st : State) (next : Next) (after : State) : Type 0 where
  skips :
      t.ended ≡ false
      → t.fetch_errors ≢ []
      → next ≡ continues
      → after.commits ≡ st.commits
      → after.allowed ≡ st.allowed + 1
      → TurnEnds t st next after
  finds_nothing :
      t.ended ≡ false
      → t.fetch_errors ≡ []
      → t.records ≡ []
      → next ≡ continues
      → after.commits ≡ st.commits
      → after.allowed ≡ st.allowed + 1
      → TurnEnds t st next after
  commits_batch :
      t.ended ≡ false
      → t.fetch_errors ≡ []
      → t.records ≢ []
      → joined (errors_from 0 t.records t.pool.written) ≡ []
      → t.commit ≡ none
      → next ≡ continues
      → after.commits ≡ t.records ∷ st.commits
      → after.allowed ≡ st.allowed + 1
      → TurnEnds t st next after
  leaves : t.ended ≡ true → next ≡ returns none → after ≡ st → TurnEnds t st next after
  breaks_off :
      (x : WorkerPool.Error Failure) (errs : List (WorkerPool.Error Failure))
      → t.ended ≡ false
      → t.fetch_errors ≡ []
      → joined (errors_from 0 t.records t.pool.written) ≡ x ∷ errs
      → next ≡ returns (some (batch_incomplete (x ∷ errs)))
      → after.commits ≡ st.commits
      → after.allowed ≡ st.allowed + 1
      → TurnEnds t st next after
  stays_uncommitted :
      (x : Bytes)
      → t.ended ≡ false
      → t.fetch_errors ≡ []
      → joined (errors_from 0 t.records t.pool.written) ≡ []
      → t.commit ≡ some x
      → next ≡ returns (some (commit_failed x))
      → after.commits ≡ t.records ∷ st.commits
      → after.allowed ≡ st.allowed + 1
      → TurnEnds t st next after

-- The loop has passed all its turns; or it has passed some, and then a turn has ended it.
pub data RunEnds (turns : List (Turn Outside)) (st : State) (next : Next) (after : State)
    : Type 0 where
  running :
      next ≡ continues → after.allowed ≡ st.allowed + length turns → RunEnds turns st next after
  stops :
      (before rest : List (Turn Outside)) (t : Turn Outside) (mid : State)
      → turns ≡ before ++ t ∷ rest
      → mid.allowed ≡ st.allowed + length before
      → next ≢ continues
      → TurnEnds t mid next after
      → RunEnds turns st next after
