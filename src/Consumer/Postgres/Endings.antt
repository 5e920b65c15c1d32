-- ===== src/Consumer/Postgres/Endings.antt =====
-- How a call of `Complete` ends, for every answer of the server.
use wb_orders.Base.{◌≡◌, arith, Bool, Result, ok, err, ◌>>=◌}
use wb_orders.Base.Text.{Bytes}
use wb_orders.Event.{Uuid}
use wb_orders.Json.{Codec, Server}
use wb_orders.Database.{Db}
use wb_orders.Database.Transactions.{Settles, rolled_back, applied, unconfirmed, transact-Settles}
use wb_orders.Consumer.Postgres.{
  Verdict, is_applied, Error, begin_failed, commit_failed, Answers, Change, complete_body, complete,
}
use wb_orders.Consumer.Postgres.Completion.{Completes, complete_body-Completes}

-- An error with the tables as they were; a completion that is reported as what it did; or a completion
-- that was committed although the caller sees an error.
pub data Ends (c : Codec) (s : Server) (a : Answers) (event : Uuid) (consumer : Bytes) (k : Change)
    (db : Db) (r : Result Error Bool) (after : Db) : Type 0 where
  leaves : (x : Error) → r ≡ err x → after ≡ db → Ends c s a event consumer k db r after
  tells :
      (v : Verdict)
      → Completes c s a event consumer k db v after
      → r ≡ ok (is_applied v)
      → Ends c s a event consumer k db r after
  hides :
      (v : Verdict) (x : Error)
      → Completes c s a event consumer k db v after
      → r ≡ err x
      → Ends c s a event consumer k db r after

complete_of_settled :
    (c : Codec) (s : Server) (a : Answers) (event : Uuid) (consumer : Bytes) (k : Change) (db : Db)
    (r : Result Error Verdict) (after : Db)
    → Settles (complete_body c s a event consumer k db) db r after
    → Ends c s a event consumer k db (r >>= λ verdict. ok (is_applied verdict)) after
complete_of_settled c s a event consumer k db r after (rolled_back x bad same) =
    leaves x (ground arith) same
complete_of_settled c s a event consumer k db r after (applied v went good) =
    tells v (complete_body-Completes c s a event consumer k db after v went) (ground arith)
complete_of_settled c s a event consumer k db r after (unconfirmed v x went bad) =
    hides v x (complete_body-Completes c s a event consumer k db after v went) (ground arith)

pub complete_lem :
    (c : Codec) (s : Server) (a : Answers) (event : Uuid) (consumer : Bytes) (k : Change) (db : Db)
    → let (r, after) = complete c s a event consumer k db in Ends c s a event consumer k db r after
unfolding complete
complete_lem c s a event consumer k db = complete_of_settled c s a event consumer k db _ _ (
    transact-Settles begin_failed commit_failed a.begin a.commit
      (complete_body c s a event consumer k) db)
