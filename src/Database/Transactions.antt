-- ===== src/Database/Transactions.antt =====
-- BeginTx, the deferred Rollback and Commit, as every repository uses them.
use wb_orders.Base.{◌≡◌, refl, Result, ok, err}
use wb_orders.Database.{Db, Reply, done, broken, CommitReply, committed, refused, unacknowledged}

-- A body returns an error, upon which the deferred Rollback runs, or a value with the tables that it
-- asks to commit. An unacknowledged COMMIT keeps the tables and still gives an error.
module _ {E A : Type 0} where
  finish : E → CommitReply → A → Db → Db → Result E A × Db
  finish lost committed a before after = (ok a, after)
  finish lost refused a before after = (err lost, before)
  finish lost unacknowledged a before after = (err lost, after)

  settle : (A → E) → CommitReply → Db → Result E (A × Db) → Result E A × Db
  unfolding finish
  settle lost reply before (ok (a, after)) = finish (lost a) reply a before after
  settle lost reply before (err e) = (err e, before)

  unfoldable pub transact :
      E → (A → E) → Reply → CommitReply → (Db → Result E (A × Db)) → Db → Result E A × Db
  unfolding settle
  transact unopened lost broken reply body db = (err unopened, db)
  transact unopened lost done reply body db = settle lost reply db (body db)

  -- How a transaction leaves the tables: as they were, or as its whole body made them; as they were
  -- if the body failed, and as the body made them if the caller is told of success.
  pub data Settles (body : Result E (A × Db)) (before : Db) (r : Result E A) (after : Db)
      : Type 0 where
    rolled_back : (e : E) → r ≡ err e → after ≡ before → Settles body before r after
    applied : (a : A) → body ≡ ok (a, after) → r ≡ ok a → Settles body before r after
    unconfirmed : (a : A) (e : E) → body ≡ ok (a, after) → r ≡ err e → Settles body before r after

  settle-Settles :
      (lost : A → E) (reply : CommitReply) (before : Db) (body : Result E (A × Db))
      → Settles body before (settle lost reply before body).0 (settle lost reply before body).1
  unfolding settle
  settle-Settles lost committed before (ok (a, after)) = applied a refl refl
  settle-Settles lost refused before (ok (a, after)) = rolled_back (lost a) refl refl
  settle-Settles lost unacknowledged before (ok (a, after)) = unconfirmed a (lost a) refl refl
  settle-Settles lost reply before (err e) = rolled_back e refl refl

  pub transact-Settles :
      (unopened : E) (lost : A → E) (begin : Reply) (reply : CommitReply)
      (body : Db → Result E (A × Db)) (db : Db)
      → let (r, after) = transact unopened lost begin reply body db in Settles (body db) db r after
  unfolding transact
  transact-Settles unopened lost broken reply body db = rolled_back unopened refl refl
  transact-Settles unopened lost done reply body db = settle-Settles lost reply db (body db)
