-- ===== src/Outbox/Postgres/Leases.antt =====
-- Leases and final states of the outbox: what no sequence of statements can do to a row.
use wb_orders.Base.{
  ◌≤◌, ◌≡◌, ◌≢◌, ap, ◌∙◌, arith, List, [], ◌∷◌, Bool, true, false, some, is_some, All,
}
use wb_orders.Base.Text.{Bytes, bytes_eq_iff}
use wb_orders.Event.{Uuid, Time}
use wb_orders.Database.{OutboxRow, OutboxStatus, pending, processing, published, failed}
use wb_orders.Outbox.Postgres.{is_open, is_claimable, is_held}
use wb_orders.Outbox.Postgres.Rows.{
  Statement, claims, publishes, releases, fails, apply, run, RowStep, keeps, leases, finishes,
  frees, gives_up, apply-Moved, apply-HasUniqueIds,
}
use wb_orders.Outbox.Postgres.Lookup.{find_row, HasUniqueIds}

abbrev is_published : OutboxStatus → Bool
is_published published = true
is_published pending = false
is_published processing = false
is_published failed = false

abbrev is_processing : OutboxStatus → Bool
is_processing processing = true
is_processing pending = false
is_processing published = false
is_processing failed = false

-- The two CHECK constraints of the table, and that a row is locked while it is processed.
pub record IsConsistent (r : OutboxRow) : Type 0 where
  pub stamped : is_published r.status ≡ is_some r.published_at
  pub paired : is_some r.locked_by ≡ is_some r.locked_until
  pub guarded : is_processing r.status ≡ is_some r.locked_by

RowStep-IsConsistent :
    {s : Statement} {r r' : OutboxRow} → RowStep s r r' → IsConsistent r → IsConsistent r'
unfolding is_claimable is_held
RowStep-IsConsistent (keeps e) v = rw e v
RowStep-IsConsistent (leases may e) v = ground arith
RowStep-IsConsistent (finishes held e) v = ground arith
RowStep-IsConsistent (frees held e) v = ground arith
RowStep-IsConsistent (gives_up held e) v = ground arith

-- Whatever statements run, in whatever order and with whatever answers, a consistent row of a table
-- with unique ids stays in the table and consistent: no statement violates one of its constraints.
pub run-IsConsistent :
    (ss : List Statement) (id : Uuid) (rows : List OutboxRow) (r : OutboxRow)
    → HasUniqueIds rows
    → find_row id rows ≡ some r
    → IsConsistent r
    → (r' : OutboxRow) × (find_row id (run ss rows) ≡ some r') × IsConsistent r'
unfolding run
run-IsConsistent [] id rows r u f v = (r, f, v)
run-IsConsistent (s ∷ ss) id rows r u f v =
    let (r', found, moved) = apply-Moved s id rows r u f in
    run-IsConsistent ss id (apply s rows) r' (apply-HasUniqueIds s rows u) found
      (RowStep-IsConsistent moved v)

RowStep-final :
    {s : Statement} {r r' : OutboxRow}
    → RowStep s r r'
    → IsConsistent r
    → is_open r.status ≡ false
    → r' ≡ r
unfolding is_claimable is_held
RowStep-final (keeps e) v closed = e
RowStep-final (leases may e) v closed = ground arith
RowStep-final (finishes held e) v closed = ground arith
RowStep-final (frees held e) v closed = ground arith
RowStep-final (gives_up held e) v closed = ground arith

-- A published or failed event, whose row is consistent in a table with unique ids, is never claimed
-- again and never changes, whatever statements run.
pub run-final :
    (ss : List Statement) (id : Uuid) (rows : List OutboxRow) (r : OutboxRow)
    → HasUniqueIds rows
    → find_row id rows ≡ some r
    → IsConsistent r
    → is_open r.status ≡ false
    → find_row id (run ss rows) ≡ some r
unfolding run
run-final [] id rows r u f v closed = f
run-final (s ∷ ss) id rows r u f v closed =
    let (r', found, moved) = apply-Moved s id rows r u f in
    run-final ss id (apply s rows) r (apply-HasUniqueIds s rows u)
      (found ∙ ap some (RowStep-final moved v closed)) v closed

-- A claim no later than the end of the lease, or a mark by another owner than `holder`.
abbrev pub IsForeign : Bytes → Time → Statement → Type 0
IsForeign holder end (claims reply locked now owner limit lease) = now ≤ end
IsForeign holder end (publishes reply now id owner) = owner ≢ holder
IsForeign holder end (releases reply left id owner message next) = owner ≢ holder
IsForeign holder end (fails reply left id owner message) = owner ≢ holder

RowStep-lease :
    {s : Statement} {r r' : OutboxRow} (holder : Bytes) (end : Time)
    → RowStep s r r'
    → r.locked_by ≡ some holder
    → r.locked_until ≡ some end
    → IsForeign holder end s
    → r' ≡ r
unfolding is_claimable is_held
RowStep-lease holder end (keeps e) by until foreign = e
RowStep-lease holder end (leases may e) by until foreign = ground arith
RowStep-lease holder end (finishes {owner = owner} held e) by until foreign =
    ground (arith, bytes_eq_iff holder owner)
RowStep-lease holder end (frees {owner = owner} held e) by until foreign =
    ground (arith, bytes_eq_iff holder owner)
RowStep-lease holder end (gives_up {owner = owner} held e) by until foreign =
    ground (arith, bytes_eq_iff holder owner)

-- A leased row, in a table with unique ids, stays as it is under every sequence of claims that run no
-- later than the end of its lease and of marks by other owners than its holder: no claim takes it, and
-- no other publisher can mark or release it.
pub run-lease :
    (ss : List Statement) (id : Uuid) (rows : List OutboxRow) (r : OutboxRow) (holder : Bytes)
    (end : Time)
    → HasUniqueIds rows
    → find_row id rows ≡ some r
    → r.locked_by ≡ some holder
    → r.locked_until ≡ some end
    → All (IsForeign holder end) ss
    → find_row id (run ss rows) ≡ some r
unfolding run
run-lease [] id rows r holder end u f by until foreign = f
run-lease (s ∷ ss) id rows r holder end u f by until foreign =
    let (r', found, moved) = apply-Moved s id rows r u f in
    run-lease ss id (apply s rows) r holder end (apply-HasUniqueIds s rows u)
      (found ∙ ap some (RowStep-lease holder end moved by until foreign.0)) by until foreign.1
