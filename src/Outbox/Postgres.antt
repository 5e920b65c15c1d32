-- ===== src/Outbox/Postgres.antt =====
-- internal/outbox/postgres.go: the statements on `outbox_events`. One statement commits by itself; its
-- answer is as for a COMMIT. A claim runs at one time of the server's, skips the rows that another
-- transaction holds locked, and counts the lease in whole milliseconds.
use wb_orders.Base.{
  ℕ, ◌+◌, ◌*◌, ◌/◌, ◌≡◌, Bool, true, false, ◌&&◌, ◌||◌, not, length, take, List, [], ◌∷◌, ◌++◌, map,
  Option, none, some, ltb, leb, ◌==◌, Result, ok, err, if◌then◌else◌, is_none,
}
use wb_orders.Base.Text.{Bytes, bytes_eq}
use wb_orders.Event.{Uuid, Time}
use wb_orders.Database.{
  OutboxRow, OutboxStatus, pending, processing, published, failed, CommitReply, committed, refused,
  unacknowledged, Reply, done, broken,
}
pub mod Lookup
pub mod Rows
pub mod Sparing
pub mod Leases
pub mod Marking

-- The struct `Event` of internal/outbox/model.go.
pub record Claimed : Type 0 where
  pub id : Uuid
  pub aggregate_id : Uuid
  pub event_type : Bytes
  pub payload : Bytes
  pub attempts : ℕ
  pub created_at : Time

pub data Error : Type 0 where
  claim_failed update_failed lease_lost count_failed : Error

abbrev pub is_open : OutboxStatus → Bool
is_open pending = true
is_open processing = true
is_open published = false
is_open failed = false

abbrev pub is_before : Option Time → Time → Bool
is_before none now = true
is_before (some t) now = ltb t now

-- The WHERE clause of the candidates.
unfoldable pub is_claimable : Time → OutboxRow → Bool
is_claimable now r = is_open r.status && leb r.next_attempt_at now && is_before r.locked_until now

-- ORDER BY created_at.
unfoldable pub insert_by_age : OutboxRow → List OutboxRow → List OutboxRow
insert_by_age r [] = r ∷ []
insert_by_age r (q ∷ rows) =
    if ltb q.created_at r.created_at then q ∷ insert_by_age r rows else r ∷ q ∷ rows

-- The candidates before the LIMIT: claimable rows that no other transaction has locked.
unfoldable pub candidates : (Uuid → Bool) → Time → List OutboxRow → List OutboxRow
candidates locked now [] = []
candidates locked now (r ∷ rows) =
    if is_claimable now r && not (locked r.id)
    then insert_by_age r (candidates locked now rows)
    else candidates locked now rows

abbrev pub ids : List OutboxRow → List Uuid
ids = map λ r. r.id

unfoldable pub has_id : Uuid → List Uuid → Bool
has_id id [] = false
has_id id (x ∷ xs) = x == id || has_id id xs

-- `lease.Milliseconds()` milliseconds, in nanoseconds.
abbrev pub lease_time : ℕ → ℕ
lease_time lease = lease / 1_000_000 * 1_000_000

abbrev pub lease_row : Time → Bytes → ℕ → OutboxRow → OutboxRow
lease_row now owner lease r = record r {
  status = processing;
  locked_by = some owner;
  locked_until = some (now + lease_time lease);
  attempts = r.attempts + 1;
}

-- The UPDATE of the chosen rows.
unfoldable pub lease_rows : Time → Bytes → ℕ → List Uuid → List OutboxRow → List OutboxRow
lease_rows now owner lease chosen [] = []
lease_rows now owner lease chosen (r ∷ rows) =
    (if has_id r.id chosen then lease_row now owner lease r else r)
    ∷ lease_rows now owner lease chosen rows

abbrev pub claimed_of : OutboxRow → Claimed
claimed_of r = record {
  id = r.id;
  aggregate_id = r.aggregate_id;
  event_type = r.event_type;
  payload = r.payload;
  attempts = r.attempts;
  created_at = r.created_at;
}

-- RETURNING the chosen rows as they are after the UPDATE.
unfoldable pub returned : List Uuid → List OutboxRow → List Claimed
returned chosen [] = []
returned chosen (r ∷ rows) =
    if has_id r.id chosen then claimed_of r ∷ returned chosen rows else returned chosen rows

-- The rows that a claim picks.
abbrev pub chosen_ids : (Uuid → Bool) → Time → ℕ → List OutboxRow → List Uuid
chosen_ids locked now limit rows = take limit (ids (candidates locked now rows))

-- A statement's result and its rows, by the server's answer.
abbrev pub answer {ℓ} :
    {A : Type ℓ}
    → CommitReply
    → Error
    → A
    → List OutboxRow
    → List OutboxRow
    → Result Error A × List OutboxRow
answer committed e a before after = (ok a, after)
answer refused e a before after = (err e, before)
answer unacknowledged e a before after = (err e, after)

-- `Claim`.
unfoldable pub claim :
    CommitReply
    → (Uuid → Bool)
    → Time
    → Bytes
    → ℕ
    → ℕ
    → List OutboxRow
    → Result Error (List Claimed) × List OutboxRow
claim reply locked now owner limit lease rows =
    let chosen = chosen_ids locked now limit rows in
    let after = lease_rows now owner lease chosen rows in
    answer reply claim_failed (returned chosen after) rows after

abbrev pub is_locked_by : Bytes → Option Bytes → Bool
is_locked_by owner none = false
is_locked_by owner (some holder) = bytes_eq holder owner

-- `WHERE id = $1 AND locked_by = $2 AND published_at IS NULL`.
unfoldable pub is_held : Uuid → Bytes → OutboxRow → Bool
is_held id owner r = r.id == id && is_locked_by owner r.locked_by && is_none r.published_at

unfoldable pub update_held :
    Uuid → Bytes → (OutboxRow → OutboxRow) → List OutboxRow → List OutboxRow
update_held id owner change [] = []
update_held id owner change (r ∷ rows) =
    (if is_held id owner r then change r else r) ∷ update_held id owner change rows

unfoldable pub count_held : Uuid → Bytes → List OutboxRow → ℕ
count_held id owner [] = 0
count_held id owner (r ∷ rows) =
    if is_held id owner r then count_held id owner rows + 1 else count_held id owner rows

abbrev affected_one : ℕ → Result Error (Unit {0}) → Result Error (Unit {0})
affected_one n (err e) = err e
affected_one n (ok u) = if n == 1 then ok tt else err lease_lost

-- An UPDATE of the held row, and the test that it affected one row.
unfoldable pub update_one :
    CommitReply
    → Uuid
    → Bytes
    → (OutboxRow → OutboxRow)
    → List OutboxRow
    → Result Error (Unit {0}) × List OutboxRow
update_one reply id owner change rows =
    let (r, after) = answer reply update_failed tt rows (update_held id owner change rows) in
    (affected_one (count_held id owner rows) r, after)

abbrev pub published_row : Time → OutboxRow → OutboxRow
published_row now r = record r {
  status = published;
  published_at = some now;
  locked_by = none;
  locked_until = none;
  last_error = none;
}

-- `left($3, 2000)` counts characters; `left` is the server's.
abbrev pub released_row : (Bytes → Bytes) → Bytes → Time → OutboxRow → OutboxRow
released_row left message next r = record r {
  status = pending;
  locked_by = none;
  locked_until = none;
  last_error = some (left message);
  next_attempt_at = next;
}

abbrev pub failed_row : (Bytes → Bytes) → Bytes → OutboxRow → OutboxRow
failed_row left message r = record r {
  status = failed;
  locked_by = none;
  locked_until = none;
  last_error = some (left message);
}

unfoldable pub mark_published :
    CommitReply → Time → Uuid → Bytes → List OutboxRow → Result Error (Unit {0}) × List OutboxRow
mark_published reply now id owner = update_one reply id owner (published_row now)

unfoldable pub release :
    CommitReply
    → (Bytes → Bytes)
    → Uuid
    → Bytes
    → Bytes
    → Time
    → List OutboxRow
    → Result Error (Unit {0}) × List OutboxRow
release reply left id owner message next =
    update_one reply id owner (released_row left message next)

unfoldable pub mark_failed :
    CommitReply
    → (Bytes → Bytes)
    → Uuid
    → Bytes
    → Bytes
    → List OutboxRow
    → Result Error (Unit {0}) × List OutboxRow
mark_failed reply left id owner message = update_one reply id owner (failed_row left message)

unfoldable pub count_open : List OutboxRow → ℕ
count_open [] = 0
count_open (r ∷ rows) = if is_open r.status then count_open rows + 1 else count_open rows

-- `PendingCount`.
unfoldable pub pending_count : Reply → List OutboxRow → Result Error ℕ
pending_count broken rows = err count_failed
pending_count done rows = ok (count_open rows)
