-- ===== src/Outbox/Postgres/Marking.antt =====
-- What a successful MarkPublished says of the table.
use wb_orders.Base.{◌≤◌, ◌≡◌, refl, ap, ◌∙◌, arith, List, some, ok}
use wb_orders.Base.Text.{Bytes}
use wb_orders.Event.{Uuid, Time}
use wb_orders.Database.{OutboxRow, CommitReply, committed, refused, unacknowledged, published}
use wb_orders.Outbox.Postgres.{count_held, update_held, update_one, published_row, mark_published}
use wb_orders.Outbox.Postgres.Lookup.{
  find_row, HasUniqueIds, find_row-update_held, count_held-find_row,
}
use wb_orders.Outbox.Postgres.Leases.{IsConsistent}

update_one-ok :
    (reply : CommitReply) (id : Uuid) (owner : Bytes) (change : OutboxRow → OutboxRow)
    (rows after : List OutboxRow)
    → update_one reply id owner change rows ≡ (ok tt, after)
    → (after ≡ update_held id owner change rows) × (1 ≤ count_held id owner rows)
unfolding update_one
update_one-ok committed id owner change rows after h = ground arith
update_one-ok refused id owner change rows after h = ground arith
update_one-ok unacknowledged id owner change rows after h = ground arith

-- The row of the event is in the table, consistent and published.
pub record IsMarked (id : Uuid) (rows : List OutboxRow) : Type 0 where
  pub row : OutboxRow
  pub found : find_row id rows ≡ some row
  pub consistent : IsConsistent row
  pub done : row.status ≡ published

pub mark_published-IsMarked :
    (reply : CommitReply) (now : Time) (id : Uuid) (owner : Bytes) (rows after : List OutboxRow)
    → HasUniqueIds rows
    → mark_published reply now id owner rows ≡ (ok tt, after)
    → IsMarked id after
unfolding mark_published
mark_published-IsMarked reply now id owner rows after u h =
    let (same, some_row) = update_one-ok reply id owner (published_row now) rows after h in
    let (r, found, held) = count_held-find_row id owner rows u some_row in
    record {
      row = published_row now r;
      found =
          ap (find_row id) same
          ∙ find_row-update_held id owner (published_row now) id rows r (λ q. refl) found
          ∙ ground (arith, held);
      consistent = record { stamped = refl; paired = refl; guarded = refl };
      done = refl;
    }
