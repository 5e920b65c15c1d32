-- ===== src/System/Trails.antt =====
-- The events about an order, and the order's row, as each kind of step leaves them.
use wb_orders.Base.{
  ℕ, ◌≡◌, refl, ap, sym, ◌∙◌, arith, false, ◌||◌, ◌==◌, List, [], ◌∷◌, ◌++◌, none, if◌then◌else◌,
}
use wb_orders.Base.Text.{Bytes}
use wb_orders.Event.{Uuid, Time}
use wb_orders.Database.{OrderRow, OutboxRow, CommitReply, committed, refused, unacknowledged}
use wb_orders.Database.Inserts.{has_order, has_event}
use wb_orders.Database.Queries.{find_order}
use wb_orders.Outbox.Postgres.{
  Error, ids, has_id, lease_rows, chosen_ids, answer, returned, claim, update_held, update_one,
  published_row, released_row, failed_row, mark_published, release, mark_failed,
}
use wb_orders.Outbox.Postgres.Lookup.{HasUniqueIds}
use wb_orders.Outbox.Postgres.Rows.{Statement, claims, publishes, releases, fails, apply, ids-apply}
use wb_orders.System.{types_about}

pub types_about-append :
    (id : Uuid) (rows : List OutboxRow) (r : OutboxRow)
    → types_about id (rows ++ r ∷ [])
      ≡ types_about id rows ++ (if r.aggregate_id == id then r.event_type ∷ [] else [])
unfolding types_about
types_about-append id [] r = ground arith
types_about-append id (x ∷ rows) r = ground (arith, types_about-append id rows r)

types_about-lease_rows :
    (id : Uuid) (now : Time) (owner : Bytes) (lease : ℕ) (chosen : List Uuid)
    (rows : List OutboxRow)
    → types_about id (lease_rows now owner lease chosen rows) ≡ types_about id rows
unfolding types_about lease_rows
types_about-lease_rows id now owner lease chosen [] = refl
types_about-lease_rows id now owner lease chosen (r ∷ rows) =
    ground (arith, types_about-lease_rows id now owner lease chosen rows)

-- A change that leaves what a row is about, and its type.
abbrev IsQuiet : (OutboxRow → OutboxRow) → Type 0
IsQuiet change =
    (q : OutboxRow)
    → ((change q).aggregate_id ≡ q.aggregate_id) × ((change q).event_type ≡ q.event_type)

types_about-update_held :
    (id key : Uuid) (owner : Bytes) (change : OutboxRow → OutboxRow) (rows : List OutboxRow)
    → IsQuiet change
    → types_about id (update_held key owner change rows) ≡ types_about id rows
unfolding types_about update_held
types_about-update_held id key owner change [] quiet = refl
types_about-update_held id key owner change (r ∷ rows) quiet =
    ground (arith, (quiet r).0, (quiet r).1, types_about-update_held id key owner change rows quiet)

types_about-answer {ℓ} :
    {A : Type ℓ} (id : Uuid) (reply : CommitReply) (e : Error) (a : A)
    (before after : List OutboxRow)
    → types_about id after ≡ types_about id before
    → types_about id (answer reply e a before after).1 ≡ types_about id before
types_about-answer id committed e a before after h = h
types_about-answer id refused e a before after h = refl
types_about-answer id unacknowledged e a before after h = h

types_about-update_one :
    (id : Uuid) (reply : CommitReply) (key : Uuid) (owner : Bytes) (change : OutboxRow → OutboxRow)
    (rows : List OutboxRow)
    → IsQuiet change
    → types_about id (update_one reply key owner change rows).1 ≡ types_about id rows
unfolding update_one
types_about-update_one id reply key owner change rows quiet =
    types_about-answer id reply Error.update_failed tt rows (update_held key owner change rows)
      (types_about-update_held id key owner change rows quiet)

-- No statement of the publisher changes which events there are about an order.
pub types_about-apply :
    (id : Uuid) (s : Statement) (rows : List OutboxRow)
    → types_about id (apply s rows) ≡ types_about id rows
unfolding apply claim mark_published release mark_failed
types_about-apply id (claims reply locked now owner limit lease) rows =
    let chosen = chosen_ids locked now limit rows in
    let after = lease_rows now owner lease chosen rows in
    types_about-answer id reply Error.claim_failed (returned chosen after) rows after
      (types_about-lease_rows id now owner lease chosen rows)
types_about-apply id (publishes reply now key owner) rows =
    types_about-update_one id reply key owner (published_row now) rows (λ q. (refl, refl))
types_about-apply id (releases reply left key owner message next) rows =
    types_about-update_one id reply key owner (released_row left message next) rows
      (λ q. (refl, refl))
types_about-apply id (fails reply left key owner message) rows =
    types_about-update_one id reply key owner (failed_row left message) rows (λ q. (refl, refl))

has_id-ids : (id : Uuid) (rows : List OutboxRow) → has_id id (ids rows) ≡ has_event id rows
unfolding has_id has_event
has_id-ids id [] = refl
has_id-ids id (r ∷ rows) = ground (arith, has_id-ids id rows)

pub has_event-append :
    (id : Uuid) (rows : List OutboxRow) (r : OutboxRow)
    → has_event id (rows ++ r ∷ []) ≡ (has_event id rows || r.id == id)
unfolding has_event
has_event-append id [] r = ground arith
has_event-append id (x ∷ rows) r = ground (arith, has_event-append id rows r)

pub has_event-apply :
    (id : Uuid) (s : Statement) (rows : List OutboxRow)
    → has_event id (apply s rows) ≡ has_event id rows
has_event-apply id s rows =
    sym (has_id-ids id (apply s rows)) ∙ ap (has_id id) (ids-apply s rows) ∙ has_id-ids id rows

-- A row with a new id leaves the ids unique.
pub HasUniqueIds-append :
    (rows : List OutboxRow) (r : OutboxRow)
    → HasUniqueIds rows
    → has_event r.id rows ≡ false
    → HasUniqueIds (rows ++ r ∷ [])
unfolding has_event has_id
HasUniqueIds-append [] r u new = (refl, tt)
HasUniqueIds-append (x ∷ rows) r u new = (
  has_id-ids x.id (rows ++ r ∷ [])
      ∙ has_event-append x.id rows r
      ∙ ground (arith, u.0, has_id-ids x.id rows),
  HasUniqueIds-append rows r u.1 (ground arith),
)

pub find_order_absent :
    (id : Uuid) (rows : List OrderRow) → has_order id rows ≡ false → find_order id rows ≡ none
unfolding has_order find_order
find_order_absent id [] h = refl
find_order_absent id (r ∷ rows) h = ground (arith, find_order_absent id rows)
