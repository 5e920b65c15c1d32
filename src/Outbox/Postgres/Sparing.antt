-- ===== src/Outbox/Postgres/Sparing.antt =====
-- What no statement changes of a row: its ids, its type and its document.
use wb_orders.Base.{ℕ, ◌≡◌, refl, inl, inr, List, [], ◌∷◌, Bool-cases, All}
use wb_orders.Base.Text.{Bytes}
use wb_orders.Event.{Uuid, Time}
use wb_orders.Database.{OutboxRow, CommitReply}
use wb_orders.Outbox.Postgres.{
  Error, has_id, is_held, lease_row, lease_rows, chosen_ids, returned, claim, update_held,
  update_one, published_row, released_row, failed_row, mark_published, release, mark_failed,
}
use wb_orders.Outbox.Postgres.Rows.{
  Statement, claims, publishes, releases, fails, apply, answer-cases,
}

-- A change of a row that leaves what the publisher sends of it.
abbrev pub Spares : (OutboxRow → OutboxRow) → Type 0
Spares change =
    (r : OutboxRow)
    → ((change r).id ≡ r.id)
      × ((change r).aggregate_id ≡ r.aggregate_id)
      × ((change r).event_type ≡ r.event_type)
      × ((change r).payload ≡ r.payload)

module _ (P : OutboxRow → Type 0)
    (spared : (change : OutboxRow → OutboxRow)
      → Spares change
      → (r : OutboxRow) → P r
      → P (change r)) where
  All-lease_rows :
      (now : Time) (owner : Bytes) (lease : ℕ) (chosen : List Uuid) (rows : List OutboxRow)
      → All P rows
      → All P (lease_rows now owner lease chosen rows)
  unfolding lease_rows
  All-lease_rows now owner lease chosen [] h = tt
  All-lease_rows now owner lease chosen (r ∷ rows) (own, rest) = (
    elim (Bool-cases (has_id r.id chosen)) [
      | inl taken ↦
          rw taken (spared (lease_row now owner lease) (λ r. (refl, refl, refl, refl)) r own)
      | inr left ↦ rw left own
    ],
    All-lease_rows now owner lease chosen rows rest,
  )

  All-update_held :
      (id : Uuid) (owner : Bytes) (change : OutboxRow → OutboxRow) (rows : List OutboxRow)
      → Spares change
      → All P rows
      → All P (update_held id owner change rows)
  unfolding update_held
  All-update_held id owner change [] spares h = tt
  All-update_held id owner change (r ∷ rows) spares (own, rest) = (
    elim (Bool-cases (is_held id owner r)) [
      | inl held ↦ rw held (spared change spares r own)
      | inr left ↦ rw left own
    ],
    All-update_held id owner change rows spares rest,
  )

  All-update_one :
      (reply : CommitReply) (id : Uuid) (owner : Bytes) (change : OutboxRow → OutboxRow)
      (rows : List OutboxRow)
      → Spares change
      → All P rows
      → All P (update_one reply id owner change rows).1
  unfolding update_one
  All-update_one reply id owner change rows spares h =
      elim (answer-cases {0} reply Error.update_failed tt rows (update_held id owner change rows)) [
        | inl same ↦ rw same h
        | inr same ↦ rw same (All-update_held id owner change rows spares h)
      ]

  pub All-apply : (st : Statement) (rows : List OutboxRow) → All P rows → All P (apply st rows)
  unfolding apply claim mark_published release mark_failed
  All-apply (claims reply locked now owner limit lease) rows h =
      let chosen = chosen_ids locked now limit rows in
      let after = lease_rows now owner lease chosen rows in
      elim (answer-cases reply Error.claim_failed (returned chosen after) rows after) [
        | inl same ↦ rw same h
        | inr same ↦ rw same (All-lease_rows now owner lease chosen rows h)
      ]
  All-apply (publishes reply now id owner) rows h =
      All-update_one reply id owner (published_row now) rows (λ r. (refl, refl, refl, refl)) h
  All-apply (releases reply left id owner message next) rows h =
      All-update_one reply id owner (released_row left message next) rows
        (λ r. (refl, refl, refl, refl)) h
  All-apply (fails reply left id owner message) rows h =
      All-update_one reply id owner (failed_row left message) rows (λ r. (refl, refl, refl, refl)) h
