-- ===== src/Outbox/Postgres/Rows.antt =====
-- What each statement does to the row of one event.
use wb_orders.Base.{
  ℕ, ◌≡◌, ◌⊎◌, refl, inl, inr, sym, arith, List, [], ◌∷◌, Bool, Bool-cases, true, some,
}
use wb_orders.Base.Text.{Bytes}
use wb_orders.Event.{Uuid, Time}
use wb_orders.Database.{OutboxRow, CommitReply, committed, refused, unacknowledged}
use wb_orders.Outbox.Postgres.{
  Error, is_claimable, ids, has_id, lease_row, lease_rows, chosen_ids, answer, claim, returned,
  is_held, update_held, update_one, published_row, released_row, failed_row, mark_published,
  release, mark_failed,
}
use wb_orders.Outbox.Postgres.Lookup.{
  find_row, HasUniqueIds, has_id-take, candidates_claimable, find_row-lease_rows,
  find_row-update_held,
}

-- One statement of the repository, with what the server and the surroundings answer.
pub data Statement : Type 0 where
  claims : CommitReply → (Uuid → Bool) → Time → Bytes → ℕ → ℕ → Statement
  publishes : CommitReply → Time → Uuid → Bytes → Statement
  releases : CommitReply → (Bytes → Bytes) → Uuid → Bytes → Bytes → Time → Statement
  fails : CommitReply → (Bytes → Bytes) → Uuid → Bytes → Bytes → Statement

unfoldable pub apply : Statement → List OutboxRow → List OutboxRow
apply (claims reply locked now owner limit lease) rows =
    (claim reply locked now owner limit lease rows).1
apply (publishes reply now id owner) rows = (mark_published reply now id owner rows).1
apply (releases reply left id owner message next) rows =
    (release reply left id owner message next rows).1
apply (fails reply left id owner message) rows = (mark_failed reply left id owner message rows).1

unfoldable pub run : List Statement → List OutboxRow → List OutboxRow
run [] rows = rows
run (s ∷ ss) rows = run ss (apply s rows)

-- The state machine of one row: what a statement may make of it.
pub data RowStep : Statement → OutboxRow → OutboxRow → Type 0 where
  keeps : {s : Statement} {r r' : OutboxRow} → r' ≡ r → RowStep s r r'
  leases :
      {reply : CommitReply} {locked : Uuid → Bool} {now : Time} {owner : Bytes} {limit lease : ℕ}
      {r r' : OutboxRow}
      → is_claimable now r ≡ true
      → r' ≡ lease_row now owner lease r
      → RowStep (claims reply locked now owner limit lease) r r'
  finishes :
      {reply : CommitReply} {now : Time} {id : Uuid} {owner : Bytes} {r r' : OutboxRow}
      → is_held id owner r ≡ true
      → r' ≡ published_row now r
      → RowStep (publishes reply now id owner) r r'
  frees :
      {reply : CommitReply} {left : Bytes → Bytes} {id : Uuid} {owner message : Bytes} {next : Time}
      {r r' : OutboxRow}
      → is_held id owner r ≡ true
      → r' ≡ released_row left message next r
      → RowStep (releases reply left id owner message next) r r'
  gives_up :
      {reply : CommitReply} {left : Bytes → Bytes} {id : Uuid} {owner message : Bytes}
      {r r' : OutboxRow}
      → is_held id owner r ≡ true
      → r' ≡ failed_row left message r
      → RowStep (fails reply left id owner message) r r'

pub answer-cases {ℓ} :
    {A : Type ℓ} (reply : CommitReply) (e : Error) (a : A) (before after : List OutboxRow)
    → ((answer reply e a before after).1 ≡ before) ⊎ ((answer reply e a before after).1 ≡ after)
answer-cases committed e a before after = inr refl
answer-cases refused e a before after = inl refl
answer-cases unacknowledged e a before after = inr refl

-- The row that had the id has made a step.
abbrev pub Moved : Statement → Uuid → OutboxRow → List OutboxRow → Type 0
Moved s id r after = (r' : OutboxRow) × (find_row id after ≡ some r') × RowStep s r r'

claim-Moved :
    (reply : CommitReply) (locked : Uuid → Bool) (now : Time) (owner : Bytes) (limit lease : ℕ)
    (id : Uuid) (rows : List OutboxRow) (r : OutboxRow)
    → HasUniqueIds rows
    → find_row id rows ≡ some r
    → Moved
        (claims reply locked now owner limit lease)
        id
        r
        (claim reply locked now owner limit lease rows).1
unfolding claim
claim-Moved reply locked now owner limit lease id rows r u f =
    let chosen = chosen_ids locked now limit rows in
    let after = lease_rows now owner lease chosen rows in
    let found = find_row-lease_rows now owner lease chosen id rows r f in
    elim (answer-cases reply Error.claim_failed (returned chosen after) rows after) [
      | inl same ↦ (r, rw same f, keeps refl)
      | inr same ↦ elim (Bool-cases (has_id id chosen)) [
        | inr spared ↦ (r, rw same (ground arith), keeps refl)
        | inl taken ↦ (
          lease_row now owner lease r,
          rw same (ground arith),
          leases (candidates_claimable id locked now rows r u f (has_id-take id limit _ taken)).0
              refl,
        )
      ]
    ]

-- An UPDATE of the held row leaves a row alone, or changes it if it is held.
update_one-find :
    (reply : CommitReply) (key : Uuid) (owner : Bytes) (change : OutboxRow → OutboxRow) (id : Uuid)
    (rows : List OutboxRow) (r : OutboxRow)
    → ((q : OutboxRow) → (change q).id ≡ q.id)
    → find_row id rows ≡ some r
    → (find_row id (update_one reply key owner change rows).1 ≡ some r)
      ⊎ ((is_held key owner r ≡ true)
          × (find_row id (update_one reply key owner change rows).1 ≡ some (change r)))
unfolding update_one
update_one-find reply key owner change id rows r keep f =
    let found = find_row-update_held key owner change id rows r keep f in
    elim (answer-cases {0} reply Error.update_failed tt rows (update_held key owner change rows)) [
      | inl same ↦ inl (rw same f)
      | inr same ↦ elim (Bool-cases (is_held key owner r)) [
        | inr spared ↦ inl (rw same (ground arith))
        | inl held ↦ inr (held, rw same (ground arith))
      ]
    ]

pub apply-Moved :
    (s : Statement) (id : Uuid) (rows : List OutboxRow) (r : OutboxRow)
    → HasUniqueIds rows
    → find_row id rows ≡ some r
    → Moved s id r (apply s rows)
unfolding apply mark_published release mark_failed
apply-Moved (claims reply locked now owner limit lease) id rows r u f =
    claim-Moved reply locked now owner limit lease id rows r u f
apply-Moved (publishes reply now key owner) id rows r u f =
    elim (update_one-find reply key owner (published_row now) id rows r (λ q. refl) f) [
      | inl same ↦ (r, same, keeps refl)
      | inr (held, changed) ↦ (published_row now r, changed, finishes held refl)
    ]
apply-Moved (releases reply left key owner message next) id rows r u f =
    elim (update_one-find reply key owner (released_row left message next) id rows r (λ q. refl)
      f) [
        | inl same ↦ (r, same, keeps refl)
        | inr (held, changed) ↦ (released_row left message next r, changed, frees held refl)
      ]
apply-Moved (fails reply left key owner message) id rows r u f =
    elim (update_one-find reply key owner (failed_row left message) id rows r (λ q. refl) f) [
      | inl same ↦ (r, same, keeps refl)
      | inr (held, changed) ↦ (failed_row left message r, changed, gives_up held refl)
    ]

ids-lease_rows :
    (now : Time) (owner : Bytes) (lease : ℕ) (chosen : List Uuid) (rows : List OutboxRow)
    → ids (lease_rows now owner lease chosen rows) ≡ ids rows
unfolding lease_rows
ids-lease_rows now owner lease chosen [] = refl
ids-lease_rows now owner lease chosen (r ∷ rows) =
    ground (arith, ids-lease_rows now owner lease chosen rows)

ids-update_held :
    (key : Uuid) (owner : Bytes) (change : OutboxRow → OutboxRow) (rows : List OutboxRow)
    → ((q : OutboxRow) → (change q).id ≡ q.id)
    → ids (update_held key owner change rows) ≡ ids rows
unfolding update_held
ids-update_held key owner change [] keep = refl
ids-update_held key owner change (r ∷ rows) keep =
    ground (arith, keep r, ids-update_held key owner change rows keep)

ids-answer {ℓ} :
    {A : Type ℓ} (reply : CommitReply) (e : Error) (a : A) (before after : List OutboxRow)
    → ids after ≡ ids before
    → ids (answer reply e a before after).1 ≡ ids before
ids-answer committed e a before after h = h
ids-answer refused e a before after h = refl
ids-answer unacknowledged e a before after h = h

ids-update_one :
    (reply : CommitReply) (key : Uuid) (owner : Bytes) (change : OutboxRow → OutboxRow)
    (rows : List OutboxRow)
    → ((q : OutboxRow) → (change q).id ≡ q.id)
    → ids (update_one reply key owner change rows).1 ≡ ids rows
unfolding update_one
ids-update_one reply key owner change rows keep =
    ids-answer reply Error.update_failed tt rows (update_held key owner change rows)
      (ids-update_held key owner change rows keep)

pub ids-apply : (s : Statement) (rows : List OutboxRow) → ids (apply s rows) ≡ ids rows
unfolding apply claim mark_published release mark_failed
ids-apply (claims reply locked now owner limit lease) rows =
    let chosen = chosen_ids locked now limit rows in
    ids-answer reply Error.claim_failed (returned chosen (lease_rows now owner lease chosen rows))
      rows (lease_rows now owner lease chosen rows) (ids-lease_rows now owner lease chosen rows)
ids-apply (publishes reply now key owner) rows =
    ids-update_one reply key owner (published_row now) rows (λ q. refl)
ids-apply (releases reply left key owner message next) rows =
    ids-update_one reply key owner (released_row left message next) rows (λ q. refl)
ids-apply (fails reply left key owner message) rows =
    ids-update_one reply key owner (failed_row left message) rows (λ q. refl)

-- The same ids are unique.
HasUniqueIds-ids :
    (rows rows' : List OutboxRow) → ids rows ≡ ids rows' → HasUniqueIds rows → HasUniqueIds rows'
HasUniqueIds-ids rows [] e u = tt
HasUniqueIds-ids [] (r' ∷ rows') e u = absurd (ground arith)
HasUniqueIds-ids (r ∷ rows) (r' ∷ rows') e u =
    let heads : r.id ≡ r'.id = ground arith in
    let tails : ids rows ≡ ids rows' = ground arith in
    (rw (← heads, ← tails) u.0, HasUniqueIds-ids rows rows' tails u.1)

pub apply-HasUniqueIds :
    (s : Statement) (rows : List OutboxRow) → HasUniqueIds rows → HasUniqueIds (apply s rows)
apply-HasUniqueIds s rows u = HasUniqueIds-ids rows (apply s rows) (sym (ids-apply s rows)) u

pub run-HasUniqueIds :
    (ss : List Statement) (rows : List OutboxRow) → HasUniqueIds rows → HasUniqueIds (run ss rows)
unfolding run
run-HasUniqueIds [] rows u = u
run-HasUniqueIds (s ∷ ss) rows u = run-HasUniqueIds ss (apply s rows) (apply-HasUniqueIds s rows u)
