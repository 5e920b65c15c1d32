-- ===== src/Outbox/Postgres/Lookup.antt =====
-- The row of an event: how a claim and an UPDATE change it.
use wb_orders.Base.{
  ℕ, ◌≤◌, ◌≡◌, refl, inl, inr, ap, arith, List, [], ◌∷◌, take, zero, suc, Bool, Bool-cases, true,
  false, ◌||◌, Option, none, some, ◌==◌, if◌then◌else◌,
}
use wb_orders.Base.Text.{Bytes}
use wb_orders.Event.{Uuid, Time}
use wb_orders.Database.{OutboxRow}
use wb_orders.Outbox.Postgres.{
  count_held, is_claimable, insert_by_age, candidates, ids, has_id, lease_row, lease_rows, is_held,
  update_held,
}

unfoldable pub find_row : Uuid → List OutboxRow → Option OutboxRow
find_row id [] = none
find_row id (r ∷ rows) = if r.id == id then some r else find_row id rows

-- The primary key.
abbrev pub HasUniqueIds : List OutboxRow → Type 0
HasUniqueIds [] = Unit
HasUniqueIds (r ∷ rows) = (has_id r.id (ids rows) ≡ false) × HasUniqueIds rows

find_row-id :
    (id : Uuid) (rows : List OutboxRow) (r : OutboxRow) → find_row id rows ≡ some r → r.id ≡ id
unfolding find_row
find_row-id id [] r h = cc
find_row-id id (x ∷ rows) r h = ground (arith, find_row-id id rows r)

pub has_id-take :
    (id : Uuid) (n : ℕ) (xs : List Uuid) → has_id id (take n xs) ≡ true → has_id id xs ≡ true
unfolding has_id
has_id-take id zero xs h = cc
has_id-take id (suc n) [] h = cc
has_id-take id (suc n) (x ∷ xs) h = ground (arith, has_id-take id n xs)

has_id-insert :
    (id : Uuid) (r : OutboxRow) (rows : List OutboxRow)
    → has_id id (ids (insert_by_age r rows)) ≡ (r.id == id || has_id id (ids rows))
unfolding has_id insert_by_age
has_id-insert id r [] = refl
has_id-insert id r (q ∷ rows) = ground (arith, has_id-insert id r rows)

candidates_absent :
    (id : Uuid) (locked : Uuid → Bool) (now : Time) (rows : List OutboxRow)
    → has_id id (ids rows) ≡ false
    → has_id id (ids (candidates locked now rows)) ≡ false
unfolding candidates has_id
candidates_absent id locked now [] h = refl
candidates_absent id locked now (r ∷ rows) h =
    ground
      (arith, candidates_absent id locked now rows, has_id-insert id r (candidates locked now rows))

-- A row whose id is among the candidates' is claimable, and no other transaction has it locked.
pub candidates_claimable :
    (id : Uuid) (locked : Uuid → Bool) (now : Time) (rows : List OutboxRow) (r : OutboxRow)
    → HasUniqueIds rows
    → find_row id rows ≡ some r
    → has_id id (ids (candidates locked now rows)) ≡ true
    → (is_claimable now r ≡ true) × (locked id ≡ false)
unfolding candidates find_row
candidates_claimable id locked now [] r u f h = cc
candidates_claimable id locked now (x ∷ rows) r u f h = elim (Bool-cases (x.id == id)) [
  | inl hit ↦
      let same : x.id ≡ id = ground arith in
      let absent = rw same at (candidates_absent x.id locked now rows u.0) in
      ground (arith, has_id-insert id x (candidates locked now rows))
  | inr miss ↦ ground (
    arith,
    has_id-insert id x (candidates locked now rows),
    candidates_claimable id locked now rows r u.1,
  )
]

pub find_row-lease_rows :
    (now : Time) (owner : Bytes) (lease : ℕ) (chosen : List Uuid) (id : Uuid)
    (rows : List OutboxRow) (r : OutboxRow)
    → find_row id rows ≡ some r
    → find_row id (lease_rows now owner lease chosen rows)
      ≡ some (if has_id id chosen then lease_row now owner lease r else r)
unfolding find_row lease_rows
find_row-lease_rows now owner lease chosen id [] r f = cc
find_row-lease_rows now owner lease chosen id (x ∷ rows) r f = elim (Bool-cases (x.id == id)) [
  | inl hit ↦ let same : x.id ≡ id = ground arith in ground (arith, ap (λ k. has_id k chosen) same)
  | inr miss ↦ ground (arith, find_row-lease_rows now owner lease chosen id rows r)
]

pub find_row-update_held :
    (key : Uuid) (owner : Bytes) (change : OutboxRow → OutboxRow) (id : Uuid)
    (rows : List OutboxRow) (r : OutboxRow)
    → ((q : OutboxRow) → (change q).id ≡ q.id)
    → find_row id rows ≡ some r
    → find_row id (update_held key owner change rows)
      ≡ some (if is_held key owner r then change r else r)
unfolding find_row update_held
find_row-update_held key owner change id [] r keep f = cc
find_row-update_held key owner change id (x ∷ rows) r keep f =
    ground (arith, keep x, find_row-update_held key owner change id rows r keep)

is_held-id :
    (id : Uuid) (owner : Bytes) (r : OutboxRow) → is_held id owner r ≡ true → (r.id == id) ≡ true
unfolding is_held
is_held-id id owner r h = ground arith

has_id-find_row :
    (id : Uuid) (rows : List OutboxRow) (r : OutboxRow)
    → find_row id rows ≡ some r
    → has_id id (ids rows) ≡ true
unfolding find_row has_id
has_id-find_row id [] r f = cc
has_id-find_row id (x ∷ rows) r f = ground (arith, has_id-find_row id rows r)

-- With unique ids, the row that an UPDATE of the held row counts is the row of the id.
pub count_held-find_row :
    (id : Uuid) (owner : Bytes) (rows : List OutboxRow)
    → HasUniqueIds rows
    → 1 ≤ count_held id owner rows
    → (r : OutboxRow) × (find_row id rows ≡ some r) × (is_held id owner r ≡ true)
unfolding find_row count_held
count_held-find_row id owner [] u some_row = absurd (ground arith)
count_held-find_row id owner (x ∷ rows) u some_row = elim (Bool-cases (is_held id owner x)) [
  | inl held ↦
      let same : (x.id == id) ≡ true = is_held-id id owner x held in (x, ground arith, held)
  | inr free ↦
      let (r, found, held) = count_held-find_row id owner rows u.1 (ground arith) in
      elim (Bool-cases (x.id == id)) [
        | inl hit ↦
            let same : x.id ≡ id = ground arith in
            let absent = rw same at u.0 in absurd (ground (arith, has_id-find_row id rows r found))
        | inr miss ↦ (r, ground arith, held)
      ]
]
