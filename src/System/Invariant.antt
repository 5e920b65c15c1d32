-- ===== src/System/Invariant.antt =====
-- What holds of all tables that the programs reach.
use wb_orders.Base.{
  ◌≡◌, ◌≢◌, refl, ap, ◌∙◌, sym, inl, inr, arith, Bool-cases, true, false, ◌==◌, [], ◌∷◌, ◌++◌, List,
  some, Option,
}
use mathlib.Core.List.{append-nil}
use wb_orders.Event.{Uuid}
use wb_orders.Json.{Codec, Server}
use wb_orders.Database.{Db, OutboxRow}
use wb_orders.Database.Queries.{find_order}
use wb_orders.Outbox.Postgres.Lookup.{HasUniqueIds}
use wb_orders.Order.Model.{Status}
use wb_orders.Consumer.Postgres.{is_pending}
use wb_orders.System.{
  Step, Reaches, starts, steps, empty, stage, Advances, stays, places, settles, types_about, trail,
}
use wb_orders.System.Trails.{types_about-append, HasUniqueIds-append}
use wb_orders.System.Stages.{Told, Effect, quiet, told, Step-Effect}

-- The outbox has told, once each and in order, the events of every order's stage.
pub record IsWhole (db : Db) : Type 0 where
  pub trails : (id : Uuid) → types_about id db.outbox_events ≡ trail (stage id db)
  pub unique : HasUniqueIds db.outbox_events

types_about_own :
    (id : Uuid) (rows : List OutboxRow) (r : OutboxRow)
    → r.aggregate_id ≡ id
    → types_about id (rows ++ r ∷ []) ≡ types_about id rows ++ r.event_type ∷ []
types_about_own id rows r own = ground (arith, types_about-append id rows r)

types_about_other :
    (id : Uuid) (rows : List OutboxRow) (r : OutboxRow)
    → r.aggregate_id ≢ id
    → types_about id (rows ++ r ∷ []) ≡ types_about id rows
types_about_other id rows r other =
    ground (arith, types_about-append id rows r, append-nil (types_about id rows))

same_id : (x y : Uuid) → (x == y) ≡ true → x ≡ y
same_id x y h = ground arith

other_id : (x y : Uuid) → (x == y) ≡ false → x ≢ y
other_id x y h = ground arith

Told-trails :
    (db after : Db) (t : Told db after) (id : Uuid)
    → types_about id db.outbox_events ≡ trail (stage id db)
    → types_about id after.outbox_events ≡ trail (stage id after)
Told-trails db after t id whole = ap (types_about id) t.appended ∙ elim (Bool-cases (t.id == id)) [
  | inl hit ↦
      let same = same_id t.id id hit in
      types_about_own id db.outbox_events t.row (t.about ∙ same)
      ∙ ap (λ xs. xs ++ t.row.event_type ∷ []) whole
      ∙ (rw same at (sym t.trailed))
  | inr miss ↦
      let different = other_id t.id id miss in
      types_about_other id db.outbox_events t.row (λ clash. different (sym t.about ∙ clash))
      ∙ whole
      ∙ ap trail (sym (t.others id different))
]

Effect-IsWhole : (db after : Db) → Effect db after → IsWhole db → IsWhole after
Effect-IsWhole db after (quiet q) w = record {
  trails = λ id. q.told id ∙ w.trails id ∙ ap trail (sym (q.staged id));
  unique = q.unique w.unique;
}
Effect-IsWhole db after (told t) w = record {
  trails = λ id. Told-trails db after t id (w.trails id);
  unique = rw t.appended (HasUniqueIds-append db.outbox_events t.row w.unique t.new);
}

-- Whatever the programs do and the server answers, in all tables that are reached from empty ones the
-- outbox has, for every identifier, no event about an order that is not stored, the one OrderCreated event
-- of a pending order, and the OrderCreated event followed by one OrderStatusChanged event of a
-- settled order, and nothing else; and no two of its events have one id.
pub Reaches-IsWhole : (c : Codec) (s : Server) (db : Db) → Reaches c s empty db → IsWhole db
unfolding types_about find_order
Reaches-IsWhole c s _ starts = record { trails = λ id. refl; unique = tt }
Reaches-IsWhole c s _ (steps {db} {next} reached step) =
    Effect-IsWhole db next (Step-Effect c s db next step) (Reaches-IsWhole c s db reached)

-- Each step of the programs takes each order at most one stage further: an order that is not stored may
-- become pending, a pending order confirmed or failed, and a settled order stays as it is.
pub Step-Advances :
    (c : Codec) (s : Server) (db next : Db)
    → Step c s db next
    → (id : Uuid) → Advances (stage id db) (stage id next)
Step-Advances c s db next step id = advances (Step-Effect c s db next step)
  where
    advances : Effect db next → Advances (stage id db) (stage id next)
    advances (quiet q) = stays (q.staged id)
    advances (told t) = elim (Bool-cases (t.id == id)) [
      | inl hit ↦ rw (same_id t.id id hit) at t.advance
      | inr miss ↦ stays (t.others id (other_id t.id id miss))
    ]

-- A settled order is settled for ever.
pub Reaches-settled :
    (c : Codec) (s : Server) (db later : Db) (id : Uuid) (status : Status)
    → Reaches c s db later
    → is_pending status ≡ false
    → stage id db ≡ some status
    → stage id later ≡ some status
Reaches-settled c s db _ id status starts settled h = h
Reaches-settled c s start _ id status (steps {db} {next} reached step) settled h =
    kept (Step-Advances c s db next step id)
      (Reaches-settled c s start db id status reached settled h)
  where
    kept : {x y : Option Status} → Advances x y → x ≡ some status → y ≡ some status
    kept (stays same) e = same ∙ e
    kept (places none_before _) e = ground arith
    kept (settles other open_before _ _) e = ground arith
