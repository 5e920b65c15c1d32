-- ===== src/Order/Service/Endings.antt =====
-- How a call of `Create` ends, for every answer of the server.
use wb_orders.Base.{
  ◌≡◌, ◌≢◌, ◌⊎◌, refl, ap, inl, inr, arith, Result, Result-cases, ok, err, some, map_err, ◌>>=◌,
}
use wb_orders.Base.Text.{Bytes}
use wb_orders.Event
use wb_orders.Event.{Envelope}
use wb_orders.Json.{Codec, Server}
use wb_orders.Database.{Db}
use wb_orders.Order.Model.{Order, CreateCommand, Invalid, new, validate}
use wb_orders.Order.Store
use wb_orders.Order.Store.{Answers, create_with_event}
use wb_orders.Order.Store.Create.{with_order, create_with_event_atomic}
use wb_orders.Order.Service.{Error, invalid, bad_event, not_created, Fresh, prepare, create}
use wb_orders.Order.Service.Laws.{Announces, prepare-Announces, create_of_ready, create_of_error}

-- Refused by the validation; no event could be built; not stored; stored although the caller sees an
-- error; stored.
pub data Ends (c : Codec) (s : Server) (a : Answers) (f : Fresh) (command : CreateCommand) (db : Db)
    (r : Result Error Order) (after : Db) : Type 0 where
  refuses :
      (x : Invalid)
      → validate command ≡ err x
      → r ≡ err (invalid x)
      → after ≡ db
      → Ends c s a f command db r after
  muddles : (x : Event.Error) → r ≡ err (bad_event x) → after ≡ db → Ends c s a f command db r after
  loses : (x : Store.Error) → r ≡ err (not_created x) → after ≡ db → Ends c s a f command db r after
  hides :
      (x : Store.Error) (o : Order) (e : Envelope) (payload : Bytes)
      → r ≡ err (not_created x)
      → Announces c f command o e
      → c.marshal_envelope e ≡ some payload
      → after ≡ with_order s a o e payload db
      → Ends c s a f command db r after
  stores :
      (o : Order) (e : Envelope) (payload : Bytes)
      → r ≡ ok o
      → Announces c f command o e
      → c.marshal_envelope e ≡ some payload
      → after ≡ with_order s a o e payload db
      → Ends c s a f command db r after

prepare-invalid :
    (c : Codec) (f : Fresh) (given : Bytes) (command : CreateCommand) (x : Invalid)
    → prepare c f given command ≡ err (invalid x)
    → validate command ≡ err x
unfolding prepare new
prepare-invalid c f given command x h = ground arith

prepare-ne-not_created :
    (c : Codec) (f : Fresh) (given : Bytes) (command : CreateCommand) (x : Store.Error)
    → prepare c f given command ≢ err (not_created x)
unfolding prepare
prepare-ne-not_created c f given command x h = ground arith

module _ (c : Codec) (s : Server) (a : Answers) (f : Fresh) (given : Bytes)
    (command : CreateCommand) (db : Db) where
  unprepared :
      (x : Error) (r : Result Error Order) (after : Db)
      → prepare c f given command ≡ err x
      → r ≡ err x
      → after ≡ db
      → Ends c s a f command db r after
  unprepared (invalid x) r after bad told same =
      refuses x (prepare-invalid c f given command x bad) told same
  unprepared (bad_event x) r after bad told same = muddles x told same
  unprepared (not_created x) r after bad told same =
      absurd (prepare-ne-not_created c f given command x bad)

  prepared :
      (o : Order) (e : Envelope) (stored : Result Store.Error (Unit {0})) (after : Db)
      → Announces c f command o e
      → ((after ≡ db) × (stored ≢ ok tt))
        ⊎ ((payload : Bytes) × (c.marshal_envelope e ≡ some payload)
            × (after ≡ with_order s a o e payload db))
      → Ends c s a f command db (map_err not_created stored >>= λ _. ok o) after
  prepared o e (err x) after said (inl (same, bad)) = loses x refl same
  prepared o e (ok u) after said (inl (same, bad)) = absurd (bad refl)
  prepared o e (err x) after said (inr (payload, m, stored)) =
      hides x o e payload refl said m stored
  prepared o e (ok u) after said (inr (payload, m, stored)) = stores o e payload refl said m stored

  -- Whatever the server answers, `Create` ends in one of five ways.
  pub create-Ends :
      let (r, after) = create c s a f given command db in Ends c s a f command db r after
  create-Ends = elim (Result-cases (prepare c f given command)) [
    | inr (x, bad) ↦
        let e = create_of_error c s a f given command db x bad in
        unprepared x _ _ bad (ap (λ p. p.0) e) (ap (λ p. p.1) e)
    | inl ((o, e), ready) ↦ rw (create_of_ready c s a f given command db o e ready) (
        prepared o e _ _ (prepare-Announces c f given command o e ready)
          (create_with_event_atomic c s a o e db))
  ]
