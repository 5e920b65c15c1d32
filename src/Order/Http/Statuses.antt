-- ===== src/Order/Http/Statuses.antt =====
-- The answers to POST /api/v1/orders, and what each status says of the tables.
use wb_orders.Base.{
  ℕ, ◌≡◌, ◌≢◌, ◌∙◌, sym, arith, List, [], ◌∷◌, ◌++◌, ◌⊎◌, refl, inl, inr, Result, Result-cases, ok,
  err, some,
}
use wb_orders.Base.Text.{Bytes, lit}
use wb_orders.Event.{Envelope}
use wb_orders.Json.{Codec, Server}
use wb_orders.Database.{Db}
use wb_orders.Order.Model.{Order, CreateCommand, Invalid, new, validate}
use wb_orders.Order.Store.{Answers}
use wb_orders.Order.Store.Create.{with_order}
use wb_orders.Order.Service
use wb_orders.Order.Service.{Fresh, invalid, bad_event, not_created}
use wb_orders.Order.Service.Laws.{Announces}
use wb_orders.Order.Service.Endings.{Ends, refuses, muddles, loses, hides, stores, create-Ends}
use wb_orders.Http.{Writer, Body, order_body, error_body, write, write_json}
use wb_orders.Order.Http.{Web, write_error, read_command, reply_created, create_handler}

-- The order of a command and its event are in the tables, as one transaction has put them there.
pub record Stored (c : Codec) (s : Server) (a : Answers) (f : Fresh) (command : CreateCommand)
    (before after : Db) (o : Order) : Type 0 where
  pub event : Envelope
  pub payload : Bytes
  pub announced : Announces c f command o event
  pub marshalled : c.marshal_envelope event ≡ some payload
  pub tables : after ≡ with_order s a o event payload before

-- What is written to `w`: a status, a JSON body, and before it some headers.
pub record Sends (status : ℕ) (extra : List (Bytes × Bytes)) (value : Body) (w answered : Writer)
    : Type 0 where
  pub coded : answered.status ≡ status
  pub headed : answered.headers ≡ (lit "Content-Type", lit "application/json") ∷ extra ++ w.headers
  pub bodied : answered.body ≡ value ∷ w.body

pub write_json-Sends :
    (status : ℕ) (extra : List (Bytes × Bytes)) (value : Body) (w mid : Writer)
    → status ≢ 0
    → mid.status ≡ 0
    → mid.headers ≡ extra ++ w.headers
    → mid.body ≡ w.body
    → Sends status extra value w (write_json status value mid)
unfolding write_json write
write_json-Sends status extra value w mid some_status new told bodied = record {
  coded = ground arith;
  headed = ground arith;
  bodied = ground arith;
}

write_error-Sends :
    (id : Bytes) (status : ℕ) (code message : Bytes) (w : Writer)
    → status ≢ 0
    → w.status ≡ 0
    → Sends status [] (error_body code message id) w (write_error id status code message w)
unfolding write_error
write_error-Sends id status code message w some_status new =
    write_json-Sends status [] _ w w some_status new refl refl

module _ (web : Web) (c : Codec) (s : Server) (a : Answers) (f : Fresh) (id body : Bytes)
    (w : Writer) (db : Db) where
  -- 400 for a body that is no command, 422 for a command that the validation refuses, 500, 201.
  pub data Answer (answered : Writer) (after : Db) : Type 0 where
    malformed :
        (message : Bytes)
        → read_command web body ≡ err message
        → Sends 400 [] (error_body (lit "invalid_request") message id) w answered
        → after ≡ db
        → Answer answered after
    refused :
        (command : CreateCommand) (x : Invalid)
        → read_command web body ≡ ok command
        → validate command ≡ err x
        → Sends 422 [] (error_body (lit "validation_error") (web.invalid_text x) id) w answered
        → after ≡ db
        → Answer answered after
    broken :
        (command : CreateCommand)
        → read_command web body ≡ ok command
        → ((x : Invalid) → validate command ≢ err x)
        → Sends 500 []
            (error_body (lit "internal_error") (lit "could not create order") id)
            w
            answered
        → (after ≡ db) ⊎ ((o : Order) × Stored c s a f command db after o)
        → Answer answered after
    created :
        (command : CreateCommand) (o : Order)
        → read_command web body ≡ ok command
        → Stored c s a f command db after o
        → Sends 201
            ((lit "Location", lit "/api/v1/orders/" ++ web.uuid_text o.id) ∷ [])
            (order_body o)
            w
            answered
        → Answer answered after

  broken_reply :
      (command : CreateCommand) (answered : Writer) (after : Db)
      → w.status ≡ 0
      → read_command web body ≡ ok command
      → ((x : Invalid) → validate command ≢ err x)
      → answered ≡ write_error id 500 (lit "internal_error") (lit "could not create order") w
      → (after ≡ db) ⊎ ((o : Order) × Stored c s a f command db after o)
      → Answer answered after
  broken_reply command answered after new read valid told tables =
      broken command read valid (rw told (write_error-Sends id 500 _ _ w (λ e. ground arith) new))
        tables

  answer_of_ends :
      (command : CreateCommand) (r : Result Service.Error Order) (after : Db)
      → w.status ≡ 0
      → read_command web body ≡ ok command
      → ((x : Invalid) → validate command ≢ err x)
      → Ends c s a f command db r after
      → Answer (reply_created web id w r) after
  answer_of_ends command r after new read valid (refuses x bad told same) = absurd (valid x bad)
  answer_of_ends command r after new read valid (muddles x told same) =
      broken_reply command _ after new read valid (rw told refl) (inl same)
  answer_of_ends command r after new read valid (loses x told same) =
      broken_reply command _ after new read valid (rw told refl) (inl same)
  answer_of_ends command r after new read valid (hides x o e payload told said m tables) =
      broken_reply command _ after new read valid (rw told refl) (
        inr (
          o,
          record {
            event = e;
            payload = payload;
            announced = said;
            marshalled = m;
            tables = tables;
          },
        ))
  answer_of_ends command r after new read valid (stores o e payload told said m tables) =
      created command o read
        (record { event = e; payload = payload; announced = said; marshalled = m; tables = tables })
        (rw told (write_json-Sends 201 _ _ w _ (λ e. ground arith) new refl refl))

  -- A command that the validation refuses is answered 422, and nothing is stored.
  refused_reply :
      (command : CreateCommand) (x : Invalid)
      → w.status ≡ 0
      → read_command web body ≡ ok command
      → validate command ≡ err x
      → let (r, after) = Service.create c s a f id command db in
        Answer (reply_created web id w r) after
  unfolding Service.create Service.prepare new
  refused_reply command x fresh read bad =
      let told : Service.create c s a f id command db ≡ (err (invalid x), db) = ground arith in
      rw (told, Service.create)
        (refused command x read bad (write_error-Sends id 422 _ _ w (λ e. ground arith) fresh) refl)

  -- Whatever the body holds and the server answers, a request to which no status was written yet is answered in
  -- one of four ways: 400 for a body that is no command and 422 for a command that the validation refuses, both
  -- with the tables as they were; 500 for a command that the validation accepts, with the tables as they were or
  -- the whole order in them; or 201, with the order in the body, its address /api/v1/orders/{id} in Location, and
  -- the order, its items and its event in the tables.
  pub create_handler-Answer :
      w.status ≡ 0
      → let (answered, after) = create_handler web c s a f id body w db in Answer answered after
  unfolding create_handler
  create_handler-Answer new = elim (Result-cases (read_command web body)) [
    | inr (message, bad) ↦
        rw (bad, create_handler)
          (malformed message bad (write_error-Sends id 400 _ _ w (λ e. ground arith) new) refl)
    | inl (command, read) ↦
        rw (read, create_handler)
          (elim (Result-cases (validate command)) [
            | inr (x, bad) ↦ refused_reply command x new read bad
            | inl (v, valid) ↦
                answer_of_ends command _ _ new read
                  (λ x bad. let both = sym valid ∙ bad in ground arith)
                  (create-Ends c s a f id command db)
          ])
  ]
