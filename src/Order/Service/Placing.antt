-- ===== src/Order/Service/Placing.antt =====
-- What `Create` leaves of the tables: what they were, or a new order with its event.
use wb_orders.Base.{◌≡◌, ◌⊎◌, inl, inr, ap, Result-cases}
use wb_orders.Base.Text.{Bytes}
use wb_orders.Event.{Envelope}
use wb_orders.Json.{Codec, Server}
use wb_orders.Database.{Db}
use wb_orders.Order.Model.{Order, CreateCommand}
use wb_orders.Order.Store.{Answers}
use wb_orders.Order.Store.Fresh.{Stores, create_with_event-Stores}
use wb_orders.Order.Service.{Fresh, prepare, create}
use wb_orders.Order.Service.Laws.{Announces, prepare-Announces, create_of_ready, create_of_error}

-- An order with its event that `Create` has stored.
pub record Places (c : Codec) (s : Server) (a : Answers) (f : Fresh) (command : CreateCommand)
    (db after : Db) : Type 0 where
  pub order : Order
  pub event : Envelope
  pub announced : Announces c f command order event
  pub stored : Stores c s a order event db after

pub create-Places :
    (c : Codec) (s : Server) (a : Answers) (f : Fresh) (given : Bytes) (command : CreateCommand)
    (db : Db)
    → let after = (create c s a f given command db).1 in
      (after ≡ db) ⊎ Places c s a f command db after
create-Places c s a f given command db = elim (Result-cases (prepare c f given command)) [
  | inr (x, bad) ↦ inl (ap (λ p. p.1) (create_of_error c s a f given command db x bad))
  | inl ((o, e), ready) ↦
      rw (create_of_ready c s a f given command db o e ready)
        (elim (create_with_event-Stores c s a o e db) [
          | inl same ↦ inl same
          | inr stored ↦ inr (record {
            order = o;
            event = e;
            announced = prepare-Announces c f given command o e ready;
            stored = stored;
          })
        ])
]
