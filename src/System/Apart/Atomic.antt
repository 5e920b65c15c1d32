-- ===== src/System/Apart/Atomic.antt =====
-- `Complete` among the other transactions of the programs is as if it ran at one stroke.
use wb_orders.Base.{◌≡◌, ◌⊎◌, refl, ◌∙◌, Bool, true, false, err}
use wb_orders.Base.Text.{Bytes}
use wb_orders.Event.{Uuid}
use wb_orders.Json.{Codec, Server}
use wb_orders.Database.{Db}
use wb_orders.Consumer.Postgres
use wb_orders.Consumer.Postgres.{Change, Verdict, is_recorded, complete, set_status}
use wb_orders.Consumer.Postgres.Interleaved.{Moments, IsKept, complete_between}
use wb_orders.Consumer.Postgres.Interleaved.Atomic.{complete_between-complete}
use wb_orders.System.Apart.{Held, Apart, Keeps, Keeps-refl, Apart-Keeps}

-- Any number of commits of other transactions.
pub data Aparts (c : Codec) (s : Server) (h : Held) (db : Db) : Db → Type 0 where
  alone : Aparts c s h db db
  along : {mid next : Db} → Aparts c s h db mid → Apart c s h mid next → Aparts c s h db next

Aparts-Keeps :
    (c : Codec) (s : Server) (h : Held) (db next : Db) → Aparts c s h db next → Keeps h db next
Aparts-Keeps c s h db _ alone = Keeps-refl h db
Aparts-Keeps c s h db _ (along {mid} {next} before step) =
    let one = Aparts-Keeps c s h db mid before in
    let two = Apart-Keeps c s h mid next step in
    record {
      noting = two.noting ∙ one.noting;
      locking = λ l r f. two.locking l r (one.locking l r f);
      inserting = λ l f. two.inserting l (one.inserting l f);
    }

-- What one `Complete` holds, by how far it has come.
abbrev pub held : Postgres.Answers → Uuid → Bytes → Change → Bool → Bool → Held
held a event consumer k locked inserted = record {
  event = event;
  consumer = consumer;
  order_id = k.order_id;
  event_id = a.event_id;
  locked = locked;
  inserted = inserted;
}

module _ (c : Codec) (s : Server) (a : Postgres.Answers) (event : Uuid) (consumer : Bytes)
    (k : Change) (m : Moments) (db : Db) where
  Aparts-IsKept :
      Aparts c s (held a event consumer k false false) m.at_record m.at_lock
      → Aparts c s (held a event consumer k true false) m.at_lock m.at_insert
      → Aparts c s (held a event consumer k true true) m.at_insert db
      → IsKept a event consumer k m db
  Aparts-IsKept first second third =
      let one =
        Aparts-Keeps c s (held a event consumer k false false) m.at_record m.at_lock first in
      let two =
        Aparts-Keeps c s (held a event consumer k true false) m.at_lock m.at_insert second in
      let three = Aparts-Keeps c s (held a event consumer k true true) m.at_insert db third in
      record {
        noting = three.noting ∙ two.noting ∙ one.noting;
        locking = λ r f. three.locking refl r (two.locking refl r f);
        inserting = λ f. three.inserting refl f;
      }

  -- Other calls of the programs may commit between the statements of a `Complete`, so long as none of them notes the
  -- same event for the same consumer, nor, once the order's row is locked, completes that order, nor, once the status
  -- event is inserted, inserts an event with its id. Then `Complete` either leaves the tables as it finds them at its
  -- end and returns an error, or does and returns what it would at one stroke in the tables that its end finds.
  pub Aparts-complete :
      Aparts c s (held a event consumer k false false) m.at_record m.at_lock
      → Aparts c s (held a event consumer k true false) m.at_lock m.at_insert
      → Aparts c s (held a event consumer k true true) m.at_insert db
      → let (r, after) = complete_between c s a event consumer k m db in
        ((after ≡ db) × ((x : Postgres.Error) × (r ≡ err x)))
        ⊎ (complete_between c s a event consumer k m db ≡ complete c s a event consumer k db)
  Aparts-complete first second third =
      complete_between-complete c s a event consumer k m db (Aparts-IsKept first second third)
