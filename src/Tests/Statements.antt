-- ===== src/Tests/Statements.antt =====
-- The outbox and its publisher at concrete values.
use wb_orders.Base.{ℕ, ◌+◌, ◌≡◌, refl, false, List, [], ◌∷◌, none, some, arith}
use wb_orders.Base.Text.{Bytes, lit}
use wb_orders.Kafka.{sent}
use wb_orders.Database.{OutboxRow, committed}
use wb_orders.Database.Inserts.{outbox_row}
use wb_orders.Outbox.Postgres.{claimed_of, lease_row, published_row, has_id}
use wb_orders.Outbox.Postgres.Rows.{Statement, claims, publishes, releases, run}
use wb_orders.Outbox.Postgres.Lookup.{find_row}
use wb_orders.Outbox.Postgres.Leases.{IsConsistent, run-IsConsistent, run-final, run-lease}
use wb_orders.Outbox.Publisher.{Topics, Env, World, publish_one}
use wb_orders.Outbox.Publisher.Fate.{Fate, publish_one-Fate}
use wb_orders.Tests.Fixtures.{noon, document, the_event, codec, server}

abbrev pub topics : Topics
topics = record { order_created = lit "orders.created"; order_status_changed = lit "orders.status" }

abbrev row : OutboxRow
row = outbox_row server noon the_event 11 document

abbrev pub one : Bytes
one = lit "publisher-1"

abbrev two : Bytes
two = lit "publisher-2"

-- A lease of two milliseconds.
abbrev pub leased : OutboxRow
leased = lease_row noon one 2_000_000 row

abbrev others : List Statement
others =
    claims committed (λ id. false) (noon + 1_000_000) two 10 2_000_000
    ∷ releases committed (λ text. text) 12 two document noon
    ∷ publishes committed noon 12 two
    ∷ []

run-lease_example : find_row 12 (run others (leased ∷ [])) ≡ some leased
unfolding find_row has_id
run-lease_example =
    run-lease others 12 (leased ∷ []) leased one (noon + 2_000_000) (refl, tt) refl refl refl
      (omega arith, (λ e. ground arith, (λ e. ground arith, tt)))

abbrev done_row : OutboxRow
done_row = published_row noon leased

run-final_example : find_row 12 (run others (done_row ∷ [])) ≡ some done_row
unfolding find_row has_id
run-final_example =
    run-final others 12 (done_row ∷ []) done_row (refl, tt) refl
      (record { stamped = refl; paired = refl; guarded = refl }) refl

run-IsConsistent_example :
    (r' : OutboxRow) × (find_row 12 (run others (row ∷ [])) ≡ some r') × IsConsistent r'
unfolding find_row has_id
run-IsConsistent_example =
    run-IsConsistent others 12 (row ∷ []) row (refl, tt) refl
      (record { stamped = refl; paired = refl; guarded = refl })

abbrev pub first_claim : Statement
first_claim = claims committed (λ id. false) noon one 10 2_000_000

-- A producer that acknowledges, and a store that counts its calls.
abbrev pub env : Env ℕ
env = record {
  repository = record {
    mark_published = λ id owner n. (none, n + 1);
    release = λ id owner message next n. (none, n + 1);
    mark_failed = λ id owner message n. (none, n + 1);
  };
  publish = λ m. sent;
  now = noon;
  uuid_text = λ id. document;
  fault_text = λ fault. document;
}

abbrev world : World ℕ
world = record { store = 0; published = []; counted = [] }

publish_one-Fate_example :
    let (r, after) = publish_one codec topics one env (claimed_of leased) world in
    Fate codec topics one env (claimed_of leased) world r after
publish_one-Fate_example = publish_one-Fate codec topics one env (claimed_of leased) world
