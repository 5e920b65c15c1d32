-- ===== src/Tests/Commits.antt =====
-- A batch of the consumer at concrete values.
use wb_orders.Base.{Option, refl, true, false, [], ◌∷◌, none, here, All}
use wb_orders.Kafka.{KafkaRecord}
use wb_orders.Database.{done}
use wb_orders.WorkerPool.{
  returned, jobs_from, sends, ends, closes, exits, stay, after, Ended, errors_from, error_at,
}
use wb_orders.Consumer.Handler.{Failure}
use wb_orders.Consumer.Run.{Turn, joined, turn, run}
use wb_orders.Consumer.Run.Worlds.{Outside, Grows, Grows-refl, Handles}
use wb_orders.Consumer.Run.Commits.{stays, works, AllSettled, run_commits}
use wb_orders.Tests.Fixtures.{document, codec, server}
use wb_orders.Tests.Completions.{answers, worker, confirmation, confirms}
use wb_orders.Tests.Orders.{stored_db}
use wb_orders.Consumer.Postgres.Once.{complete-keeps}
use wb_orders.Tests.Records.{
  silent, clock, config, texts, env_of, incoming, world, completed_world, completes,
}

abbrev Handling : KafkaRecord → Outside → Option Failure → Outside → Type 0
Handling = Handles codec server clock texts config (λ x. document)

abbrev polled : Turn Outside
polled = record {
  ended = false;
  fetch_errors = [];
  records = incoming ∷ [];
  pool = record {
    queue = [];
    running = [];
    idle = 0;
    written = (record { index = 0; item = incoming }, returned none) ∷ [];
    store = completed_world;
    closed = true;
  };
  commit = none;
}

grows : Grows world completed_world
grows = record {
  notes = λ event consumer h.
      let kept =
        complete-keeps codec server answers 12 worker confirmation stored_db event consumer h in
      rw confirms at kept;
  records = λ x h. h;
}

handles : Handling incoming world none completed_world
handles = record {
  env = env_of silent;
  checked = done;
  answers = answers;
  earlier = λ db. db;
  between = λ db. db;
  before = world;
  after = completed_world;
  result = completes;
  left = Grows-refl completed_world;
  passes = grows;
}

batch_ends : Ended Handling 1 (incoming ∷ []) world polled.pool
unfolding jobs_from
batch_ends = record {
  steps = 4;
  runs =
      after
        (after
          (after (after stay (sends (record { index = 0; item = incoming }) [] 0 refl refl refl)) (
            ends (record { index = 0; item = incoming }) [] none completed_world here handles refl))
          (closes refl refl refl))
        (exits 0 refl refl refl);
  unsent = refl;
  shut = refl;
  unheld = refl;
  exited = refl;
}

run_commits_example :
    All
      (AllSettled codec server clock texts config (λ x. document) 1 completed_world)
      ((incoming ∷ []) ∷ [])
unfolding run turn joined errors_from error_at
run_commits_example =
    run_commits codec server clock texts config (λ x. document) 1 world (polled ∷ [])
      completed_world (works polled [] (Grows-refl world) batch_ends stays)
