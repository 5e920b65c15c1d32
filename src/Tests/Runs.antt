-- ===== src/Tests/Runs.antt =====
-- Runs of the publisher at concrete answers: one that is stopped by a signal, and one whose database does not
-- answer.
use wb_orders.Base.{◌≡◌, refl, true, [], ◌∷◌, none, some}
use wb_orders.Base.Text.{lit}
use wb_orders.Http.{shut_down}
use wb_orders.Shutdown.{root_done, ended, wait, drain}
use wb_orders.Programs.{publisher_topics, database_failed}
use wb_orders.Programs.Clients.{Libraries, open_database, new_producer}
use wb_orders.Programs.Frames.{
  signals, pool, producer, run_context, opened, closed, launched, canceled, acquire, note, leave,
}
use wb_orders.Programs.Run.{
  Launch, publishes, refused, Outside, returned, launch, publisher, outbox_publisher, run,
  exit_code,
}
use wb_orders.Programs.Run.Closing.{Closes, run-Closes}
use wb_orders.Tests.Settings.{twos, durations, publisher_settings, publisher_starts}

abbrev libraries : Libraries
libraries = record {
  parse_config = λ url. none;
  new_pool = λ config. none;
  ping_pool = none;
  new_client = λ options. none;
}

abbrev outside : Outside
outside = record {
  getenv = twos;
  durations = durations;
  libraries = libraries;
  hostname = lit "host";
  new_uuid = lit "1";
  server_end = shut_down none;
  first = root_done;
  arrivals = ended none ∷ ended (some (lit "stopped")) ∷ [];
  root_ended = true;
}

abbrev configuration : Launch
configuration =
    publishes (record {
      owner = lit "host-1";
      topics = publisher_topics twos;
      settings = publisher_settings;
    })

stops : run outbox_publisher outside ≡ (
  returned none,
  closed signals
      ∷ closed pool
      ∷ closed producer
      ∷ closed run_context
      ∷ canceled
      ∷ launched configuration
      ∷ opened run_context
      ∷ opened producer
      ∷ opened pool
      ∷ opened signals
      ∷ [],
)
unfolding run publisher launch acquire note leave open_database new_producer wait drain
stops = rw publisher_starts refl

run-Closes_example :
    let (ending, acts) = run outbox_publisher outside in Closes outside outbox_publisher ending acts
run-Closes_example = run-Closes outside outbox_publisher

abbrev deaf : Outside
deaf = record outside { libraries = record libraries { ping_pool = some (lit "no answer") } }

refuses : run outbox_publisher deaf ≡ (
  returned (some (refused (database_failed (lit "ping database: no answer")))),
  closed signals ∷ closed pool ∷ opened pool ∷ opened signals ∷ [],
)
unfolding run publisher launch acquire note leave open_database
refuses = rw publisher_starts refl

fails : exit_code (run outbox_publisher deaf).0 ≡ some 1
fails = rw refuses refl
