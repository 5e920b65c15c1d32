-- ===== src/Tests/Settings.antt =====
-- The settings of the programs, and the ends of their goroutines, at concrete values.
use wb_orders.Base.{
  ℕ, suc, Option, inl, ◌+◌, ◌*◌, ◌≤◌, ◌<◌, ◌≡◌, refl, false, [], ◌∷◌, none, some, ok, arith, here,
}
use wb_orders.Base.Int.{pos, quot, wrap64, ◌+ℤ◌, ◌-ℤ◌, ◌*ℤ◌}
use wb_orders.Base.Text.{Bytes, lit, trim_space, atoi, itoa}
use wb_orders.Config.{
  Environment, Durations, Common, env, split, non_empty, split_non_empty, load_common, int_setting,
  duration_setting,
}
use wb_orders.WorkerPool.{jobs_from}
use wb_orders.WorkerPool.Timed.{
  TimedPool, at_start, timed_started, TimedRuns, begins, goes_on, hands, passes,
}
use wb_orders.Outbox.Publisher.{second, minute}
use wb_orders.Programs.{
  rounds, worst_case_batch, minimum_lease, WorkerSettings, PublisherSettings, start_worker,
  start_publisher, read_worker, database_timeout, rebalance_timeout,
}
use wb_orders.Programs.Budgets.{lease_covers_batch, batch_before_rebalance}
use wb_orders.Shutdown.{one_ended, ended, wait}
use wb_orders.Shutdown.Laws.{Answer, wait-Answer}
use wb_orders.Tests.Publications.{claimed}
use wb_orders.Tests.Records.{incoming}

wait-Answer_example :
    Answer
      (one_ended none)
      (ended (some (lit "broken")) ∷ [])
      false
      (wait (one_ended none) (ended (some (lit "broken")) ∷ []) false)
wait-Answer_example = wait-Answer (one_ended none) (ended (some (lit "broken")) ∷ []) false

-- Every variable is set to "2".
abbrev pub twos : Environment
twos name = lit "2"

-- A parser that gives a minute.
abbrev pub durations : Durations
durations = record { text = λ d. lit "1m"; parse = λ text. some (pos minute) }

abbrev common : Bytes → Common
common name = record {
  service_name = name;
  database_url = lit "2";
  kafka_brokers = lit "2" ∷ [];
  log_level = lit "2";
  health_addr = lit "2";
}

abbrev pub publisher_settings : PublisherSettings
publisher_settings = record {
  common = common (lit "wb-orders-outbox-publisher");
  workers = pos 2;
  batch_size = pos 2;
  poll = pos minute;
  lease = pos minute;
}

pub publisher_starts : start_publisher twos durations ≡ ok publisher_settings
unfolding start_publisher load_common int_setting duration_setting env split_non_empty split
    non_empty trim_space atoi itoa minimum_lease rounds quot wrap64 ◌+ℤ◌ ◌-ℤ◌ ◌*ℤ◌
publisher_starts = refl

-- A handler that only counts.
abbrev Tallies {ℓ} : {A : Type ℓ} → A → ℕ → Option ℕ → ℕ → Type 0
Tallies x n r n' = n' ≡ suc n

abbrev handed : {A : Type 0} → A → ℕ → ℕ → TimedPool A ℕ ℕ
handed x others time = record {
  queue = [];
  running = record { job = record { index = 0; item = x }; round = 1; since = 0 } ∷ [];
  idle = at_start others;
  written = [];
  store = 0;
  now = time;
}

one_event :
    TimedRuns Tallies
      (15 * second)
      (timed_started 2 (claimed ∷ []) 0)
      (handed claimed 0 (10 * second))
unfolding jobs_from
one_event =
    goes_on (goes_on begins (hands (record { index = 0; item = claimed }) [] 0 [] refl here refl))
      (passes (10 * second) (inl refl) (λ e. ground arith) (omega arith, tt) refl)

lease_covers_batch_example : database_timeout + 10 * second ≤ minute
lease_covers_batch_example =
    lease_covers_batch twos durations publisher_settings 2 2 minute Tallies (claimed ∷ []) 0
      (handed claimed 0 (10 * second)) publisher_starts refl refl refl (omega arith) (omega arith)
      (omega arith) one_event

abbrev worker_settings : WorkerSettings
worker_settings = record {
  common = common (lit "wb-orders-worker");
  workers = pos 2;
  batch_size = pos 2;
  max_retries = pos 2;
  processing_timeout = pos minute;
  base_backoff = pos minute;
  max_backoff = pos minute;
}

worker_starts : start_worker twos durations none ≡ ok worker_settings
unfolding start_worker read_worker load_common int_setting duration_setting env split_non_empty
    split non_empty trim_space atoi itoa worst_case_batch rounds quot wrap64 ◌+ℤ◌ ◌-ℤ◌ ◌*ℤ◌
worker_starts = refl

one_record :
    TimedRuns Tallies
      (minute + minute + 15 * second)
      (timed_started 2 (incoming ∷ []) 0)
      (handed incoming 0 (10 * second))
unfolding jobs_from
one_record =
    goes_on (goes_on begins (hands (record { index = 0; item = incoming }) [] 0 [] refl here refl))
      (passes (10 * second) (inl refl) (λ e. ground arith) (omega arith, tt) refl)

batch_before_rebalance_example : 10 * second < rebalance_timeout
batch_before_rebalance_example =
    batch_before_rebalance twos durations none worker_settings 2 2 minute minute Tallies
      (incoming ∷ []) 0 (handed incoming 0 (10 * second)) worker_starts refl refl refl refl
      (omega arith) (omega arith) (omega arith) (omega arith) one_record
