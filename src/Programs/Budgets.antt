-- ===== src/Programs/Budgets.antt =====
-- The time that the settings of a program leave to a batch.
use native.Mathlib.Nat.{lt-mul-div-succ, mul-suc}
use wb_orders.Base.{
  ℕ, zero, suc, ◌+◌, ◌-◌, ◌*◌, ◌/◌, ◌≤◌, ◌<◌, ◌≡◌, refl, inl, inr, arith, Bool-cases, false, length,
  List, ltb, Option, none, some, ok,
}
use wb_orders.Base.Int.{pos, ltb_ℤ, leb_ℤ, max_int64, quot, wrap64-add, wrap64-sub, wrap64-mul}
use wb_orders.Base.Text.{Bytes, lit}
use wb_orders.Config.{Environment, Durations, int_setting}
use wb_orders.Config.Laws.{int_setting-atoi}
use wb_orders.WorkerPool.{Handler, actual_workers}
use wb_orders.WorkerPool.Timed.{TimedPool, timed_started, TimedRuns}
use wb_orders.WorkerPool.Timed.Makespan.{makespan}
use wb_orders.Kafka.{KafkaRecord}
use wb_orders.Outbox.Postgres.{Claimed}
use wb_orders.Outbox.Publisher.{second}
use wb_orders.Programs.{
  rounds, worst_case_batch, worst_case, rebalance_timeout, WorkerSettings, read_worker,
  start_worker, publish_timeout, database_timeout, minimum_lease, PublisherSettings,
  start_publisher,
}

-- How many rounds a full batch takes.
abbrev pub full_rounds : ℕ → ℕ → ℕ
full_rounds b w = (b + w - 1) / w

rounds_exact :
    (b w : ℕ) → 1 ≤ w → b + w ≤ max_int64 → rounds (pos b) (pos w) ≡ pos (full_rounds b w)
unfolding rounds quot
rounds_exact b w some_worker small =
    rw (wrap64-add b w small, wrap64-sub (b + w) 1 (omega arith) small) refl

rounds_enough : (b w : ℕ) → 1 ≤ w → b ≤ w * full_rounds b w
rounds_enough b w some_worker =
    let more = lt-mul-div-succ (b + w - 1) {b = w} (omega arith) in
    omega (arith, mul-suc w (full_rounds b w), more)

le_mul : (n m r : ℕ) → n ≤ m → 1 ≤ r → n ≤ m * r
le_mul n m zero h one_more = absurd (omega (arith, one_more))
le_mul n m (suc r) h one_more = omega (arith, mul-suc m r)

pos_of_mul : (w r : ℕ) → 1 ≤ w * r → 1 ≤ r
pos_of_mul w zero h = omega (arith, h)
pos_of_mul w (suc r) h = omega arith

enough_workers :
    {A : Type 0} (items : List A) (b w : ℕ)
    → 1 ≤ w
    → length items ≤ b
    → length items ≤ actual_workers w items * full_rounds b w
enough_workers items b w some_worker few = elim (Bool-cases (ltb w (length items))) [
  | inl many ↦
      let all : actual_workers w items ≡ w = ground arith in
      let enough = rounds_enough b w some_worker in rw all (omega (arith, enough))
  | inr spare ↦ elim (Bool-cases (ltb 0 (length items))) [
    | inr none_left ↦ ground arith
    | inl some_item ↦
        let one_round =
          pos_of_mul w (full_rounds b w) (ground (arith, rounds_enough b w some_worker)) in
        le_mul (length items) (actual_workers w items) (full_rounds b w) (ground arith) one_round
  ]
]

start_publisher-ok :
    (getenv : Environment) (d : Durations) (s : PublisherSettings)
    → start_publisher getenv d ≡ ok s
    → (int_setting getenv (lit "OUTBOX_WORKERS") (pos 4) ≡ ok s.workers)
      × (ltb_ℤ s.lease (minimum_lease s.batch_size s.workers) ≡ false)
unfolding start_publisher
start_publisher-ok getenv d s h = ground arith

positive : (w : ℕ) → leb_ℤ (pos w) (pos 0) ≡ false → 1 ≤ w
positive w h = ground arith

minimum_lease_exact :
    (b w : ℕ)
    → 1 ≤ w
    → b + w ≤ max_int64
    → full_rounds b w * (publish_timeout + database_timeout) + 5 * second ≤ max_int64
    → minimum_lease (pos b) (pos w)
      ≡ pos (full_rounds b w * (publish_timeout + database_timeout) + 5 * second)
unfolding minimum_lease
minimum_lease_exact b w some_worker small fits =
    rw
      (
        rounds_exact b w some_worker small,
        wrap64-mul (full_rounds b w) (publish_timeout + database_timeout) (omega arith),
        wrap64-add (full_rounds b w * (publish_timeout + database_timeout)) (5 * second) fits,
      )
      refl

-- The lease covers the batch: if the publisher starts with `w` workers, batches of `b` and a lease of `l`
-- nanoseconds, small enough that its test does not overflow an int64, then while the pool works on a batch of
-- at most `b` events, of which each takes at most the time limits of a publication and of a statement, the
-- time since its start stays within the lease, less the five seconds that PendingCount may take before.
pub lease_covers_batch :
    {E S : Type 0} (getenv : Environment) (d : Durations) (s : PublisherSettings) (w b l : ℕ)
    (handles : Handler Claimed E S) (claimed : List Claimed) (store : S) (t : TimedPool Claimed E S)
    → start_publisher getenv d ≡ ok s
    → s.workers ≡ pos w
    → s.batch_size ≡ pos b
    → s.lease ≡ pos l
    → b + w ≤ max_int64
    → full_rounds b w * (publish_timeout + database_timeout) + 5 * second ≤ max_int64
    → length claimed ≤ b
    → TimedRuns handles (publish_timeout + database_timeout) (timed_started w claimed store) t
    → database_timeout + t.now ≤ l
lease_covers_batch getenv d s w b l handles claimed store t started by_w by_b by_l small fits few
      runs =
    let (read, long) = start_publisher-ok getenv d s started in
    let above = (int_setting-atoi getenv (lit "OUTBOX_WORKERS") (pos 4) s.workers).0 read in
    let some_worker = positive w (rw by_w at above.1) in
    let tested = rw (by_l, by_b, by_w, minimum_lease_exact b w some_worker small fits) at long in
    let last =
      makespan handles (publish_timeout + database_timeout) w (full_rounds b w) claimed store t
        (enough_workers claimed b w some_worker few) runs in
    ground arith

start_worker-ok :
    (getenv : Environment) (d : Durations) (opened : Option Bytes) (s : WorkerSettings)
    → start_worker getenv d opened ≡ ok s
    → (read_worker getenv d ≡ ok s) × (leb_ℤ (pos rebalance_timeout) (worst_case s) ≡ false)
unfolding start_worker
start_worker-ok getenv d none s h = ground arith
start_worker-ok getenv d (some x) s h = ground arith

read_worker-ok :
    (getenv : Environment) (d : Durations) (s : WorkerSettings)
    → read_worker getenv d ≡ ok s
    → int_setting getenv (lit "ORDER_WORKERS") (pos 8) ≡ ok s.workers
unfolding read_worker
read_worker-ok getenv d s h = ground arith

worst_case_batch_exact :
    (b w m p : ℕ)
    → 1 ≤ w
    → b + w ≤ max_int64
    → m + p + 15 * second ≤ max_int64
    → full_rounds b w * (m + p + 15 * second) ≤ max_int64
    → worst_case_batch (pos b) (pos w) (pos m) (pos p)
      ≡ pos (full_rounds b w * (m + p + 15 * second))
unfolding worst_case_batch
worst_case_batch_exact b w m p some_worker small each fits =
    rw
      (
        rounds_exact b w some_worker small,
        wrap64-add m p (omega arith),
        wrap64-add (m + p) (15 * second) each,
        wrap64-mul (full_rounds b w) (m + p + 15 * second) fits,
      )
      refl

-- A batch ends before the rebalance: if the worker starts with `w` workers, batches of `b`, a longest back-off of
-- `m` and a processing time limit of `p` nanoseconds, small enough that its test does not overflow an int64,
-- then while the pool works on a batch of at most `b` records, of which each takes at most `m`, `p` and 15
-- seconds together, the time since its start stays below the rebalance timeout.
pub batch_before_rebalance :
    {E S : Type 0} (getenv : Environment) (d : Durations) (opened : Option Bytes)
    (s : WorkerSettings) (w b m p : ℕ) (handles : Handler KafkaRecord E S)
    (records : List KafkaRecord) (store : S) (t : TimedPool KafkaRecord E S)
    → start_worker getenv d opened ≡ ok s
    → s.workers ≡ pos w
    → s.batch_size ≡ pos b
    → s.max_backoff ≡ pos m
    → s.processing_timeout ≡ pos p
    → b + w ≤ max_int64
    → m + p + 15 * second ≤ max_int64
    → full_rounds b w * (m + p + 15 * second) ≤ max_int64
    → length records ≤ b
    → TimedRuns handles (m + p + 15 * second) (timed_started w records store) t
    → t.now < rebalance_timeout
batch_before_rebalance getenv d opened s w b m p handles records store t started by_w by_b by_m by_p
      small each fits few runs =
    let (read, short) = start_worker-ok getenv d opened s started in
    let above =
      (int_setting-atoi getenv (lit "ORDER_WORKERS") (pos 8) s.workers).0
        (read_worker-ok getenv d s read) in
    let some_worker = positive w (rw by_w at above.1) in
    let tested =
      rw (by_b, by_w, by_m, by_p, worst_case_batch_exact b w m p some_worker small each fits) at
        short in
    let last =
      makespan handles (m + p + 15 * second) w (full_rounds b w) records store t
        (enough_workers records b w some_worker few) runs in
    ground arith
