-- ===== src/Consumer/Handler/Retries.antt =====
-- A record is tried again a bounded number of times.
use wb_orders.Base.{
  ℕ, suc, zero, ◌+◌, ◌≡◌, ◌≢◌, ◌≤◌, ◌<◌, refl, ap, ◌∙◌, arith, some, ok, List, ◌∷◌, length,
}
use wb_orders.Base.Int.{ℤ, pos, wrap64-add, max_int64}
use wb_orders.Base.Text.{Bytes}
use wb_orders.Kafka.{KafkaRecord}
use wb_orders.Event.{Time, zero_time}
use wb_orders.Json.{Codec}
use wb_orders.Consumer.Headers.{Clock, attempt_key, header_int, routed}
use wb_orders.Consumer.Headers.Routed.{routed_attempt}
use wb_orders.Consumer.Handler.{Config, Texts, Env, World, process_record, add_duration}
use wb_orders.Consumer.Backoff.{backoff}
use wb_orders.Consumer.Handler.Fate.{Fate, repeats, completes, retries, buries, process_record-Fate}

routed_topic :
    (clock : Clock) (source : KafkaRecord) (topic : Bytes) (attempt : ℤ) (reason : Bytes) (t : Time)
    → (routed clock source topic attempt reason t).topic ≡ topic
unfolding routed
routed_topic clock source topic attempt reason t = refl

list_head :
    {l : List KafkaRecord} {x y : KafkaRecord} {xs ys : List KafkaRecord}
    → l ≡ x ∷ xs
    → l ≡ y ∷ ys
    → x ≡ y
list_head p q = cc

module _ (S : Type 0) (c : Codec) (clock : Clock) (texts : Texts) (config : Config) where
  -- A handling of `source`, in any surroundings, that publishes `out` to the retry topic.
  pub data Retried (source out : KafkaRecord) : Type 0 where
    again :
        (env : Env S) (before after : World S)
        → process_record c clock texts config env source before ≡ (ok tt, after)
        → after.published ≡ out ∷ before.published
        → out.topic ≡ config.retry_topic
        → Retried source out

  -- `n` retries in a row, each of the record that the one before has published.
  pub data Chain (first : KafkaRecord) : ℕ → KafkaRecord → Type 0 where
    start : Chain first zero first
    step :
        {n : ℕ} {mid last : KafkaRecord}
        → Chain first n mid
        → Retried mid last
        → Chain first (suc n) last

  Fate-attempt :
      (env : Env S) (a most : ℕ) (source out : KafkaRecord) (before after : World S)
      → config.max_retries ≡ pos most
      → config.retry_topic ≢ config.dlq_topic
      → a + 1 ≤ max_int64
      → header_int source.headers attempt_key ≡ some (pos a)
      → after.published ≡ out ∷ before.published
      → out.topic ≡ config.retry_topic
      → Fate c clock texts config env source before after
      → (header_int out.headers attempt_key ≡ some (pos (a + 1))) × (a + 1 ≤ most)
  Fate-attempt env a most source out before after m apart b h p t (repeats _ _ _ _ same _) =
      absurd (omega (arith, ap length p, ap length same))
  Fate-attempt env a most source out before after m apart b h p t
        (completes _ _ _ _ _ _ _ _ _ _ _ _ same _) =
      absurd (omega (arith, ap length p, ap length same))
  Fate-attempt env a most source out before after m apart b h p t
        (buries attempt reason shape _ _) =
      let topic = routed_topic clock source config.dlq_topic attempt reason zero_time in
      absurd (apart (ground arith))
  Fate-attempt env a most source out before after m apart b h p t
        (retries attempt next cause read up within shape _ _) =
      let late : Time =
        add_duration env.now_retry (backoff (pos (a + 1)) config.base_backoff config.max_backoff) in
      let same : attempt ≡ pos a = ground arith in
      let number : next ≡ pos (a + 1) = up ∙ rw same (wrap64-add a 1 b) in
      let reads = routed_attempt clock source config.retry_topic (a + 1) cause late b in
      let sent = list_head p shape in (rw (sent, number) reads, ground arith)

  Retried-attempt :
      (a most : ℕ) (source out : KafkaRecord)
      → config.max_retries ≡ pos most
      → config.retry_topic ≢ config.dlq_topic
      → a + 1 ≤ max_int64
      → header_int source.headers attempt_key ≡ some (pos a)
      → Retried source out
      → (header_int out.headers attempt_key ≡ some (pos (a + 1))) × (a + 1 ≤ most)
  Retried-attempt a most source out m apart b h (again env before after handled p t) =
      Fate-attempt env a most source out before after m apart b h p t
        (process_record-Fate c clock texts config env source before after handled)

  -- A record whose header counts `a` attempts, of at most `max_retries`, is sent to the retry topic at most
  -- `max_retries - a` times in a row, whatever the surroundings do, and the header counts each retry: after
  -- `n` of them it counts `a + n`. The retry topic is not the dead letter topic, and `max_retries` is below
  -- the largest int64.
  pub Chain-attempt :
      (a most : ℕ) (first : KafkaRecord) (n : ℕ) (last : KafkaRecord)
      → config.max_retries ≡ pos most
      → config.retry_topic ≢ config.dlq_topic
      → most < max_int64
      → a ≤ most
      → header_int first.headers attempt_key ≡ some (pos a)
      → Chain first n last
      → (header_int last.headers attempt_key ≡ some (pos (a + n))) × (a + n ≤ most)
  Chain-attempt a most first _ last m apart b le h start = (ground arith, omega arith)
  Chain-attempt a most first _ last m apart b le h (step {n} {mid} chain one) =
      let (at_mid, below) = Chain-attempt a most first n mid m apart b le h chain in
      let (at_last, within) =
        Retried-attempt (a + n) most mid last m apart (omega arith) at_mid one in
      let count : a + n + 1 ≡ a + suc n = omega arith in (rw (← count) at_last, omega arith)
