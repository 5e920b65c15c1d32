-- ===== src/Consumer/Headers/Lookup.antt =====
-- Which headers are found in a routed record.
use wb_orders.Base.{
  ◌≡◌, ◌≢◌, refl, inl, inr, ◌∙◌, arith, List, [], ◌∷◌, ◌++◌, Bool-cases, true, false, none, some,
  ◌==◌, if◌then◌else◌,
}
use wb_orders.Base.Int.{ℤ}
use wb_orders.Base.Text.{Bytes, bytes_eq, bytes_eq_iff, contains, itoa}
use wb_orders.Kafka.{Header, KafkaRecord}
use wb_orders.Event.{Time, zero_time}
use wb_orders.Consumer.Headers.{
  Clock, attempt_key, failure_reason_key, original_topic_key, not_before_key, find_header,
  header_string, copy_headers_without, truncate, own_keys, delay_header, original_topic, routed,
}

-- A removed key is not found, and a key that stays is found as before.
find_header-copy :
    (key : Bytes) (headers rest : List Header) (excluded : List Bytes)
    → contains key excluded ≡ true
    → find_header key (copy_headers_without headers excluded ++ rest) ≡ find_header key rest
unfolding find_header copy_headers_without
find_header-copy key [] rest excluded h = refl
find_header-copy key (x ∷ headers) rest excluded h =
    ground (arith, bytes_eq_iff x.key key, find_header-copy key headers rest excluded h)

find_header-copy_kept :
    (key : Bytes) (headers rest : List Header) (excluded : List Bytes)
    → contains key excluded ≡ false
    → find_header key rest ≡ none
    → find_header key (copy_headers_without headers excluded ++ rest) ≡ find_header key headers
unfolding find_header copy_headers_without
find_header-copy_kept key [] rest excluded h n = n
find_header-copy_kept key (x ∷ headers) rest excluded h n =
    ground (arith, bytes_eq_iff x.key key, find_header-copy_kept key headers rest excluded h n)

abbrev new_headers : Clock → KafkaRecord → ℤ → Bytes → Time → List Header
new_headers clock source attempt reason t =
    record { key = attempt_key; value = itoa attempt }
    ∷ record { key = failure_reason_key; value = truncate reason 1024 }
    ∷ record { key = original_topic_key; value = original_topic source }
    ∷ delay_header clock t

module _ (clock : Clock) (source : KafkaRecord) (topic : Bytes) (attempt : ℤ) (reason : Bytes)
    (t : Time) where
  pub find_attempt :
      find_header attempt_key (routed clock source topic attempt reason t).headers
      ≡ some (itoa attempt)
  unfolding routed
  find_attempt =
      find_header-copy attempt_key source.headers (new_headers clock source attempt reason t)
        own_keys (unfold contains bytes_eq in refl)
      ∙ (unfold find_header bytes_eq in refl)

  pub find_reason :
      find_header failure_reason_key (routed clock source topic attempt reason t).headers
      ≡ some (truncate reason 1024)
  unfolding routed
  find_reason =
      find_header-copy failure_reason_key source.headers (new_headers clock source attempt reason t)
        own_keys (unfold contains bytes_eq in refl)
      ∙ (unfold find_header bytes_eq in refl)

  pub find_original :
      find_header original_topic_key (routed clock source topic attempt reason t).headers
      ≡ some (original_topic source)
  unfolding routed
  find_original =
      find_header-copy original_topic_key source.headers (new_headers clock source attempt reason t)
        own_keys (unfold contains bytes_eq in refl)
      ∙ (unfold find_header bytes_eq in refl)

  pub find_delay :
      find_header not_before_key (routed clock source topic attempt reason t).headers
      ≡ (if t == zero_time then none else some (clock.format t))
  unfolding routed
  find_delay =
      find_header-copy not_before_key source.headers (new_headers clock source attempt reason t)
        own_keys (unfold contains bytes_eq in refl)
      ∙ elim (Bool-cases (t == zero_time)) [
        | inl none_set ↦ rw none_set (unfold find_header bytes_eq in refl)
        | inr set_time ↦ rw set_time (unfold find_header bytes_eq in refl)
      ]

-- Routing a record, whose topic is not empty, keeps the topic that it came from at first.
pub original_topic-routed :
    (clock : Clock) (source : KafkaRecord) (topic : Bytes) (attempt : ℤ) (reason : Bytes) (t : Time)
    → source.topic ≢ []
    → original_topic (routed clock source topic attempt reason t) ≡ original_topic source
unfolding original_topic header_string
original_topic-routed clock source topic attempt reason t h =
    ground (arith, find_original clock source topic attempt reason t)

find_header-new :
    (clock : Clock) (source : KafkaRecord) (attempt : ℤ) (reason : Bytes) (t : Time) (key : Bytes)
    → contains key own_keys ≡ false
    → find_header key (new_headers clock source attempt reason t) ≡ none
unfolding contains find_header
find_header-new clock source attempt reason t key h = ground arith

-- A header with another key than the four that routing rewrites is found in the routed record as in
-- the source.
pub find_header-routed :
    (clock : Clock) (source : KafkaRecord) (topic : Bytes) (attempt : ℤ) (reason : Bytes) (t : Time)
    (key : Bytes)
    → contains key own_keys ≡ false
    → find_header key (routed clock source topic attempt reason t).headers
      ≡ find_header key source.headers
unfolding routed
find_header-routed clock source topic attempt reason t key h =
    find_header-copy_kept key source.headers (new_headers clock source attempt reason t) own_keys h
      (find_header-new clock source attempt reason t key h)
