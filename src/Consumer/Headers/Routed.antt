-- ===== src/Consumer/Headers/Routed.antt =====
-- What the consumer that reads a routed record next finds in it.
use wb_orders.Base.{
  ℕ, zero, suc, ◌≡◌, ◌≢◌, ◌≤◌, refl, ap, sym, inl, inr, ◌∙◌, arith, List, [], ◌∷◌, length, take,
  leb, Bool-cases, Option-cases, true, none, some, ◌==◌, ==_iff,
}
use wb_orders.Base.Int.{ℤ, pos, max_int64}
use wb_orders.Base.Text.{Bytes, itoa, atoi-itoa}
use wb_orders.Kafka.{Header, KafkaRecord}
use wb_orders.Event.{Time, zero_time}
use wb_orders.Consumer.Headers.{
  Clock, attempt_key, failure_reason_key, original_topic_key, not_before_key, find_header,
  header_int, header_time, header_string, truncate, original_topic, routed,
}
use wb_orders.Consumer.Headers.Lookup.{find_attempt, find_reason, find_original, find_delay}

-- The topic that a record first came from: the one its header names, or its own if no header names one.
pub data CameFrom (source : KafkaRecord) (topic : Bytes) : Type 0 where
  itself :
      find_header original_topic_key source.headers ≡ none
      → topic ≡ source.topic
      → CameFrom source topic
  unnamed :
      find_header original_topic_key source.headers ≡ some []
      → topic ≡ source.topic
      → CameFrom source topic
  named :
      find_header original_topic_key source.headers ≡ some topic
      → topic ≢ []
      → CameFrom source topic

original_topic-CameFrom : (source : KafkaRecord) → CameFrom source (original_topic source)
unfolding original_topic header_string
original_topic-CameFrom source =
    elim (Option-cases (find_header original_topic_key source.headers)) [
      | inl missing ↦ itself missing (ground arith)
      | inr ([], found) ↦ unnamed found (ground arith)
      | inr (x ∷ xs, found) ↦
          let same : original_topic source ≡ x ∷ xs = ground arith in
          named (found ∙ ap some (sym same)) (λ e. ground arith)
    ]

take-all {ℓ} : {A : Type ℓ} (xs : List A) (n : ℕ) → leb (length xs) n ≡ true → take n xs ≡ xs
take-all [] zero h = refl
take-all [] (suc n) h = refl
take-all (x ∷ xs) zero h = absurd (ground arith)
take-all (x ∷ xs) (suc n) h = ap (λ ys. x ∷ ys) (take-all xs n (ground arith))

truncate-take : (value : Bytes) (n : ℕ) → truncate value n ≡ take n value
unfolding truncate
truncate-take value n = elim (Bool-cases (leb (length value) n)) [
  | inl short ↦ rw (short, take-all value n short) refl
  | inr long ↦ rw long refl
]

header_time-none :
    (clock : Clock) (headers : List Header) (key : Bytes)
    → find_header key headers ≡ none
    → header_time clock headers key ≡ some zero_time
unfolding header_time
header_time-none clock headers key h = rw h refl

header_time-some :
    (clock : Clock) (headers : List Header) (key text : Bytes)
    → find_header key headers ≡ some text
    → header_time clock headers key ≡ clock.parse text
unfolding header_time
header_time-some clock headers key text h = rw h refl

-- The time that a routed record carries is read back, and none is the zero time.
routed_time :
    (clock : Clock) (source : KafkaRecord) (topic : Bytes) (attempt : ℤ) (reason : Bytes) (t : Time)
    → clock.parse (clock.format t) ≡ some t
    → header_time clock (routed clock source topic attempt reason t).headers not_before_key ≡ some t
routed_time clock source topic attempt reason t back =
    let found = find_delay clock source topic attempt reason t in
    elim (Bool-cases (t == zero_time)) [
      | inl none_set ↦
          header_time-none clock _ not_before_key (found ∙ rw none_set refl)
          ∙ ap some (sym ((==_iff t zero_time).0 none_set))
      | inr set_time ↦ header_time-some clock _ not_before_key _ (found ∙ rw set_time refl) ∙ back
    ]

-- A routed record carries its attempt, if it fits an int64.
pub routed_attempt :
    (clock : Clock) (source : KafkaRecord) (topic : Bytes) (n : ℕ) (reason : Bytes) (t : Time)
    → n ≤ max_int64
    → header_int (routed clock source topic (pos n) reason t).headers attempt_key ≡ some (pos n)
unfolding header_int
routed_attempt clock source topic n reason t h =
    rw (find_attempt clock source topic (pos n) reason t) (rw (atoi-itoa n h) (ground arith))

-- A routed record has the key and the value of its source and goes to the topic it is routed to. The
-- consumer that reads it next reads back the attempt, if that fits an int64, the time before which it waits, if
-- time.Parse reads back what Time.Format writes of it, the first 1024 bytes of the reason, and the topic that the
-- source first came from.
pub routed_reads :
    (clock : Clock) (source : KafkaRecord) (topic : Bytes) (n : ℕ) (reason : Bytes) (t : Time)
    → n ≤ max_int64
    → clock.parse (clock.format t) ≡ some t
    → let sent = routed clock source topic (pos n) reason t in
      (sent.topic ≡ topic)
      × (sent.key ≡ source.key)
      × (sent.value ≡ source.value)
      × (header_int sent.headers attempt_key ≡ some (pos n))
      × (header_time clock sent.headers not_before_key ≡ some t)
      × (header_string sent.headers failure_reason_key ≡ take 1024 reason)
      × CameFrom source (header_string sent.headers original_topic_key)
unfolding header_int header_string routed
routed_reads clock source topic n reason t h back = (
  refl,
  refl,
  refl,
  routed_attempt clock source topic n reason t h,
  routed_time clock source topic (pos n) reason t back,
  rw (find_reason clock source topic (pos n) reason t) (truncate-take reason 1024),
  rw (find_original clock source topic (pos n) reason t) (original_topic-CameFrom source),
)

-- The record that carries a source to a topic: with the source's key and value, the attempt as a number and
-- the first 1024 bytes of the reason.
pub record Carries (source : KafkaRecord) (topic : Bytes) (attempt : ℤ) (reason : Bytes)
    (sent : KafkaRecord) : Type 0 where
  pub addressed : sent.topic ≡ topic
  pub keyed : sent.key ≡ source.key
  pub valued : sent.value ≡ source.value
  pub counted : find_header attempt_key sent.headers ≡ some (itoa attempt)
  pub explained : find_header failure_reason_key sent.headers ≡ some (take 1024 reason)

pub routed-Carries :
    (clock : Clock) (source : KafkaRecord) (topic : Bytes) (attempt : ℤ) (reason : Bytes) (t : Time)
    → Carries source topic attempt reason (routed clock source topic attempt reason t)
unfolding routed
routed-Carries clock source topic attempt reason t = record {
  addressed = refl;
  keyed = refl;
  valued = refl;
  counted = find_attempt clock source topic attempt reason t;
  explained = find_reason clock source topic attempt reason t ∙ ap some (truncate-take reason 1024);
}
