-- ===== src/Consumer/Headers.antt =====
-- The headers of a Kafka record and how internal/consumer/consumer.go reads and rewrites them.
use Prim.Native.String.{String}
use wb_orders.Base.{
  ℕ, ◌≡◌, Bool, length, take, List, [], ◌∷◌, ◌++◌, Option, none, some, leb, ◌==◌, Result, ok, err,
  if◌then◌else◌,
}
use wb_orders.Base.Int.{ℤ, pos, ltb_ℤ}
use wb_orders.Base.Text.{Bytes, lit, bytes_eq, contains, atoi, itoa}
use wb_orders.Event.{Time, zero_time}
use wb_orders.Kafka.{Header, KafkaRecord}
pub mod Lookup
pub mod Routed

abbrev pub attempt_key : Bytes
attempt_key = lit "attempt"

abbrev pub failure_reason_key : Bytes
failure_reason_key = lit "failure_reason"

abbrev pub original_topic_key : Bytes
original_topic_key = lit "original_topic"

abbrev pub not_before_key : Bytes
not_before_key = lit "not_before"

-- time.Parse and Time.Format at RFC 3339 with nanoseconds, in UTC.
pub record Clock : Type 0 where
  pub parse : Bytes → Option Time
  pub format : Time → Bytes

-- The loop that the three readers share: the value of the first header with the key.
unfoldable pub find_header : Bytes → List Header → Option Bytes
find_header key [] = none
find_header key (h ∷ rest) = if bytes_eq h.key key then some h.value else find_header key rest

abbrev parsed_int : Option ℤ → Option ℤ
parsed_int none = none
parsed_int (some z) = if ltb_ℤ z (pos 0) then none else some z

abbrev int_value : Option Bytes → Option ℤ
int_value none = some (pos 0)
int_value (some text) = parsed_int (atoi text)

-- `headerInt`: 0 if there is no such header, `none` for its error.
unfoldable pub header_int : List Header → Bytes → Option ℤ
header_int headers key = int_value (find_header key headers)

abbrev time_value : Clock → Option Bytes → Option Time
time_value clock none = some zero_time
time_value clock (some text) = clock.parse text

-- `headerTime`: the zero time if there is no such header, `none` for its error.
unfoldable pub header_time : Clock → List Header → Bytes → Option Time
header_time clock headers key = time_value clock (find_header key headers)

abbrev string_value : Option Bytes → Bytes
string_value none = []
string_value (some text) = text

-- `headerString`: empty if there is no such header.
unfoldable pub header_string : List Header → Bytes → Bytes
header_string headers key = string_value (find_header key headers)

-- `copyHeadersWithout`.
unfoldable pub copy_headers_without : List Header → List Bytes → List Header
copy_headers_without [] excluded = []
copy_headers_without (h ∷ rest) excluded =
    if contains h.key excluded
    then copy_headers_without rest excluded
    else h ∷ copy_headers_without rest excluded

unfoldable pub truncate : Bytes → ℕ → Bytes
truncate value limit = if leb (length value) limit then value else take limit value

-- The headers that `route` sends: those of the source but for its own four, then the new values; no
-- not_before if the time is zero.
abbrev pub own_keys : List Bytes
own_keys = attempt_key ∷ failure_reason_key ∷ not_before_key ∷ original_topic_key ∷ []

abbrev pub delay_header : Clock → Time → List Header
delay_header clock t =
    if t == zero_time then [] else record { key = not_before_key; value = clock.format t } ∷ []

-- The topic that a record was first sent to.
unfoldable pub original_topic : KafkaRecord → Bytes
original_topic source =
    let named = header_string source.headers original_topic_key in
    if length named == 0 then source.topic else named

-- The record that `route` publishes.
unfoldable pub routed : Clock → KafkaRecord → Bytes → ℤ → Bytes → Time → KafkaRecord
routed clock source topic attempt reason not_before = record {
  topic = topic;
  key = source.key;
  value = source.value;
  headers =
      copy_headers_without source.headers own_keys
      ++ record { key = attempt_key; value = itoa attempt }
        ∷ record { key = failure_reason_key; value = truncate reason 1024 }
        ∷ record { key = original_topic_key; value = original_topic source }
        ∷ delay_header clock not_before;
}
