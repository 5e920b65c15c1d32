-- ===== src/Config.antt =====
-- internal/platform/config/config.go. The environment is an argument, as os.Getenv gives it: an unset variable is
-- an empty text.
use Prim.Native.String.{String}
use wb_orders.Base.{
  ℕ, ◌≡◌, Bool, List, [], ◌∷◌, Option, none, some, length, ◌==◌, Result, ok, err, ◌>>=◌, ◌>>◌,
  fail_if, if◌then◌else◌,
}
use wb_orders.Base.Int.{ℤ, pos, leb_ℤ}
use wb_orders.Base.Text.{Bytes, lit, trim_space, itoa, atoi}
use wb_orders.Database.Inserts.{or_fail}
pub mod Laws

abbrev pub Environment : Type 0
Environment = Bytes → Bytes

-- time.Duration.String and time.ParseDuration, in nanoseconds.
pub record Durations : Type 0 where
  pub text : ℤ → Bytes
  pub parse : Bytes → Option ℤ

-- The variable that is missing or malformed.
pub data Error : Type 0 where
  database_url_required : Error
  no_broker : Error
  not_positive_integer : Bytes → Error
  not_positive_duration : Bytes → Error

pub record Common : Type 0 where
  pub service_name : Bytes
  pub database_url : Bytes
  pub kafka_brokers : List Bytes
  pub log_level : Bytes
  pub health_addr : Bytes

-- `env`; `String` is the same.
unfoldable pub env : Environment → Bytes → Bytes → Bytes
env getenv name fallback =
    let value = trim_space (getenv name) in if length value == 0 then fallback else value

-- `value` is in the part that follows.
abbrev pub extend : ℕ → List Bytes → List Bytes
extend b [] = (b ∷ []) ∷ []
extend b (part ∷ parts) = (b ∷ part) ∷ parts

-- strings.Split(value, ",").
unfoldable pub split : Bytes → List Bytes
split [] = [] ∷ []
split (b ∷ s) = if b == b',' then [] ∷ split s else extend b (split s)

-- The loop over the parts.
unfoldable pub non_empty : List Bytes → List Bytes
non_empty [] = []
non_empty (part ∷ parts) =
    let value = trim_space part in
    if length value == 0 then non_empty parts else value ∷ non_empty parts

unfoldable pub split_non_empty : Bytes → List Bytes
split_non_empty value = non_empty (split value)

unfoldable pub load_common : Environment → Bytes → Bytes → Result Error Common
load_common getenv service_name default_health_addr = do
  let database_url = getenv (lit "DATABASE_URL")
  fail_if (length database_url == 0) database_url_required
  let brokers = split_non_empty (env getenv (lit "KAFKA_BROKERS") (lit "localhost:29092"))
  fail_if (length brokers == 0) no_broker
  ok (record {
    service_name = service_name;
    database_url = database_url;
    kafka_brokers = brokers;
    log_level = env getenv (lit "LOG_LEVEL") (lit "info");
    health_addr = env getenv (lit "HEALTH_ADDR") default_health_addr;
  })

-- `Int`.
unfoldable pub int_setting : Environment → Bytes → ℤ → Result Error ℤ
int_setting getenv name fallback = do
  value ← or_fail (atoi (env getenv name (itoa fallback))) (not_positive_integer name)
  fail_if (leb_ℤ value (pos 0)) (not_positive_integer name)
  ok value

-- `Duration`.
unfoldable pub duration_setting : Environment → Durations → Bytes → ℤ → Result Error ℤ
duration_setting getenv d name fallback = do
  value ← or_fail (d.parse (env getenv name (d.text fallback))) (not_positive_duration name)
  fail_if (leb_ℤ value (pos 0)) (not_positive_duration name)
  ok value
