-- ===== src/Consumer/Backoff.antt =====
-- `backoff` of internal/consumer/consumer.go. Durations are int64 numbers of nanoseconds.
use wb_orders.Base.{ℕ, zero, suc, if◌then◌else◌}
use wb_orders.Base.Int.{ℤ, pos, pos_part, ◌*ℤ◌, ◌-ℤ◌, leb_ℤ, quot, wrap64}
pub mod Bounds

abbrev pub min_ℤ : ℤ → ℤ → ℤ
min_ℤ a b = if leb_ℤ a b then a else b

-- `rounds` rounds of the loop are left.
unfoldable pub doubled : ℕ → ℤ → ℤ → ℤ
doubled zero delay maximum = min_ℤ delay maximum
doubled (suc rounds) delay maximum =
    let more = doubled rounds (wrap64 (delay *ℤ pos 2)) maximum in
    if leb_ℤ (quot maximum (pos 2)) delay then maximum else more

-- `for i := 1; i < attempt; i++` has attempt - 1 rounds, or none.
unfoldable pub backoff : ℤ → ℤ → ℤ → ℤ
backoff attempt base maximum = doubled (pos_part (attempt -ℤ pos 1)) (min_ℤ base maximum) maximum
