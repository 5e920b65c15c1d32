-- ===== src/Logging.antt =====
-- internal/platform/logging/logging.go: the level of the log. strings.ToLower is applied to the ASCII letters:
-- no other character lowers to a letter of the three words.
use wb_orders.Base.{ℕ, ◌+◌, ◌&&◌, ◌≡◌, [], ◌∷◌, map, leb, if◌then◌else◌, refl, arith}
use wb_orders.Base.Text.{Bytes, lit, bytes_eq}

-- The levels of log/slog.
pub data Level : Type 0 where
  debug info warn error : Level

abbrev pub lower : ℕ → ℕ
lower b = if leb 65 b && leb b 90 then b + 32 else b

abbrev pub to_lower : Bytes → Bytes
to_lower = map lower

-- The switch of `New`.
unfoldable pub level_of : Bytes → Level
level_of text =
    let t = to_lower text in
    if bytes_eq t (lit "debug")
    then debug
    else if bytes_eq t (lit "warn")
    then warn
    else if bytes_eq t (lit "error")
    then error
    else info

lower_twice : (b : ℕ) → lower (lower b) ≡ lower b
lower_twice b = ground arith

to_lower_twice : (t : Bytes) → to_lower (to_lower t) ≡ to_lower t
to_lower_twice [] = refl
to_lower_twice (b ∷ t) = ground (arith, lower_twice b, to_lower_twice t)

-- The level does not depend on the case of its name.
pub level_of-to_lower : (t : Bytes) → level_of (to_lower t) ≡ level_of t
unfolding level_of
level_of-to_lower t = rw (to_lower_twice t) refl
