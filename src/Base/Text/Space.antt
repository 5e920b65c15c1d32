-- ===== src/Base/Text/Space.antt =====
-- strings.TrimSpace over the bytes of a UTF-8 text: the white space of Unicode, as encoded.
pub mod Trimmed
use Prim.Native.Nat.{ℕ, zero, suc}
use mathlib.Core.Bool.{Bool, true, false, ◌&&◌, ◌||◌}
use mathlib.Core.List.{List, [], ◌∷◌, reverse}
use wb_orders.Base.Tests.{leb, ◌==◌, if◌then◌else◌}

-- Tab to carriage return, and the blank.
abbrev is_space1 : ℕ → Bool
is_space1 a = leb 9 a && leb a 13 || a == 32

-- U+0085 and U+00A0.
abbrev is_space2 : ℕ → ℕ → Bool
is_space2 a b = a == 0xc2 && (b == 0x85 || b == 0xa0)

-- U+1680, U+2000 to U+200A, U+2028, U+2029, U+202F, U+205F and U+3000.
abbrev is_space3 : ℕ → ℕ → ℕ → Bool
is_space3 a b c =
    a == 0xe1 && b == 0x9a && c == 0x80
    || a == 0xe2
      && (b == 0x80 && (leb 0x80 c && leb c 0x8a || c == 0xa8 || c == 0xa9 || c == 0xaf)
          || b == 0x81 && c == 0x9f)
    || a == 0xe3 && b == 0x80 && c == 0x80

-- The number of bytes of the white space at the front, 0 if there is none.
space_front : List ℕ → ℕ
space_front [] = 0
space_front (a ∷ []) = if is_space1 a then 1 else 0
space_front (a ∷ b ∷ []) = if is_space1 a then 1 else if is_space2 a b then 2 else 0
space_front (a ∷ b ∷ c ∷ s) =
    if is_space1 a then 1 else if is_space2 a b then 2 else if is_space3 a b c then 3 else 0

-- The same, of a text that is read from its end.
space_back : List ℕ → ℕ
space_back [] = 0
space_back (a ∷ []) = if is_space1 a then 1 else 0
space_back (b ∷ a ∷ []) = if is_space1 b then 1 else if is_space2 a b then 2 else 0
space_back (c ∷ b ∷ a ∷ s) =
    if is_space1 c then 1 else if is_space2 b c then 2 else if is_space3 a b c then 3 else 0

-- `skip` bytes of the current white space are still to be dropped.
strip : (List ℕ → ℕ) → ℕ → List ℕ → List ℕ
strip front skip [] = []
strip front (suc skip) (a ∷ s) = strip front skip s
strip front zero (a ∷ s) = elim (front (a ∷ s)) [ zero ↦ a ∷ s | suc more ↦ strip front more s ]

unfoldable pub trim_space : List ℕ → List ℕ
unfolding strip space_front space_back
trim_space s = reverse (strip space_back 0 (reverse (strip space_front 0 s)))

abbrev is_empty : List ℕ → Bool
is_empty [] = true
is_empty (a ∷ s) = false

-- `strings.TrimSpace(s) == ""`.
unfoldable pub is_blank : List ℕ → Bool
unfolding trim_space
is_blank s = is_empty (trim_space s)
