-- ===== src/Base/Text/Runes.antt =====
-- utf8.RuneCountInString: the runes of a text; a byte that begins no well-formed rune counts as one.
use Prim.Native.Nat.{ℕ, zero, suc, ◌≤◌}
use mathlib.Core.Bool.{Bool, ◌&&◌}
use mathlib.Core.List.{List, [], ◌∷◌}
use native.Mathlib.Omega.{arith}
use wb_orders.Base.Tests.{leb, ◌==◌, if◌then◌else◌}
use wb_orders.Base.Lists.{length}

abbrev is_between : ℕ → ℕ → ℕ → Bool
is_between lo hi b = leb lo b && leb b hi

-- The byte at a position; past the end 0, which continues no rune.
byte : List ℕ → ℕ → ℕ
byte [] i = 0
byte (b ∷ s) zero = b
byte (b ∷ s) (suc i) = byte s i

-- The range of the second byte depends on the first: no overlong forms, surrogates or code points
-- past U+10FFFF.
second_fits : ℕ → ℕ → Bool
second_fits a b =
    if a == 0xe0
    then is_between 0xa0 0xbf b
    else if a == 0xed
    then is_between 0x80 0x9f b
    else if a == 0xf0
    then is_between 0x90 0xbf b
    else if a == 0xf4
    then is_between 0x80 0x8f b
    else is_between 0x80 0xbf b

rest_fits : List ℕ → ℕ → Bool
rest_fits s i = is_between 0x80 0xbf (byte s i)

-- The number of bytes that follow the byte `a` in its rune, where `s` comes next.
following : ℕ → List ℕ → ℕ
unfolding byte second_fits rest_fits
following a s =
    if is_between 0xc2 0xdf a && second_fits a (byte s 0)
    then 1
    else if is_between 0xe0 0xef a && second_fits a (byte s 0) && rest_fits s 1
    then 2
    else if is_between 0xf0 0xf4 a && second_fits a (byte s 0) && rest_fits s 1 && rest_fits s 2
    then 3
    else 0

count_from : ℕ → List ℕ → ℕ
count_from skip [] = 0
count_from (suc skip) (a ∷ s) = count_from skip s
count_from zero (a ∷ s) = suc (count_from (following a s) s)

unfoldable pub rune_count : List ℕ → ℕ
unfolding count_from following
rune_count s = count_from 0 s

count_from-le : (skip : ℕ) (s : List ℕ) → count_from skip s ≤ length s
unfolding count_from
count_from-le zero [] = omega arith
count_from-le (suc skip) [] = omega arith
count_from-le (suc skip) (a ∷ s) = omega (arith, count_from-le skip s)
count_from-le zero (a ∷ s) = omega (arith, count_from-le (following a s) s)

-- A text has no more runes than bytes.
pub rune_count-le-length : (s : List ℕ) → rune_count s ≤ length s
unfolding rune_count
rune_count-le-length s = count_from-le 0 s
