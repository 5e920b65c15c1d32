-- ===== src/Base/Text/Space/Trimmed.antt =====
-- A trimmed text is trimmed already.
use Prim.Native.Nat.{ℕ, zero, suc}
use mathlib.Core.Path.{◌≡◌, refl, sym, ap, ◌∙◌}
use mathlib.Core.Logic.{◌⊎◌, ◌≢◌, inl, inr}
use mathlib.Core.Bool.{true, false}
use mathlib.Core.List.{List, [], ◌∷◌, ◌++◌, reverse, reverse-reverse, reverse-append}
use native.Mathlib.Omega.{arith}
use wb_orders.Base.Text.Space.{space_front, space_back, strip, trim_space, is_empty, is_blank}

number_cases : (n : ℕ) → (n ≡ zero) ⊎ ((k : ℕ) × (n ≡ suc k))
number_cases zero = inl refl
number_cases (suc k) = inr (k, refl)

strip_stops :
    (front : List ℕ → ℕ) (skip : ℕ) (s : List ℕ)
    → (strip front skip s ≡ []) ⊎ (front (strip front skip s) ≡ zero)
unfolding strip
strip_stops front skip [] = inl refl
strip_stops front (suc skip) (a ∷ s) = strip_stops front skip s
strip_stops front zero (a ∷ s) = elim (number_cases (front (a ∷ s))) [
  | inl stop ↦ inr (rw (stop, strip) stop)
  | inr (k, more) ↦ rw (more, strip) (strip_stops front k s)
]

strip-of_front : (front : List ℕ → ℕ) (s : List ℕ) → front s ≡ zero → strip front zero s ≡ s
unfolding strip
strip-of_front front [] h = refl
strip-of_front front (a ∷ s) h = rw (h, strip)

-- What is stripped is a suffix.
strip_suffix :
    (front : List ℕ → ℕ) (skip : ℕ) (s : List ℕ)
    → (dropped : List ℕ) × (s ≡ dropped ++ strip front skip s)
unfolding strip
strip_suffix front skip [] = ([], refl)
strip_suffix front (suc skip) (a ∷ s) =
    let (dropped, e) = strip_suffix front skip s in (a ∷ dropped, ap (λ t. a ∷ t) e)
strip_suffix front zero (a ∷ s) = elim (number_cases (front (a ∷ s))) [
  | inl stop ↦ ([], rw (stop, strip) refl)
  | inr (k, more) ↦
      let (dropped, e) = strip_suffix front k s in
      (a ∷ dropped, rw (more, strip) (ap (λ t. a ∷ t) e))
]

space_front_prefix : (s rest : List ℕ) → space_front (s ++ rest) ≡ zero → space_front s ≡ zero
unfolding space_front
space_front_prefix [] rest h = refl
space_front_prefix (a ∷ []) [] h = h
space_front_prefix (a ∷ []) (b ∷ []) h = ground arith
space_front_prefix (a ∷ []) (b ∷ c ∷ rest) h = ground arith
space_front_prefix (a ∷ b ∷ []) [] h = h
space_front_prefix (a ∷ b ∷ []) (c ∷ rest) h = ground arith
space_front_prefix (a ∷ b ∷ c ∷ s) rest h = h

front_stops : (s : List ℕ) → space_front (strip space_front zero s) ≡ zero
unfolding space_front
front_stops s = elim (strip_stops space_front zero s) [
  | inl none_left ↦ rw none_left
  | inr stop ↦ stop
]

back_stops : (s : List ℕ) → space_back (strip space_back zero s) ≡ zero
unfolding space_back
back_stops s = elim (strip_stops space_back zero s) [
  | inl none_left ↦ rw none_left
  | inr stop ↦ stop
]

-- A trimmed text has no white space at its front.
trim_space_front : (s : List ℕ) → space_front (trim_space s) ≡ zero
unfolding trim_space
trim_space_front s =
    let u = strip space_front zero s in
    let (dropped, e) = strip_suffix space_back zero (reverse u) in
    let shape : u ≡ trim_space s ++ reverse dropped =
      sym (reverse-reverse u)
      ∙ ap reverse e
      ∙ reverse-append dropped (strip space_back zero (reverse u)) in
    space_front_prefix (trim_space s) (reverse dropped) (rw shape at (front_stops s))

pub trim_space-trim_space : (s : List ℕ) → trim_space (trim_space s) ≡ trim_space s
unfolding trim_space
trim_space-trim_space s =
    let v = strip space_back zero (reverse (strip space_front zero s)) in
    rw
      (
        strip-of_front space_front (reverse v) (trim_space_front s),
        reverse-reverse v,
        strip-of_front space_back v (back_stops (reverse (strip space_front zero s))),
      )
      refl

-- A trimmed text that is not empty is not blank.
pub is_blank-trim_space : (s : List ℕ) → trim_space s ≢ [] → is_blank (trim_space s) ≡ false
unfolding is_blank
is_blank-trim_space s h = rw (trim_space-trim_space s) (not_empty (trim_space s) h)
  where
    not_empty : (t : List ℕ) → t ≢ [] → is_empty t ≡ false
    not_empty [] n = absurd (n refl)
    not_empty (a ∷ t) n = refl

pub trim_space-of_is_blank : (s : List ℕ) → is_blank s ≡ true → trim_space s ≡ []
unfolding is_blank
trim_space-of_is_blank s h = empty (trim_space s) h
  where
    empty : (t : List ℕ) → is_empty t ≡ true → t ≡ []
    empty [] e = refl
    empty (a ∷ t) e = cc
