-- ===== src/Base/Text/Decimal.antt =====
-- strconv.Itoa and strconv.Atoi.
use Prim.Native.Nat.{ℕ, zero, suc, ◌+◌, ◌-◌, ◌*◌, ◌/◌, ◌%◌, ◌^◌, ◌≤◌, ◌<◌}
use mathlib.Core.Path.{◌≡◌, refl, ap, sym, ◌∙◌}
use mathlib.Core.Logic.{inl, inr}
use mathlib.Core.Bool.{Bool, ◌&&◌}
use mathlib.Core.List.{List, [], ◌∷◌}
use mathlib.Core.Option.{Option, none, some}
use native.Mathlib.Nat.{pow-suc}
use native.Mathlib.Omega.{arith}
use wb_orders.Base.Tests.{ltb, leb, ◌==◌, if◌then◌else◌, Bool-cases}
use wb_orders.Base.Int.{ℤ, pos, negsuc, max_int64}

-- The decimal digits of `n` before `acc`; `suc f` digits are room for any `n < 10 ^ suc f`.
decimal : ℕ → ℕ → List ℕ → List ℕ
decimal zero n acc = (48 + n % 10) ∷ acc
decimal (suc f) n acc =
    let more = decimal f (n / 10) ((48 + n % 10) ∷ acc) in if ltb n 10 then (48 + n) ∷ acc else more

-- An int64 has at most 19 digits.
natural : ℕ → List ℕ
unfolding decimal
natural n = decimal 19 n []

natural_lem : (n : ℕ) → natural n ≡ decimal 19 n []
unfolding natural
natural_lem n = refl

unfoldable pub itoa : ℤ → List ℕ
unfolding natural
itoa (pos n) = natural n
itoa (negsuc n) = b'-' ∷ natural (suc n)

itoa_pos : (n : ℕ) → itoa (pos n) ≡ natural n
unfolding itoa
itoa_pos n = refl

abbrev is_digit : ℕ → Bool
is_digit c = leb b'0' c && leb c b'9'

-- The number that digits stand for, behind a prefix of value `v`; `none` on any other byte.
digits_value : ℕ → List ℕ → Option ℕ
digits_value v [] = some v
digits_value v (c ∷ s) = if is_digit c then digits_value (v * 10 + (c - 48)) s else none

at_most : ℕ → (ℕ → ℤ) → Option ℕ → Option ℤ
at_most bound sign none = none
at_most bound sign (some v) = if leb v bound then some (sign v) else none

negative : ℕ → ℤ
negative zero = pos 0
negative (suc n) = negsuc n

-- At least one digit, and a value in the range of int64.
unsigned : ℕ → (ℕ → ℤ) → List ℕ → Option ℤ
unsigned bound sign [] = none
unsigned bound sign (c ∷ s) = at_most bound sign (digits_value 0 (c ∷ s))

unfoldable pub atoi : List ℕ → Option ℤ
unfolding at_most negative unsigned digits_value
atoi [] = none
atoi (c ∷ s) =
    if c == b'-'
    then unsigned (max_int64 + 1) negative s
    else if c == b'+'
    then unsigned max_int64 pos s
    else unsigned max_int64 pos (c ∷ s)

digits_value-digit :
    (v d : ℕ) (s : List ℕ) → d < 10 → digits_value v ((48 + d) ∷ s) ≡ digits_value (v * 10 + d) s
unfolding digits_value
digits_value-digit v d s h = let e : 48 + d - 48 ≡ d = omega arith in rw e (ground arith)

digits_value-decimal :
    (f n : ℕ) (acc : List ℕ)
    → n < 10 ^ suc f
    → digits_value 0 (decimal f n acc) ≡ digits_value n acc
unfolding decimal
digits_value-decimal zero n acc h =
    digits_value-digit 0 (n % 10) acc (omega arith)
    ∙ ap (λ v. digits_value v acc) (let small : n < 10 = h in omega arith)
digits_value-decimal (suc f) n acc h = elim (Bool-cases (ltb n 10)) [
  | inl small ↦
      rw small
        (digits_value-digit 0 n acc (ground arith) ∙ ap (λ v. digits_value v acc) (omega arith))
  | inr large ↦ rw large (
      digits_value-decimal f (n / 10) ((48 + n % 10) ∷ acc) (omega (arith, pow-suc 10 (suc f)))
      ∙ digits_value-digit (n / 10) (n % 10) acc (omega arith)
      ∙ ap (λ v. digits_value v acc) (omega arith))
]

decimal_head :
    (f n : ℕ) (acc : List ℕ)
    → (c : ℕ) × (s : List ℕ) × (decimal f n acc ≡ c ∷ s) × (48 ≤ c) × (c ≤ 57)
unfolding decimal
decimal_head zero n acc = (48 + n % 10, acc, refl, omega arith, omega arith)
decimal_head (suc f) n acc = elim (Bool-cases (ltb n 10)) [
  | inl small ↦ rw small (48 + n, acc, refl, omega arith, ground arith)
  | inr large ↦ rw large (decimal_head f (n / 10) ((48 + n % 10) ∷ acc))
]

unsigned_of_digits :
    (c : ℕ) (s : List ℕ) (n : ℕ)
    → digits_value 0 (c ∷ s) ≡ some n
    → n ≤ max_int64
    → unsigned max_int64 pos (c ∷ s) ≡ some (pos n)
unfolding unsigned at_most
unsigned_of_digits c s n e h = rw e (ground arith)

atoi_of_digits :
    (c : ℕ) (s : List ℕ) → 48 ≤ c → c ≤ 57 → atoi (c ∷ s) ≡ unsigned max_int64 pos (c ∷ s)
unfolding atoi
atoi_of_digits c s lo hi = ground arith

natural_head : (n : ℕ) → (c : ℕ) × (s : List ℕ) × (natural n ≡ c ∷ s) × (48 ≤ c) × (c ≤ 57)
natural_head n = rw (natural_lem n) (decimal_head 19 n [])

digits_value-natural : (n : ℕ) → n ≤ max_int64 → digits_value 0 (natural n) ≡ some n
unfolding digits_value
digits_value-natural n h = rw (natural_lem n) (digits_value-decimal 19 n [] (omega arith))

-- What Itoa writes of an int64 that is not negative, Atoi reads back.
pub atoi-itoa : (n : ℕ) → n ≤ max_int64 → atoi (itoa (pos n)) ≡ some (pos n)
atoi-itoa n h =
    let (c, s, e, lo, hi) = natural_head n in
    ap atoi (itoa_pos n ∙ e)
    ∙ atoi_of_digits c s lo hi
    ∙ unsigned_of_digits c s n (ap (digits_value 0) (sym e) ∙ digits_value-natural n h) h
