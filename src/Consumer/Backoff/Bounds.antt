-- ===== src/Consumer/Backoff/Bounds.antt =====
-- The delay doubles with every attempt up to the maximum, and never wraps.
use native.Mathlib.Nat.{pow-suc}
use wb_orders.Base.{
  ℕ, zero, suc, ◌+◌, ◌*◌, ◌/◌, ◌^◌, ◌≤◌, ◌<◌, min, ◌≡◌, ◌⊎◌, refl, inl, inr, Bool-cases, leb, arith,
}
use wb_orders.Base.Int.{pos, pos_part, ◌-ℤ◌, quot, max_int64, wrap64-mul, sub-pos}
use wb_orders.Consumer.Backoff.{doubled, backoff}

-- The capped value, or the maximum itself where one more nanosecond would reach it.
abbrev pub IsCapped : ℕ → ℕ → ℕ → Type 0
IsCapped value maximum r = (r ≡ min value maximum) ⊎ ((value + 1 ≡ maximum) × (r ≡ maximum))

pow_double : (d n : ℕ) → d * 2 ^ suc n ≡ d * 2 * 2 ^ n
pow_double d n = rw (pow-suc 2 n) (omega arith)

le-mul-pow : (d n : ℕ) → d ≤ d * 2 ^ n
le-mul-pow d zero = omega arith
le-mul-pow d (suc n) = omega (arith, pow_double d n, le-mul-pow (d * 2) n)

IsCapped-reached : (value m : ℕ) → m ≤ value + 1 → IsCapped value m m
IsCapped-reached value m h = elim (Bool-cases (leb m value)) [
  | inl past ↦ inl (ground arith)
  | inr short ↦ inr (ground arith, refl)
]

doubled-IsCapped :
    (n d m : ℕ)
    → d ≤ m
    → m ≤ max_int64
    → (r : ℕ) × (doubled n (pos d) (pos m) ≡ pos r) × IsCapped (d * 2 ^ n) m r
unfolding doubled quot
doubled-IsCapped zero d m h b =
    (d, ground arith, inl (let e : d * 2 ^ 0 ≡ d = omega arith in omega arith))
doubled-IsCapped (suc n) d m h b = elim (Bool-cases (leb (m / 2) d)) [
  | inl reached ↦ (
    m,
    ground arith,
    IsCapped-reached (d * 2 ^ suc n) m (
        let half : m / 2 ≤ d = ground arith in omega (arith, pow_double d n, le-mul-pow (d * 2) n)),
  )
  | inr below ↦
      let half : d < m / 2 = ground arith in
      let (r, e, capped) = doubled-IsCapped n (d * 2) m (omega arith) b in
      (r, ground (arith, wrap64-mul d 2), rw (pow_double d n) capped)
]

IsCapped-above : (b m n r : ℕ) → m ≤ b → IsCapped (m * 2 ^ n) m r → IsCapped (b * 2 ^ n) m r
IsCapped-above b m n r h capped = inl (omega (arith, le-mul-pow m n, le-mul-pow b n))

-- The delay before the attempt `n + 1` is the base doubled `n` times, or the maximum if that is less;
-- where the doubled base is one nanosecond short of the maximum, it may be the maximum. It never wraps,
-- for a maximum that fits an int64.
pub backoff-IsCapped :
    (n b m : ℕ)
    → m ≤ max_int64
    → (r : ℕ) × (backoff (pos (suc n)) (pos b) (pos m) ≡ pos r) × IsCapped (b * 2 ^ n) m r
unfolding backoff
backoff-IsCapped n b m h =
    let rounds : pos_part (pos (suc n) -ℤ pos 1) ≡ n =
      rw (sub-pos (suc n) 1 (omega arith)) (omega arith) in
    rw rounds (elim (Bool-cases (leb b m)) [
      | inl small ↦
          let (r, e, capped) = doubled-IsCapped n b m (ground arith) h in (r, ground arith, capped)
      | inr large ↦
          let (r, e, capped) = doubled-IsCapped n m m (omega arith) h in
          (r, ground arith, IsCapped-above b m n r (ground arith) capped)
    ])
