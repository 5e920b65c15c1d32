-- ===== src/Config/Laws.antt =====
-- What the settings of the environment come to.
use wb_orders.Base.{
  ℕ, ◌≤◌, ◌≡◌, ◌≢◌, ◌⊎◌, ◌↔◌, refl, ap, sym, ◌∙◌, inl, inr, arith, false, List, [], ◌∷◌, ◌++◌, some,
  length, ◌==◌, ok, All, if◌then◌else◌,
}
use wb_orders.Base.Int.{ℤ, pos, max_int64, leb_ℤ}
use wb_orders.Base.Text.{Bytes, trim_space, itoa, atoi, atoi-itoa}
use wb_orders.Config.{Environment, env, split, non_empty, split_non_empty, int_setting}

-- A broker's address: trimmed, not empty, without a comma.
pub record IsPart (part : Bytes) : Type 0 where
  pub trimmed : trim_space part ≡ part
  pub visible : part ≢ []
  pub whole : All (λ b. b ≢ b',') part

abbrev pub join : List Bytes → Bytes
join [] = []
join (part ∷ []) = part
join (part ∷ next ∷ parts) = part ++ b',' ∷ join (next ∷ parts)

split-append :
    (part s : Bytes) → All (λ b. b ≢ b',') part → split (part ++ b',' ∷ s) ≡ part ∷ split s
unfolding split
split-append [] s h = refl
split-append (b ∷ part) s h = ground (arith, split-append part s h.1)

split-part : (part : Bytes) → All (λ b. b ≢ b',') part → split part ≡ part ∷ []
unfolding split
split-part [] h = refl
split-part (b ∷ part) h = ground (arith, split-part part h.1)

non_empty-cons :
    (part : Bytes) (parts : List Bytes)
    → IsPart part
    → non_empty (part ∷ parts) ≡ part ∷ non_empty parts
unfolding non_empty
non_empty-cons [] parts v = absurd (v.visible refl)
non_empty-cons (b ∷ part) parts v = ground (arith, v.trimmed)

-- A list of addresses that are trimmed, not empty and free of commas is read back from the text that joins them
-- with commas.
pub split_non_empty-join :
    (parts : List Bytes) → All IsPart parts → split_non_empty (join parts) ≡ parts
unfolding split_non_empty
split_non_empty-join [] h = unfold split in unfold non_empty in unfold trim_space in refl
split_non_empty-join (part ∷ []) h =
    rw (split-part part h.0.whole)
      (non_empty-cons part [] h.0 ∙ ap (λ p. part ∷ p) (unfold non_empty in refl))
split_non_empty-join (part ∷ next ∷ parts) h =
    rw (split-append part (join (next ∷ parts)) h.0.whole) (
      non_empty-cons part (split (join (next ∷ parts))) h.0
      ∙ ap (λ p. part ∷ p) (split_non_empty-join (next ∷ parts) h.1))

-- What a setting is read from: the default if the variable is blank, or else the number that it holds.
abbrev pub Reads : Environment → Bytes → ℕ → ℤ → Type 0
Reads getenv name fallback v =
    ((trim_space (getenv name) ≡ []) × (v ≡ pos fallback))
    ⊎ ((trim_space (getenv name) ≢ []) × (atoi (trim_space (getenv name)) ≡ some v))

env_blank :
    (getenv : Environment) (name fallback : Bytes)
    → trim_space (getenv name) ≡ []
    → env getenv name fallback ≡ fallback
unfolding env
env_blank getenv name fallback h = rw h refl

env_given :
    (getenv : Environment) (name fallback : Bytes)
    → trim_space (getenv name) ≢ []
    → env getenv name fallback ≡ trim_space (getenv name)
unfolding env
env_given getenv name fallback h = given (trim_space (getenv name)) h
  where
    given : (t : Bytes) → t ≢ [] → (if length t == 0 then fallback else t) ≡ t
    given [] n = absurd (n refl)
    given (b ∷ t) n = ground arith

nil_cases : (s : Bytes) → (s ≡ []) ⊎ (s ≢ [])
nil_cases [] = inl refl
nil_cases (b ∷ s) = inr (λ e. ground arith)

pub int_setting-atoi :
    (getenv : Environment) (name : Bytes) (fallback v : ℤ)
    → (int_setting getenv name fallback ≡ ok v)
      ↔ ((atoi (env getenv name (itoa fallback)) ≡ some v) × (leb_ℤ v (pos 0) ≡ false))
unfolding int_setting
int_setting-atoi getenv name fallback v = (λ h. ground arith, λ h. ground arith)

-- With a default that an int holds, `Int` gives just the positive numbers that the setting is read from.
pub int_setting_iff :
    (getenv : Environment) (name : Bytes) (fallback : ℕ) (v : ℤ)
    → fallback ≤ max_int64
    → (int_setting getenv name (pos fallback) ≡ ok v)
      ↔ (Reads getenv name fallback v × (leb_ℤ v (pos 0) ≡ false))
int_setting_iff getenv name fallback v small =
    let through = int_setting-atoi getenv name (pos fallback) v in
    let default = atoi-itoa fallback small in
    elim (nil_cases (trim_space (getenv name))) [
      | inl blank ↦
          let same = env_blank getenv name (itoa (pos fallback)) blank in
          (
            λ h.
                let (read, positive) = through.0 h in
                let value : some v ≡ some (pos fallback) = sym read ∙ ap atoi same ∙ default in
                (inl (blank, ground arith), positive),
            λ g. elim g.0 [
              | inl (b, value) ↦ through.1 (ap atoi same ∙ default ∙ ap some (sym value), g.1)
              | inr (given, read) ↦ absurd (given blank)
            ],
          )
      | inr given ↦
          let same = env_given getenv name (itoa (pos fallback)) given in
          (
            λ h. let (read, positive) = through.0 h in (inr (given, rw same at read), positive),
            λ g. elim g.0 [
              | inl (blank, value) ↦ absurd (given blank)
              | inr (m, read) ↦ through.1 (rw same read, g.1)
            ],
          )
    ]
