-- ===== src/Order/Model/Items.antt =====
-- The loop of `validate` over the items of a command.
use wb_orders.Base.{
  ℕ, ◌+◌, ◌≤◌, ◌<◌, ◌≡◌, ◌≢◌, ◌↔◌, refl, Bool-cases, List, [], ◌∷◌, map, arith, Result-cases, inl,
  inr, leb, ok, err, All, false,
}
use wb_orders.Base.Int.{ℤ, pos, negsuc, pos_part, max_int64}
use wb_orders.Base.Text.{Bytes, is_blank, rune_count, contains, bytes_eq_iff}
use wb_orders.Order.Model.{Item, overflow, check_item, check_items}
use wb_orders.Order.Model.Amount.{line_amount, add_line_lem}

-- A usable SKU, and a positive quantity and price.
pub record IsSellable (i : Item) : Type 0 where
  pub named : is_blank i.sku ≡ false
  pub short : rune_count i.sku ≤ 128
  pub counted : 0 < pos_part i.quantity
  pub priced : 0 < pos_part i.unit_price_minor

-- The sum of the lines, with no bound.
unfoldable pub amount : List Item → ℕ
amount [] = 0
amount (i ∷ items) = line_amount i + amount items

abbrev pub skus : List Item → List Bytes
skus = map λ i. i.sku

abbrev pub Distinct : List Bytes → Type 0
Distinct [] = Unit
Distinct (x ∷ xs) = All (λ y. y ≢ x) xs × Distinct xs

-- The order in which the loop meets the SKUs.
abbrev pub Fresh : List Bytes → List Bytes → Type 0
Fresh seen [] = Unit
Fresh seen (x ∷ xs) = (contains x seen ≡ false) × Fresh (x ∷ seen) xs

abbrev pub Unseen : List Bytes → List Bytes → Type 0
Unseen seen xs = All (λ x. contains x seen ≡ false) xs

Unseen-cons :
    (x : Bytes) (seen xs : List Bytes)
    → Unseen (x ∷ seen) xs ↔ (All (λ y. y ≢ x) xs × Unseen seen xs)
unfolding contains
Unseen-cons x seen [] = (λ _. (tt, tt), λ _. tt)
Unseen-cons x seen (y ∷ xs) = (
  λ h. ground (arith, bytes_eq_iff x y, (Unseen-cons x seen xs).0 h.1),
  λ h. ground (arith, bytes_eq_iff x y, (Unseen-cons x seen xs).1 (h.0.1, h.1.1)),
)

pub Fresh_iff : (seen xs : List Bytes) → Fresh seen xs ↔ (Unseen seen xs × Distinct xs)
Fresh_iff seen [] = (λ _. (tt, tt), λ _. tt)
Fresh_iff seen (x ∷ xs) = (
  λ h.
      let (fresh, distinct) = (Fresh_iff (x ∷ seen) xs).0 h.1 in
      let (apart, unseen) = (Unseen-cons x seen xs).0 fresh in ((h.0, unseen), (apart, distinct)),
  λ h. (h.0.0, (Fresh_iff (x ∷ seen) xs).1 ((Unseen-cons x seen xs).1 (h.1.0, h.0.1), h.1.1)),
)

pub Unseen-nil : (xs : List Bytes) → Unseen [] xs
unfolding contains
Unseen-nil [] = tt
Unseen-nil (x ∷ xs) = (refl, Unseen-nil xs)

check_fields :
    (seen : List Bytes) (t : ℕ) (sku : Bytes) (q p z : ℤ)
    → t ≤ max_int64
    → let item : Item = record { sku = sku; quantity = q; unit_price_minor = p } in
      (check_item seen (pos t) item ≡ ok z) ↔ (
        IsSellable item
        × (contains sku seen ≡ false)
        × (t + line_amount item ≤ max_int64)
        × (z ≡ pos (t + line_amount item)))
unfolding check_item
check_fields seen t sku (pos q) (pos p) z h =
    (λ e. ground (arith, add_line_lem t q p sku), λ c. ground (arith, add_line_lem t q p sku))
check_fields seen t sku (negsuc q) p z h = (λ e. ground arith, λ c. ground arith)
check_fields seen t sku q p z h = (λ e. ground arith, λ c. ground arith)

check_item_iff :
    (seen : List Bytes) (t : ℕ) (i : Item) (z : ℤ)
    → t ≤ max_int64
    → (check_item seen (pos t) i ≡ ok z) ↔ (
        IsSellable i
        × (contains i.sku seen ≡ false)
        × (t + line_amount i ≤ max_int64)
        × (z ≡ pos (t + line_amount i)))
check_item_iff seen t i z h = check_fields seen t i.sku i.quantity i.unit_price_minor z h

-- What the loop has established when it ends without an error.
pub record Passes (seen : List Bytes) (t : ℕ) (items : List Item) (z : ℤ) : Type 0 where
  pub sellable : All IsSellable items
  pub fresh : Fresh seen (skus items)
  pub bounded : t + amount items ≤ max_int64
  pub sum : z ≡ pos (t + amount items)

pub check_items_sound :
    (seen : List Bytes) (t : ℕ) (items : List Item) (z : ℤ)
    → t ≤ max_int64
    → check_items seen (pos t) items ≡ ok z
    → Passes seen t items z
unfolding check_items amount
check_items_sound seen t [] z h e = ground arith
check_items_sound seen t (i ∷ items) z h e = elim (Result-cases (check_item seen (pos t) i)) [
  | inl (next, went) ↦
      let (good, fresh, fits, sum) = (check_item_iff seen t i next h).0 went in
      let rest = check_items_sound (i.sku ∷ seen) (t + line_amount i) items z fits (ground arith) in
      ground arith
  | inr (x, failed) ↦ ground arith
]

pub check_items_complete :
    (seen : List Bytes) (t : ℕ) (items : List Item) (z : ℤ)
    → Passes seen t items z
    → check_items seen (pos t) items ≡ ok z
unfolding check_items amount
check_items_complete seen t [] z p = ground arith
check_items_complete seen t (i ∷ items) z p =
    let next : Passes (i.sku ∷ seen) (t + line_amount i) items z = ground arith in
    let went =
      (check_item_iff seen t i (pos (t + line_amount i)) (ground arith)).1
        (p.sellable.0, p.fresh.0, ground arith, refl) in
    ground (arith, check_items_complete (i.sku ∷ seen) (t + line_amount i) items z next)

check_fields-overflow :
    (seen : List Bytes) (t : ℕ) (sku : Bytes) (q p : ℤ)
    → t ≤ max_int64
    → let item : Item = record { sku = sku; quantity = q; unit_price_minor = p } in
      IsSellable item
      → contains sku seen ≡ false
      → max_int64 < t + line_amount item
      → check_item seen (pos t) item ≡ err overflow
unfolding check_item
check_fields-overflow seen t sku (pos q) (pos p) h s f o = ground (arith, add_line_lem t q p sku)
check_fields-overflow seen t sku q p h s f o = ground arith

pub check_items-overflow :
    (seen : List Bytes) (t : ℕ) (items : List Item)
    → t ≤ max_int64
    → All IsSellable items
    → Fresh seen (skus items)
    → max_int64 < t + amount items
    → check_items seen (pos t) items ≡ err overflow
unfolding check_items amount
check_items-overflow seen t [] h s f o = absurd (omega arith)
check_items-overflow seen t (i ∷ items) h s f o =
    elim (Bool-cases (leb (t + line_amount i) max_int64)) [
      | inl fits ↦
          let went =
            (check_item_iff seen t i (pos (t + line_amount i)) h).1
              (s.0, f.0, ground arith, refl) in
          ground (
            arith,
            check_items-overflow (i.sku ∷ seen) (t + line_amount i) items (ground arith) s.1 f.1,
          )
      | inr large ↦ ground (
        arith,
        check_fields-overflow seen t i.sku i.quantity i.unit_price_minor h s.0 f.0 (ground arith),
      )
    ]

pub amount-pos : (items : List Item) → items ≢ [] → All IsSellable items → 0 < amount items
unfolding amount
amount-pos [] h s = absurd (h refl)
amount-pos (i ∷ items) h s = grind arith
