-- ===== src/Order/Store/BySku.antt =====
-- ORDER BY sku: the same items, of which none stands before the one that it follows.
use mathlib.Core.List.{Perm}
use mathlib.Core.List.Perm
use wb_orders.Base.{◌≡◌, inl, inr, Bool, Bool-cases, true, false, List, [], ◌∷◌}
use wb_orders.Base.Text.{Bytes}
use wb_orders.Database.Queries.{insert_by_sku, order_by_sku}
use wb_orders.Order.Model.{Item}

-- A collation puts no two texts each before the other.
abbrev pub IsCollation : (Bytes → Bytes → Bool) → Type 0
IsCollation before = (a b : Bytes) → before a b ≡ true → before b a ≡ false

abbrev pub IsBySku : (Bytes → Bytes → Bool) → List Item → Type 0
IsBySku before [] = Unit
IsBySku before (i ∷ []) = Unit
IsBySku before (i ∷ j ∷ items) = (before j.sku i.sku ≡ false) × IsBySku before (j ∷ items)

module _ (before : Bytes → Bytes → Bool) where
  insert_by_sku-perm :
      (i : Item) (items : List Item) → Perm (insert_by_sku before i items) (i ∷ items)
  unfolding insert_by_sku
  insert_by_sku-perm i [] = Perm.refl (i ∷ [])
  insert_by_sku-perm i (j ∷ items) = elim (Bool-cases (before j.sku i.sku)) [
    | inl later ↦
        rw later (Perm.trans (Perm.cons j (insert_by_sku-perm i items)) (Perm.swap i j items))
    | inr here ↦ rw here (Perm.refl (i ∷ j ∷ items))
  ]

  pub order_by_sku-perm : (items : List Item) → Perm (order_by_sku before items) items
  unfolding order_by_sku
  order_by_sku-perm [] = Perm.refl []
  order_by_sku-perm (i ∷ items) =
      Perm.trans (insert_by_sku-perm i (order_by_sku before items))
        (Perm.cons i (order_by_sku-perm items))

  insert_by_sku-IsBySku :
      (i : Item) (items : List Item)
      → IsCollation before
      → IsBySku before items
      → IsBySku before (insert_by_sku before i items)
  unfolding insert_by_sku
  insert_by_sku-IsBySku i [] strict sorted = tt
  insert_by_sku-IsBySku i (j ∷ []) strict sorted = elim (Bool-cases (before j.sku i.sku)) [
    | inl later ↦ rw later (strict j.sku i.sku later, tt)
    | inr here ↦ rw here (here, tt)
  ]
  insert_by_sku-IsBySku i (j ∷ k ∷ items) strict (ordered, sorted) =
      let rest = insert_by_sku-IsBySku i (k ∷ items) strict sorted in
      elim (Bool-cases (before j.sku i.sku)) [
        | inr here ↦ rw here (here, (ordered, sorted))
        | inl later ↦ elim (Bool-cases (before k.sku i.sku)) [
          | inl after ↦ rw (later, after) (ordered, rw after at rest)
          | inr between ↦ rw (later, between) (strict j.sku i.sku later, rw between at rest)
        ]
      ]

  pub order_by_sku-IsBySku :
      (items : List Item) → IsCollation before → IsBySku before (order_by_sku before items)
  unfolding order_by_sku
  order_by_sku-IsBySku [] strict = tt
  order_by_sku-IsBySku (i ∷ items) strict =
      insert_by_sku-IsBySku i (order_by_sku before items) strict (order_by_sku-IsBySku items strict)
