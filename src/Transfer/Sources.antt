-- ===== src/Transfer/Sources.antt =====
-- The items of a transfer take from different levels, in the order in which they are loaded too.
use flowcart.Prelude.{
  ℕ, ◌≡◌, ◌≢◌, sym, inl, inr, true, List, [], ◌∷◌, arith, ltb, select, All, Apart, Apart-sort_by,
  Bool-cases, Option-cases,
}
use flowcart.Database.{Db, TransferItem}
use flowcart.Database.Stock.{find_product}
use flowcart.Transfer.Reading.{ItemView, is_item_of, join_products, load_items}

-- Two items of one transfer have different sources.
abbrev pub OtherSource : TransferItem → TransferItem → Type 0
OtherSource a b = ¬ (
    (a.organization_id ≡ b.organization_id)
    × (a.transfer_id ≡ b.transfer_id)
    × (a.source_inventory_level_id ≡ b.source_inventory_level_id))

abbrev pub OtherLevelView : ItemView → ItemView → Type 0
OtherLevelView v w = (v.item).source_inventory_level_id ≢ (w.item).source_inventory_level_id

abbrev pub HaveSources : Db → Type 0
HaveSources db = Apart OtherSource db.transfer_items

module _ (db : Db) (o id : ℕ) where
  -- What holds of the rows that are joined holds of the joined rows.
  pub All-join_products :
      (P : ItemView → Type 0) (Q : TransferItem → Type 0)
      → ((v : ItemView) → Q v.item → P v)
      → (is : List TransferItem) → All Q is
      → All P (join_products db is)
  unfolding join_products
  All-join_products P Q step [] h = tt
  All-join_products P Q step (i ∷ is) h =
      elim (Option-cases (find_product i.organization_id i.product_id db)) [
        | inl e ↦ rw (e, All) (All-join_products P Q step is h.1)
        | inr (p, e) ↦ rw (e, All) (step _ h.0, All-join_products P Q step is h.1)
      ]

  others-select :
      (a : TransferItem) (is : List TransferItem)
      → is_item_of o id a ≡ true
      → All (OtherSource a) is
      → All
          (λ b. a.source_inventory_level_id ≢ b.source_inventory_level_id)
          (select (is_item_of o id) is)
  others-select a [] e h = tt
  others-select a (b ∷ is) e h = elim (Bool-cases (is_item_of o id b)) [
    | inl f ↦
        rw f
          (λ same. h.0 (ground (arith, e, f), ground (arith, e, f), same), others-select a is e h.1)
    | inr f ↦ rw f (others-select a is e h.1)
  ]

  sources-select :
      (is : List TransferItem)
      → Apart OtherSource is
      → Apart
          (λ a b. a.source_inventory_level_id ≢ b.source_inventory_level_id)
          (select (is_item_of o id) is)
  sources-select [] h = tt
  sources-select (a ∷ is) h = elim (Bool-cases (is_item_of o id a)) [
    | inl e ↦ rw e (others-select a is e h.0, sources-select is h.1)
    | inr e ↦ rw e (sources-select is h.1)
  ]

  Apart-join_products :
      (is : List TransferItem)
      → Apart (λ a b. a.source_inventory_level_id ≢ b.source_inventory_level_id) is
      → Apart OtherLevelView (join_products db is)
  unfolding join_products
  Apart-join_products [] h = tt
  Apart-join_products (i ∷ is) h =
      elim (Option-cases (find_product i.organization_id i.product_id db)) [
        | inl e ↦ rw (e, Apart) (Apart-join_products is h.1)
        | inr (p, e) ↦
            rw (e, Apart)
              (
                All-join_products
                    (λ w. i.source_inventory_level_id ≢ (w.item).source_inventory_level_id)
                    (λ b. i.source_inventory_level_id ≢ b.source_inventory_level_id) (λ v q. q) is
                    h.0,
                Apart-join_products is h.1,
              )
      ]

  pub load_items-Apart : HaveSources db → Apart OtherLevelView (load_items o id db)
  unfolding load_items
  load_items-Apart h =
      Apart-sort_by (λ a b. ltb a.item.id b.item.id) OtherLevelView (λ v w n e. n (sym e))
        (join_products db (select (is_item_of o id) db.transfer_items))
        (Apart-join_products (select (is_item_of o id) db.transfer_items)
          (sources-select db.transfer_items h))
