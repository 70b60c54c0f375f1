-- ===== src/Transfer/Amounts.antt =====
-- The stock that is on the road, and the amounts of the items of a transfer.
use flowcart.Prelude.{
  ℕ, ◌+◌, ◌≡◌, refl, ◌∙◌, inl, inr, Bool, false, ◌&&◌, none, some, List, [], ◌∷◌, arith, ltb, ◌==◌,
  if◌then◌else◌, first, select, sort_by, insert_by, All, Bool-cases,
}
use flowcart.Database.{Db, Transfer, TransferItem, InventoryLevel, Product}
use flowcart.Database.Stock.{find_level, find_product}
use flowcart.Database.Stock.Moves.{stock_of}
use flowcart.Transfer.Reading.{ItemView, is_transfer, is_item_of, join_products, load_items}
use flowcart.Transfer.Shipping.{is_in_transit}

-- The transfer of an item is in transit.
abbrev pub is_moving : List Transfer → TransferItem → Bool
is_moving ts i = elim (first (is_transfer i.organization_id i.transfer_id) ts) [
  | none ↦ false
  | some t ↦ is_in_transit t.status
]

abbrev pub is_item_with : ℕ → ℕ → TransferItem → Bool
is_item_with organization product i = i.organization_id == organization && i.product_id == product

-- How much of a product has left its source and not reached its destination.
unfoldable pub carried : ℕ → ℕ → List Transfer → List TransferItem → ℕ
carried organization product ts [] = 0
carried organization product ts (i ∷ is) =
    (if is_item_with organization product i && is_moving ts i then i.quantity else 0)
    + carried organization product ts is

-- The stock of a product, on hand and on the road.
abbrev pub stock_and_carried : ℕ → ℕ → Db → ℕ
stock_and_carried organization product db =
    stock_of organization product db.levels
    + carried organization product db.transfers db.transfer_items

-- How much of a product the items ask for.
unfoldable pub amount : ℕ → ℕ → List ItemView → ℕ
amount organization product [] = 0
amount organization product (v ∷ vs) =
    (if is_item_with organization product v.item then (v.item).quantity else 0)
    + amount organization product vs

unfoldable pub amount_of : ℕ → ℕ → List TransferItem → ℕ
amount_of organization product [] = 0
amount_of organization product (i ∷ is) =
    (if is_item_with organization product i then i.quantity else 0)
    + amount_of organization product is

-- The rows that an item refers to are there, and its levels are of its product.
pub record IsLinked (db : Db) (i : TransferItem) : Type 0 where
  pub product : Product
  pub has_product : find_product i.organization_id i.product_id db ≡ some product
  pub source : InventoryLevel
  pub has_source : find_level i.organization_id i.source_inventory_level_id db ≡ some source
  pub source_product : source.product_id ≡ i.product_id
  pub destination : InventoryLevel
  pub has_destination :
      find_level i.organization_id i.destination_inventory_level_id db ≡ some destination
  pub destination_product : destination.product_id ≡ i.product_id

abbrev pub AreLinked : Db → Type 0
AreLinked db = All (IsLinked db) db.transfer_items

module _ (q p : ℕ) where
  amount-insert_by :
      (less : ItemView → ItemView → Bool) (v : ItemView) (vs : List ItemView)
      → amount q p (insert_by less v vs) ≡ amount q p (v ∷ vs)
  unfolding amount insert_by
  amount-insert_by less v [] = refl
  amount-insert_by less v (w ∷ vs) = elim (Bool-cases (less w v)) [
    | inl e ↦ rw e (omega (arith, amount-insert_by less v vs))
    | inr e ↦ rw e refl
  ]

  amount-sort_by :
      (less : ItemView → ItemView → Bool) (vs : List ItemView)
      → amount q p (sort_by less vs) ≡ amount q p vs
  unfolding amount sort_by
  amount-sort_by less [] = refl
  amount-sort_by less (v ∷ vs) =
      omega (arith, amount-insert_by less v (sort_by less vs), amount-sort_by less vs)

  amount-join_products :
      (db : Db) (is : List TransferItem)
      → All (IsLinked db) is
      → amount q p (join_products db is) ≡ amount_of q p is
  unfolding amount amount_of join_products
  amount-join_products db [] h = refl
  amount-join_products db (i ∷ is) h =
      rw ((h.0).has_product, amount) (omega (arith, amount-join_products db is h.1))

  pub All-select :
      {A : Type 0} (P : A → Type 0) (t : A → Bool) (xs : List A) → All P xs → All P (select t xs)
  All-select P t [] h = tt
  All-select P t (x ∷ xs) h = elim (Bool-cases (t x)) [
    | inl e ↦ rw e (h.0, All-select P t xs h.1)
    | inr e ↦ rw e (All-select P t xs h.1)
  ]

  -- Loading the items loses and adds nothing.
  pub amount-load_items :
      (db : Db) (o id : ℕ)
      → AreLinked db
      → amount q p (load_items o id db) ≡ amount_of q p (select (is_item_of o id) db.transfer_items)
  unfolding load_items
  amount-load_items db o id linked =
      let is = select (is_item_of o id) db.transfer_items in
      amount-sort_by (λ a b. ltb a.item.id b.item.id) (join_products db is)
      ∙ amount-join_products db is
          (All-select (IsLinked db) (is_item_of o id) db.transfer_items linked)
