-- ===== src/Transfer/Loops.antt =====
-- The amounts that the loops over the items of a transfer move.
use flowcart.Prelude.{
  ℕ, ◌+◌, ◌≡◌, refl, sym, ap, ◌∙◌, inl, inr, some, List, [], ◌∷◌, arith, ltb, ◌==◌, first, select,
  All, All-sort_by, Bool-cases, ok, pos, ℤ,
}
use flowcart.Database.{Db, Clock, InventoryLevel, TransferItem, transfer_out, transfer_in}
use flowcart.Database.Stock.{is_level}
use flowcart.Database.Stock.Coverage.{UniqueLevels}
use flowcart.Database.Stock.Moves.{
  Moves, change_levels-Moves, UniqueLevels-Moves, stock_of, stock_of-Moves, find-Moves_other,
  find-Moves_self,
}
use flowcart.Transfer.Reading.{ItemView, is_item_of, join_products, load_items}
use flowcart.Transfer.Shipping.{minus, take_out, bring_in}
use flowcart.Transfer.Sources.{All-join_products}
use flowcart.Transfer.Amounts.{amount, IsLinked, AreLinked}
use flowcart.Transfer.Moving.{IsMoved, minus_part, take_out-keeps, bring_in-keeps}

-- An item of an organization, and its level in a list of levels, which is of its product.
pub record IsAt (o : ℕ) (end : TransferItem → ℕ) (ls : List InventoryLevel) (v : ItemView)
    : Type 0 where
  pub own : (v.item).organization_id ≡ o
  pub level : InventoryLevel
  pub found : first (is_level o (end v.item)) ls ≡ some level
  pub product : level.product_id ≡ (v.item).product_id

module _ (o : ℕ) (end : TransferItem → ℕ) where
  IsAt-Moves :
      (i : ℕ) (delta : ℤ) (ls ls' : List InventoryLevel) (v : ItemView)
      → Moves o i delta ls ls'
      → IsAt o end ls v
      → IsAt o end ls' v
  IsAt-Moves i delta ls ls' v m at = elim (Bool-cases (i == end v.item)) [
    | inl e ↦
        let (h, moved, f) = find-Moves_self at.level m (ground (arith, e, at.found)) in
        record {
          own = at.own;
          level = record at.level { on_hand_quantity = h };
          found = ground (arith, e, f);
          product = at.product;
        }
    | inr e ↦ record {
      own = at.own;
      level = at.level;
      found = find-Moves_other o (end v.item) m (ground (arith, e)) ∙ at.found;
      product = at.product;
    }
  ]

  All-IsAt-Moves :
      (i : ℕ) (delta : ℤ) (ls ls' : List InventoryLevel) (vs : List ItemView)
      → Moves o i delta ls ls'
      → All (IsAt o end ls) vs
      → All (IsAt o end ls') vs
  All-IsAt-Moves i delta ls ls' [] m h = tt
  All-IsAt-Moves i delta ls ls' (v ∷ vs) m h =
      (IsAt-Moves i delta ls ls' v m h.0, All-IsAt-Moves i delta ls ls' vs m h.1)

module _ (o q p : ℕ) (clock : Clock) (user transfer warehouse : ℕ) where
  -- What has been taken out, and what the rest asks for, is what all asked for.
  abbrev IsTaking : (start all : ℕ) → List ItemView → Db → Type 0
  IsTaking start all vs db =
      UniqueLevels db.levels
      × All (IsAt o (λ i. i.source_inventory_level_id) db.levels) vs
      × (stock_of q p db.levels + all ≡ start + amount q p vs)

  take_one-IsTaking :
      (start all : ℕ) (v : ItemView) (vs : List ItemView) (db after : Db)
      → IsTaking start all (v ∷ vs) db
      → IsMoved clock o user transfer warehouse transfer_out
          (v.item).source_inventory_level_id
          (minus (v.item).quantity)
          v.item
          db
          after
      → IsTaking start all vs after
  unfolding amount
  take_one-IsTaking start all v vs db after (unique, at, sum) m =
      let source = (v.item).source_inventory_level_id in
      let delta = minus (v.item).quantity in
      let here = at.0 in
      let moves = change_levels-Moves o source delta db.levels after.levels unique m.moves in
      (
        UniqueLevels-Moves moves unique,
        All-IsAt-Moves o (λ i. i.source_inventory_level_id) source delta db.levels after.levels vs
            moves at.1,
        ground (
          arith,
          stock_of-Moves q p here.level moves here.found,
          here.own,
          here.product,
          minus_part (v.item).quantity,
          sum,
        ),
      )

  -- The same for what is brought in.
  abbrev IsBringing : (start all : ℕ) → List ItemView → Db → Type 0
  IsBringing start all vs db =
      UniqueLevels db.levels
      × All (IsAt o (λ i. i.destination_inventory_level_id) db.levels) vs
      × (stock_of q p db.levels + amount q p vs ≡ start + all)

  bring_one-IsBringing :
      (start all : ℕ) (v : ItemView) (vs : List ItemView) (db after : Db)
      → IsBringing start all (v ∷ vs) db
      → IsMoved clock o user transfer warehouse transfer_in
          (v.item).destination_inventory_level_id
          (pos (v.item).quantity)
          v.item
          db
          after
      → IsBringing start all vs after
  unfolding amount
  bring_one-IsBringing start all v vs db after (unique, at, sum) m =
      let target = (v.item).destination_inventory_level_id in
      let delta = pos (v.item).quantity in
      let here = at.0 in
      let moves = change_levels-Moves o target delta db.levels after.levels unique m.moves in
      (
        UniqueLevels-Moves moves unique,
        All-IsAt-Moves o (λ i. i.destination_inventory_level_id) target delta db.levels after.levels
            vs moves at.1,
        ground (arith, stock_of-Moves q p here.level moves here.found, here.own, here.product, sum),
      )

  -- What the loops leave of the other tables.
  abbrev IsBeside : Db → List ItemView → Db → Type 0
  IsBeside before vs db =
      (db.transfers ≡ before.transfers) × (db.transfer_items ≡ before.transfer_items)

  pub take_out-stock :
      (vs : List ItemView) (db after : Db)
      → UniqueLevels db.levels
      → All (IsAt o (λ i. i.source_inventory_level_id) db.levels) vs
      → take_out clock o user transfer warehouse vs db ≡ ok (tt, after)
      → (stock_of q p after.levels + amount q p vs ≡ stock_of q p db.levels) × IsBeside db [] after
  unfolding amount
  take_out-stock vs db after unique at h =
      let (u, a, sum) =
        take_out-keeps clock o user transfer warehouse
          (IsTaking (stock_of q p db.levels) (amount q p vs))
          (take_one-IsTaking (stock_of q p db.levels) (amount q p vs)) vs db after
          (unique, at, refl) h in
      (
        omega (arith, sum),
        take_out-keeps clock o user transfer warehouse (IsBeside db)
            (λ v ws d e k m.
              (ap (λ x. x.transfers) m.rest ∙ k.0, ap (λ x. x.transfer_items) m.rest ∙ k.1))
            vs db after (refl, refl) h,
      )

  pub bring_in-stock :
      (vs : List ItemView) (db after : Db)
      → UniqueLevels db.levels
      → All (IsAt o (λ i. i.destination_inventory_level_id) db.levels) vs
      → bring_in clock o user transfer warehouse vs db ≡ ok (tt, after)
      → (stock_of q p after.levels ≡ stock_of q p db.levels + amount q p vs) × IsBeside db [] after
  unfolding amount
  bring_in-stock vs db after unique at h =
      let (u, a, sum) =
        bring_in-keeps clock o user transfer warehouse
          (IsBringing (stock_of q p db.levels) (amount q p vs))
          (bring_one-IsBringing (stock_of q p db.levels) (amount q p vs)) vs db after
          (unique, at, refl) h in
      (
        omega (arith, sum),
        bring_in-keeps clock o user transfer warehouse (IsBeside db)
            (λ v ws d e k m.
              (ap (λ x. x.transfers) m.rest ∙ k.0, ap (λ x. x.transfer_items) m.rest ∙ k.1))
            vs db after (refl, refl) h,
      )

-- The loaded items stand at their levels.
module _ (o id : ℕ) (db : Db) (linked : AreLinked db) where
  own-IsLinked :
      (is : List TransferItem)
      → All (IsLinked db) is
      → All (λ i. IsLinked db i × (i.organization_id ≡ o)) (select (is_item_of o id) is)
  own-IsLinked [] h = tt
  own-IsLinked (i ∷ is) h = elim (Bool-cases (is_item_of o id i)) [
    | inl e ↦ rw e ((h.0, ground (arith, e)), own-IsLinked is h.1)
    | inr e ↦ rw e (own-IsLinked is h.1)
  ]

  load_items-IsAt :
      (end : TransferItem → ℕ)
      → ((v : ItemView)
          → IsLinked db v.item × ((v.item).organization_id ≡ o)
          → IsAt o end db.levels v)
      → All (IsAt o end db.levels) (load_items o id db)
  unfolding load_items
  load_items-IsAt end step =
      All-sort_by (λ a b. ltb a.item.id b.item.id) (IsAt o end db.levels)
        (join_products db (select (is_item_of o id) db.transfer_items))
        (All-join_products db o id (IsAt o end db.levels)
          (λ i. IsLinked db i × (i.organization_id ≡ o)) step
          (select (is_item_of o id) db.transfer_items) (own-IsLinked db.transfer_items linked))

  pub items-IsAt_sources :
      All (IsAt o (λ i. i.source_inventory_level_id) db.levels) (load_items o id db)
  items-IsAt_sources =
      load_items-IsAt (λ i. i.source_inventory_level_id)
        (λ v (link, own). record {
          own = own;
          level = link.source;
          found = rw (sym own) link.has_source;
          product = link.source_product;
        })

  pub items-IsAt_destinations :
      All (IsAt o (λ i. i.destination_inventory_level_id) db.levels) (load_items o id db)
  items-IsAt_destinations =
      load_items-IsAt (λ i. i.destination_inventory_level_id)
        (λ v (link, own). record {
          own = own;
          level = link.destination;
          found = rw (sym own) link.has_destination;
          product = link.destination_product;
        })
