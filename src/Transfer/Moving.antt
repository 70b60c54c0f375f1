-- ===== src/Transfer/Moving.antt =====
-- The loops of `Dispatch` and `Receive` that move the stock of the items of a transfer.
use mathlib.Core.Path.{subst}
use flowcart.Prelude.{
  ℕ, zero, suc, ◌≡◌, refl, inl, inr, some, List, [], ◌∷◌, ◌++◌, arith, first, Option-cases, ℤ, pos,
  pos_part, neg_part, ok,
}
use flowcart.Database.{
  Db, Clock, MovementType, transfer_in, transfer_out, TransferItem, after_first,
}
use flowcart.Database.Stock.{change_levels, change_stock}
use flowcart.Database.Stock.Coverage.{UniqueLevels}
use flowcart.Database.Stock.Moves.{change_levels-Moves, UniqueLevels-Moves}
use flowcart.Database.Ledger.{IsBalanced, Balanced-Moves}
use flowcart.Transfer.Reading.{ItemView}
use flowcart.Transfer.Shipping.{
  minus, is_move_of, transfer_movement, move_stock, take_out, bring_in,
}

pub minus_part : (q : ℕ) → (pos_part (minus q) ≡ 0) × (neg_part (minus q) ≡ q)
minus_part zero = (refl, refl)
minus_part (suc n) = (refl, refl)

module _ (clock : Clock) (o user transfer warehouse : ℕ) where
  -- What the move of the stock of one item tells.
  pub record IsMoved (type : MovementType) (level : ℕ) (delta : ℤ) (item : TransferItem)
      (db after : Db) : Type 0 where
    pub moves : change_levels o level delta db.levels ≡ some after.levels
    pub movements :
        after.movements
        ≡ db.movements
          ++ transfer_movement clock o user transfer warehouse type level delta db.next_id item ∷ []
    pub rest :
        after
        ≡ record db { levels = after.levels; movements = after.movements; next_id = suc db.next_id }

  pub move_stock-IsMoved :
      (type : MovementType) (level : ℕ) (delta : ℤ) (item : TransferItem) (db after : Db)
      → move_stock clock o user transfer warehouse type level delta item db ≡ ok (tt, after)
      → IsMoved type level delta item db after
  unfolding move_stock change_stock
  move_stock-IsMoved type level delta item db after h =
      elim (Option-cases (change_levels o level delta db.levels)) [
        | inl e ↦ absurd (ground (arith, e, h))
        | inr (levels, e) ↦ elim (Option-cases (first (is_move_of o type item.id) db.movements)) [
          | inl f ↦ record {
            moves = ground (arith, e, f, h);
            movements = ground (arith, e, f, h);
            rest = ground (arith, e, f, h);
          }
          | inr (m, f) ↦ absurd (ground (arith, e, f, h))
        ]
      ]

  -- The rule of the loops: what one move keeps, the loop keeps.
  pub take_out-keeps :
      (P : List ItemView → Db → Type 0)
      → ((v : ItemView) (vs : List ItemView) (db after : Db)
          → P (v ∷ vs) db
          → IsMoved transfer_out
              (v.item).source_inventory_level_id
              (minus (v.item).quantity)
              v.item
              db
              after
          → P vs after)
      → (vs : List ItemView) (db after : Db) → P vs db
      → take_out clock o user transfer warehouse vs db ≡ ok (tt, after)
      → P [] after
  unfolding take_out
  take_out-keeps P step [] db after p h = subst (P []) (ground (arith, h)) p
  take_out-keeps P step (v ∷ vs) db after p h =
      let item = v.item in
      let (u, mid, moved, rest) =
        after_first
          (move_stock clock o user transfer warehouse transfer_out item.source_inventory_level_id
            (minus item.quantity) item)
          (λ _. take_out clock o user transfer warehouse vs) db h in
      take_out-keeps P step vs mid after
        (step v vs db mid p (
          move_stock-IsMoved transfer_out item.source_inventory_level_id (minus item.quantity) item
            db mid moved))
        rest

  pub bring_in-keeps :
      (P : List ItemView → Db → Type 0)
      → ((v : ItemView) (vs : List ItemView) (db after : Db)
          → P (v ∷ vs) db
          → IsMoved transfer_in
              (v.item).destination_inventory_level_id
              (pos (v.item).quantity)
              v.item
              db
              after
          → P vs after)
      → (vs : List ItemView) (db after : Db) → P vs db
      → bring_in clock o user transfer warehouse vs db ≡ ok (tt, after)
      → P [] after
  unfolding bring_in
  bring_in-keeps P step [] db after p h = subst (P []) (ground (arith, h)) p
  bring_in-keeps P step (v ∷ vs) db after p h =
      let item = v.item in
      let (u, mid, moved, rest) =
        after_first
          (move_stock clock o user transfer warehouse transfer_in
            item.destination_inventory_level_id (pos item.quantity) item)
          (λ _. bring_in clock o user transfer warehouse vs) db h in
      bring_in-keeps P step vs mid after
        (step v vs db mid p (
          move_stock-IsMoved transfer_in item.destination_inventory_level_id (pos item.quantity)
            item db mid moved))
        rest

  moved-UniqueLevels :
      (type : MovementType) (level : ℕ) (delta : ℤ) (item : TransferItem) (db after : Db)
      → UniqueLevels db.levels
      → IsMoved type level delta item db after
      → UniqueLevels after.levels
  moved-UniqueLevels type level delta item db after unique m =
      UniqueLevels-Moves (change_levels-Moves o level delta db.levels after.levels unique m.moves)
        unique

  moved-IsBalanced :
      (type : MovementType) (level : ℕ) (delta : ℤ) (item : TransferItem) (db after : Db)
      (opening : ℕ → ℕ → ℕ)
      → UniqueLevels db.levels
      → IsBalanced opening db
      → IsMoved type level delta item db after
      → IsBalanced opening after
  moved-IsBalanced type level delta item db after opening unique balanced m = rw m.movements (
      Balanced-Moves opening
        (transfer_movement clock o user transfer warehouse type level delta db.next_id item)
        db.movements (change_levels-Moves o level delta db.levels after.levels unique m.moves)
        balanced)

  -- Both loops leave the books balanced.
  module _ (opening : ℕ → ℕ → ℕ) (vs : List ItemView) (db after : Db)
      (unique : UniqueLevels db.levels) (balanced : IsBalanced opening db) where
    abbrev AreBooks : List ItemView → Db → Type 0
    AreBooks ws d = UniqueLevels d.levels × IsBalanced opening d

    pub take_out-IsBalanced :
        take_out clock o user transfer warehouse vs db ≡ ok (tt, after) → IsBalanced opening after
    take_out-IsBalanced h =
        (take_out-keeps AreBooks
          (λ v ws d e p m. (
            moved-UniqueLevels transfer_out (v.item).source_inventory_level_id
                (minus (v.item).quantity) v.item d e p.0 m,
            moved-IsBalanced transfer_out (v.item).source_inventory_level_id
                (minus (v.item).quantity) v.item d e opening p.0 p.1 m,
          ))
          vs db after (unique, balanced) h).1

    pub bring_in-IsBalanced :
        bring_in clock o user transfer warehouse vs db ≡ ok (tt, after) → IsBalanced opening after
    bring_in-IsBalanced h =
        (bring_in-keeps AreBooks
          (λ v ws d e p m. (
            moved-UniqueLevels transfer_in (v.item).destination_inventory_level_id
                (pos (v.item).quantity) v.item d e p.0 m,
            moved-IsBalanced transfer_in (v.item).destination_inventory_level_id
                (pos (v.item).quantity) v.item d e opening p.0 p.1 m,
          ))
          vs db after (unique, balanced) h).1
