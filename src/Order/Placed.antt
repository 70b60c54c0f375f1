-- ===== src/Order/Placed.antt =====
-- The rules of the loops that insert the items of an order and their reservations.
use mathlib.Core.Path.{subst}
use flowcart.Prelude.{
  ℕ, suc, ◌≡◌, inl, inr, false, none, List, [], ◌∷◌, ◌++◌, arith, first, Option-cases, ℤ, pos,
  pos_part, ◌<ℤ◌, ltb_ℤ, ok,
}
use flowcart.Database.{Db, Clock, after_first, ◌>>◌}
use flowcart.Order.Pricing.{PricedLine}
use flowcart.Order.Placing.{
  is_item_of_product, new_item, insert_order_item, item_reservation, reserve_for_item, reserve_all,
  insert_lines,
}

-- What the lines of an order reserve, in the order in which they do.
abbrev pub pairs_of : List PricedLine → List (ℕ × ℤ)
pairs_of [] = []
pairs_of (p ∷ ps) = (p.line).reserves ++ pairs_of ps

module _ (clock : Clock) (o order : ℕ) where
  pub record IsItemInserted (p : PricedLine) (id : ℕ) (db after : Db) : Type 0 where
    pub positive : pos 0 <ℤ (p.line).quantity
    pub total : ltb_ℤ p.total (pos 0) ≡ false
    pub row : id ≡ db.next_id
    pub fresh : first (is_item_of_product o order (p.snapshot).product_id) db.order_items ≡ none
    pub tables : after ≡ record db {
      order_items = db.order_items ++ new_item clock db.next_id o order p ∷ [];
      next_id = suc db.next_id;
    }

  pub insert_order_item-IsItemInserted :
      (p : PricedLine) (id : ℕ) (db after : Db)
      → insert_order_item clock o order p db ≡ ok (id, after)
      → IsItemInserted p id db after
  unfolding insert_order_item
  insert_order_item-IsItemInserted p id db after h =
      elim (Option-cases
        (first (is_item_of_product o order (p.snapshot).product_id) db.order_items)) [
          | inl e ↦ record {
            positive = ground (arith, e, h);
            total = ground (arith, e, h);
            row = ground (arith, e, h);
            fresh = e;
            tables = ground (arith, e, h);
          }
          | inr (i, e) ↦ absurd (ground (arith, e, h))
        ]

  pub record IsItemReserved (item level : ℕ) (quantity : ℤ) (db after : Db) : Type 0 where
    pub positive : pos 0 <ℤ quantity
    pub tables : after ≡ record db {
      reservations =
          db.reservations
          ++ item_reservation clock db.next_id o item level (pos_part quantity) ∷ [];
      next_id = suc db.next_id;
    }

  pub reserve_for_item-IsItemReserved :
      (item level : ℕ) (quantity : ℤ) (db after : Db)
      → reserve_for_item clock o item level quantity db ≡ ok (tt, after)
      → IsItemReserved item level quantity db after
  unfolding reserve_for_item
  reserve_for_item-IsItemReserved item level quantity db after h = record {
    positive = ground (arith, h);
    tables = ground (arith, h);
  }

  -- What an item and a reservation keep, the loops keep.
  module _ (P : List (ℕ × ℤ) → Db → Type 0)
      (reserved : (item level : ℕ) (quantity : ℤ) (rest : List (ℕ × ℤ)) (db after : Db)
        → P ((level, quantity) ∷ rest) db
        → IsItemReserved item level quantity db after
        → P rest after) where
    pub reserve_all-keeps :
        (item : ℕ) (pairs rest : List (ℕ × ℤ)) (db after : Db)
        → P (pairs ++ rest) db
        → reserve_all clock o item pairs db ≡ ok (tt, after)
        → P rest after
    unfolding reserve_all
    reserve_all-keeps item [] rest db after p h = subst (P rest) (ground (arith, h)) p
    reserve_all-keeps item ((level, quantity) ∷ pairs) rest db after p h =
        let (u, mid, made, more) =
          after_first (reserve_for_item clock o item level quantity)
            (λ _. reserve_all clock o item pairs) db h in
        reserve_all-keeps item pairs rest mid after
          (reserved item level quantity (pairs ++ rest) db mid p
            (reserve_for_item-IsItemReserved item level quantity db mid made))
          more

    pub insert_lines-keeps :
        ((p : PricedLine) (id : ℕ) (pairs : List (ℕ × ℤ)) (db after : Db)
          → P pairs db
          → IsItemInserted p id db after
          → P pairs after)
        → (ps : List PricedLine) (db after : Db) → P (pairs_of ps) db
        → insert_lines clock o order ps db ≡ ok (tt, after)
        → P [] after
    unfolding insert_lines
    insert_lines-keeps inserted [] db after p h = subst (P []) (ground (arith, h)) p
    insert_lines-keeps inserted (x ∷ ps) db after p h =
        let (id, mid, made, more) =
          after_first (insert_order_item clock o order x)
            (λ item db'.
              (reserve_all clock o item (x.line).reserves >> insert_lines clock o order ps) db')
            db h in
        let (u, last, held, rest) =
          after_first (reserve_all clock o id (x.line).reserves)
            (λ _. insert_lines clock o order ps) mid more in
        insert_lines-keeps inserted ps last after
          (reserve_all-keeps id (x.line).reserves (pairs_of ps) mid last
            (inserted x id (pairs_of (x ∷ ps)) db mid p
              (insert_order_item-IsItemInserted x id db mid made))
            held)
          rest
