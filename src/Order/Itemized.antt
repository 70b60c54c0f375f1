-- ===== src/Order/Itemized.antt =====
-- The items of a new order, and what they cost.
use mathlib.Core.List.{append_assoc, append-nil}
use native.Mathlib.Nat.{mul_comm}
use flowcart.Prelude.{
  ℕ, String, ◌≤◌, ◌≡◌, ◌+◌, ◌*◌, refl, sym, ap, ◌∙◌, inl, inr, none, some, List, [], ◌∷◌, ◌++◌,
  arith, first, update, map, All, ℤ, pos_part, max_int64, ok, first-append, first-update, ==_refl,
}
use flowcart.Database.{Db, Clock, after_first, ◌>>◌}
use flowcart.Database.Sales.{Order, OrderItem, AllocationMethod}
use flowcart.Order.Model.{CreateInput, OrderView}
use flowcart.Order.Reading.{is_order, find_order}
use flowcart.Order.Pricing.{PricedLine, no_totals}
use flowcart.Order.Placing.{
  has_key, new_order, new_item, insert_order_item, reserve_all, insert_lines, set_totals, priced,
}
use flowcart.Order.Creating.{line_of, create}
use flowcart.Order.Placed.{insert_order_item-IsItemInserted, reserve_all-keeps}
use flowcart.Order.Exact.{AsksFor, HasWorth, worth, worth_of, total_lines-IsExact}
use flowcart.Order.Stocking.{lock_stock-IsLocked}
use flowcart.Order.Filled.{IsFilled, create-cases}

-- What an item costs.
abbrev pub cost : OrderItem → ℕ
cost i = i.quantity * elim i.unit_price_minor_snapshot [ none ↦ 0 | some price ↦ price ]

abbrev pub cost_of : List OrderItem → ℕ
cost_of [] = 0
cost_of (i ∷ is) = cost i + cost_of is

-- The items that the lines were inserted as.
abbrev pub ItemsOf : ℕ → ℕ → List PricedLine → List OrderItem → Type 0
ItemsOf o order [] [] = Unit
ItemsOf o order (p ∷ ps) (i ∷ is) =
    ((clock : Clock) × (id : ℕ) × (i ≡ new_item clock id o order p) × AsksFor p)
    × ItemsOf o order ps is
ItemsOf o order _ _ = ⊥

module _ (clock : Clock) (o order : ℕ) where
  -- The items alone are new, with their reservations.
  abbrev pub OnlyItems : Db → Db → Type 0
  OnlyItems db after = after ≡ record db {
    order_items = after.order_items;
    reservations = after.reservations;
    next_id = after.next_id;
  }

  reserve_all-items :
      (item : ℕ) (pairs : List (ℕ × ℤ)) (db after : Db)
      → reserve_all clock o item pairs db ≡ ok (tt, after)
      → (after.order_items ≡ db.order_items) × OnlyItems db after
  reserve_all-items item pairs db after h =
      reserve_all-keeps clock o order (λ ps d. (d.order_items ≡ db.order_items) × OnlyItems db d)
        (λ i l q rest d e same made. rw made.tables (same.0, rw same.1 refl)) item pairs [] db after
        (refl, refl) h

  pub record IsItemized (ps : List PricedLine) (db after : Db) : Type 0 where
    pub items : List OrderItem
    pub rows : after.order_items ≡ db.order_items ++ items
    pub made : ItemsOf o order ps items
    pub only : OnlyItems db after

  pub insert_lines-IsItemized :
      (ps : List PricedLine) (db after : Db)
      → insert_lines clock o order ps db ≡ ok (tt, after)
      → IsItemized ps db after
  unfolding insert_lines
  insert_lines-IsItemized [] db after h =
      let same : db ≡ after = ground (arith, h) in
      record {
        items = [];
        rows = ap (λ d. d.order_items) (sym same) ∙ sym (append-nil db.order_items);
        made = tt;
        only = rw same refl;
      }
  insert_lines-IsItemized (p ∷ ps) db after h =
      let (id, mid, inserted, more) =
        after_first (insert_order_item clock o order p)
          (λ item db'.
            (reserve_all clock o item (p.line).reserves >> insert_lines clock o order ps) db')
          db h in
      let (u, last, held, rest) =
        after_first (reserve_all clock o id (p.line).reserves) (λ _. insert_lines clock o order ps)
          mid more in
      let made = insert_order_item-IsItemInserted clock o order p id db mid inserted in
      let (kept, only) = reserve_all-items id (p.line).reserves mid last held in
      let others = insert_lines-IsItemized ps last after rest in
      let new = new_item clock db.next_id o order p in
      record {
        items = new ∷ others.items;
        rows =
            others.rows
            ∙ ap (λ is. is ++ others.items) (kept ∙ ap (λ d. d.order_items) made.tables)
            ∙ append_assoc db.order_items (new ∷ []) others.items;
        made = ((clock, db.next_id, refl, made.positive), others.made);
        only = rw (others.only, only, made.tables) refl;
      }

ItemsOf-asks :
    (o order : ℕ) (ps : List PricedLine) (is : List OrderItem)
    → ItemsOf o order ps is
    → All AsksFor ps
ItemsOf-asks o order [] [] h = tt
ItemsOf-asks o order [] (i ∷ is) h = absurd h
ItemsOf-asks o order (p ∷ ps) [] h = absurd h
ItemsOf-asks o order (p ∷ ps) (i ∷ is) h =
    let (clock, id, row, asks) = h.0 in (asks, ItemsOf-asks o order ps is h.1)

ItemsOf-cost :
    (o order : ℕ) (ps : List PricedLine) (is : List OrderItem)
    → ItemsOf o order ps is
    → All HasWorth ps
    → (cost_of is ≡ worth_of ps) × All (λ i. i.line_total_minor ≡ some (cost i)) is
ItemsOf-cost o order [] [] h w = (refl, tt)
ItemsOf-cost o order [] (i ∷ is) h w = absurd h
ItemsOf-cost o order (p ∷ ps) [] h w = absurd h
ItemsOf-cost o order (p ∷ ps) (i ∷ is) h w =
    let (clock, id, row, asks) = h.0 in
    let (total, rows) = ItemsOf-cost o order ps is h.1 w.1 in
    let price = (p.snapshot).price in
    let q = pos_part (p.line).quantity in
    let each : cost i ≡ worth p = ap cost row ∙ mul_comm q price in
    (
      omega (arith, each, total),
      (
        ap (λ x. x.line_total_minor) row ∙ ap (λ z. some (pos_part z)) w.0 ∙ ap some (sym each),
        rows,
      ),
    )

-- The items that an order has and its subtotal, which is what they cost and fits an `int64`.
pub record IsPriced (o id : ℕ) (db after : Db) : Type 0 where
  pub items : List OrderItem
  pub rows : after.order_items ≡ db.order_items ++ items
  pub totals : All (λ i. i.line_total_minor ≡ some (cost i)) items
  pub order : Order
  pub found : find_order o id after ≡ some order
  pub subtotal : order.subtotal_minor ≡ some (cost_of items)
  pub fits : cost_of items ≤ max_int64

filled-IsPriced :
    (clock : Clock) (o user id : ℕ) (input : CreateInput) (db : Db) (order : Order)
    (view : OrderView) (after : Db)
    → find_order o id db ≡ some order
    → IsFilled clock o user id input db view after
    → IsPriced o id db after
unfolding set_totals
filled-IsPriced clock o user id input db order view after found f =
    let locked = lock_stock-IsLocked clock o input.items _ [] f.products db f.locked f.lock in
    let made = insert_lines-IsItemized clock o id (f.totals).lines f.set f.placed f.place in
    let exact =
      total_lines-IsExact f.prices (map (line_of f.products) input.items) no_totals f.totals
        (λ asks. (refl, omega arith, tt)) f.total in
    let (subtotal, fits, worths) =
      exact (ItemsOf-asks o id (f.totals).lines made.items made.made) in
    let (cost, rows) = ItemsOf-cost o id (f.totals).lines made.items made.made worths in
    let set : f.set ≡ record f.locked {
      orders =
          update (is_order o id) (priced (f.totals).currency (pos_part (f.totals).subtotal))
            (f.locked).orders;
    } =
      ground (arith, f.setting) in
    let still : find_order o id f.locked ≡ some order = rw locked.tables found in
    let new = priced (f.totals).currency (pos_part (f.totals).subtotal) order in
    let changed =
      first-update (is_order o id) (priced (f.totals).currency (pos_part (f.totals).subtotal))
        (λ x e. e) (f.locked).orders still in
    let set_orders = ap (λ d. d.orders) set in
    record {
      items = made.items;
      rows =
          ap (λ d. d.order_items) f.tables
          ∙ made.rows
          ∙ ap (λ rest. rest ++ made.items)
              (ap (λ d. d.order_items) set ∙ ap (λ d. d.order_items) locked.tables);
      totals = rows;
      order = new;
      found = rw (f.tables, made.only, set) changed;
      subtotal = ap (λ z. some (pos_part z)) subtotal ∙ ap some (sym cost);
      fits = omega (arith, cost, fits);
    }

-- A new order, whose number no order has yet, has the items that are inserted with it, each with a
-- total of its quantity times its price, and a subtotal that is the sum of those; nothing of it
-- exceeds an `int64` or wraps.
pub create-IsPriced :
    (clock : Clock) (o user : ℕ) (key hash : String) (input : CreateInput) (db after : Db)
    (view : OrderView)
    → first (has_key o key) db.orders ≡ none
    → find_order o db.next_id db ≡ none
    → create clock o user key hash input db ≡ ok (view, after)
    → IsPriced o db.next_id db after
create-IsPriced clock o user key hash input db after view fresh unused h =
    elim (create-cases clock o user key hash input db view after h) [
      | inl replayed ↦ absurd (ground (arith, fresh, replayed.found))
      | inr placed ↦
          let new = new_order clock db.next_id o user key hash AllocationMethod.manual none in
          let f =
            filled-IsPriced clock o user db.next_id input _ new view after
              (first-append (is_order o db.next_id) db.orders new unused
                (ground (arith, ==_refl o, ==_refl db.next_id)))
              placed.filled in
          record {
            items = f.items;
            rows = f.rows;
            totals = f.totals;
            order = f.order;
            found = f.found;
            subtotal = f.subtotal;
            fits = f.fits;
          }
    ]
