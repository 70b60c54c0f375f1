-- ===== src/Order/Reserving.antt =====
-- A new order reserves only stock that is free.
use flowcart.Prelude.{
  ℕ, String, ◌≤◌, ◌≡◌, ◌≢◌, refl, sym, ap, ◌∙◌, inl, inr, List, [], ◌∷◌, ◌++◌, arith, ltb, map,
  sort_by, All, Apart, Has, All-Has, Has-self, All-sort_by_back, Apart-sort_by_back, Option-cases,
  Result-cases, ℤ, suc, none, pos, mul64, Map, lookup, ok,
}
use mathlib.Core.List.{append_assoc, append-nil}
use flowcart.Database.{Db, Clock, InventoryLevel, Reservation, transact, transact-keeps}
use flowcart.Database.Stock.Coverage.{IsCovered, UniqueLevels, Covered-fewer}
use flowcart.Database.Sales.{AllocationMethod}
use flowcart.Order.Model.{ItemInput, CreateInput, OrderView}
use flowcart.Order.Pricing.{PricingSnapshot, Line, PricedLine, Totals, add_line, total_lines}
use flowcart.Order.Placing.{new_order, set_totals}
use flowcart.Order.Creating.{line_of, levels_of, create}
use flowcart.Order.Stocking.{RoomFor, lock_stock-IsLocked}
use flowcart.Order.Placed.{pairs_of}
use flowcart.Order.Filled.{IsFilled, create-cases}
use flowcart.Order.Coverage.{PairRoom, OtherPair, insert_lines-IsCovered}

abbrev pub reserves_of : List Line → List (ℕ × ℤ)
reserves_of [] = []
reserves_of (l ∷ ls) = l.reserves ++ reserves_of ls

pub pairs_of-append : (ps qs : List PricedLine) → pairs_of (ps ++ qs) ≡ pairs_of ps ++ pairs_of qs
pairs_of-append [] qs = refl
pairs_of-append (p ∷ ps) qs =
    ap (λ rest. (p.line).reserves ++ rest) (pairs_of-append ps qs)
    ∙ sym (append_assoc (p.line).reserves (pairs_of ps) (pairs_of qs))

add_line-pairs :
    (s : PricingSnapshot) (l : Line) (t t' : Totals)
    → add_line s l t ≡ ok t'
    → pairs_of t'.lines ≡ pairs_of t.lines ++ l.reserves
unfolding add_line
add_line-pairs s l t t' h =
    let new : PricedLine = record {
      line = l;
      snapshot = s;
      total = mul64 (pos s.price) l.quantity;
    } in
    let lines : t'.lines ≡ t.lines ++ new ∷ [] = ground (arith, h) in
    ap pairs_of lines
    ∙ pairs_of-append t.lines (new ∷ [])
    ∙ ap (λ rest. pairs_of t.lines ++ rest) (append-nil l.reserves)

-- The prices change nothing of what is reserved.
pub total_lines-pairs :
    (prices : Map PricingSnapshot) (ls : List Line) (t t' : Totals)
    → total_lines prices ls t ≡ ok t'
    → pairs_of t'.lines ≡ pairs_of t.lines ++ reserves_of ls
unfolding total_lines
total_lines-pairs prices [] t t' h =
    let same : t ≡ t' = ground (arith, h) in
    ap (λ x. pairs_of x.lines) (sym same) ∙ sym (append-nil (pairs_of t.lines))
total_lines-pairs prices (l ∷ ls) t t' h = elim (Option-cases (lookup l.product_id prices)) [
  | inl e ↦ absurd (ground (arith, e, h))
  | inr (s, e) ↦ elim (Result-cases (add_line s l t)) [
    | inl (x, f) ↦ absurd (ground (arith, e, f, h))
    | inr (mid, f) ↦
        total_lines-pairs prices ls mid t' (ground (arith, e, f, h))
        ∙ ap (λ ps. ps ++ reserves_of ls) (add_line-pairs s l t mid f)
        ∙ append_assoc (pairs_of t.lines) l.reserves (reserves_of ls)
  ]
]

abbrev item_pairs : List ItemInput → List (ℕ × ℤ)
item_pairs [] = []
item_pairs (i ∷ is) = (i.inventory_level_id, i.quantity) ∷ item_pairs is

reserves_of-lines :
    (products : Map ℕ) (is : List ItemInput)
    → reserves_of (map (line_of products) is) ≡ item_pairs is
reserves_of-lines products [] = refl
reserves_of-lines products (i ∷ is) =
    ap (λ rest. (i.inventory_level_id, i.quantity) ∷ rest) (reserves_of-lines products is)

module _ (time o : ℕ) (ls : List InventoryLevel) (rs : List Reservation)
    (all : List ItemInput) where
  item_pairs-PairRoom :
      (is : List ItemInput)
      → All (λ i. Has i all) is
      → All (RoomFor time o ls rs all) (levels_of is)
      → All (PairRoom time o ls rs) (item_pairs is)
  item_pairs-PairRoom [] has rooms = tt
  item_pairs-PairRoom (i ∷ is) has rooms = (
    λ positive.
        let (l, found, every) = rooms.0 in (l, found, All-Has _ i all every has.0 refl positive),
    item_pairs-PairRoom is has.1 rooms.1,
  )

item_pairs-others :
    (x : ℕ) (is : List ItemInput)
    → All (λ y. x ≢ y) (levels_of is)
    → All (λ pair. x ≢ pair.0) (item_pairs is)
item_pairs-others x [] h = tt
item_pairs-others x (i ∷ is) h = (h.0, item_pairs-others x is h.1)

item_pairs-Apart :
    (is : List ItemInput) → Apart ◌≢◌ (levels_of is) → Apart OtherPair (item_pairs is)
item_pairs-Apart [] h = tt
item_pairs-Apart (i ∷ is) h =
    (item_pairs-others i.inventory_level_id is h.0, item_pairs-Apart is h.1)

module _ (clock : Clock) (o user : ℕ) (input : CreateInput) (time : ℕ)
    (later : (level : ℕ) → clock.statement level ≤ time) where
  filled-IsCovered :
      {id : ℕ} (db : Db) (view : OrderView) (after : Db)
      → UniqueLevels db.levels
      → IsCovered time db
      → IsFilled clock o user id input db view after
      → IsCovered time after
  unfolding set_totals
  filled-IsCovered {id} db view after unique covered f =
      let items = input.items in
      let locked =
        lock_stock-IsLocked clock o items (sort_by ltb (levels_of items)) [] f.products db f.locked
          f.lock in
      let pairs =
        total_lines-pairs f.prices (map (line_of f.products) items) _ f.totals f.total
        ∙ reserves_of-lines f.products items in
      let rooms =
        All-sort_by_back ltb (RoomFor time o db.levels (f.locked).reservations items)
          (levels_of items) (locked.rooms time later) in
      let apart =
        Apart-sort_by_back ltb ◌≢◌ (λ x y other e. other (sym e)) (levels_of items) locked.apart in
      let set : f.set ≡ record f.locked { orders = (f.set).orders } = ground (arith, f.setting) in
      let levels : (f.set).levels ≡ db.levels =
        ap (λ d. d.levels) set ∙ ap (λ d. d.levels) locked.tables in
      let reservations : (f.set).reservations ≡ (f.locked).reservations =
        ap (λ d. d.reservations) set in
      rw f.tables (
        insert_lines-IsCovered clock o id time (f.totals).lines f.set f.placed
          (rw (levels, reservations, pairs)
            (
              unique,
              Covered-fewer time db.levels db.reservations (f.locked).reservations
                  (λ p j. locked.fewer time p j) covered,
              item_pairs-PairRoom time o db.levels (f.locked).reservations items items
                  (Has-self items) rooms,
              item_pairs-Apart items apart,
            ))
          f.place)

  -- Within its transaction, and at every time that no statement comes after, an order reserves of
  -- each level no more than it has.
  pub create-IsCovered :
      (key hash : String) (db : Db)
      → UniqueLevels db.levels
      → IsCovered time db
      → IsCovered time (transact (create clock o user key hash input) db).1
  create-IsCovered key hash db unique covered =
      transact-keeps (IsCovered time) (create clock o user key hash input) db covered
        (λ view after h. elim (create-cases clock o user key hash input db view after h) [
          | inl replayed ↦ rw replayed.same covered
          | inr placed ↦
              filled-IsCovered
                (record db {
                  orders =
                      db.orders
                      ++ new_order clock db.next_id o user key hash AllocationMethod.manual none
                        ∷ [];
                  next_id = suc db.next_id;
                })
                view after unique covered placed.filled
        ])
