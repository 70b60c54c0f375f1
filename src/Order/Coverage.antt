-- ===== src/Order/Coverage.antt =====
-- `Create` reserves only stock that is free.
use flowcart.Prelude.{
  ℕ, ◌+◌, ◌≤◌, ◌≡◌, ◌≢◌, ◌==◌, ◌&&◌, if◌then◌else◌, some, List, [], ◌∷◌, ◌++◌, arith, first, All,
  Apart, ℤ, pos, pos_part, ◌<ℤ◌, ok,
}
use flowcart.Database.{Db, Clock, InventoryLevel, Reservation}
use flowcart.Database.Stock.{is_level, reserved_on}
use flowcart.Database.Stock.Laws.{reserved_on-append}
use flowcart.Database.Stock.Coverage.{IsCovered, UniqueLevels, Covered-more}
use flowcart.Order.Pricing.{PricedLine}
use flowcart.Order.Placing.{item_reservation, insert_lines}
use flowcart.Order.Placed.{pairs_of, IsItemReserved, insert_lines-keeps}

-- The level of a pair has on hand what is reserved of it at a time, and the quantity of the pair.
abbrev pub PairRoom : ℕ → ℕ → List InventoryLevel → List Reservation → ℕ × ℤ → Type 0
PairRoom time o ls rs pair =
    pos 0 <ℤ pair.1
    → (l : InventoryLevel) × (first (is_level o pair.0) ls ≡ some l)
      × (reserved_on time o pair.0 rs + pos_part pair.1 ≤ l.on_hand_quantity)

abbrev pub OtherPair : ℕ × ℤ → ℕ × ℤ → Type 0
OtherPair a b = a.0 ≢ b.0

module _ (clock : Clock) (o order time : ℕ) where
  -- The reservations to come have room, each on a level of its own.
  abbrev HaveRoom : List (ℕ × ℤ) → Db → Type 0
  HaveRoom pairs db =
      UniqueLevels db.levels
      × IsCovered time db
      × All (PairRoom time o db.levels db.reservations) pairs
      × Apart OtherPair pairs

  more_reserved :
      (item level q id p j : ℕ) (rs : List Reservation)
      → reserved_on time p j (rs ++ item_reservation clock id o item level q ∷ [])
        ≤ reserved_on time p j rs + (if◌then◌else◌ (o == p && level == j) q 0)
  more_reserved item level q id p j rs = rw reserved_on-append (unfold reserved_on in ground arith)

  other_reserved :
      (item level q id j : ℕ) (rs : List Reservation)
      → level ≢ j
      → reserved_on time o j (rs ++ item_reservation clock id o item level q ∷ [])
        ≡ reserved_on time o j rs
  other_reserved item level q id j rs other =
      rw reserved_on-append (unfold reserved_on in ground (arith, other))

  rooms-reserved :
      (item level q id : ℕ) (ls : List InventoryLevel) (rs : List Reservation)
      (pairs : List (ℕ × ℤ))
      → All (λ pair. level ≢ pair.0) pairs
      → All (PairRoom time o ls rs) pairs
      → All (PairRoom time o ls (rs ++ item_reservation clock id o item level q ∷ [])) pairs
  rooms-reserved item level q id ls rs [] other rooms = tt
  rooms-reserved item level q id ls rs (pair ∷ pairs) other rooms = (
    λ positive.
        let (l, found, room) = rooms.0 positive in
        (l, found, rw (other_reserved item level q id pair.0 rs other.0) room),
    rooms-reserved item level q id ls rs pairs other.1 rooms.1,
  )

  reserved-HaveRoom :
      (item level : ℕ) (quantity : ℤ) (rest : List (ℕ × ℤ)) (db after : Db)
      → HaveRoom ((level, quantity) ∷ rest) db
      → IsItemReserved clock o order item level quantity db after
      → HaveRoom rest after
  reserved-HaveRoom item level quantity rest db after (unique, covered, rooms, apart) made =
      let (l, found, room) = rooms.0 made.positive in
      let new = item_reservation clock db.next_id o item level (pos_part quantity) in
      rw made.tables (
        unique,
        Covered-more o level time (pos_part quantity) db.reservations (db.reservations ++ new ∷ [])
            (λ p j. more_reserved item level (pos_part quantity) db.next_id p j db.reservations)
            db.levels l unique found room covered,
        rooms-reserved item level (pos_part quantity) db.next_id db.levels db.reservations rest
            apart.0 rooms.1,
        apart.1,
      )

  pub insert_lines-IsCovered :
      (ps : List PricedLine) (db after : Db)
      → HaveRoom (pairs_of ps) db
      → insert_lines clock o order ps db ≡ ok (tt, after)
      → IsCovered time after
  insert_lines-IsCovered ps db after room h =
      (insert_lines-keeps clock o order HaveRoom reserved-HaveRoom
        (λ p id pairs d e rooms made. rw made.tables rooms) ps db after room h).1
