-- ===== src/Order/Stocking.antt =====
-- What `lock_stock` tells: every level has room for what is asked of it, and none is asked twice.
use flowcart.Prelude.{
  ℕ, ◌+◌, ◌≤◌, ◌≡◌, ◌≢◌, refl, inl, inr, false, some, List, [], ◌∷◌, arith, first, All, Apart,
  All-map, Option-cases, Result-cases, pos, pos_part, ◌-ℤ◌, ◌<ℤ◌, -ℤ_parts, ==_refl, Map, ok,
}
use flowcart.Database.{Db, Clock, InventoryLevel, Reservation}
use flowcart.Database.Stock.{
  is_level, find_level, find_product, find_warehouse, expire_reservations, reserved_on,
}
use flowcart.Database.Stock.Laws.{reserved_on-expire_le, reserved_on_later}
use flowcart.Order.Model.{ItemInput}
use flowcart.Order.Creating.{contains, asks_too_much, lock_stock}

-- A level has on hand what is reserved of it at a time, and what any of the items asks of it.
abbrev pub RoomFor : ℕ → ℕ → List InventoryLevel → List Reservation → List ItemInput → ℕ → Type 0
RoomFor time o ls rs items id =
    (l : InventoryLevel) × (first (is_level o id) ls ≡ some l)
    × All
        (λ i.
          i.inventory_level_id ≡ id
          → pos 0 <ℤ i.quantity
          → reserved_on time o id rs + pos_part i.quantity ≤ l.on_hand_quantity)
        items

-- The product of a level is none of those that were seen.
abbrev Unseen : ℕ → List InventoryLevel → List ℕ → ℕ → Type 0
Unseen o ls seen id =
    (l : InventoryLevel) → first (is_level o id) ls ≡ some l → contains l.product_id seen ≡ false

asks_little :
    (time o id reserved : ℕ) (rs : List Reservation) (l : InventoryLevel) (items : List ItemInput)
    → asks_too_much (pos l.on_hand_quantity -ℤ pos reserved) id items ≡ false
    → reserved_on time o id rs ≤ reserved
    → All
        (λ i.
          i.inventory_level_id ≡ id
          → pos 0 <ℤ i.quantity
          → reserved_on time o id rs + pos_part i.quantity ≤ l.on_hand_quantity)
        items
unfolding asks_too_much
asks_little time o id reserved rs l [] h less = tt
asks_little time o id reserved rs l (i ∷ is) h less = (
  λ e positive.
      ground
        (arith, h, positive, less, e, ==_refl id, -ℤ_parts (pos l.on_hand_quantity) (pos reserved)),
  asks_little time o id reserved rs l is (ground (arith, h)) less,
)

module _ (clock : Clock) (o : ℕ) (items : List ItemInput) where
  pub record IsLocked (ids seen : List ℕ) (products : Map ℕ) (db after : Db) : Type 0 where
    pub tables : after ≡ record db { reservations = after.reservations }
    pub fewer :
        (time p j : ℕ)
        → reserved_on time p j after.reservations ≤ reserved_on time p j db.reservations
    pub rooms :
        (time : ℕ)
        → ((level : ℕ) → clock.statement level ≤ time)
        → All (RoomFor time o db.levels after.reservations items) ids
    pub unseen : All (Unseen o db.levels seen) ids
    pub apart : Apart ◌≢◌ ids

  -- One round: the level, and the run of the rest.
  record IsRound (id : ℕ) (ids seen : List ℕ) (products : Map ℕ) (db after : Db) : Type 0 where
    level : InventoryLevel
    found : first (is_level o id) db.levels ≡ some level
    fresh : contains level.product_id seen ≡ false
    little :
        asks_too_much
          (pos level.on_hand_quantity
            -ℤ pos (
                reserved_on
                  (clock.statement id)
                  o
                  id
                  (expire_reservations clock o id db).reservations))
          id
          items
        ≡ false
    others : Map ℕ
    row : products ≡ (id, level.product_id) ∷ others
    rest :
        lock_stock clock o items ids (level.product_id ∷ seen) (expire_reservations clock o id db)
        ≡ ok (others, after)

  lock_stock-IsRound :
      (id : ℕ) (ids seen : List ℕ) (products : Map ℕ) (db after : Db)
      → lock_stock clock o items (id ∷ ids) seen db ≡ ok (products, after)
      → IsRound id ids seen products db after
  unfolding lock_stock
  lock_stock-IsRound id ids seen products db after h = elim (Option-cases (find_level o id db)) [
    | inl e ↦ absurd (ground (arith, e, h))
    | inr (level, e) ↦ elim (Option-cases (find_product o level.product_id db)) [
      | inl f ↦ absurd (ground (arith, e, f, h))
      | inr (product, f) ↦ elim (Option-cases (find_warehouse o level.warehouse_id db)) [
        | inl g ↦ absurd (ground (arith, e, f, g, h))
        | inr (warehouse, g) ↦
            elim (Result-cases (
              lock_stock clock o items ids (level.product_id ∷ seen)
                (expire_reservations clock o id db))) [
                  | inl (x, k) ↦ absurd (ground (arith, e, f, g, k, h))
                  | inr ((others, last), k) ↦ record {
                    level = level;
                    found = e;
                    fresh = ground (arith, e, f, g, k, h);
                    little = ground (arith, e, f, g, k, h);
                    others = others;
                    row = ground (arith, e, f, g, k, h);
                    rest = ground (arith, e, f, g, k, h);
                  }
                ]
      ]
    ]
  ]

  Unseen-other :
      (id : ℕ) (seen : List ℕ) (ls : List InventoryLevel) (l : InventoryLevel) (ids : List ℕ)
      → first (is_level o id) ls ≡ some l
      → All (Unseen o ls (l.product_id ∷ seen)) ids
      → All (λ j. id ≢ j) ids
  Unseen-other id seen ls l [] found unseen = tt
  Unseen-other id seen ls l (j ∷ ids) found unseen = (
    λ same. ground (arith, unseen.0 l (rw same at found), ==_refl l.product_id),
    Unseen-other id seen ls l ids found unseen.1,
  )

  Unseen-fewer :
      (p : ℕ) (seen : List ℕ) (ls : List InventoryLevel) (ids : List ℕ)
      → All (Unseen o ls (p ∷ seen)) ids
      → All (Unseen o ls seen) ids
  Unseen-fewer p seen ls ids =
      All-map (Unseen o ls (p ∷ seen)) (Unseen o ls seen) ids (λ id u l e. ground (arith, u l e))

  pub lock_stock-IsLocked :
      (ids seen : List ℕ) (products : Map ℕ) (db after : Db)
      → lock_stock clock o items ids seen db ≡ ok (products, after)
      → IsLocked ids seen products db after
  unfolding lock_stock expire_reservations
  lock_stock-IsLocked [] seen products db after h = record {
    tables = ground (arith, h);
    fewer = λ time p j. ground (arith, h);
    rooms = λ time later. tt;
    unseen = tt;
    apart = tt;
  }
  lock_stock-IsLocked (id ∷ ids) seen products db after h =
      let r = lock_stock-IsRound id ids seen products db after h in
      let mid = expire_reservations clock o id db in
      let l = r.level in
      let rest = lock_stock-IsLocked ids (l.product_id ∷ seen) r.others mid after r.rest in
      let less = λ (time p j : ℕ). reserved_on-expire_le time p j clock.now o id db.reservations in
      record {
        tables = rw rest.tables refl;
        fewer = λ time p j. omega (arith, rest.fewer time p j, less time p j);
        rooms = λ time later. (
          (
            l,
            r.found,
            asks_little time o id (reserved_on (clock.statement id) o id mid.reservations)
                after.reservations l items r.little
                (omega (
                  arith,
                  rest.fewer time o id,
                  reserved_on_later (clock.statement id) time o id mid.reservations (later id),
                )),
          ),
          rest.rooms time later,
        );
        unseen = (
          λ m e. let same : m ≡ l = ground (arith, e, r.found) in rw same r.fresh,
          Unseen-fewer l.product_id seen db.levels ids rest.unseen,
        );
        apart = (Unseen-other id seen db.levels l ids r.found rest.unseen, rest.apart);
      }
