-- ===== src/Inventory/Reserving.antt =====
-- `Reserve`: a reservation is made only of stock that is free.
use flowcart.Prelude.{
  ℕ, suc, ◌+◌, ◌≤◌, ◌≡◌, ap, inl, inr, true, some, List, [], ◌∷◌, ◌++◌, arith, update, Option-cases,
  ℤ, pos, pos_part, ◌<ℤ◌, -ℤ_parts, ◌↔◌, ok,
}
use flowcart.Database.{
  Db, Clock, Product, Warehouse, InventoryLevel, Reservation, transact, transact-keeps,
}
use flowcart.Database.Stock.{
  find_product, find_warehouse, find_level, reserved_quantity, reserved_on, expire_reservations,
  expire, is_overdue,
}
use flowcart.Database.Stock.Laws.{reserved_on-append, reserved_on-expire_le, reserved_on_later}
use flowcart.Database.Stock.Coverage.{IsCovered, UniqueLevels, Covered-fewer, Covered-more}
use flowcart.Inventory.Repository.{new_reservation, reserve}

module _ (clock : Clock) (o i : ℕ) (quantity : ℤ) (db : Db) where
  -- the reservations once the overdue ones of the level have expired
  abbrev kept : List Reservation
  kept = update (is_overdue clock.now o i) (expire clock.now) db.reservations

  -- What a reservation that was made tells.
  pub record IsReserved (r : Reservation) (after : Db) : Type 0 where
    pub level : InventoryLevel
    pub found : find_level o i db ≡ some level
    pub positive : pos 0 <ℤ quantity
    pub room : reserved_on (clock.statement i) o i kept + pos_part quantity ≤ level.on_hand_quantity
    pub row : r ≡ new_reservation clock db.next_id o i (pos_part quantity)
    pub tables : after ≡ record db { reservations = kept ++ r ∷ []; next_id = suc db.next_id }

  pub reserve-IsReserved :
      (r : Reservation) (after : Db)
      → reserve clock o i quantity db ≡ ok (r, after)
      → IsReserved r after
  unfolding reserve
  reserve-IsReserved r after h = elim (Option-cases (find_level o i db)) [
    | inl e ↦ absurd (ground (arith, e, h))
    | inr (level, e) ↦ record {
      level = level;
      found = e;
      positive = ground (arith, e, h);
      room = ground (
        arith,
        e,
        h,
        -ℤ_parts (pos level.on_hand_quantity) (pos (reserved_on (clock.statement i) o i kept)),
      );
      row = ground (arith, e, h);
      tables = ground (arith, e, h);
    }
  ]

IsReserved-IsCovered :
    (clock : Clock) (o i : ℕ) (quantity : ℤ) (db : Db) (r : Reservation) (after : Db) (time : ℕ)
    → clock.statement i ≤ time
    → UniqueLevels db.levels
    → IsCovered time db
    → IsReserved clock o i quantity db r after
    → IsCovered time after
IsReserved-IsCovered clock o i quantity db r after time later unique covered made =
    let rs = kept clock o i quantity db in
    rw made.tables (
      Covered-more o i time (pos_part quantity) rs (rs ++ r ∷ [])
        (λ p j. rw made.row (rw reserved_on-append (unfold reserved_on in ground arith))) db.levels
        made.level unique made.found
        (omega (arith, made.room, reserved_on_later (clock.statement i) time o i rs later))
        (Covered-fewer time db.levels db.reservations rs
          (λ p j. reserved_on-expire_le time p j clock.now o i db.reservations) covered))

-- Reserving never reserves more of a level than is on hand: what was covered at a time from the
-- check on is covered after the transaction, whether it commits or rolls back.
pub reserve-IsCovered :
    (clock : Clock) (o i : ℕ) (quantity : ℤ) (db : Db) (time : ℕ)
    → clock.statement i ≤ time
    → UniqueLevels db.levels
    → IsCovered time db
    → IsCovered time (transact (reserve clock o i quantity) db).1
reserve-IsCovered clock o i quantity db time later unique covered =
    transact-keeps (IsCovered time) (reserve clock o i quantity) db covered (λ r after h.
      IsReserved-IsCovered clock o i quantity db r after time later unique covered
        (reserve-IsReserved clock o i quantity db r after h))

-- On a level of an active product and warehouse, a positive quantity is reserved exactly when the
-- stock that no reservation holds suffices.
pub reserve_iff :
    (clock : Clock) (o i : ℕ) (quantity : ℤ) (db : Db) (level : InventoryLevel) (product : Product)
    (warehouse : Warehouse)
    → find_level o i db ≡ some level
    → find_product o level.product_id db ≡ some product
    → find_warehouse o level.warehouse_id db ≡ some warehouse
    → product.is_active ≡ true
    → warehouse.is_active ≡ true
    → pos 0 <ℤ quantity
    → ((transact (reserve clock o i quantity) db).0
        ≡ ok (new_reservation clock db.next_id o i (pos_part quantity)))
      ↔ (reserved_quantity clock o i (expire_reservations clock o i db) + pos_part quantity
          ≤ level.on_hand_quantity)
unfolding reserve expire_reservations
reserve_iff clock o i quantity db level product warehouse fl fp fw ap aw positive =
    let parts =
      -ℤ_parts (pos level.on_hand_quantity)
        (pos (reserved_on (clock.statement i) o i (kept clock o i quantity db))) in
    (λ h. ground (arith, h, parts), λ h. ground (arith, h, parts))
