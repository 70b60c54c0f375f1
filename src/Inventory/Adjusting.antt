-- ===== src/Inventory/Adjusting.antt =====
-- Adjusting the stock of a level: never below what is reserved of it, and on record.
use flowcart.Prelude.{
  ℕ, ◌+◌, ◌≤◌, ◌≡◌, inl, inr, false, some, List, [], ◌∷◌, ◌++◌, arith, update, Option-cases, ℤ, pos,
  negsuc, pos_part, neg_part, ltb_ℤ, add64, +ℤ_parts, ok,
}
use flowcart.Database.{Db, Clock, InventoryLevel, Reservation, transact, transact-keeps}
use flowcart.Database.Audit.{append_event}
use flowcart.Database.Stock.{
  is_level, find_level, reserved_on, expire_reservations, expire, is_overdue, change_levels,
  change_stock, moved,
}
use flowcart.Database.Stock.Laws.{
  is_level_eq, first_holds, reserved_on-expire_le, reserved_on_later,
}
use flowcart.Database.Stock.Coverage.{IsCovered, UniqueLevels, Covered-fewer}
use flowcart.Database.Stock.Moves.{Moves, change_levels-Moves, Covered-Moves, find-Moves_self}
use flowcart.Database.Ledger.{IsBalanced, Balanced-Moves}
use flowcart.Inventory.Repository.{LevelView, get_level}
use flowcart.Inventory.Adjust.{takes_too_much, actor_of, adjustment_movement, adjust}

-- The checks before the update leave room for what is reserved, also where the sum wraps.
checks-room :
    (on_hand reserved : ℕ) (delta : ℤ) (h : ℕ)
    → takes_too_much on_hand delta ≡ false
    → ltb_ℤ (add64 (pos on_hand) delta) (pos reserved) ≡ false
    → moved on_hand delta ≡ some h
    → reserved + neg_part delta ≤ on_hand + pos_part delta
unfolding add64
checks-room on_hand reserved (pos n) h e f g = ground (arith, +ℤ_parts (pos on_hand) (pos n))
checks-room on_hand reserved (negsuc n) h e f g = ground (arith, +ℤ_parts (pos on_hand) (negsuc n))

module _ (clock : Clock) (o user id : ℕ) (delta : ℤ) (db : Db) where
  -- the reservations once the overdue ones of the level have expired
  abbrev left : List Reservation
  left = update (is_overdue clock.now o id) (expire clock.now) db.reservations

  -- What an adjustment that committed tells.
  pub record IsAdjusted (view : LevelView) (after : Db) : Type 0 where
    pub level : InventoryLevel
    pub found : find_level o id db ≡ some level
    pub allowed : takes_too_much level.on_hand_quantity delta ≡ false
    pub above :
        ltb_ℤ
          (add64 (pos level.on_hand_quantity) delta)
          (pos (reserved_on (clock.statement id) o id left))
        ≡ false
    pub moves : change_levels o id delta db.levels ≡ some after.levels
    pub reservations : after.reservations ≡ left
    pub movements :
        after.movements
        ≡ db.movements ++ adjustment_movement clock db.next_id o level delta (actor_of user) ∷ []
    pub read : get_level clock o id after ≡ ok (view, after)

  adjust-IsAdjusted :
      (view : LevelView) (after : Db)
      → adjust clock o user id delta db ≡ ok (view, after)
      → IsAdjusted view after
  unfolding adjust expire_reservations change_stock append_event
  adjust-IsAdjusted view after h = elim (Option-cases (find_level o id db)) [
    | inl e ↦ absurd (ground (arith, e, h))
    | inr (level, e) ↦ elim (Option-cases (change_levels o id delta db.levels)) [
      | inl f ↦ absurd (ground (arith, e, f, h))
      | inr (levels, f) ↦ record {
        level = level;
        found = e;
        allowed = ground (arith, e, f, h);
        above = ground (arith, e, f, h);
        moves = ground (arith, e, f, h);
        reservations = ground (arith, e, f, h);
        movements = ground (arith, e, f, h);
        read = ground (arith, e, f, h);
      }
    ]
  ]

module _ (clock : Clock) (o user id : ℕ) (delta : ℤ) (db : Db) (view : LevelView) (after : Db)
    (unique : UniqueLevels db.levels) (done : IsAdjusted clock o user id delta db view after) where
  level-Moves : Moves o id delta db.levels after.levels
  level-Moves = change_levels-Moves o id delta db.levels after.levels unique done.moves

  adjusted-room :
      reserved_on (clock.statement id) o id (left clock o user id delta db) + neg_part delta
      ≤ (done.level).on_hand_quantity + pos_part delta
  adjusted-room =
      let (h, m, f) = find-Moves_self done.level level-Moves done.found in
      checks-room (done.level).on_hand_quantity
        (reserved_on (clock.statement id) o id (left clock o user id delta db)) delta h done.allowed
        done.above m

  adjusted-IsCovered :
      (time : ℕ) → clock.statement id ≤ time → IsCovered time db → IsCovered time after
  adjusted-IsCovered time later covered =
      let rs = left clock o user id delta db in
      rw done.reservations (
        Covered-Moves time rs done.level level-Moves done.found
          (omega (arith, adjusted-room, reserved_on_later (clock.statement id) time o id rs later))
          (Covered-fewer time db.levels db.reservations rs
            (λ p j. reserved_on-expire_le time p j clock.now o id db.reservations) covered))

  adjusted-IsBalanced : (opening : ℕ → ℕ → ℕ) → IsBalanced opening db → IsBalanced opening after
  adjusted-IsBalanced opening balanced =
      let m = adjustment_movement clock db.next_id o done.level delta (actor_of user) in
      let on = (is_level_eq o id done.level (first_holds (is_level o id) db.levels done.found)).1 in
      rw done.movements (Balanced-Moves opening m db.movements (rw on level-Moves) balanced)

-- An adjustment never takes the stock below what is reserved of it, and never lets it wrap: what
-- was covered at a time from the check on is covered after it, committed or not.
pub adjust-IsCovered :
    (clock : Clock) (o user id : ℕ) (delta : ℤ) (db : Db) (time : ℕ)
    → clock.statement id ≤ time
    → UniqueLevels db.levels
    → IsCovered time db
    → IsCovered time (transact (adjust clock o user id delta) db).1
adjust-IsCovered clock o user id delta db time later unique covered =
    transact-keeps (IsCovered time) (adjust clock o user id delta) db covered (λ view after h.
      adjusted-IsCovered clock o user id delta db view after unique
        (adjust-IsAdjusted clock o user id delta db view after h) time later covered)

-- An adjustment changes the stock by the amount of the movement that it records, so that the
-- movements of every level still account for its stock.
pub adjust-IsBalanced :
    (clock : Clock) (o user id : ℕ) (delta : ℤ) (db : Db) (opening : ℕ → ℕ → ℕ)
    → UniqueLevels db.levels
    → IsBalanced opening db
    → IsBalanced opening (transact (adjust clock o user id delta) db).1
adjust-IsBalanced clock o user id delta db opening unique balanced =
    transact-keeps (IsBalanced opening) (adjust clock o user id delta) db balanced (λ view after h.
      adjusted-IsBalanced clock o user id delta db view after unique
        (adjust-IsAdjusted clock o user id delta db view after h) opening balanced)
