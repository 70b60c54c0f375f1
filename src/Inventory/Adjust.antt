-- ===== src/Inventory/Adjust.antt =====
-- apps/api/internal/inventory/repository.go: `adjust`, a change of the stock of a level, and
-- `UpdateReplenishmentPolicy`.
use mathlib.Core.Option
use flowcart.Prelude.{
  ℕ, suc, ◌-◌, ◌^◌, Bool, true, false, not, ◌&&◌, ◌||◌, Option, none, some, List, [], ◌∷◌, ◌++◌, ℤ,
  pos, negsuc, pos_part, ltb_ℤ, leb_ℤ, eqb_ℤ, add64, ltb, ◌==◌, if◌then◌else◌, select, update,
}
use flowcart.Database.{
  Db, Clock, Tx, InventoryLevel, InventoryMovement, MovementType, adjustment, AuditEvent, ◌>>=◌,
  ◌>>◌, gets, or_throw, modify, throw_if,
}
use flowcart.Database.Stock.{
  is_level, find_level, reserved_quantity, reserved_on, expire_reservations, change_stock,
}
use flowcart.Database.Audit.{append_event}
use flowcart.Inventory.Repository.{
  InventoryError, not_found, insufficient_stock, stock_below_reserved, database_error, LevelView,
  get_level,
}

-- `delta < 0 && (delta == -1<<63 || current < -delta)`
abbrev pub takes_too_much : ℕ → ℤ → Bool
takes_too_much current (pos n) = false
takes_too_much current (negsuc n) = n == 2 ^ 63 - 1 || ltb current (suc n)

-- `userID`, or NULL for the nil one
abbrev pub actor_of : ℕ → Option ℕ
actor_of user = if user == 0 then none else some user

abbrev pub is_adjustment : MovementType → Bool
is_adjustment adjustment = true
is_adjustment _ = false

-- `IS NOT DISTINCT FROM`
abbrev pub same_option : Option ℕ → Option ℕ → Bool
same_option none none = true
same_option (some a) (some b) = a == b
same_option _ _ = false

abbrev pub same_adjustment : ℕ → InventoryLevel → ℤ → Option ℕ → InventoryMovement → Bool
same_adjustment organization level delta actor m =
    m.organization_id == organization
    && m.inventory_level_id == level.id
    && m.product_id == level.product_id
    && m.warehouse_id == level.warehouse_id
    && is_adjustment m.movement_type
    && eqb_ℤ m.quantity_delta delta
    && same_option m.created_by_user_id actor

-- `(created_at, id)` of the first is the greater
abbrev pub newer : InventoryMovement → InventoryMovement → Bool
newer a b = ltb b.created_at a.created_at || (a.created_at == b.created_at && ltb b.id a.id)

-- `ORDER BY created_at DESC, id DESC LIMIT 1`
unfoldable pub newest : List InventoryMovement → Option InventoryMovement
newest [] = none
newest (m ∷ ms) = elim (newest ms) [ none ↦ some m | some n ↦ if newer n m then some n else some m ]

abbrev pub adjustment_movement : Clock → ℕ → ℕ → InventoryLevel → ℤ → Option ℕ → InventoryMovement
adjustment_movement clock id organization level delta actor = record {
  id = id;
  organization_id = organization;
  inventory_level_id = level.id;
  product_id = level.product_id;
  warehouse_id = level.warehouse_id;
  movement_type = adjustment;
  quantity_delta = delta;
  transfer_id = none;
  transfer_item_id = none;
  fulfillment_id = none;
  reservation_id = none;
  created_by_user_id = actor;
  created_at = clock.now;
}

abbrev pub adjusted_event : ℕ → ℕ → Option ℕ → ℕ → AuditEvent
adjusted_event organization id actor movement = record {
  organization_id = organization;
  event_type = "inventory.adjusted";
  resource_type = "inventory_level";
  resource_id = id;
  actor_type = elim actor [ none ↦ "system" | some _ ↦ "user" ];
  actor_user_id = actor;
  source_type = "inventory_movement";
  source_id = movement;
}

-- `INSERT INTO inventory_movements`
abbrev pub insert_movement : (ℕ → InventoryMovement) → Db → Db
insert_movement movement db = record db {
  movements = db.movements ++ movement db.next_id ∷ [];
  next_id = suc db.next_id;
}

-- what `adjust` does once it has the locked level; the table has `CHECK (quantity_delta <> 0)`
unfoldable pub adjust_level : Clock → ℕ → ℕ → ℕ → ℤ → InventoryLevel → Tx InventoryError LevelView
unfolding get_level newest expire_reservations reserved_on change_stock append_event add64
adjust_level clock organization user id delta level = do
  modify (expire_reservations clock organization id)
  reserved ← gets (reserved_quantity clock organization id)
  throw_if (takes_too_much level.on_hand_quantity delta) insufficient_stock
  throw_if (ltb_ℤ (add64 (pos level.on_hand_quantity) delta) (pos reserved)) stock_below_reserved
  change_stock organization id delta database_error
  throw_if (eqb_ℤ delta (pos 0)) database_error
  modify (
      insert_movement
        (λ movement. adjustment_movement clock movement organization level delta (actor_of user)))
  movement ← (λ db.
      or_throw
        (newest (select (same_adjustment organization level delta (actor_of user)) db.movements))
        database_error db)
  append_event database_error (adjusted_event organization id (actor_of user) movement.id)
  get_level clock organization id

-- `adjust`; `Adjust` calls it for the nil user, and `AdjustWithUser` for a user
unfoldable pub adjust : Clock → ℕ → ℕ → ℕ → ℤ → Tx InventoryError LevelView
unfolding adjust_level
adjust clock organization user id delta = do
  level ← (λ db. or_throw (find_level organization id db) not_found db)
  adjust_level clock organization user id delta level

abbrev pub policy_event : ℕ → ℕ → AuditEvent
policy_event organization id = record {
  organization_id = organization;
  event_type = "replenishment.policy_updated";
  resource_type = "inventory_level";
  resource_id = id;
  actor_type = "system";
  actor_user_id = none;
  source_type = "inventory_level";
  source_id = id;
}

-- `validReplenishmentPolicy`, and the `CHECK` of the two columns
abbrev pub valid_replenishment_policy : Option ℤ → Option ℤ → Bool
valid_replenishment_policy none none = true
valid_replenishment_policy (some reorder_point) (some target) =
    leb_ℤ (pos 0) reorder_point && leb_ℤ reorder_point target
valid_replenishment_policy _ _ = false

-- a column that the `CHECK` keeps from being negative
abbrev pub column : Option ℤ → Option ℕ
column = Option.map pos_part

abbrev pub set_policy : Option ℤ → Option ℤ → InventoryLevel → InventoryLevel
set_policy reorder_point target l = record l {
  reorder_point = column reorder_point;
  target_stock_level = column target;
}

-- `UpdateReplenishmentPolicy`
unfoldable pub update_replenishment_policy :
    Clock → ℕ → ℕ → Option ℤ → Option ℤ → Tx InventoryError LevelView
unfolding get_level append_event
update_replenishment_policy clock organization id reorder_point target = do
  level ← (λ db. or_throw (find_level organization id db) not_found db)
  throw_if (not (valid_replenishment_policy reorder_point target)) database_error
  modify (λ db. record db {
    levels = update (is_level organization id) (set_policy reorder_point target) db.levels;
  })
  append_event database_error (policy_event organization id)
  get_level clock organization id
