-- ===== src/Inventory/Repository.antt =====
-- apps/api/internal/inventory/repository.go: the transactions on levels and reservations.
use flowcart.Prelude.{
  ℕ, suc, ◌+◌, ◌-◌, ◌*◌, String, Bool, true, false, not, ◌&&◌, Option, none, some, [], ◌∷◌, ◌++◌, ℤ,
  pos, pos_part, ◌-ℤ◌, ltb_ℤ, leb_ℤ, leb, ◌==◌, if◌then◌else◌, first, update,
}
use flowcart.Database.{
  Db, Clock, Tx, InventoryLevel, Reservation, ReservationStatus, active, released, expired,
  payment_held, committed, ◌>>=◌, ◌>>◌, pure, throw, gets, or_throw, modify, throw_if,
}
use flowcart.Database.Stock.{
  find_product, find_warehouse, is_stock, find_level, is_active_status, reserved_quantity,
  reserved_on, expire_reservations,
}

pub data InventoryError : Type 0 where
  managed_reservation not_found forbidden invalid_input inventory_exists : InventoryError
  product_not_found warehouse_not_found inactive_product inactive_warehouse : InventoryError
  insufficient_stock insufficient_available_stock stock_below_reserved : InventoryError
  reservation_not_found invalid_replenishment_policy database_error : InventoryError

-- A row of `inventoryColumns`.
pub record LevelView : Type 0 where
  pub level : InventoryLevel
  pub product_sku : String
  pub product_name : String
  pub warehouse_code : String
  pub reserved_quantity : ℕ
  pub available_quantity : ℕ

abbrev pub find_reservation : ℕ → ℕ → Db → Option Reservation
find_reservation organization id db =
    first (λ r. r.organization_id == organization && r.id == id) db.reservations

-- `getTx`, and `Get`: the level with its product and warehouse, and what is reserved of it
unfoldable pub get_level : Clock → ℕ → ℕ → Tx InventoryError LevelView
unfolding reserved_on
get_level clock organization id = do
  level ← (λ db. or_throw (find_level organization id db) not_found db)
  product ← (λ db. or_throw (find_product organization level.product_id db) not_found db)
  warehouse ← (λ db. or_throw (find_warehouse organization level.warehouse_id db) not_found db)
  reserved ← gets (λ db. reserved_on clock.reading organization id db.reservations)
  pure (record {
    level = level;
    product_sku = product.sku;
    product_name = product.name;
    warehouse_code = warehouse.code;
    reserved_quantity = reserved;
    available_quantity = level.on_hand_quantity - reserved;
  })

-- `Create`
unfoldable pub create : Clock → ℕ → ℕ → ℕ → ℤ → Tx InventoryError LevelView
unfolding get_level
create clock organization product_id warehouse_id on_hand = do
  product ← (λ db. or_throw (find_product organization product_id db) product_not_found db)
  throw_if (not product.is_active) inactive_product
  warehouse ← (λ db. or_throw (find_warehouse organization warehouse_id db) warehouse_not_found db)
  throw_if (not warehouse.is_active) inactive_warehouse
  existing ← gets (λ db. first (is_stock organization product_id warehouse_id) db.levels)
  elim existing [ none ↦ pure tt | some _ ↦ throw inventory_exists ]
  throw_if (ltb_ℤ on_hand (pos 0)) database_error
  id ← gets (λ db. db.next_id)
  modify (λ db. record db {
    levels =
        db.levels
        ++ record {
          id = id;
          organization_id = organization;
          product_id = product_id;
          warehouse_id = warehouse_id;
          on_hand_quantity = pos_part on_hand;
          reorder_point = none;
          target_stock_level = none;
        }
          ∷ [];
    next_id = suc db.next_id;
  })
  get_level clock organization id

-- `ReservationTTL`, in seconds
abbrev pub reservation_ttl : ℕ
reservation_ttl = 15 * 60

abbrev pub new_reservation : Clock → ℕ → ℕ → ℕ → ℕ → Reservation
new_reservation clock id organization level quantity = record {
  id = id;
  organization_id = organization;
  inventory_level_id = level;
  order_item_id = none;
  quantity = quantity;
  status = active;
  expires_at = clock.now + reservation_ttl;
  created_at = clock.now;
  released_at = none;
  expired_at = none;
}

-- `INSERT INTO inventory_reservations`, with the column's `CHECK (quantity > 0)`
unfoldable pub insert_reservation : Clock → ℕ → ℕ → ℤ → Tx InventoryError Reservation
insert_reservation clock organization level quantity = do
  throw_if (leb_ℤ quantity (pos 0)) database_error
  id ← gets (λ db. db.next_id)
  let reservation = new_reservation clock id organization level (pos_part quantity)
  modify (λ db. record db {
    reservations = db.reservations ++ reservation ∷ [];
    next_id = suc db.next_id;
  })
  pure reservation

-- `Reserve`. The sums of `int64`s are read into `int64`s, so their difference does not wrap.
unfoldable pub reserve : Clock → ℕ → ℕ → ℤ → Tx InventoryError Reservation
unfolding insert_reservation expire_reservations reserved_on ◌-ℤ◌
reserve clock organization inventory_id quantity = do
  level ← (λ db. or_throw (find_level organization inventory_id db) not_found db)
  product ← (λ db. or_throw (find_product organization level.product_id db) not_found db)
  warehouse ← (λ db. or_throw (find_warehouse organization level.warehouse_id db) not_found db)
  throw_if (not product.is_active) inactive_product
  throw_if (not warehouse.is_active) inactive_warehouse
  modify (expire_reservations clock organization inventory_id)
  reserved ← gets (reserved_quantity clock organization inventory_id)
  throw_if (ltb_ℤ (pos level.on_hand_quantity -ℤ pos reserved) quantity)
      insufficient_available_stock
  insert_reservation clock organization inventory_id quantity

abbrev pub is_managed : ReservationStatus → Bool
is_managed payment_held = true
is_managed committed = true
is_managed _ = false

-- the `SET` of `Release`, and of the cancellation of an order
abbrev pub let_go : ℕ → Reservation → Reservation
let_go now r =
    if leb r.expires_at now
    then record r { status = expired; expired_at = some now }
    else record r { status = released; released_at = some now }

abbrev pub is_held : ℕ → ℕ → ℕ → Reservation → Bool
is_held organization id level r =
    r.organization_id == organization
    && r.id == id
    && r.inventory_level_id == level
    && is_active_status r.status

-- `Release`
unfoldable pub release : Clock → ℕ → ℕ → Tx InventoryError Reservation
unfolding expire_reservations
release clock organization reservation_id = do
  found ←
      (λ db. or_throw (find_reservation organization reservation_id db) reservation_not_found db)
  level ← (λ db.
      or_throw (find_level organization found.inventory_level_id db) reservation_not_found db)
  modify (expire_reservations clock organization found.inventory_level_id)
  current ←
      (λ db. or_throw (find_reservation organization reservation_id db) reservation_not_found db)
  throw_if (is_managed current.status) managed_reservation
  modify (λ db. record db {
    reservations =
        update (is_held organization reservation_id level.id) (let_go clock.now) db.reservations;
  })
  (λ db. or_throw (find_reservation organization reservation_id db) reservation_not_found db)
