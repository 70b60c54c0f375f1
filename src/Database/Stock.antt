-- ===== src/Database/Stock.antt =====
-- The statements that more than one repository has: a level's row, its reserved quantity, the
-- expiry of its reservations and the change of its stock.
pub mod Laws
pub mod Coverage
pub mod Moves
pub mod Slack
pub mod Lighter
use mathlib.Core.Option
use flowcart.Prelude.{
  ℕ, suc, ℤ, pos, negsuc, max_int64, Result, ok, err, ◌+◌, ◌-◌, ◌≤◌, ◌≡◌, Bool, true, false, ◌&&◌,
  ◌||◌, Option, none, some, List, [], ◌∷◌, arith, ltb, leb, ◌==◌, if◌then◌else◌, first, update,
}
use flowcart.Database.Tables.{
  Db, Clock, Product, Warehouse, InventoryLevel, Reservation, ReservationStatus, active,
  payment_held, committed, expired,
}

-- `WHERE organization_id=$1 AND id=$2`
abbrev pub is_level : ℕ → ℕ → InventoryLevel → Bool
is_level organization id l = l.organization_id == organization && l.id == id

abbrev pub find_level : ℕ → ℕ → Db → Option InventoryLevel
find_level organization id db = first (is_level organization id) db.levels

abbrev pub find_product : ℕ → ℕ → Db → Option Product
find_product organization id db =
    first (λ p. p.organization_id == organization && p.id == id) db.products

abbrev pub find_warehouse : ℕ → ℕ → Db → Option Warehouse
find_warehouse organization id db =
    first (λ w. w.organization_id == organization && w.id == id) db.warehouses

-- the unique key `(organization_id, product_id, warehouse_id)`
abbrev pub is_stock : ℕ → ℕ → ℕ → InventoryLevel → Bool
is_stock organization product warehouse l =
    l.organization_id == organization && l.product_id == product && l.warehouse_id == warehouse

-- `WHERE organization_id=$1 AND inventory_level_id=$2`
abbrev pub is_on_level : ℕ → ℕ → Reservation → Bool
is_on_level organization level r =
    r.organization_id == organization && r.inventory_level_id == level

abbrev pub is_active_status : ReservationStatus → Bool
is_active_status active = true
is_active_status _ = false

-- `(status='active' AND expires_at > …) OR status IN ('payment_held','committed')`
abbrev pub status_counts : ReservationStatus → ℕ → ℕ → Bool
status_counts active expires_at time = ltb time expires_at
status_counts payment_held expires_at time = true
status_counts committed expires_at time = true
status_counts _ expires_at time = false

abbrev pub counts : ℕ → Reservation → Bool
counts time r = status_counts r.status r.expires_at time

-- `SUM(quantity)` of the reservations of a level that count at a time
unfoldable pub reserved_on : ℕ → ℕ → ℕ → List Reservation → ℕ
reserved_on time organization level [] = 0
reserved_on time organization level (r ∷ rs) =
    (if is_on_level organization level r && counts time r then r.quantity else 0)
    + reserved_on time organization level rs

-- `reservedQuantityTx`
abbrev pub reserved_quantity : Clock → ℕ → ℕ → Db → ℕ
reserved_quantity clock organization level db =
    reserved_on (clock.statement level) organization level db.reservations

-- `status='active' AND expires_at <= NOW()`
abbrev pub is_overdue : ℕ → ℕ → ℕ → Reservation → Bool
is_overdue now organization level r =
    is_on_level organization level r && is_active_status r.status && leb r.expires_at now

abbrev pub expire : ℕ → Reservation → Reservation
expire now r = record r { status = expired; expired_at = some now }

-- `expireReservationsTx`
unfoldable pub expire_reservations : Clock → ℕ → ℕ → Db → Db
expire_reservations clock organization level db = record db {
  reservations =
      update (is_overdue clock.now organization level) (expire clock.now) db.reservations;
}

-- `UPDATE inventory_levels SET on_hand_quantity=on_hand_quantity+$3`: the statement fails where
-- the sum is no BIGINT or breaks `CHECK (on_hand_quantity >= 0)`.
abbrev pub moved : ℕ → ℤ → Option ℕ
moved on_hand (pos n) = if leb (on_hand + n) max_int64 then some (on_hand + n) else none
moved on_hand (negsuc n) = if ltb n on_hand then some (on_hand - suc n) else none

unfoldable pub change_levels : ℕ → ℕ → ℤ → List InventoryLevel → Option (List InventoryLevel)
change_levels organization id delta [] = some []
change_levels organization id delta (l ∷ ls) =
    let rest = change_levels organization id delta ls in
    if is_level organization id l
    then elim (moved l.on_hand_quantity delta) [
      | none ↦ none
      | some on_hand ↦ Option.map (λ ls'. record l { on_hand_quantity = on_hand } ∷ ls') rest
    ]
    else Option.map (λ ls'. l ∷ ls') rest

unfoldable pub change_stock : {E : Type 0} → ℕ → ℕ → ℤ → E → Db → Result E (Unit {0} × Db)
unfolding change_levels
change_stock organization id delta failure db =
    elim (change_levels organization id delta db.levels) [
      | none ↦ err failure
      | some levels ↦ ok (tt, record db { levels = levels })
    ]
