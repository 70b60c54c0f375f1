-- ===== src/Fulfillment/Completing.antt =====
-- `Complete` of apps/api/internal/fulfillment/repository.go.
use text.Mathlib.Text.{◌==◌ as text_eq}
use flowcart.Prelude.{
  ℕ, suc, ◌+◌, ◌-◌, String, Bool, true, false, not, ◌&&◌, ◌||◌, Option, none, some, List, [], ◌∷◌,
  ◌++◌, ◌==◌, ltb, leb, first, update, select, sort_by, length, max_int64, Map, lookup, insert,
  if◌then◌else◌,
}
use flowcart.Database.{
  Db, Clock, Tx, Reservation, ReservationStatus, committed, consumed, InventoryMovement,
  MovementType, fulfillment, AuditEvent, ◌>>=◌, ◌>>◌, pure, throw, gets, or_throw, modify, throw_if,
}
use flowcart.Database.Audit.{append_event}
use flowcart.Database.Sales.{Order, OrderItem, OrderStatus, Fulfillment, FulfillmentItem}
use flowcart.Database.Stock.{find_level, change_stock}
use flowcart.Order.Creating.{contains}
use flowcart.Order.Cancelling.{or_now}
use flowcart.Order.Reading.{is_order, find_order, is_order_item, is_for_item}
use flowcart.Transfer.Shipping.{minus}
use flowcart.Fulfillment.Model.{
  FulfillmentError, order_not_found, order_not_paid, order_already_fulfilled, reservation_not_found,
  reservation_not_committed, reservation_already_consumed, reservation_other_order, mixed_warehouse,
  insufficient_stock, idempotency_key_reused, database_error, index_out_of_range, FulfillmentView,
  ReservationRecord, scan_fulfillment, has_fulfillment_key, is_fulfillment, discover_reservations,
  lock_reservations, load_fulfillment,
}

-- the fulfillment that has the key
unfoldable pub keyed : ℕ → String → Db → Option FulfillmentView
keyed organization key db =
    scan_fulfillment db (first (has_fulfillment_key organization key) db.fulfillments)

-- the answer to a key that is in use
unfoldable pub replay : ℕ → String → FulfillmentView → Tx FulfillmentError FulfillmentView
unfolding load_fulfillment
replay order hash v = do
  throw_if
      (not ((v.fulfillment).order_id == order) || not (text_eq (v.fulfillment).request_hash hash))
      idempotency_key_reused
  gets (load_fulfillment v)

-- the loop over the discovered reservations
unfoldable pub check_records : ℕ → ℕ → List ReservationRecord → Tx FulfillmentError (Unit {0})
check_records order warehouse [] = pure tt
check_records order warehouse (r ∷ rs) = do
  throw_if (not (r.order_id == order)) reservation_other_order
  throw_if (not (r.warehouse_id == warehouse)) mixed_warehouse
  check_records order warehouse rs

-- the levels, each where it is met first
unfoldable pub inventory_ids : List ℕ → List ReservationRecord → List ℕ
inventory_ids seen [] = []
inventory_ids seen (r ∷ rs) =
    let id = r.inventory_level_id in
    let rest = inventory_ids (if contains id seen then seen else id ∷ seen) rs in
    if contains id seen then rest else id ∷ rest

unfoldable pub lock_levels : ℕ → List ℕ → Tx FulfillmentError (Unit {0})
lock_levels organization [] = pure tt
lock_levels organization (id ∷ ids) = do
  (λ db. or_throw (find_level organization id db) reservation_not_found db)
  lock_levels organization ids

abbrev pub is_fulfilled : OrderStatus → Bool
is_fulfilled OrderStatus.fulfilled = true
is_fulfilled _ = false

abbrev pub can_be_fulfilled : OrderStatus → Bool
can_be_fulfilled OrderStatus.paid = true
can_be_fulfilled OrderStatus.partially_fulfilled = true
can_be_fulfilled _ = false

abbrev pub is_consumed : ReservationStatus → Bool
is_consumed consumed = true
is_consumed _ = false

abbrev pub is_committed : ReservationStatus → Bool
is_committed committed = true
is_committed _ = false

-- a missing key gives zero, as a Go map does
abbrev pub quantity_of : ℕ → Map ℕ → ℕ
quantity_of id quantities = elim (lookup id quantities) [ none ↦ 0 | some q ↦ q ]

-- the loop over the locked reservations that adds up what is taken of each level. The quantities
-- are `int64`s that are not negative, and the test keeps their sums so.
unfoldable pub add_quantities : ℕ → ℕ → List ReservationRecord → Map ℕ → Tx FulfillmentError (Map ℕ)
add_quantities order warehouse [] quantities = pure quantities
add_quantities order warehouse (r ∷ rs) quantities =
    let sum = quantity_of r.inventory_level_id quantities in
    do
      throw_if (not (r.order_id == order) || not (r.warehouse_id == warehouse))
          reservation_other_order
      throw_if (is_consumed r.status) reservation_already_consumed
      throw_if (not (is_committed r.status)) reservation_not_committed
      throw_if (ltb 0 sum && ltb (max_int64 - r.quantity) sum) insufficient_stock
      add_quantities order warehouse rs (insert r.inventory_level_id (sum + r.quantity) quantities)

abbrev pub new_fulfillment : Clock → ℕ → ℕ → ℕ → ℕ → ℕ → String → String → Fulfillment
new_fulfillment clock id organization order warehouse user key hash = record {
  id = id;
  organization_id = organization;
  order_id = order;
  warehouse_id = warehouse;
  created_by_user_id = user;
  idempotency_key = key;
  request_hash = hash;
  created_at = clock.now;
}

-- `INSERT INTO fulfillments … ON CONFLICT (organization_id,idempotency_key) DO NOTHING RETURNING id`
unfoldable pub insert_fulfillment :
    Clock → ℕ → ℕ → ℕ → ℕ → String → String → Tx FulfillmentError (Option ℕ)
insert_fulfillment clock organization order warehouse user key hash db =
    elim (first (has_fulfillment_key organization key) db.fulfillments) [
      | some f ↦ pure none db
      | none ↦ pure (some db.next_id) (record db {
        fulfillments =
            db.fulfillments
            ++ new_fulfillment clock db.next_id organization order warehouse user key hash ∷ [];
        next_id = suc db.next_id;
      })
    ]

-- the loop that takes the quantities out of the levels
unfoldable pub deduct : ℕ → Map ℕ → List ℕ → Tx FulfillmentError (Unit {0})
unfolding change_stock
deduct organization quantities [] = pure tt
deduct organization quantities (id ∷ ids) = do
  level ← (λ db. or_throw (find_level organization id db) database_error db)
  throw_if (ltb level.on_hand_quantity (quantity_of id quantities)) insufficient_stock
  change_stock organization id (minus (quantity_of id quantities)) database_error
  deduct organization quantities ids

-- the unique key `(organization_id, reservation_id)` of the items
abbrev pub is_item_of_reservation : ℕ → ℕ → FulfillmentItem → Bool
is_item_of_reservation organization reservation i =
    i.organization_id == organization && i.reservation_id == reservation

abbrev pub fulfillment_item : ℕ → ℕ → ℕ → ℕ → ReservationRecord → FulfillmentItem
fulfillment_item id organization completed order r = record {
  id = id;
  organization_id = organization;
  fulfillment_id = completed;
  order_id = order;
  order_item_id = r.order_item_id;
  reservation_id = r.id;
  inventory_level_id = r.inventory_level_id;
  warehouse_id = r.warehouse_id;
  quantity = r.quantity;
}

abbrev pub is_fulfillment_type : MovementType → Bool
is_fulfillment_type fulfillment = true
is_fulfillment_type _ = false

-- the unique index of the movements, one fulfillment for each reservation
abbrev pub is_movement_of_reservation : ℕ → ℕ → InventoryMovement → Bool
is_movement_of_reservation organization reservation m =
    m.organization_id == organization
    && is_fulfillment_type m.movement_type
    && elim m.reservation_id [ none ↦ false | some r ↦ r == reservation ]

abbrev pub fulfillment_movement : Clock → ℕ → ℕ → ℕ → ℕ → ReservationRecord → InventoryMovement
fulfillment_movement clock id organization user completed r = record {
  id = id;
  organization_id = organization;
  inventory_level_id = r.inventory_level_id;
  product_id = r.product_id;
  warehouse_id = r.warehouse_id;
  movement_type = fulfillment;
  quantity_delta = minus r.quantity;
  transfer_id = none;
  transfer_item_id = none;
  fulfillment_id = some completed;
  reservation_id = some r.id;
  created_by_user_id = some user;
  created_at = clock.now;
}

-- `WHERE organization_id=$1 AND id=$2 AND status='committed'`
abbrev pub is_committed_with : ℕ → ℕ → Reservation → Bool
is_committed_with organization id r =
    r.organization_id == organization && r.id == id && is_committed r.status

abbrev pub consume : Reservation → Reservation
consume r = record r { status = consumed }

abbrev is_found : {A : Type 0} → Option A → Bool
is_found none = false
is_found (some a) = true

-- one round of the loop over the locked reservations: the item, its movement, and the reservation
unfoldable pub ship_record :
    Clock → ℕ → ℕ → ℕ → ℕ → ReservationRecord → Tx FulfillmentError (Unit {0})
ship_record clock organization user completed order r = do
  item ← gets (λ db. first (is_item_of_reservation organization r.id) db.fulfillment_items)
  throw_if (r.quantity == 0) database_error
  throw_if (is_found item) database_error
  movement ← gets (λ db. first (is_movement_of_reservation organization r.id) db.movements)
  throw_if (is_found movement) database_error
  row ← gets (λ db. first (is_committed_with organization r.id) db.reservations)
  throw_if (not (is_found row)) reservation_not_committed
  modify (λ db. record db {
    fulfillment_items =
        db.fulfillment_items ++ fulfillment_item db.next_id organization completed order r ∷ [];
    movements =
        db.movements
        ++ fulfillment_movement clock (suc db.next_id) organization user completed r ∷ [];
    reservations = update (is_committed_with organization r.id) consume db.reservations;
    next_id = suc (suc db.next_id);
  })

unfoldable pub ship_records :
    Clock → ℕ → ℕ → ℕ → ℕ → List ReservationRecord → Tx FulfillmentError (Unit {0})
unfolding ship_record
ship_records clock organization user completed order [] = pure tt
ship_records clock organization user completed order (r ∷ rs) = do
  ship_record clock organization user completed order r
  ship_records clock organization user completed order rs

-- `SUM(r.quantity) FILTER (WHERE r.status='consumed')` of an item
unfoldable pub consumed_of : ℕ → ℕ → List Reservation → ℕ
consumed_of organization item [] = 0
consumed_of organization item (r ∷ rs) =
    (if is_for_item organization item r && is_consumed r.status then r.quantity else 0)
    + consumed_of organization item rs

unfoldable pub all_covered : List Reservation → List OrderItem → Bool
unfolding consumed_of
all_covered rs [] = true
all_covered rs (i ∷ is) =
    leb i.quantity (consumed_of i.organization_id i.id rs) && all_covered rs is

-- `COALESCE(bool_and(consumed_quantity >= required_quantity),false)`
unfoldable pub all_consumed : ℕ → ℕ → Db → Bool
unfolding all_covered
all_consumed organization order db =
    let items = select (is_order_item organization order) db.order_items in
    not (length items == 0) && all_covered db.reservations items

abbrev pub is_open_order : ℕ → ℕ → Order → Bool
is_open_order organization order o = is_order organization order o && can_be_fulfilled o.status

abbrev pub advance : ℕ → Bool → Order → Order
advance now true o = record o {
  status = OrderStatus.fulfilled;
  fulfilled_at = or_now now o.fulfilled_at;
}
advance now false o = record o { status = OrderStatus.partially_fulfilled }

abbrev pub system_event : String → String → ℕ → ℕ → ℕ → AuditEvent
system_event type resource organization id completed = record {
  organization_id = organization;
  event_type = type;
  resource_type = resource;
  resource_id = id;
  actor_type = "system";
  actor_user_id = none;
  source_type = "fulfillment";
  source_id = completed;
}

-- what follows the insertion of the fulfillment's row
unfoldable pub ship :
    Clock
    → ℕ
    → ℕ
    → ℕ
    → FulfillmentView
    → List ℕ
    → Map ℕ
    → List ReservationRecord
    → Tx FulfillmentError FulfillmentView
unfolding deduct ship_records all_consumed append_event load_fulfillment
ship clock organization user order view ids quantities records =
    let completed = (view.fulfillment).id in
    do
      deduct organization quantities ids
      ship_records clock organization user completed order records
      all ← gets (all_consumed organization order)
      modify (λ db. record db {
        orders = update (is_open_order organization order) (advance clock.now all) db.orders;
      })
      append_event database_error
          (system_event "fulfillment.completed" "fulfillment" organization completed completed)
      append_event database_error (
          system_event (if all then "order.fulfilled" else "order.partially_fulfilled") "order"
            organization order completed)
      gets (load_fulfillment view)

-- the warehouse of the first of the records; where there is none, the index is out of range
abbrev pub first_warehouse : List ReservationRecord → Option ℕ
first_warehouse [] = none
first_warehouse (r ∷ rs) = some r.warehouse_id

-- what follows the insertion, where a conflict is answered like a key that is in use
unfoldable pub ship_inserted :
    Clock
    → ℕ
    → ℕ
    → ℕ
    → String
    → String
    → List ℕ
    → Map ℕ
    → List ReservationRecord
    → Option ℕ
    → Tx FulfillmentError FulfillmentView
unfolding keyed replay ship
ship_inserted clock organization user order key hash levels quantities locked none = do
  again ← (λ db. or_throw (keyed organization key db) database_error db)
  replay order hash again
ship_inserted clock organization user order key hash levels quantities locked (some id) = do
  view ← (λ db.
      or_throw (scan_fulfillment db (first (is_fulfillment organization id) db.fulfillments))
        database_error db)
  ship clock organization user order view levels quantities locked

-- the order's status, the locked reservations, and the insertion
unfoldable pub complete_locked :
    Clock
    → ℕ
    → ℕ
    → ℕ
    → String
    → String
    → List ℕ
    → ℕ
    → List ℕ
    → Order
    → Tx FulfillmentError FulfillmentView
unfolding lock_reservations add_quantities insert_fulfillment ship_inserted
complete_locked clock organization user order key hash ids warehouse levels row = do
  throw_if (is_fulfilled row.status) order_already_fulfilled
  throw_if (not (can_be_fulfilled row.status)) order_not_paid
  locked ← gets (lock_reservations organization ids)
  throw_if (not (length locked == length ids)) reservation_not_found
  quantities ← add_quantities order warehouse locked []
  inserted ← insert_fulfillment clock organization order warehouse user key hash
  ship_inserted clock organization user order key hash levels quantities locked inserted

-- the discovered reservations, of one order and one warehouse, and the locks
unfoldable pub complete_discovered :
    Clock
    → ℕ
    → ℕ
    → ℕ
    → String
    → String
    → List ℕ
    → List ReservationRecord
    → ℕ
    → Tx FulfillmentError FulfillmentView
unfolding keyed replay check_records inventory_ids sort_by lock_levels complete_locked
complete_discovered clock organization user order key hash ids records warehouse = do
  check_records order warehouse records
  lock_levels organization (sort_by ltb (inventory_ids [] records))
  row ← (λ db. or_throw (find_order organization order db) order_not_found db)
  existing ← gets (keyed organization key)
  elim existing [
    | some v ↦ replay order hash v
    | none ↦
        complete_locked clock organization user order key hash ids warehouse
          (sort_by ltb (inventory_ids [] records)) row
  ]

-- a request whose key is new
unfoldable pub complete_new :
    Clock → ℕ → ℕ → ℕ → String → String → List ℕ → Tx FulfillmentError FulfillmentView
unfolding discover_reservations complete_discovered
complete_new clock organization user order key hash ids = do
  records ← gets (discover_reservations organization ids)
  throw_if (not (length records == length ids)) reservation_not_found
  elim (first_warehouse records) [
    | none ↦ throw index_out_of_range
    | some warehouse ↦
        complete_discovered clock organization user order key hash ids records warehouse
  ]

-- `Complete`
unfoldable pub complete :
    Clock → ℕ → ℕ → ℕ → String → String → List ℕ → Tx FulfillmentError FulfillmentView
unfolding keyed replay complete_new
complete clock organization user order key hash ids = do
  initial ← gets (keyed organization key)
  elim initial [
    | some v ↦ replay order hash v
    | none ↦ complete_new clock organization user order key hash ids
  ]
