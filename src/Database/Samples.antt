-- ===== src/Database/Samples.antt =====
-- Tables for the tests and the witnesses: an organization with a product in two warehouses.
use flowcart.Prelude.{ℕ, String, arith, if◌then◌else◌, ◌==◌, true, some, none, [], ◌∷◌}
use flowcart.Database.Stock.{reserved_on}
use flowcart.Database.Stock.Coverage.{UniqueLevels, IsCovered}
use flowcart.Database.Ledger.{brought_in, taken_out, IsBalanced}
use flowcart.Database.Sales.{Order, OrderItem, OrderStatus, AllocationMethod}
use flowcart.Database.Tables.{
  Db, Clock, Role, owner, admin, support, Member, Product, Warehouse, InventoryLevel, Reservation,
  active, committed, Transfer, pending, TransferItem,
}

abbrev pub shop : ℕ
shop = 1

abbrev pub user : ℕ
user = 8

abbrev pub member : ℕ → Role → Member
member id role = record { organization_id = shop; user_id = id; role = role }

abbrev pub mug : Product
mug = record {
  id = 2;
  organization_id = shop;
  sku = "MUG";
  name = "Mug";
  is_active = true;
  unit_price_minor = some 500;
  currency_code = some "AUD";
}

abbrev pub warehouse : ℕ → String → Warehouse
warehouse id code = record {
  id = id;
  organization_id = shop;
  code = code;
  name = code;
  is_active = true;
}

abbrev pub level : ℕ → ℕ → ℕ → InventoryLevel
level id warehouse on_hand = record {
  id = id;
  organization_id = shop;
  product_id = 2;
  warehouse_id = warehouse;
  on_hand_quantity = on_hand;
  reorder_point = none;
  target_stock_level = none;
}

abbrev pub held : Reservation
held = record {
  id = 7;
  organization_id = shop;
  inventory_level_id = 5;
  order_item_id = none;
  quantity = 3;
  status = active;
  expires_at = 900;
  created_at = 0;
  released_at = none;
  expired_at = none;
}

abbrev pub shipment : Transfer
shipment = record {
  id = 9;
  organization_id = shop;
  source_warehouse_id = 3;
  destination_warehouse_id = 4;
  status = pending;
  created_by_user_id = user;
  dispatched_by_user_id = none;
  received_by_user_id = none;
  cancelled_by_user_id = none;
  dispatched_at = none;
  completed_at = none;
  cancelled_at = none;
  creation_idempotency_key = "create-9";
  creation_request_hash = "hash";
  dispatch_idempotency_key = none;
  receive_idempotency_key = none;
}

abbrev pub shipped_item : TransferItem
shipped_item = record {
  id = 10;
  organization_id = shop;
  transfer_id = 9;
  product_id = 2;
  source_inventory_level_id = 5;
  destination_inventory_level_id = 6;
  quantity = 4;
}

abbrev pub sample : Db
sample = record {
  organizations = record { id = shop; name = "Shop"; slug = "shop" } ∷ [];
  members = member user owner ∷ member 11 admin ∷ member 12 support ∷ [];
  products = mug ∷ [];
  warehouses = warehouse 3 "A" ∷ warehouse 4 "B" ∷ [];
  levels = level 5 3 10 ∷ level 6 4 0 ∷ [];
  reservations = held ∷ [];
  movements = [];
  transfers = shipment ∷ [];
  transfer_items = shipped_item ∷ [];
  orders = [];
  order_items = [];
  payments = [];
  provider_events = [];
  fulfillments = [];
  fulfillment_items = [];
  audit_events = [];
  next_id = 20;
}

abbrev pub clock : Clock
clock = record { now = 100; statement = λ _. 101; reading = 102 }

pub sample-UniqueLevels : UniqueLevels sample.levels
sample-UniqueLevels = ground arith

pub sample-IsCovered : (time : ℕ) → IsCovered time sample
unfolding reserved_on
sample-IsCovered time = ground arith

-- what the levels of the sample opened with
abbrev pub opened : ℕ → ℕ → ℕ
opened organization id = if id == 5 then 10 else 0

pub sample-IsBalanced : IsBalanced opened sample
unfolding brought_in taken_out
sample-IsBalanced = ground arith

abbrev pub paid_order : Order
paid_order = record {
  id = 30;
  organization_id = shop;
  created_by_user_id = user;
  status = OrderStatus.paid;
  idempotency_key = "o-1";
  request_hash = "h";
  allocation_method = AllocationMethod.manual;
  allocation_strategy = none;
  created_at = 50;
  cancelled_at = none;
  paid_at = some 60;
  cancel_requested_at = none;
  fulfilled_at = none;
  currency_code = some "AUD";
  subtotal_minor = some 2000;
}

abbrev pub paid_item : OrderItem
paid_item = record {
  id = 31;
  organization_id = shop;
  order_id = 30;
  product_id = 2;
  sku_snapshot = "MUG";
  product_name_snapshot = "Mug";
  quantity = 4;
  unit_price_minor_snapshot = some 500;
  currency_code_snapshot = some "AUD";
  line_total_minor = some 2000;
  created_at = 50;
}

abbrev pub for_order : ℕ → ℕ → Reservation
for_order id quantity = record held {
  id = id;
  order_item_id = some 31;
  quantity = quantity;
  status = committed;
}

-- an order of four, held by two reservations
abbrev pub paid : Db
paid = record sample {
  orders = paid_order ∷ [];
  order_items = paid_item ∷ [];
  reservations = held ∷ for_order 32 1 ∷ for_order 33 3 ∷ [];
  next_id = 40;
}
