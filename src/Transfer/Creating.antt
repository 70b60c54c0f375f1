-- ===== src/Transfer/Creating.antt =====
-- `Create` of apps/api/internal/transfer/repository.go.
use text.Mathlib.Text.{◌==◌ as text_eq}
use flowcart.Prelude.{
  ℕ, suc, String, Bool, not, ◌&&◌, ◌||◌, Option, none, some, List, [], ◌∷◌, ◌++◌, ◌==◌, ltb,
  if◌then◌else◌, first, ℤ, pos, pos_part, leb_ℤ,
}
use flowcart.Database.{
  Db, Tx, InventoryLevel, Transfer, TransferItem, pending, AuditEvent, ◌>>=◌, ◌>>◌, pure, throw,
  gets, or_throw, modify, throw_if,
}
use flowcart.Database.Audit.{append_event}
use flowcart.Database.Stock.{find_product, find_warehouse, is_stock}
use flowcart.Transfer.Reading.{
  TransferError, not_found, idempotency_key_reused, inactive_warehouse, inactive_product,
  source_inventory_not_found, database_error, TransferView, get_transfer,
}

-- `TransferItemInput`
pub record TransferItemInput : Type 0 where
  pub product_id : ℕ
  pub quantity : ℤ

-- `CreateInput`
pub record CreateInput : Type 0 where
  pub source_warehouse_id : ℕ
  pub destination_warehouse_id : ℕ
  pub items : List TransferItemInput

abbrev pub has_creation_key : ℕ → String → Transfer → Bool
has_creation_key organization key t =
    t.organization_id == organization && text_eq t.creation_idempotency_key key

abbrev pub find_stock : ℕ → ℕ → ℕ → Db → Option InventoryLevel
find_stock organization product warehouse db =
    first (is_stock organization product warehouse) db.levels

-- `lockWarehouses`
unfoldable pub lock_warehouse : ℕ → ℕ → Tx TransferError (Unit {0})
lock_warehouse organization id db = elim (find_warehouse organization id db) [
  | none ↦ throw not_found db
  | some _ ↦ pure tt db
]

unfoldable pub lock_warehouses : ℕ → ℕ → ℕ → Tx TransferError (Unit {0})
unfolding lock_warehouse
lock_warehouses organization one other =
    if ltb other one
    then (lock_warehouse organization other >> lock_warehouse organization one)
    else (lock_warehouse organization one >> lock_warehouse organization other)

abbrev pub empty_level : ℕ → ℕ → ℕ → ℕ → InventoryLevel
empty_level id organization product warehouse = record {
  id = id;
  organization_id = organization;
  product_id = product;
  warehouse_id = warehouse;
  on_hand_quantity = 0;
  reorder_point = none;
  target_stock_level = none;
}

-- `INSERT INTO inventory_levels … ON CONFLICT … DO NOTHING`
unfoldable pub ensure_level : ℕ → ℕ → ℕ → Db → Db
ensure_level organization product warehouse db =
    elim (find_stock organization product warehouse db) [
      | none ↦ record db {
        levels = db.levels ++ empty_level db.next_id organization product warehouse ∷ [];
        next_id = suc db.next_id;
      }
      | some _ ↦ db
    ]

-- the unique key `(organization_id, transfer_id, product_id)`
abbrev pub is_item_for : ℕ → ℕ → ℕ → TransferItem → Bool
is_item_for organization transfer product i =
    i.organization_id == organization && i.transfer_id == transfer && i.product_id == product

-- `INSERT INTO inventory_transfer_items`, with `CHECK (quantity > 0)`
unfoldable pub insert_item : ℕ → ℕ → ℕ → ℕ → ℕ → ℤ → Tx TransferError (Unit {0})
insert_item organization transfer product source destination quantity = do
  throw_if (leb_ℤ quantity (pos 0)) database_error
  existing ← gets (λ db. first (is_item_for organization transfer product) db.transfer_items)
  elim existing [ none ↦ pure tt | some _ ↦ throw database_error ]
  modify (λ db. record db {
    transfer_items =
        db.transfer_items
        ++ record {
          id = db.next_id;
          organization_id = organization;
          transfer_id = transfer;
          product_id = product;
          source_inventory_level_id = source;
          destination_inventory_level_id = destination;
          quantity = pos_part quantity;
        }
          ∷ [];
    next_id = suc db.next_id;
  })

-- the body of the loop of `Create` over the requested items
unfoldable pub add_item : ℕ → ℕ → ℕ → ℕ → TransferItemInput → Tx TransferError (Unit {0})
unfolding ensure_level insert_item
add_item organization transfer source_id destination_id requested = do
  product ← (λ db. or_throw (find_product organization requested.product_id db) not_found db)
  throw_if (not product.is_active) inactive_product
  source ← (λ db.
      or_throw (find_stock organization requested.product_id source_id db)
        source_inventory_not_found db)
  modify (ensure_level organization requested.product_id destination_id)
  destination ← (λ db.
      or_throw (find_stock organization requested.product_id destination_id db) database_error db)
  insert_item organization transfer requested.product_id source.id destination.id requested.quantity

unfoldable pub add_items : ℕ → ℕ → ℕ → ℕ → List TransferItemInput → Tx TransferError (Unit {0})
unfolding add_item
add_items organization transfer source destination [] = pure tt
add_items organization transfer source destination (i ∷ is) = do
  add_item organization transfer source destination i
  add_items organization transfer source destination is

abbrev pub transfer_event : String → ℕ → ℕ → ℕ → AuditEvent
transfer_event type organization user id = record {
  organization_id = organization;
  event_type = type;
  resource_type = "transfer";
  resource_id = id;
  actor_type = "user";
  actor_user_id = some user;
  source_type = "transfer";
  source_id = id;
}

abbrev pub new_transfer : ℕ → ℕ → ℕ → String → String → CreateInput → Transfer
new_transfer id organization user key hash input = record {
  id = id;
  organization_id = organization;
  source_warehouse_id = input.source_warehouse_id;
  destination_warehouse_id = input.destination_warehouse_id;
  status = pending;
  created_by_user_id = user;
  dispatched_by_user_id = none;
  received_by_user_id = none;
  cancelled_by_user_id = none;
  dispatched_at = none;
  completed_at = none;
  cancelled_at = none;
  creation_idempotency_key = key;
  creation_request_hash = hash;
  dispatch_idempotency_key = none;
  receive_idempotency_key = none;
}

-- what follows the insertion of the transfer
unfoldable pub fill_transfer : ℕ → ℕ → ℕ → CreateInput → Tx TransferError TransferView
unfolding lock_warehouses add_items get_transfer append_event
fill_transfer organization user id input = do
  lock_warehouses organization input.source_warehouse_id input.destination_warehouse_id
  source ←
      (λ db. or_throw (find_warehouse organization input.source_warehouse_id db) database_error db)
  destination ← (λ db.
      or_throw (find_warehouse organization input.destination_warehouse_id db) database_error db)
  throw_if (not source.is_active || not destination.is_active) inactive_warehouse
  add_items organization id input.source_warehouse_id input.destination_warehouse_id input.items
  view ← get_transfer organization id
  append_event database_error (transfer_event "transfer.created" organization user id)
  pure view

-- the transfer's row, with its foreign keys to warehouses and
-- `CHECK (source_warehouse_id <> destination_warehouse_id)`
unfoldable pub insert_transfer : ℕ → ℕ → String → String → CreateInput → Tx TransferError (Unit {0})
insert_transfer organization user key hash input = do
  source ←
      (λ db. or_throw (find_warehouse organization input.source_warehouse_id db) database_error db)
  destination ← (λ db.
      or_throw (find_warehouse organization input.destination_warehouse_id db) database_error db)
  modify (λ db. record db {
    transfers = db.transfers ++ new_transfer db.next_id organization user key hash input ∷ [];
    next_id = suc db.next_id;
  })

-- `Create`
unfoldable pub create : ℕ → ℕ → String → String → CreateInput → Tx TransferError TransferView
unfolding insert_transfer fill_transfer get_transfer
create organization user key hash input = do
  throw_if (input.source_warehouse_id == input.destination_warehouse_id) database_error
  existing ← gets (λ db. first (has_creation_key organization key) db.transfers)
  elim existing [
    | some t ↦ do
      throw_if (not (text_eq t.creation_request_hash hash)) idempotency_key_reused
      get_transfer organization t.id
    | none ↦ do
      id ← gets (λ db. db.next_id)
      insert_transfer organization user key hash input
      fill_transfer organization user id input
  ]
