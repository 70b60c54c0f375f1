-- ===== src/Transfer/Reading.antt =====
-- apps/api/internal/transfer/model.go, and what repository.go reads: `getTransfer`, `loadItems`
-- and `lockInventoryIDs`.
use flowcart.Prelude.{
  ℕ, String, Bool, ◌&&◌, Option, none, some, List, [], ◌∷◌, ◌==◌, ltb, first, select, sort_by,
}
use flowcart.Database.{Db, Tx, Transfer, TransferItem, ◌>>=◌, ◌>>◌, pure, gets, or_throw}
use flowcart.Database.Stock.{find_level, find_product, find_warehouse}

pub data TransferError : Type 0 where
  invalid_input forbidden not_found idempotency_key_reused : TransferError
  transfer_not_pending transfer_not_in_transit : TransferError
  insufficient_transferable_stock inactive_warehouse inactive_product : TransferError
  source_inventory_not_found database_error : TransferError

-- `TransferItem`: its row and the product's
pub record ItemView : Type 0 where
  pub item : TransferItem
  pub product_sku : String
  pub product_name : String

-- `Transfer`: its row, the codes of its warehouses and its items
pub record TransferView : Type 0 where
  pub transfer : Transfer
  pub source_warehouse_code : String
  pub destination_warehouse_code : String
  pub items : List ItemView

abbrev pub is_transfer : ℕ → ℕ → Transfer → Bool
is_transfer organization id t = t.organization_id == organization && t.id == id

abbrev pub find_transfer : ℕ → ℕ → Db → Option Transfer
find_transfer organization id db = first (is_transfer organization id) db.transfers

-- the row of a transfer joined with its warehouses, as `scanTransfer` reads it
unfoldable pub scan_transfer : TransferError → ℕ → ℕ → Tx TransferError TransferView
scan_transfer failure organization id = do
  transfer ← (λ db. or_throw (find_transfer organization id db) failure db)
  source ← (λ db. or_throw (find_warehouse organization transfer.source_warehouse_id db) failure db)
  destination ←
      (λ db. or_throw (find_warehouse organization transfer.destination_warehouse_id db) failure db)
  pure (record {
    transfer = transfer;
    source_warehouse_code = source.code;
    destination_warehouse_code = destination.code;
    items = [];
  })

abbrev pub is_item_of : ℕ → ℕ → TransferItem → Bool
is_item_of organization transfer i = i.organization_id == organization && i.transfer_id == transfer

-- `JOIN products p ON p.organization_id=i.organization_id AND p.id=i.product_id`
unfoldable pub join_products : Db → List TransferItem → List ItemView
join_products db [] = []
join_products db (i ∷ is) = elim (find_product i.organization_id i.product_id db) [
  | none ↦ join_products db is
  | some p ↦ record { item = i; product_sku = p.sku; product_name = p.name } ∷ join_products db is
]

-- `loadItems`, in the order of the identifiers
unfoldable pub load_items : ℕ → ℕ → Db → List ItemView
unfolding join_products sort_by
load_items organization transfer db =
    sort_by (λ a b. ltb a.item.id b.item.id)
      (join_products db (select (is_item_of organization transfer) db.transfer_items))

-- `getTransfer`, and `getTx`
unfoldable pub get_transfer : ℕ → ℕ → Tx TransferError TransferView
unfolding scan_transfer load_items
get_transfer organization id = do
  view ← scan_transfer not_found organization id
  items ← gets (load_items organization id)
  pure (record view { items = items })

-- the identifiers that are not among the ones before, in order
unfoldable pub distinct : List ℕ → List ℕ → List ℕ
distinct before [] = []
distinct before (id ∷ ids) = elim (first (λ b. b == id) before) [
  | none ↦ id ∷ distinct (id ∷ before) ids
  | some _ ↦ distinct before ids
]

unfoldable pub lock_levels : ℕ → List ℕ → Tx TransferError (Unit {0})
lock_levels organization [] = pure tt
lock_levels organization (id ∷ ids) = do
  (λ db. or_throw (find_level organization id db) not_found db)
  lock_levels organization ids

-- `lockInventoryIDs`
unfoldable pub lock_inventory : ℕ → List ℕ → Tx TransferError (Unit {0})
unfolding distinct lock_levels sort_by
lock_inventory organization ids = lock_levels organization (sort_by ltb (distinct [] ids))

-- `transferItemIDs`
unfoldable pub transfer_item_ids : List ItemView → List ℕ
transfer_item_ids [] = []
transfer_item_ids (v ∷ vs) =
    (v.item).source_inventory_level_id
    ∷ (v.item).destination_inventory_level_id
    ∷ transfer_item_ids vs
