-- ===== src/Allocation/Model.antt =====
-- apps/api/internal/allocation/model.go: the request, the candidates and the decisions.
use flowcart.Prelude.{ℕ, String, List, ℤ, Map}

-- `uuid.Nil`. An identifier is the 128-bit number of its UUID, whose order is that of its text.
abbrev pub nil_id : ℕ
nil_id = 0

pub record AllocationItem : Type 0 where
  pub product_id : ℕ
  pub quantity : ℤ

pub record AllocationRequest : Type 0 where
  pub items : List AllocationItem

pub record InventoryCandidate : Type 0 where
  pub inventory_level_id : ℕ
  pub warehouse_id : ℕ
  pub warehouse_code : String
  pub product_id : ℕ
  pub available : ℤ

pub record AllocationDecision : Type 0 where
  pub product_id : ℕ
  pub inventory_level_id : ℕ
  pub warehouse_id : ℕ
  pub warehouse_code : String
  pub quantity : ℤ

pub record AllocationResult : Type 0 where
  pub decisions : List AllocationDecision

pub record WarehouseSnapshot : Type 0 where
  pub id : ℕ
  pub code : String
  pub candidates : List InventoryCandidate
  pub available_by : Map ℤ

pub data AllocationError : Type 0 where
  invalid_request insufficient_inventory : AllocationError
