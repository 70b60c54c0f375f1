-- ===== src/Order/Model.antt =====
-- apps/api/internal/order/model.go: the errors and inputs of orders, and orders as they are read.
use flowcart.Prelude.{ℕ, String, Option, List, ℤ}
use flowcart.Database.{ReservationStatus}
use flowcart.Database.Sales.{Order, OrderItem}

-- The errors of `model.go`, those of the inventory and payment packages that orders return, and
-- those of the database. `nil_dereference` is a panic.
pub data OrderError : Type 0 where
  invalid_input forbidden not_found insufficient_available_stock idempotency_key_reused : OrderError
  order_not_cancellable product_price_missing mixed_currency_order : OrderError
  order_total_overflow insufficient_network_stock no_eligible_warehouse : OrderError
  automatic_allocation_complexity inactive_product inactive_warehouse : OrderError
  payment_already_succeeded database_error nil_dereference : OrderError

pub record ItemInput : Type 0 where
  pub inventory_level_id : ℕ
  pub quantity : ℤ

pub record CreateInput : Type 0 where
  pub items : List ItemInput

pub record AutoItemInput : Type 0 where
  pub product_id : ℕ
  pub quantity : ℤ

pub record AutoCreateInput : Type 0 where
  pub items : List AutoItemInput

pub record AllocationDetail : Type 0 where
  pub warehouse_code : String
  pub inventory_level_id : ℕ
  pub reserved_quantity : ℕ

-- An `OrderItem` of model.go: the row, and what `loadOrderItems` joins to it.
pub record ItemView : Type 0 where
  pub item : OrderItem
  pub reservation_id : Option ℕ
  pub reservation_status : Option ReservationStatus
  pub allocations : List AllocationDetail

-- An `Order` of model.go: the row, and what `loadOrderItems` adds to it.
pub record OrderView : Type 0 where
  pub order : Order
  pub items : List ItemView
  pub allocations : List AllocationDetail
  pub warehouses_used : List String
