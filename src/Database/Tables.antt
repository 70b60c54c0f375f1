-- ===== src/Database/Tables.antt =====
-- The rows of the tables that the repositories read and write, after apps/api/migrations and the
-- structs that they are scanned into. An identifier is the number of its UUID, a time a number of
-- seconds, a BIGINT that a CHECK keeps from being negative a natural number.
use flowcart.Prelude.{ℕ, String, Bool, Option, List, ℤ}
use flowcart.Database.Sales.{Order, OrderItem, Payment, ProviderEvent, Fulfillment, FulfillmentItem}

-- `Role` is a string; one that is not among the five constants is `other`.
pub data Role : Type 0 where
  owner admin warehouse_manager support viewer : Role
  other : String → Role

pub record Organization : Type 0 where
  pub id : ℕ
  pub name : String
  pub slug : String

-- A row of `organization_members`.
pub record Member : Type 0 where
  pub organization_id : ℕ
  pub user_id : ℕ
  pub role : Role

pub record Product : Type 0 where
  pub id : ℕ
  pub organization_id : ℕ
  pub sku : String
  pub name : String
  pub is_active : Bool
  pub unit_price_minor : Option ℕ
  pub currency_code : Option String

pub record Warehouse : Type 0 where
  pub id : ℕ
  pub organization_id : ℕ
  pub code : String
  pub name : String
  pub is_active : Bool

pub record InventoryLevel : Type 0 where
  pub id : ℕ
  pub organization_id : ℕ
  pub product_id : ℕ
  pub warehouse_id : ℕ
  pub on_hand_quantity : ℕ
  pub reorder_point : Option ℕ
  pub target_stock_level : Option ℕ

pub data ReservationStatus : Type 0 where
  active payment_held committed consumed released expired : ReservationStatus

pub record Reservation : Type 0 where
  pub id : ℕ
  pub organization_id : ℕ
  pub inventory_level_id : ℕ
  pub order_item_id : Option ℕ
  pub quantity : ℕ
  pub status : ReservationStatus
  pub expires_at : ℕ
  pub created_at : ℕ
  pub released_at : Option ℕ
  pub expired_at : Option ℕ

pub data MovementType : Type 0 where
  adjustment transfer_out transfer_in fulfillment : MovementType

pub record InventoryMovement : Type 0 where
  pub id : ℕ
  pub organization_id : ℕ
  pub inventory_level_id : ℕ
  pub product_id : ℕ
  pub warehouse_id : ℕ
  pub movement_type : MovementType
  pub quantity_delta : ℤ
  pub transfer_id : Option ℕ
  pub transfer_item_id : Option ℕ
  pub fulfillment_id : Option ℕ
  pub reservation_id : Option ℕ
  pub created_by_user_id : Option ℕ
  pub created_at : ℕ

pub data TransferStatus : Type 0 where
  pending in_transit completed cancelled : TransferStatus

pub record Transfer : Type 0 where
  pub id : ℕ
  pub organization_id : ℕ
  pub source_warehouse_id : ℕ
  pub destination_warehouse_id : ℕ
  pub status : TransferStatus
  pub created_by_user_id : ℕ
  pub dispatched_by_user_id : Option ℕ
  pub received_by_user_id : Option ℕ
  pub cancelled_by_user_id : Option ℕ
  pub dispatched_at : Option ℕ
  pub completed_at : Option ℕ
  pub cancelled_at : Option ℕ
  pub creation_idempotency_key : String
  pub creation_request_hash : String
  pub dispatch_idempotency_key : Option String
  pub receive_idempotency_key : Option String

pub record TransferItem : Type 0 where
  pub id : ℕ
  pub organization_id : ℕ
  pub transfer_id : ℕ
  pub product_id : ℕ
  pub source_inventory_level_id : ℕ
  pub destination_inventory_level_id : ℕ
  pub quantity : ℕ

pub record AuditEvent : Type 0 where
  pub organization_id : ℕ
  pub event_type : String
  pub resource_type : String
  pub resource_id : ℕ
  pub actor_type : String
  pub actor_user_id : Option ℕ
  pub source_type : String
  pub source_id : ℕ

-- The tables, and the identifier that the next `gen_random_uuid()` gives.
pub record Db : Type 0 where
  pub organizations : List Organization
  pub members : List Member
  pub products : List Product
  pub warehouses : List Warehouse
  pub levels : List InventoryLevel
  pub reservations : List Reservation
  pub movements : List InventoryMovement
  pub transfers : List Transfer
  pub transfer_items : List TransferItem
  pub orders : List Order
  pub order_items : List OrderItem
  pub payments : List Payment
  pub provider_events : List ProviderEvent
  pub fulfillments : List Fulfillment
  pub fulfillment_items : List FulfillmentItem
  pub audit_events : List AuditEvent
  pub next_id : ℕ

-- The times that a transaction sees: `NOW()` is when it began, and `statement_timestamp()` when
-- a statement was sent: one that checks the reservations of a level or of an order, or a later one,
-- which writes them or reads the row that is returned.
pub record Clock : Type 0 where
  pub now : ℕ
  pub statement : ℕ → ℕ
  pub reading : ℕ
