-- ===== src/Database/Sales.antt =====
-- The rows of orders, payments and fulfillments, after apps/api/migrations and the structs that
-- they are scanned into.
use flowcart.Prelude.{ℕ, String, Bool, Option, ℤ}

pub data OrderStatus : Type 0 where
  pending cancelled paid partially_fulfilled fulfilled : OrderStatus

pub data AllocationMethod : Type 0 where
  manual automatic : AllocationMethod

pub record Order : Type 0 where
  pub id : ℕ
  pub organization_id : ℕ
  pub created_by_user_id : ℕ
  pub status : OrderStatus
  pub idempotency_key : String
  pub request_hash : String
  pub allocation_method : AllocationMethod
  pub allocation_strategy : Option String
  pub created_at : ℕ
  pub cancelled_at : Option ℕ
  pub paid_at : Option ℕ
  pub cancel_requested_at : Option ℕ
  pub fulfilled_at : Option ℕ
  pub currency_code : Option String
  pub subtotal_minor : Option ℕ

pub record OrderItem : Type 0 where
  pub id : ℕ
  pub organization_id : ℕ
  pub order_id : ℕ
  pub product_id : ℕ
  pub sku_snapshot : String
  pub product_name_snapshot : String
  pub quantity : ℕ
  pub unit_price_minor_snapshot : Option ℕ
  pub currency_code_snapshot : Option String
  pub line_total_minor : Option ℕ
  pub created_at : ℕ

pub data PaymentStatus : Type 0 where
  pending failed succeeded cancelled : PaymentStatus

pub data CloseReason : Type 0 where
  customer deadline failure manual_attention : CloseReason

pub record Payment : Type 0 where
  pub id : ℕ
  pub organization_id : ℕ
  pub order_id : ℕ
  pub created_by_user_id : ℕ
  pub status : PaymentStatus
  pub amount_minor : ℕ
  pub currency_code : String
  pub idempotency_key : String
  pub request_hash : String
  pub created_at : ℕ
  pub provider_name : Option String
  pub provider_payment_id : Option String
  pub provider_status : Option String
  pub provider_livemode : Option Bool
  pub checkout_deadline_at : Option ℕ
  pub cancel_requested_at : Option ℕ
  pub close_reason : Option CloseReason
  pub next_reconcile_at : Option ℕ
  pub reconcile_attempts : ℕ
  pub attention_reason : Option String

pub data EventOutcome : Type 0 where
  pending processed ignored quarantined : EventOutcome

-- A row of `payment_provider_events`.
pub record ProviderEvent : Type 0 where
  pub id : ℕ
  pub provider_name : String
  pub provider_event_id : String
  pub event_type : String
  pub provider_payment_id : Option String
  pub organization_id : Option ℕ
  pub payment_id : Option ℕ
  pub provider_status : String
  pub amount : ℤ
  pub amount_received : ℤ
  pub currency : String
  pub livemode : Bool
  pub payload_hash : String
  pub received_at : ℕ
  pub processed_at : Option ℕ
  pub outcome : EventOutcome
  pub reason_code : Option String
  pub next_attempt_at : Option ℕ

-- A row of `fulfillments`. Its status is always `completed`.
pub record Fulfillment : Type 0 where
  pub id : ℕ
  pub organization_id : ℕ
  pub order_id : ℕ
  pub warehouse_id : ℕ
  pub created_by_user_id : ℕ
  pub idempotency_key : String
  pub request_hash : String
  pub created_at : ℕ

pub record FulfillmentItem : Type 0 where
  pub id : ℕ
  pub organization_id : ℕ
  pub fulfillment_id : ℕ
  pub order_id : ℕ
  pub order_item_id : ℕ
  pub reservation_id : ℕ
  pub inventory_level_id : ℕ
  pub warehouse_id : ℕ
  pub quantity : ℕ
