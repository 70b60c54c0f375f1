-- ===== src/Payment/Model.antt =====
-- apps/api/internal/payment/model.go and provider.go: errors, and what the provider tells.
use flowcart.Prelude.{ℕ, String, Bool, Option, ℤ}
use flowcart.Database.Sales.{OrderStatus}

-- The errors of `model.go` and `provider.go` that repositories return, and those of the database.
pub data PaymentError : Type 0 where
  invalid_input forbidden order_not_found payment_not_found order_cancelled : PaymentError
  reservation_expired payment_in_progress payment_already_succeeded : PaymentError
  payment_not_required idempotency_key_reused invalid_webhook database_error : PaymentError

-- `ProviderIntent`; its secret is never kept
pub record ProviderIntent : Type 0 where
  pub id : String
  pub status : String
  pub currency : String
  pub amount : ℤ
  pub amount_received : ℤ
  pub livemode : Bool

pub record VerifiedEvent : Type 0 where
  pub id : String
  pub type : String
  pub provider : String
  pub intent_id : String
  pub status : String
  pub currency : String
  pub payload_hash : String
  pub amount : ℤ
  pub amount_received : ℤ
  pub livemode : Bool

-- `orderState`
pub record OrderState : Type 0 where
  pub status : OrderStatus
  pub cancel_requested_at : Option ℕ
