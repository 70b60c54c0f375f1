-- ===== src/Payment/Creating.antt =====
-- `Create` of apps/api/internal/payment/repository.go: a payment without a provider.
use text.Mathlib.Text.{◌==◌ as text_eq}
use flowcart.Prelude.{
  ℕ, suc, String, Bool, true, false, not, ◌&&◌, ◌||◌, Option, none, some, List, [], ◌∷◌, ◌++◌, ◌==◌,
  ltb, length, first, select,
}
use flowcart.Database.{
  Clock, Tx, Reservation, AuditEvent, ◌>>=◌, ◌>>◌, pure, throw, gets, or_throw, throw_if,
}
use flowcart.Database.Audit.{append_event}
use flowcart.Database.Sales.{OrderItem, OrderStatus, Payment, PaymentStatus}
use flowcart.Order.Reading.{find_order, is_order_item}
use flowcart.Order.Cancelling.{
  levels_of_order, lock_order_levels, distinct_levels, is_payment_of, is_succeeded,
  is_pending_payment, any_payment,
}
use flowcart.Payment.Model.{
  PaymentError, order_not_found, order_cancelled, reservation_expired, payment_in_progress,
  payment_already_succeeded, payment_not_required, idempotency_key_reused, database_error,
}
use flowcart.Payment.Aggregate.{is_active_at, covered_of}

abbrev pub has_payment_key : ℕ → String → Payment → Bool
has_payment_key organization key p =
    p.organization_id == organization && text_eq p.idempotency_key key

-- the answer to a key that is in use
abbrev pub replay_payment : ℕ → String → Payment → Tx PaymentError Payment
replay_payment order hash p = do
  throw_if (not (text_eq p.request_hash hash) || not (p.order_id == order)) idempotency_key_reused
  pure p

abbrev pub new_payment : Clock → ℕ → ℕ → ℕ → ℕ → String → String → ℕ → String → Payment
new_payment clock id organization order user key hash amount currency = record {
  id = id;
  organization_id = organization;
  order_id = order;
  created_by_user_id = user;
  status = PaymentStatus.pending;
  amount_minor = amount;
  currency_code = currency;
  idempotency_key = key;
  request_hash = hash;
  created_at = clock.now;
  provider_name = none;
  provider_payment_id = none;
  provider_status = none;
  provider_livemode = none;
  checkout_deadline_at = none;
  cancel_requested_at = none;
  close_reason = none;
  next_reconcile_at = none;
  reconcile_attempts = 0;
  attention_reason = none;
}

-- `INSERT INTO payments`, once no payment has the key
unfoldable pub insert_payment : (ℕ → Payment) → Tx PaymentError Payment
insert_payment make db =
    pure (make db.next_id)
      (record db { payments = db.payments ++ make db.next_id ∷ []; next_id = suc db.next_id })

-- the loop over the items: whether the reservations of one fall short
unfoldable pub items_short : ℕ → List Reservation → List OrderItem → Bool
unfolding covered_of
items_short time rs [] = false
items_short time rs (i ∷ is) =
    ltb (covered_of (is_active_at time) i.organization_id i.id rs) i.quantity
    || items_short time rs is

abbrev is_cancelled_order : OrderStatus → Bool
is_cancelled_order OrderStatus.cancelled = true
is_cancelled_order _ = false

abbrev pub payment_event : ℕ → ℕ → ℕ → AuditEvent
payment_event organization user id = record {
  organization_id = organization;
  event_type = "payment.created";
  resource_type = "payment";
  resource_id = id;
  actor_type = "user";
  actor_user_id = some user;
  source_type = "payment";
  source_id = id;
}

-- the price of an order, which must not be free
abbrev pub price_or_throw : Option String → Option ℕ → Tx PaymentError (String × ℕ)
price_or_throw none amount = throw payment_not_required
price_or_throw (some currency) none = throw payment_not_required
price_or_throw (some currency) (some amount) = do
  throw_if (amount == 0) payment_not_required
  pure (currency, amount)

-- `Create`
unfoldable pub create : Clock → ℕ → ℕ → ℕ → String → String → Tx PaymentError Payment
unfolding lock_order_levels distinct_levels items_short insert_payment append_event
create clock organization user order key hash = do
  existing ← gets (λ db. first (has_payment_key organization key) db.payments)
  elim existing [
    | some p ↦ replay_payment order hash p
    | none ↦ do
      levels ← gets (levels_of_order organization order)
      lock_order_levels organization order_not_found levels
      row ← (λ db. or_throw (find_order organization order db) order_not_found db)
      throw_if (is_cancelled_order row.status) order_cancelled
      price ← price_or_throw row.currency_code row.subtotal_minor
      items ← gets (λ db. select (is_order_item organization order) db.order_items)
      reservations ← gets (λ db. db.reservations)
      throw_if (items_short (clock.statement order) reservations items) reservation_expired
      throw_if (length items == 0) order_not_found
      payments ← gets (λ db. select (is_payment_of organization order) db.payments)
      throw_if (any_payment (λ p. is_succeeded p.status) payments) payment_already_succeeded
      throw_if (any_payment (λ p. is_pending_payment p.status) payments) payment_in_progress
      item ←
          insert_payment
            (λ id. new_payment clock id organization order user key hash price.1 price.0)
      append_event database_error (payment_event organization user item.id)
      pure item
  ]
