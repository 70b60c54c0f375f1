-- ===== src/Payment/Checkout.antt =====
-- apps/api/internal/payment/checkout_repository.go: payments at the provider.
use flowcart.Prelude.{
  ℕ, ◌+◌, String, Bool, true, false, not, ◌&&◌, ◌||◌, Option, none, some, ◌==◌, leb, first, select,
  if◌then◌else◌,
}
use flowcart.Database.{
  Clock, Tx, Reservation, payment_held, ◌>>=◌, ◌>>◌, pure, throw, gets, or_throw, throw_if,
}
use flowcart.Database.Sales.{OrderStatus, Payment, CloseReason}
use flowcart.Order.Reading.{find_order}
use flowcart.Order.Cancelling.{
  is_payment_of, is_succeeded, is_pending_payment, any_payment, is_pending_order, or_now,
}
use flowcart.Payment.Model.{
  PaymentError, order_cancelled, reservation_expired, payment_in_progress,
  payment_already_succeeded, payment_not_required, database_error, ProviderIntent, OrderState,
}
use flowcart.Payment.Aggregate.{
  lock_aggregate, coverage, is_active_at, is_payment_held, set_payment, set_reservations,
  mutate_payment, attention, is_text, matches, is_payment,
}
use flowcart.Payment.Creating.{has_payment_key, replay_payment, new_payment, insert_payment}

-- `statement_timestamp()+INTERVAL '30 minutes'`
abbrev pub checkout_ttl : ℕ
checkout_ttl = 1800

-- the row that is inserted
abbrev pub provider_payment : Clock → ℕ → ℕ → ℕ → ℕ → String → String → Bool → ℕ → String → Payment
provider_payment clock id organization order user key hash live amount currency =
    record (new_payment clock id organization order user key hash amount currency) {
      provider_name = some "stripe";
      provider_livemode = some live;
      checkout_deadline_at = some (clock.reading + checkout_ttl);
      next_reconcile_at = some clock.reading;
    }

abbrev pub is_paid_order : OrderStatus → Bool
is_paid_order OrderStatus.paid = true
is_paid_order _ = false

abbrev pub is_some : Option ℕ → Bool
is_some none = false
is_some (some n) = true

-- the price of an order, which must be positive
abbrev pub positive_price : Option ℕ → Option String → Tx PaymentError (ℕ × String)
positive_price none currency = throw payment_not_required
positive_price (some amount) none = throw payment_not_required
positive_price (some amount) (some currency) = do
  throw_if (amount == 0) payment_not_required
  pure (amount, currency)

abbrev pub hold : Reservation → Reservation
hold r = record r { status = payment_held }

-- what `CreateProvider` does of a key that is new
unfoldable pub open_checkout :
    Clock → ℕ → ℕ → ℕ → String → String → Bool → OrderState → Tx PaymentError Payment
unfolding coverage insert_payment set_reservations
open_checkout clock organization user order key hash live state = do
  throw_if (is_paid_order state.status) payment_already_succeeded
  throw_if (not (is_pending_order state.status) || is_some state.cancel_requested_at)
      order_cancelled
  payments ← gets (λ db. select (is_payment_of organization order) db.payments)
  throw_if (any_payment (λ p. is_succeeded p.status) payments) payment_already_succeeded
  throw_if (any_payment (λ p. is_pending_payment p.status) payments) payment_in_progress
  row ← (λ db. or_throw (find_order organization order db) database_error db)
  price ← positive_price row.subtotal_minor row.currency_code
  active_all ← gets (coverage (is_active_at (clock.statement order)) organization order)
  throw_if (not active_all) reservation_expired
  p ←
      insert_payment
        (λ id. provider_payment clock id organization order user key hash live price.0 price.1)
  set_reservations organization order (is_active_at clock.reading) hold
  held_all ← gets (coverage is_payment_held organization order)
  throw_if (not held_all) reservation_expired
  pure p

-- `CreateProvider`; the second look for the key, under the locks, finds what the first did
unfoldable pub create_provider :
    Clock → ℕ → ℕ → ℕ → String → String → Bool → Tx PaymentError Payment
unfolding lock_aggregate open_checkout
create_provider clock organization user order key hash live = do
  existing ← gets (λ db. first (has_payment_key organization key) db.payments)
  elim existing [
    | some p ↦ replay_payment order hash p
    | none ↦ do
      state ← lock_aggregate organization order
      open_checkout clock organization user order key hash live state
  ]

abbrev pub bound : ProviderIntent → Payment → Payment
bound intent p = record p {
  provider_payment_id = some intent.id;
  provider_status = some intent.status;
}

-- the unique index on `(provider_name,provider_payment_id)`, by another payment
abbrev pub is_bound_elsewhere : Payment → ProviderIntent → Payment → Bool
is_bound_elsewhere p intent q =
    is_text intent.id q.provider_payment_id
    && elim q.provider_name [ none ↦ false | some name ↦ is_text name p.provider_name ]
    && not (is_payment p.organization_id p.id q)

-- `Bind`
unfoldable pub bind : Payment → ProviderIntent → Tx PaymentError Payment
unfolding mutate_payment matches any_payment
bind p intent = mutate_payment p.organization_id p.id (λ current state.
    if not (matches current intent)
    then attention current "provider_identity_or_amount_mismatch"
    else if not (is_pending_payment current.status)
    then pure tt
    else do
      payments ← gets (λ db. db.payments)
      throw_if (any_payment (is_bound_elsewhere current intent) payments) database_error
      set_payment p.organization_id p.id (bound intent))

abbrev pub is_failure : Option CloseReason → Bool
is_failure (some CloseReason.failure) = true
is_failure _ = false

abbrev pub closing : ℕ → CloseReason → Payment → Payment
closing now reason p = record p {
  cancel_requested_at = or_now now p.cancel_requested_at;
  close_reason = some reason;
}

abbrev pub is_some_text : Option String → Bool
is_some_text none = false
is_some_text (some s) = true

-- the reason that a checkout is closed for
abbrev pub reason_to_close : Payment → OrderState → CloseReason
reason_to_close p state =
    if is_failure p.close_reason
    then CloseReason.failure
    else if is_some state.cancel_requested_at
    then CloseReason.customer
    else CloseReason.deadline

-- `Prepare`
unfoldable pub prepare : Clock → ℕ → ℕ → Tx PaymentError Payment
unfolding mutate_payment
prepare clock organization id = mutate_payment organization id (λ p state.
    if not (is_pending_payment p.status)
      || not (is_some_text p.provider_name)
      || is_some_text p.attention_reason
    then pure tt
    else do
      deadline ← (λ db. or_throw p.checkout_deadline_at database_error db)
      (if leb deadline clock.reading || is_some state.cancel_requested_at
          then set_payment organization id (closing clock.now (reason_to_close p state))
          else pure tt))
