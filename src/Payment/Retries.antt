-- ===== src/Payment/Retries.antt =====
-- How payments at the provider are retried and end: `Schedule` and `ConfirmCancelled` of
-- apps/api/internal/payment/checkout_repository.go.
use text.Mathlib.Text.{◌==◌ as text_eq}
use Prim.Native.String.{◌++◌ as text_append}
use flowcart.Prelude.{
  ℕ, ◌+◌, ◌*◌, ◌^◌, String, Bool, not, ◌&&◌, ◌||◌, none, some, leb, ltb, update, if◌then◌else◌,
}
use flowcart.Database.{Clock, Tx, Reservation, active, released, expired, ◌>>◌, pure, modify}
use flowcart.Database.Sales.{Order, Payment, PaymentStatus}
use flowcart.Order.Reading.{is_order}
use flowcart.Order.Cancelling.{is_pending_payment, is_pending_order, cancel_order}
use flowcart.Payment.Model.{PaymentError, ProviderIntent}
use flowcart.Payment.Aggregate.{
  is_payment_held, set_payment, set_reservations, mutate_payment, attention, matches,
}
use flowcart.Payment.Checkout.{is_failure, is_some_text}

abbrev pub retry_limit : ℕ
retry_limit = 20

-- `LEAST(1800,30*power(2,LEAST(reconcile_attempts,6)))`
unfoldable pub retry_delay : ℕ → ℕ
retry_delay attempts =
    let delay = 30 * 2 ^ (if ltb attempts 6 then attempts else 6) in
    if ltb delay 1800 then delay else 1800

abbrev pub rescheduled : ℕ → Payment → Payment
rescheduled time p = record p {
  reconcile_attempts = p.reconcile_attempts + 1;
  next_reconcile_at = some (time + retry_delay p.reconcile_attempts);
}

-- the function that `Schedule` hands to `mutatePayment`
abbrev pub retry : Clock → Payment → String → Payment → Tx PaymentError (Unit {0})
retry clock p reason current =
    if not (is_pending_payment current.status) || is_some_text current.attention_reason
    then pure tt
    else if leb retry_limit current.reconcile_attempts
    then attention current (text_append "retry_exhausted_" reason)
    else set_payment p.organization_id p.id (rescheduled clock.reading)

-- `Schedule`
unfoldable pub schedule : Clock → Payment → String → Tx PaymentError Payment
unfolding mutate_payment retry_delay
schedule clock p reason =
    mutate_payment p.organization_id p.id (λ current state. retry clock p reason current)

abbrev pub ended : Bool → Payment → Payment
ended failed p = record p {
  status = if failed then PaymentStatus.failed else PaymentStatus.cancelled;
  provider_status = some "canceled";
  next_reconcile_at = none;
}

-- the reservations of a payment that ended: a failed one gives them back to the order
abbrev pub unhold : Clock → Bool → Reservation → Reservation
unhold clock failed r =
    if leb r.expires_at clock.reading
    then record r { status = expired; expired_at = some clock.now }
    else if failed
    then record r { status = active }
    else record r { status = released; released_at = some clock.now }

abbrev pub is_pending_row : ℕ → ℕ → Order → Bool
is_pending_row organization order o = is_order organization order o && is_pending_order o.status

unfoldable pub end_payment : Clock → Payment → Payment → Tx PaymentError (Unit {0})
unfolding set_reservations
end_payment clock p current =
    let failed = is_failure current.close_reason in
    do
      set_payment p.organization_id p.id (ended failed)
      set_reservations p.organization_id p.order_id is_payment_held (unhold clock failed)
      modify (λ db. record db {
        orders =
            if failed
            then db.orders
            else update (is_pending_row p.organization_id p.order_id) (cancel_order clock.now)
                db.orders;
      })

-- `ConfirmCancelled`
unfoldable pub confirm_cancelled : Clock → Payment → ProviderIntent → Tx PaymentError Payment
unfolding mutate_payment matches end_payment
confirm_cancelled clock p intent = mutate_payment p.organization_id p.id (λ current state.
    if not (matches current intent) || not (text_eq intent.status "canceled")
    then attention current "invalid_cancellation_result"
    else if not (is_pending_payment current.status) || is_some_text current.attention_reason
    then pure tt
    else end_payment clock p current)
