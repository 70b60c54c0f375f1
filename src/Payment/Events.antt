-- ===== src/Payment/Events.antt =====
-- apps/api/internal/payment/events_repository.go: the provider's events.
use text.Mathlib.Text.{◌==◌ as text_eq}
use flowcart.Prelude.{
  ℕ, ◌+◌, String, Bool, true, false, not, ◌&&◌, ◌||◌, Option, none, some, ◌==◌, ltb, first, update,
  select, if◌then◌else◌, pos, eqb_ℤ,
}
use flowcart.Database.{
  Db, Clock, Tx, Reservation, committed, AuditEvent, ◌>>=◌, ◌>>◌, pure, gets, or_throw, modify,
  throw_if,
}
use flowcart.Database.Audit.{append_event}
use flowcart.Database.Sales.{
  Order, OrderStatus, Payment, PaymentStatus, CloseReason, ProviderEvent, EventOutcome,
}
use flowcart.Order.Reading.{is_order}
use flowcart.Order.Cancelling.{
  is_payment_of, is_succeeded, is_pending_payment, any_payment, is_pending_order, or_now,
}
use flowcart.Payment.Model.{PaymentError, database_error, OrderState}
use flowcart.Payment.Aggregate.{
  coverage, is_payment_held, set_payment, set_reservations, mutate_payment, attention, is_text,
  is_mode,
}
use flowcart.Payment.Checkout.{is_some_text}

-- `MarkAttention`
unfoldable pub mark_attention : Payment → String → Tx PaymentError Payment
unfolding mutate_payment
mark_attention p reason =
    mutate_payment p.organization_id p.id (λ current state. attention current reason)

abbrev pub is_event : ℕ → ProviderEvent → Bool
is_event id e = e.id == id

abbrev pub is_open_event : EventOutcome → Bool
is_open_event EventOutcome.pending = true
is_open_event _ = false

-- `ON p.provider_name=e.provider_name AND p.provider_payment_id=e.provider_payment_id`
abbrev pub is_payment_of_event : ProviderEvent → Payment → Bool
is_payment_of_event e p =
    is_text e.provider_name p.provider_name
    && elim e.provider_payment_id [ none ↦ false | some id ↦ is_text id p.provider_payment_id ]

abbrev pub payment_of_event : ℕ → Db → Option Payment
payment_of_event id db = elim (first (is_event id) db.provider_events) [
  | none ↦ none
  | some e ↦ first (is_payment_of_event e) db.payments
]

-- three days
abbrev pub binding_window : ℕ
binding_window = 259200

abbrev pub unresolved : Clock → ProviderEvent → ProviderEvent
unresolved clock e = record e {
  next_attempt_at = some (clock.reading + 30);
  reason_code = some "binding_unresolved";
  outcome =
      if ltb (e.received_at + binding_window) clock.reading
      then EventOutcome.quarantined
      else e.outcome;
}

abbrev pub settled : Clock → Payment → EventOutcome → Option String → ProviderEvent → ProviderEvent
settled clock p outcome reason e = record e {
  organization_id = some p.organization_id;
  payment_id = some p.id;
  outcome = outcome;
  reason_code = reason;
  processed_at = some clock.now;
  next_attempt_at = none;
}

abbrev pub set_event :
    ℕ → (ProviderEvent → Bool) → (ProviderEvent → ProviderEvent) → Tx PaymentError (Unit {0})
set_event id test f = modify (λ db. record db {
  provider_events = update (λ e. is_event id e && test e) f db.provider_events;
})

-- the closures `finish` and `quarantine`
abbrev pub finish_event :
    Clock → ℕ → Payment → EventOutcome → Option String → Tx PaymentError (Unit {0})
finish_event clock id p outcome reason = set_event id (λ e. true) (settled clock p outcome reason)

abbrev pub quarantine : Clock → ℕ → Payment → String → Tx PaymentError (Unit {0})
quarantine clock id p reason = do
  attention p reason
  finish_event clock id p EventOutcome.quarantined (some reason)

abbrev pub paying : Payment → Payment
paying p = record p {
  status = PaymentStatus.succeeded;
  provider_status = some "succeeded";
  next_reconcile_at = none;
}

abbrev pub paid : ℕ → Order → Order
paid now o = record o { status = OrderStatus.paid; paid_at = some now }

abbrev pub commit : Reservation → Reservation
commit r = record r { status = committed }

abbrev pub provider_event : String → String → ℕ → ℕ → ℕ → AuditEvent
provider_event type resource organization id payment = record {
  organization_id = organization;
  event_type = type;
  resource_type = resource;
  resource_id = id;
  actor_type = "provider";
  actor_user_id = none;
  source_type = "payment";
  source_id = payment;
}

-- the writes of a success, the second payment that succeeds for an order broken by its unique index
unfoldable pub pay : Clock → Payment → Tx PaymentError (Unit {0})
unfolding set_reservations append_event
pay clock p = do
  payments ← gets (λ db. select (is_payment_of p.organization_id p.order_id) db.payments)
  throw_if (any_payment (λ q. is_succeeded q.status) payments) database_error
  set_payment p.organization_id p.id paying
  modify (λ db. record db {
    orders = update (is_order p.organization_id p.order_id) (paid clock.now) db.orders;
  })
  append_event database_error
      (provider_event "payment.succeeded" "payment" p.organization_id p.id p.id)
  append_event database_error
      (provider_event "order.paid" "order" p.organization_id p.order_id p.id)
  set_reservations p.organization_id p.order_id is_payment_held commit

-- `payment_intent.succeeded`
unfoldable pub succeed : Clock → ℕ → Payment → OrderState → Tx PaymentError (Unit {0})
unfolding pay coverage
succeed clock id p state db =
    if not (is_pending_order state.status)
    then quarantine clock id p "order_not_pending" db
    else if not (coverage is_payment_held p.organization_id p.order_id db)
    then quarantine clock id p "payment_hold_incomplete" db
    else (do pay clock p; finish_event clock id p EventOutcome.processed none) db

-- the first reason of two
abbrev pub or_reason : CloseReason → Option CloseReason → Option CloseReason
or_reason reason none = some reason
or_reason reason (some first_reason) = some first_reason

abbrev pub stopping : ℕ → String → CloseReason → Payment → Payment
stopping now status reason p = record p {
  provider_status = some status;
  cancel_requested_at = or_now now p.cancel_requested_at;
  close_reason = or_reason reason p.close_reason;
  next_reconcile_at = some now;
}

-- a failure or a cancellation: it asks for the end of the payment
abbrev pub stop : Clock → ℕ → Payment → String → CloseReason → Tx PaymentError (Unit {0})
stop clock id p status reason = do
  set_payment p.organization_id p.id (stopping clock.now status reason)
  finish_event clock id p EventOutcome.processed none

abbrev pub is_bound_to : String → Bool → Payment → Bool
is_bound_to intent livemode p =
    is_text intent p.provider_payment_id && is_mode livemode p.provider_livemode

-- the checks and the `switch` of `ProcessEvent`
unfoldable pub apply_event :
    Clock → ℕ → ProviderEvent → String → Payment → OrderState → Tx PaymentError (Unit {0})
unfolding succeed
apply_event clock id e intent p state =
    let succeeded = text_eq e.event_type "payment_intent.succeeded" in
    if not (text_eq e.provider_name "stripe") || not (is_bound_to intent e.livemode p)
    then quarantine clock id p "provider_identity_or_environment_mismatch"
    else if not (eqb_ℤ e.amount (pos p.amount_minor)) || not (text_eq e.currency p.currency_code)
    then quarantine clock id p "amount_or_currency_mismatch"
    else if succeeded
        && (not (eqb_ℤ e.amount_received (pos p.amount_minor))
            || not (text_eq e.provider_status "succeeded"))
    then quarantine clock id p "success_amount_received_or_status_mismatch"
    else if is_succeeded p.status
    then finish_event clock id p EventOutcome.ignored (some "already_succeeded")
    else if not (is_pending_payment p.status)
    then (if succeeded
        then quarantine clock id p "success_after_terminal_cancellation"
        else finish_event clock id p EventOutcome.ignored (some "terminal_payment"))
    else if is_some_text p.attention_reason
    then finish_event clock id p EventOutcome.quarantined (some "payment_requires_attention")
    else if succeeded
    then succeed clock id p state
    else if text_eq e.event_type "payment_intent.payment_failed"
    then (if not (text_eq e.provider_status "requires_payment_method")
        then quarantine clock id p "failure_status_mismatch"
        else stop clock id p e.provider_status CloseReason.failure)
    else if text_eq e.event_type "payment_intent.canceled"
    then (if not (text_eq e.provider_status "canceled")
        then quarantine clock id p "cancellation_status_mismatch"
        else stop clock id p "canceled" CloseReason.customer)
    else finish_event clock id p EventOutcome.ignored (some "unsupported_event")

-- the function that `ProcessEvent` hands to `mutatePayment`
unfoldable pub process_row : Clock → ℕ → Payment → OrderState → Tx PaymentError (Unit {0})
unfolding apply_event
process_row clock id p state = do
  e ← (λ db. or_throw (first (is_event id) db.provider_events) database_error db)
  intent ← (λ db. or_throw e.provider_payment_id database_error db)
  if is_open_event e.outcome then apply_event clock id e intent p state else pure tt

-- `ProcessEvent`
unfoldable pub process_event : Clock → ℕ → Tx PaymentError (Unit {0})
unfolding mutate_payment process_row
process_event clock id = do
  payment ← gets (payment_of_event id)
  elim payment [
    | none ↦ set_event id (λ e. is_open_event e.outcome) (unresolved clock)
    | some p ↦ do mutate_payment p.organization_id p.id (process_row clock id); pure tt
  ]
