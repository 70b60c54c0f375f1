-- ===== src/Payment/Accepting.antt =====
-- `AcceptEvent` of apps/api/internal/payment/events_repository.go: the provider's events come in.
use text.Mathlib.Text.{◌==◌ as text_eq}
use flowcart.Prelude.{
  ℕ, suc, String, Bool, not, ◌&&◌, ◌||◌, none, some, [], ◌∷◌, ◌++◌, ◌==◌, first, if◌then◌else◌,
  byte_length,
}
use flowcart.Database.{Clock, Tx, ◌>>◌, modify, throw_if}
use flowcart.Database.Sales.{ProviderEvent, EventOutcome}
use flowcart.Payment.Model.{PaymentError, invalid_webhook, VerifiedEvent}

abbrev pub is_supported : String → Bool
is_supported type =
    text_eq type "payment_intent.succeeded"
    || text_eq type "payment_intent.payment_failed"
    || text_eq type "payment_intent.canceled"

abbrev pub new_event : Clock → ℕ → VerifiedEvent → ProviderEvent
new_event clock id e = record {
  id = id;
  provider_name = e.provider;
  provider_event_id = e.id;
  event_type = e.type;
  provider_payment_id = if text_eq e.intent_id "" then none else some e.intent_id;
  organization_id = none;
  payment_id = none;
  provider_status = e.status;
  amount = e.amount;
  amount_received = e.amount_received;
  currency = e.currency;
  livemode = e.livemode;
  payload_hash = e.payload_hash;
  received_at = clock.now;
  processed_at = if is_supported e.type then none else some clock.now;
  outcome = if is_supported e.type then EventOutcome.pending else EventOutcome.ignored;
  reason_code = if is_supported e.type then none else some "unsupported_event";
  next_attempt_at = some clock.now;
}

-- the unique key `(provider_name,provider_event_id)`
abbrev pub is_same_event : VerifiedEvent → ProviderEvent → Bool
is_same_event e row = text_eq row.provider_name e.provider && text_eq row.provider_event_id e.id

-- `AcceptEvent`, with its `ON CONFLICT … DO NOTHING`
unfoldable pub accept_event : Clock → VerifiedEvent → Tx PaymentError (Unit {0})
accept_event clock e = do
  throw_if
      (not (text_eq e.provider "stripe")
        || text_eq e.id ""
        || not (byte_length e.payload_hash == 64))
      invalid_webhook
  modify (λ db. elim (first (is_same_event e) db.provider_events) [
    | some row ↦ db
    | none ↦ record db {
      provider_events = db.provider_events ++ new_event clock db.next_id e ∷ [];
      next_id = suc db.next_id;
    }
  ])
