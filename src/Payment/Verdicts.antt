-- ===== src/Payment/Verdicts.antt =====
-- The verdicts of `ProcessEvent` on an event.
use text.Mathlib.Text.{◌==◌ as text_eq}
use flowcart.Prelude.{
  ℕ, String, Bool, true, false, not, ◌&&◌, ◌||◌, ◌≡◌, refl, some, Option, arith, if◌then◌else◌, pos,
  eqb_ℤ,
}
use flowcart.Database.{Clock, Tx}
use flowcart.Database.Sales.{Payment, CloseReason, EventOutcome, ProviderEvent}
use flowcart.Order.Cancelling.{is_succeeded, is_pending_payment}
use flowcart.Payment.Model.{PaymentError, OrderState}
use flowcart.Payment.Checkout.{is_some_text}
use flowcart.Payment.Events.{is_bound_to, finish_event, quarantine, succeed, stop, apply_event}

-- The event reports that the provider has received the whole of a pending payment.
pub record IsPayable (e : ProviderEvent) (intent : String) (p : Payment) : Type 0 where
  pub provider : text_eq e.provider_name "stripe" ≡ true
  pub bound : is_bound_to intent e.livemode p ≡ true
  pub amount : e.amount ≡ pos p.amount_minor
  pub currency : text_eq e.currency p.currency_code ≡ true
  pub received : e.amount_received ≡ pos p.amount_minor
  pub status : text_eq e.provider_status "succeeded" ≡ true
  pub type : text_eq e.event_type "payment_intent.succeeded" ≡ true
  pub pending : is_pending_payment p.status ≡ true
  pub calm : is_some_text p.attention_reason ≡ false

branch :
    {A : Type 0} (P : A → Type 0) (c : Bool) (m n : A)
    → (c ≡ true → P m)
    → (c ≡ false → P n)
    → P (if c then m else n)
branch P true m n f g = f refl
branch P false m n f g = g refl

module _ (clock : Clock) (id : ℕ) (e : ProviderEvent) (intent : String) (p : Payment)
    (state : OrderState) where
  -- What all verdicts have in common, `ProcessEvent` has; a success is only reached by a payment
  -- that can be paid.
  pub apply_event-keeps :
      (P : Tx PaymentError (Unit {0}) → Type 0)
      → ((reason : String) → P (quarantine clock id p reason))
      → ((outcome : EventOutcome) (reason : Option String)
          → P (finish_event clock id p outcome reason))
      → (IsPayable e intent p → P (succeed clock id p state))
      → ((status : String) (reason : CloseReason) → P (stop clock id p status reason))
      → P (apply_event clock id e intent p state)
  unfolding apply_event
  apply_event-keeps P stops ends pays halts =
      let succeeded = text_eq e.event_type "payment_intent.succeeded" in
      let ignores = λ (reason : String). ends EventOutcome.ignored (some reason) in
      let foreign =
        not (text_eq e.provider_name "stripe") || not (is_bound_to intent e.livemode p) in
      let other =
        not (eqb_ℤ e.amount (pos p.amount_minor)) || not (text_eq e.currency p.currency_code) in
      let short =
        not (eqb_ℤ e.amount_received (pos p.amount_minor))
        || not (text_eq e.provider_status "succeeded") in
      branch P foreign _ _ (λ a. stops "provider_identity_or_environment_mismatch")
        (λ a.
          branch P other _ _ (λ b. stops "amount_or_currency_mismatch")
            (λ b.
              branch P (succeeded && short) _ _
                (λ c. stops "success_amount_received_or_status_mismatch")
                (λ c.
                  branch P (is_succeeded p.status) _ _ (λ d. ignores "already_succeeded")
                    (λ d.
                      branch P (not (is_pending_payment p.status)) _ _
                        (λ f.
                          branch P succeeded _ _ (λ g. stops "success_after_terminal_cancellation")
                            (λ g. ignores "terminal_payment"))
                        (λ f.
                          branch P (is_some_text p.attention_reason) _ _
                            (λ g. ends EventOutcome.quarantined (some "payment_requires_attention"))
                            (λ g.
                              branch P succeeded _ _
                                (λ h. pays (record {
                                  provider = ground (arith, a);
                                  bound = ground (arith, a);
                                  amount = ground (arith, b);
                                  currency = ground (arith, b);
                                  received = ground (arith, c, h);
                                  status = ground (arith, c, h);
                                  type = h;
                                  pending = ground (arith, f);
                                  calm = g;
                                }))
                                (λ h.
                                  branch P (text_eq e.event_type "payment_intent.payment_failed") _
                                    _
                                    (λ k.
                                      branch P
                                        (not (text_eq e.provider_status "requires_payment_method"))
                                        _ _ (λ l. stops "failure_status_mismatch")
                                        (λ l. halts e.provider_status CloseReason.failure))
                                    (λ k.
                                      branch P (text_eq e.event_type "payment_intent.canceled") _ _
                                        (λ l.
                                          branch P (not (text_eq e.provider_status "canceled")) _ _
                                            (λ q. stops "cancellation_status_mismatch")
                                            (λ q. halts "canceled" CloseReason.customer))
                                        (λ l. ignores "unsupported_event")))))))))
