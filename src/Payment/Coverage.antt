-- ===== src/Payment/Coverage.antt =====
-- The operations on payments that change reservations keep every level covered.
use flowcart.Prelude.{
  ℕ, String, Bool, not, ◌||◌, ◌≤◌, refl, inl, inr, none, some, Option, arith, first, select,
  Option-cases, ok, ◌==◌,
}
use text.Mathlib.Text.{◌==◌ as text_eq}
use flowcart.Database.{Db, Clock, transact, pure}
use flowcart.Database.Reads.{Reads, Reads-bind, Reads-or_throw, Reads-throw_if}
use flowcart.Database.Sales.{Payment}
use flowcart.Database.Stock.Coverage.{IsCovered}
use flowcart.Database.Stock.Lighter.{
  IsLight, IsLight-bind, IsLight-if, Reads-IsLight, IsLight-IsCovered,
}
use flowcart.Order.Reading.{find_order}
use flowcart.Order.Cancelling.{
  is_payment_of, is_succeeded, is_pending_payment, any_payment, is_pending_order,
}
use flowcart.Payment.Model.{
  PaymentError, order_cancelled, reservation_expired, payment_in_progress,
  payment_already_succeeded, payment_not_required, idempotency_key_reused, database_error,
  ProviderIntent, OrderState,
}
use flowcart.Payment.Aggregate.{
  coverage, is_active_at, is_payment_held, needing_attention, matches, mutate_payment,
}
use flowcart.Payment.Creating.{has_payment_key, replay_payment, insert_payment}
use flowcart.Payment.Checkout.{
  is_paid_order, is_some, is_some_text, positive_price, provider_payment, hold, open_checkout,
  create_provider,
}
use flowcart.Payment.Retries.{confirm_cancelled}
use flowcart.Payment.Events.{
  payment_of_event, is_event, is_open_event, unresolved, process_row, process_event,
}
use flowcart.Payment.Covering.{
  set_payment-IsLight, set_event-IsLight, set_reservations-IsLight, lock_aggregate-Reads,
  mutate_payment-IsLight, end_payment-IsLight, apply_event-IsLight,
}

abbrev reading : {A : Type 0} → (f : Db → A) → Reads {E = PaymentError} (λ db. ok (f db, db))
reading f db = inr (f db, refl)

positive_price-Reads :
    (amount : Option ℕ) (currency : Option String) → Reads (positive_price amount currency)
positive_price-Reads none currency db = inl (payment_not_required, refl)
positive_price-Reads (some amount) none db = inl (payment_not_required, refl)
positive_price-Reads (some amount) (some currency) db =
    Reads-bind _ _ (Reads-throw_if (amount == 0) payment_not_required)
      (λ u d. inr ((amount, currency), refl)) db

module _ (time : ℕ) (clock : Clock) where
  insert_payment-IsLight : (make : ℕ → Payment) → IsLight time (insert_payment make)
  unfolding insert_payment
  insert_payment-IsLight make db after p h = (ground (arith, h), λ q j. ground (arith, h))

  open_checkout-IsLight :
      (o user order : ℕ) (key hash : String) (live : Bool) (state : OrderState)
      → time ≤ clock.reading
      → IsLight time (open_checkout clock o user order key hash live state)
  unfolding open_checkout
  open_checkout-IsLight o user order key hash live state early =
      let check = λ (c : Bool) (e : PaymentError). Reads-IsLight time _ (Reads-throw_if c e) in
      IsLight-bind time _ _ (check (is_paid_order state.status) payment_already_succeeded) (λ a.
        IsLight-bind time _ _
          (check (not (is_pending_order state.status) || is_some state.cancel_requested_at)
            order_cancelled)
          (λ b.
            IsLight-bind time _ _
              (Reads-IsLight time _ (reading (λ db. select (is_payment_of o order) db.payments)))
              (λ payments.
                IsLight-bind time _ _
                  (check (any_payment (λ p. is_succeeded p.status) payments)
                    payment_already_succeeded)
                  (λ c.
                    IsLight-bind time _ _
                      (check (any_payment (λ p. is_pending_payment p.status) payments)
                        payment_in_progress)
                      (λ d.
                        IsLight-bind time _ _
                          (Reads-IsLight time _
                            (Reads-or_throw (find_order o order) database_error))
                          (λ row.
                            IsLight-bind time _ _
                              (Reads-IsLight time _
                                (positive_price-Reads row.subtotal_minor row.currency_code))
                              (λ price.
                                IsLight-bind time _ _
                                  (Reads-IsLight time _ (
                                    reading
                                      (coverage (is_active_at (clock.statement order)) o order)))
                                  (λ active_all.
                                    IsLight-bind time _ _
                                      (check (not active_all) reservation_expired)
                                      (λ f.
                                        IsLight-bind time _ _
                                          (insert_payment-IsLight (λ id.
                                            provider_payment clock id o order user key hash live
                                              price.0 price.1))
                                          (λ p.
                                            IsLight-bind time _ _
                                              (set_reservations-IsLight time o order
                                                (is_active_at clock.reading) hold
                                                (λ q j r e. ground (arith, e, early)))
                                              (λ g.
                                                IsLight-bind time _ _
                                                  (Reads-IsLight time _
                                                    (reading (coverage is_payment_held o order)))
                                                  (λ held_all.
                                                    IsLight-bind time _ _
                                                      (check (not held_all) reservation_expired)
                                                      (λ h.
                                                        Reads-IsLight time _
                                                          (reading (λ db. p)))))))))))))))

  create_provider-IsLight :
      (o user order : ℕ) (key hash : String) (live : Bool)
      → time ≤ clock.reading
      → IsLight time (create_provider clock o user order key hash live)
  unfolding create_provider
  create_provider-IsLight o user order key hash live early db after a h =
      elim (Option-cases (first (has_payment_key o key) db.payments)) [
        | inr (p, e) ↦
            Reads-IsLight time (replay_payment order hash p)
              (Reads-bind _ _
                (Reads-throw_if (not (text_eq p.request_hash hash) || not (p.order_id == order))
                  idempotency_key_reused)
                (λ u. reading (λ d. p)))
              db after a (ground (arith, e, h))
        | inl e ↦
            IsLight-bind time _ (λ state. open_checkout clock o user order key hash live state)
              (Reads-IsLight time _ (lock_aggregate-Reads time o order))
              (λ state. open_checkout-IsLight o user order key hash live state early) db after a
              (ground (arith, e, h))
      ]

  confirm_cancelled-IsLight :
      (p : Payment) (intent : ProviderIntent) → IsLight time (confirm_cancelled clock p intent)
  unfolding confirm_cancelled
  confirm_cancelled-IsLight p intent =
      mutate_payment-IsLight time p.organization_id p.id _ (λ current state.
        IsLight-if time (not (matches current intent) || not (text_eq intent.status "canceled")) _ _
          (set_payment-IsLight time current.organization_id current.id
            (needing_attention "invalid_cancellation_result"))
          (IsLight-if time
            (not (is_pending_payment current.status) || is_some_text current.attention_reason) _ _
            (Reads-IsLight time _ (reading (λ db. tt))) (end_payment-IsLight time clock p current)))

  process_row-IsLight :
      (id : ℕ) (p : Payment) (state : OrderState) → IsLight time (process_row clock id p state)
  unfolding process_row
  process_row-IsLight id p state =
      IsLight-bind time _ _
        (Reads-IsLight time _
          (Reads-or_throw (λ db. first (is_event id) db.provider_events) database_error))
        (λ e.
          IsLight-bind time _ _
            (Reads-IsLight time _ (Reads-or_throw (λ db. e.provider_payment_id) database_error))
            (λ intent.
              IsLight-if time (is_open_event e.outcome) _ _
                (apply_event-IsLight time clock id e intent p state)
                (Reads-IsLight time _ (reading (λ db. tt)))))

  process_event-IsLight : (id : ℕ) → IsLight time (process_event clock id)
  unfolding process_event
  process_event-IsLight id db after a h = elim (Option-cases (payment_of_event id db)) [
    | inl e ↦
        set_event-IsLight time id (λ x. is_open_event x.outcome) (unresolved clock) db after a
          (ground (arith, e, h))
    | inr (p, e) ↦
        IsLight-bind time (mutate_payment p.organization_id p.id (process_row clock id))
          (λ q. pure tt)
          (mutate_payment-IsLight time p.organization_id p.id (process_row clock id)
            (λ q state. process_row-IsLight id q state))
          (λ q. Reads-IsLight time _ (reading (λ d. tt))) db after a (ground (arith, e, h))
  ]

-- Payments reserve no more than what their orders have reserved: opening a checkout, the end of a
-- payment and every event of the provider keep each level covered, at every time up to the last
-- statement, committed or not.
pub payments-IsCovered :
    (clock : Clock) (time : ℕ) (db : Db) (o user order id : ℕ) (key hash : String) (live : Bool)
    (p : Payment) (intent : ProviderIntent)
    → time ≤ clock.reading
    → IsCovered time db
    → IsCovered time (transact (create_provider clock o user order key hash live) db).1
      × IsCovered time (transact (confirm_cancelled clock p intent) db).1
      × IsCovered time (transact (process_event clock id) db).1
payments-IsCovered clock time db o user order id key hash live p intent early covered = (
  IsLight-IsCovered time _ (create_provider-IsLight time clock o user order key hash live early) db
      covered,
  IsLight-IsCovered time _ (confirm_cancelled-IsLight time clock p intent) db covered,
  IsLight-IsCovered time _ (process_event-IsLight time clock id) db covered,
)
