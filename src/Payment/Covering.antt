-- ===== src/Payment/Covering.antt =====
-- Payments hold, commit and give back what their orders have reserved, and reserve no more.
use flowcart.Prelude.{
  ℕ, String, Bool, true, ◌&&◌, ◌≤◌, ◌≡◌, refl, inl, inr, none, some, Option, arith, update, select,
  if◌then◌else◌, List, Bool-cases,
}
use flowcart.Database.{Db, Clock, Tx, Reservation, modify}
use flowcart.Database.Reads.{Reads, Reads-bind, Reads-or_throw, Reads-throw_if}
use flowcart.Database.Sales.{Order, Payment, CloseReason, EventOutcome, ProviderEvent}
use flowcart.Database.Stock.Laws.{weight, reserved_on-update_le}
use flowcart.Database.Stock.Lighter.{
  IsLight, IsLight-bind, Reads-IsLight, modify-IsLight, append_event-IsLight,
}
use flowcart.Order.Reading.{is_order, find_order}
use flowcart.Order.Cancelling.{
  levels_of_order, is_for_order, is_payment_of, any_payment, is_succeeded, is_pending_order,
  cancel_order,
}
use flowcart.Order.Closing.{lock_order_levels-Reads}
use flowcart.Payment.Model.{
  PaymentError, order_not_found, payment_not_found, database_error, OrderState,
}
use flowcart.Payment.Aggregate.{
  find_payment, get_payment, lock_aggregate, set_payment, set_reservations, mutate_payment,
  needing_attention, is_payment_held, coverage,
}
use flowcart.Payment.Checkout.{is_failure}
use flowcart.Payment.Retries.{ended, is_pending_row, unhold, end_payment}
use flowcart.Payment.Verdicts.{apply_event-keeps}
use flowcart.Payment.Events.{
  set_event, settled, paying, paid, stopping, provider_event, finish_event, quarantine, commit, pay,
  succeed, stop, apply_event,
}

module _ (time : ℕ) where
  pub set_payment-IsLight : (o id : ℕ) (f : Payment → Payment) → IsLight time (set_payment o id f)
  set_payment-IsLight o id f = modify-IsLight time _ (λ db. (refl, λ p j. omega arith))

  pub set_event-IsLight :
      (id : ℕ) (test : ProviderEvent → Bool) (f : ProviderEvent → ProviderEvent)
      → IsLight time (set_event id test f)
  set_event-IsLight id test f = modify-IsLight time _ (λ db. (refl, λ p j. omega arith))

  pub set_reservations-IsLight :
      (o order : ℕ) (test : Reservation → Bool) (f : Reservation → Reservation)
      → ((p j : ℕ) (r : Reservation) → test r ≡ true → weight time p j (f r) ≤ weight time p j r)
      → IsLight time (set_reservations o order test f)
  unfolding set_reservations
  set_reservations-IsLight o order test f lighter = modify-IsLight time _ (λ db. (
    refl,
    λ p j.
        reserved_on-update_le time p j (λ r. is_for_order o order db.order_items r && test r) f
          (λ r e. lighter p j r (ground (arith, e))) db.reservations,
  ))

  pub lock_aggregate-Reads : (o order : ℕ) → Reads (lock_aggregate o order)
  unfolding lock_aggregate
  lock_aggregate-Reads o order db =
      Reads-bind _ _ (lock_order_levels-Reads o database_error (levels_of_order o order db))
        (λ u.
          Reads-bind _ _ (Reads-or_throw (find_order o order) order_not_found)
            (λ row d. inr (_, refl)))
        db

  pub mutate_payment-IsLight :
      (o id : ℕ) (change : Payment → OrderState → Tx PaymentError (Unit {0}))
      → ((p : Payment) (s : OrderState) → IsLight time (change p s))
      → IsLight time (mutate_payment o id change)
  unfolding mutate_payment
  mutate_payment-IsLight o id change light =
      let read =
        Reads-IsLight time (get_payment o id)
          (Reads-or_throw (find_payment o id) payment_not_found) in
      IsLight-bind time _ _ read (λ p.
        IsLight-bind time _ _ (Reads-IsLight time _ (lock_aggregate-Reads o p.order_id)) (λ state.
          IsLight-bind time _ _ read
            (λ current. IsLight-bind time _ _ (light current state) (λ u. read))))

  finish-IsLight :
      (clock : Clock) (id : ℕ) (p : Payment) (outcome : EventOutcome) (reason : Option String)
      → IsLight time (finish_event clock id p outcome reason)
  finish-IsLight clock id p outcome reason =
      set_event-IsLight id (λ e. true) (settled clock p outcome reason)

  quarantine-IsLight :
      (clock : Clock) (id : ℕ) (p : Payment) (reason : String)
      → IsLight time (quarantine clock id p reason)
  quarantine-IsLight clock id p reason =
      IsLight-bind time _ _ (set_payment-IsLight p.organization_id p.id (needing_attention reason))
        (λ u. finish-IsLight clock id p EventOutcome.quarantined (some reason))

  -- A change of the orders; `f` may read the other tables.
  set_orders-IsLight :
      (f : Db → List Order)
      → IsLight time (modify {E = PaymentError} (λ db. record db { orders = f db }))
  set_orders-IsLight f = modify-IsLight time _ (λ db. (refl, λ p j. omega arith))

  pub end_payment-IsLight :
      (clock : Clock) (p current : Payment) → IsLight time (end_payment clock p current)
  unfolding end_payment
  end_payment-IsLight clock p current =
      let failed = is_failure current.close_reason in
      IsLight-bind time _ _ (set_payment-IsLight p.organization_id p.id (ended failed)) (λ u.
        IsLight-bind time _ _
          (set_reservations-IsLight p.organization_id p.order_id is_payment_held
            (unhold clock failed) (λ q j r e. ground (arith, e)))
          (λ v. set_orders-IsLight (λ db.
            if failed
            then db.orders
            else update (is_pending_row p.organization_id p.order_id) (cancel_order clock.now)
                db.orders)))

  pay-IsLight : (clock : Clock) (p : Payment) → IsLight time (pay clock p)
  unfolding pay
  pay-IsLight clock p =
      IsLight-bind time _ _
        (Reads-IsLight time _
          (λ db. inr (select (is_payment_of p.organization_id p.order_id) db.payments, refl)))
        (λ payments.
          IsLight-bind time _ _
            (Reads-IsLight time _
              (Reads-throw_if (any_payment (λ q. is_succeeded q.status) payments) database_error))
            (λ u. IsLight-bind time _ _ (set_payment-IsLight p.organization_id p.id paying) (λ v.
              IsLight-bind time _ _
                (set_orders-IsLight
                  (λ db. update (is_order p.organization_id p.order_id) (paid clock.now) db.orders))
                (λ w.
                  IsLight-bind time _ _
                    (append_event-IsLight time database_error
                      (provider_event "payment.succeeded" "payment" p.organization_id p.id p.id))
                    (λ x.
                      IsLight-bind time _ _
                        (append_event-IsLight time database_error
                          (provider_event "order.paid" "order" p.organization_id p.order_id p.id))
                        (λ y.
                          set_reservations-IsLight p.organization_id p.order_id is_payment_held
                            commit (λ q j r e. ground (arith, e))))))))

  succeed-IsLight :
      (clock : Clock) (id : ℕ) (p : Payment) (state : OrderState)
      → IsLight time (succeed clock id p state)
  unfolding succeed
  succeed-IsLight clock id p state db after a h =
      elim (Bool-cases (is_pending_order state.status)) [
        | inr e ↦
            quarantine-IsLight clock id p "order_not_pending" db after a (ground (arith, e, h))
        | inl e ↦ elim (Bool-cases (coverage is_payment_held p.organization_id p.order_id db)) [
          | inr f ↦
              quarantine-IsLight clock id p "payment_hold_incomplete" db after a
                (ground (arith, e, f, h))
          | inl f ↦
              IsLight-bind time (pay clock p)
                (λ u. finish_event clock id p EventOutcome.processed none) (pay-IsLight clock p)
                (λ u. finish-IsLight clock id p EventOutcome.processed none) db after a
                (ground (arith, e, f, h))
        ]
      ]

  stop-IsLight :
      (clock : Clock) (id : ℕ) (p : Payment) (status : String) (reason : CloseReason)
      → IsLight time (stop clock id p status reason)
  stop-IsLight clock id p status reason =
      IsLight-bind time _ _
        (set_payment-IsLight p.organization_id p.id (stopping clock.now status reason))
        (λ u. finish-IsLight clock id p EventOutcome.processed none)

  pub apply_event-IsLight :
      (clock : Clock) (id : ℕ) (e : ProviderEvent) (intent : String) (p : Payment)
      (state : OrderState)
      → IsLight time (apply_event clock id e intent p state)
  apply_event-IsLight clock id e intent p state =
      apply_event-keeps clock id e intent p state (λ m. IsLight time m)
        (quarantine-IsLight clock id p) (finish-IsLight clock id p)
        (λ payable. succeed-IsLight clock id p state) (stop-IsLight clock id p)
