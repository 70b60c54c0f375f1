-- ===== src/Payment/Paying.antt =====
-- What it takes for an order to be paid.
use flowcart.Prelude.{
  ℕ, String, true, ◌&&◌, ◌≡◌, ap, ◌∙◌, inl, inr, ◌⊎◌, none, some, arith, first, update, select,
  Bool-cases, Option-cases, ok,
}
use flowcart.Database.{Db, Clock, Tx, committed, ◌>>=◌, after_first, pure}
use flowcart.Database.Audit.{append_event}
use flowcart.Database.Reads.{after_found}
use flowcart.Database.Sales.{
  Order, OrderStatus, Payment, PaymentStatus, EventOutcome, ProviderEvent,
}
use flowcart.Order.Reading.{is_order, find_order}
use flowcart.Order.Cancelling.{
  is_payment_of, is_succeeded, any_payment, is_pending_order, is_for_order,
}
use flowcart.Database.Stock.Laws.{first_holds}
use flowcart.Payment.Model.{PaymentError, OrderState}
use flowcart.Payment.Aggregate.{
  is_payment, find_payment, coverage, is_payment_held, set_reservations, mutate_payment,
}
use flowcart.Payment.Events.{
  is_event, is_open_event, payment_of_event, finish_event, pay, succeed, apply_event, process_row,
  process_event,
}
use flowcart.Payment.Changing.{
  lock_aggregate-row, mutate_payment-change, is_payment-parts, find_payment-along,
}
use flowcart.Payment.Verdicts.{IsPayable, apply_event-keeps}

-- A payment that has succeeded, as the provider reports it.
abbrev pub succeeded_payment : Payment → Payment
succeeded_payment p = record p {
  status = PaymentStatus.succeeded;
  provider_status = some "succeeded";
  next_reconcile_at = none;
}

module _ (clock : Clock) (p : Payment) where
  -- The payment has succeeded, its order is paid, and what it holds is committed.
  pub record IsPaid (db after : Db) : Type 0 where
    pub held : coverage is_payment_held p.organization_id p.order_id db ≡ true
    pub orders :
        after.orders
        ≡ update
            (is_order p.organization_id p.order_id)
            (λ o. record o { status = OrderStatus.paid; paid_at = some clock.now })
            db.orders
    pub reservations :
        after.reservations
        ≡ update
            (λ r. is_for_order p.organization_id p.order_id db.order_items r && is_payment_held r)
            (λ r. record r { status = committed })
            db.reservations
    pub payments :
        after.payments ≡ update (is_payment p.organization_id p.id) succeeded_payment db.payments

  pub pay-IsPaid :
      (id : ℕ) (db after : Db)
      → coverage is_payment_held p.organization_id p.order_id db ≡ true
      → (pay clock p >>= λ u. finish_event clock id p EventOutcome.processed none) db
        ≡ ok (tt, after)
      → IsPaid db after
  unfolding pay append_event set_reservations
  pay-IsPaid id db after held h =
      let payments = select (is_payment_of p.organization_id p.order_id) db.payments in
      elim (Bool-cases (any_payment (λ q. is_succeeded q.status) payments)) [
        | inl e ↦ absurd (ground (arith, e, h))
        | inr e ↦ record {
          held = held;
          orders = ground (arith, e, h);
          reservations = ground (arith, e, h);
          payments = ground (arith, e, h);
        }
      ]

  -- The part leaves the orders, or pays for one that was pending by an event that tells of it.
  abbrev Pays : ProviderEvent → String → OrderState → Tx PaymentError (Unit {0}) → Type 0
  Pays e intent state m =
      (db after : Db)
      → m db ≡ ok (tt, after)
      → (after.orders ≡ db.orders)
        ⊎ (IsPayable e intent p × (is_pending_order state.status ≡ true) × IsPaid db after)

  succeed-Pays :
      (id : ℕ) (e : ProviderEvent) (intent : String) (state : OrderState)
      → IsPayable e intent p
      → Pays e intent state (succeed clock id p state)
  unfolding succeed
  succeed-Pays id e intent state payable db after h =
      elim (Bool-cases (is_pending_order state.status)) [
        | inr a ↦ inl (ground (arith, a, h))
        | inl a ↦ elim (Bool-cases (coverage is_payment_held p.organization_id p.order_id db)) [
          | inr b ↦ inl (ground (arith, a, b, h))
          | inl b ↦ inr (payable, a, pay-IsPaid id db after b (ground (arith, a, b, h)))
        ]
      ]

  apply_event-Pays :
      (id : ℕ) (e : ProviderEvent) (intent : String) (state : OrderState)
      → Pays e intent state (apply_event clock id e intent p state)
  apply_event-Pays id e intent state =
      apply_event-keeps clock id e intent p state (Pays e intent state)
        (λ reason db after h. inl (ground (arith, h)))
        (λ outcome reason db after h. inl (ground (arith, h))) (succeed-Pays id e intent state)
        (λ status reason db after h. inl (ground (arith, h)))

-- The event that pays for an order: it is open, it names a payment of the table and matches it, and
-- the order was pending with all of its items held.
pub record IsPaidBy (clock : Clock) (id : ℕ) (db after : Db) : Type 0 where
  pub event : ProviderEvent
  pub found : first (is_event id) db.provider_events ≡ some event
  pub unsettled : is_open_event event.outcome ≡ true
  pub intent : String
  pub names : event.provider_payment_id ≡ some intent
  pub payment : Payment
  pub stored : find_payment payment.organization_id payment.id db ≡ some payment
  pub payable : IsPayable event intent payment
  pub order : Order
  pub row : find_order payment.organization_id payment.order_id db ≡ some order
  pub pending : is_pending_order order.status ≡ true
  pub paid_for : IsPaid clock payment db after

process_row-pays :
    (clock : Clock) (id : ℕ) (p : Payment) (state : OrderState) (order : Order) (db after : Db)
    → find_payment p.organization_id p.id db ≡ some p
    → find_order p.organization_id p.order_id db ≡ some order
    → order.status ≡ state.status
    → process_row clock id p state db ≡ ok (tt, after)
    → (after.orders ≡ db.orders) ⊎ IsPaidBy clock id db after
unfolding process_row
process_row-pays clock id p state order db after stored row status h =
    let (e, found, h1) = after_found (first (is_event id) db.provider_events) _ _ db h in
    let (intent, names, h2) = after_found e.provider_payment_id _ _ db h1 in
    elim (Bool-cases (is_open_event e.outcome)) [
      | inr a ↦ inl (ground (arith, a, h2))
      | inl a ↦ elim (apply_event-Pays clock p id e intent state db after (ground (arith, a, h2))) [
        | inl same ↦ inl same
        | inr (payable, pending, paid_for) ↦ inr (record {
          event = e;
          found = found;
          unsettled = a;
          intent = intent;
          names = names;
          payment = p;
          stored = stored;
          payable = payable;
          order = order;
          row = row;
          pending = rw status pending;
          paid_for = paid_for;
        })
      ]
    ]

result_dropped :
    {E : Type 0} {A : Type 0} (m : Tx E A) (db after : Db)
    → (m >>= (λ a. pure tt)) db ≡ ok (tt, after)
    → (a : A) × (m db ≡ ok (a, after))
result_dropped m db after h =
    let (a, mid, done, end) = after_first m (λ a. pure tt) db h in
    let left : mid ≡ after = ground (arith, end) in (a, done ∙ ap (λ d. ok (a, d)) left)

-- When the processing of an event succeeds, it leaves the orders as they are, or pays for one. It
-- pays only where the event is open, names the provider's intent of a pending payment of the table
-- that needs no attention, and reports the payment's whole amount as received in its currency. The
-- order was pending and all of its items were held; the order is paid now, what was held for it is
-- committed, and the payment has succeeded.
pub process_event-pays :
    (clock : Clock) (id : ℕ) (db after : Db)
    → process_event clock id db ≡ ok (tt, after)
    → (after.orders ≡ db.orders) ⊎ IsPaidBy clock id db after
unfolding process_event
process_event-pays clock id db after h = elim (Option-cases (payment_of_event id db)) [
  | inl e ↦ inl (ground (arith, e, h))
  | inr (p, e) ↦
      let both : (mutate_payment p.organization_id p.id (process_row clock id) >>= (λ q. pure tt))
            db
          ≡ ok (tt, after) =
        ground (arith, e, h) in
      let (q, done) =
        result_dropped (mutate_payment p.organization_id p.id (process_row clock id)) db after
          both in
      let (current, state, found, locked, changed, kept) =
        mutate_payment-change p.organization_id p.id (process_row clock id) db after q done in
      let (row, there, status) =
        lock_aggregate-row p.organization_id current.order_id state db db locked in
      let own =
        is_payment-parts p.organization_id p.id current
          (first_holds (is_payment p.organization_id p.id) db.payments found) in
      process_row-pays clock id current state row db after
        (find_payment-along own.0 own.1 db current found)
        (ap (λ o. find_order o current.order_id db) own.0 ∙ there) status changed
]
