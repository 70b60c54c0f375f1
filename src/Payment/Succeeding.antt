-- ===== src/Payment/Succeeding.antt =====
-- That a payment that can be paid is paid: `ProcessEvent` on an event of success.
use text.Mathlib.Text.{◌==◌ as text_eq}
use flowcart.Prelude.{
  ℕ, String, Bool, true, false, not, ◌&&◌, ◌||◌, ◌≡◌, refl, ap, ◌∙◌, inl, inr, Option, none, some,
  arith, first, update, select, ok, ◌==◌, pos, eqb_ℤ, first-update, Result-cases, if◌then◌else◌,
}
use flowcart.Database.{Db, Clock, Tx, ◌>>=◌, pure, or_throw}
use flowcart.Database.Audit.{append_event}
use flowcart.Database.Sales.{Payment, PaymentStatus, ProviderEvent, EventOutcome}
use flowcart.Order.Cancelling.{
  is_payment_of, is_succeeded, is_pending_payment, any_payment, is_pending_order,
}
use flowcart.Payment.Model.{PaymentError, OrderState, payment_not_found}
use flowcart.Payment.Aggregate.{
  is_payment, find_payment, lock_aggregate, coverage, is_payment_held, set_reservations,
  mutate_payment,
}
use flowcart.Payment.Checkout.{is_some_text}
use flowcart.Payment.Events.{
  is_event, is_open_event, payment_of_event, finish_event, is_bound_to, pay, succeed, apply_event,
  process_row, process_event,
}
use flowcart.Payment.Verdicts.{IsPayable}
use flowcart.Payment.Paying.{IsPaid, succeeded_payment, pay-IsPaid}

-- An event of success that finds its payment, the order and its levels, with all that the payment
-- needs in place.
pub record IsReady (id : ℕ) (e : ProviderEvent) (intent : String) (p : Payment) (state : OrderState)
    (db : Db) : Type 0 where
  pub event : first (is_event id) db.provider_events ≡ some e
  pub unsettled : is_open_event e.outcome ≡ true
  pub names : e.provider_payment_id ≡ some intent
  pub payment : payment_of_event id db ≡ some p
  pub row : find_payment p.organization_id p.id db ≡ some p
  pub payable : IsPayable e intent p
  pub locked : lock_aggregate p.organization_id p.order_id db ≡ ok (state, db)
  pub pending : is_pending_order state.status ≡ true
  pub covered : coverage is_payment_held p.organization_id p.order_id db ≡ true
  pub unpaid :
      any_payment
        (λ q. is_succeeded q.status)
        (select (is_payment_of p.organization_id p.order_id) db.payments)
      ≡ false
  pub numbered : (p.id == 0) ≡ false
  pub order_numbered : (p.order_id == 0) ≡ false

found-then :
    {E A B : Type 0} (o : Option A) (e : E) (f : A → Tx E B) (db : Db) (a : A)
    → o ≡ some a
    → ((λ d. or_throw o e d) >>= f) db ≡ f a db
found-then o e f db a h = rw h refl

ok-then :
    {E A B : Type 0} (m : Tx E A) (f : A → Tx E B) (db db' : Db) (a : A)
    → m db ≡ ok (a, db')
    → (m >>= f) db ≡ f a db'
ok-then m f db db' a h = ground (arith, h)

skip : {A : Type 0} (c : Bool) (m n r : A) → c ≡ false → n ≡ r → (if c then m else n) ≡ r
skip c m n r h rest = rw h rest

eqb_refl : (n : ℕ) → eqb_ℤ (pos n) (pos n) ≡ true
eqb_refl n = ground arith

take : {A : Type 0} (c : Bool) (m n : A) → c ≡ true → (if c then m else n) ≡ m
take c m n h = rw h refl

pending-unpaid : (s : PaymentStatus) → is_pending_payment s ≡ true → is_succeeded s ≡ false
pending-unpaid PaymentStatus.pending h = refl
pending-unpaid PaymentStatus.succeeded h = absurd (ground (arith, h))
pending-unpaid PaymentStatus.failed h = refl
pending-unpaid PaymentStatus.cancelled h = refl

module _ (clock : Clock) (id : ℕ) (e : ProviderEvent) (intent : String) (p : Payment)
    (state : OrderState) (db : Db) (ready : IsReady id e intent p state db) where
  pay-runs :
      (after : Db) × ((pay clock p >>= λ u. finish_event clock id p EventOutcome.processed none) db
        ≡ ok (tt, after))
      × (after.payments ≡ update (is_payment p.organization_id p.id) succeeded_payment db.payments)
  unfolding pay append_event set_reservations
  pay-runs =
      elim (Result-cases
        ((pay clock p >>= λ u. finish_event clock id p EventOutcome.processed none) db)) [
          | inl (x, h) ↦
              absurd (ground (arith, h, ready.unpaid, ready.numbered, ready.order_numbered))
          | inr ((u, after), h) ↦
              (after, h, ground (arith, h, ready.unpaid, ready.numbered, ready.order_numbered))
        ]

  event-succeeds : apply_event clock id e intent p state ≡ succeed clock id p state
  unfolding apply_event
  event-succeeds =
      let r = ready.payable in
      let own : is_succeeded p.status ≡ false = pending-unpaid p.status r.pending in
      let amount : eqb_ℤ e.amount (pos p.amount_minor) ≡ true =
        rw r.amount (eqb_refl p.amount_minor) in
      let received : eqb_ℤ e.amount_received (pos p.amount_minor) ≡ true =
        rw r.received (eqb_refl p.amount_minor) in
      let foreign =
        not (text_eq e.provider_name "stripe") || not (is_bound_to intent e.livemode p) in
      let other =
        not (eqb_ℤ e.amount (pos p.amount_minor)) || not (text_eq e.currency p.currency_code) in
      let short =
        not (eqb_ℤ e.amount_received (pos p.amount_minor))
        || not (text_eq e.provider_status "succeeded") in
      skip foreign _ _ _ (ground (arith, r.provider, r.bound)) (
        skip other _ _ _ (ground (arith, amount, r.currency)) (
          skip (text_eq e.event_type "payment_intent.succeeded" && short) _ _ _
            (ground (arith, received, r.status))
            (skip (is_succeeded p.status) _ _ _ own (
              skip (not (is_pending_payment p.status)) _ _ _ (ground (arith, r.pending))
                (skip (is_some_text p.attention_reason) _ _ _ r.calm (rw r.type refl))))))

  event-pays :
      (after : Db) × (process_row clock id p state db ≡ ok (tt, after))
      × IsPaid clock p db after
      × (after.payments ≡ update (is_payment p.organization_id p.id) succeeded_payment db.payments)
  unfolding process_row succeed
  event-pays =
      let (after, runs, rows) = pay-runs in
      let unfolded : process_row clock id p state db ≡ apply_event clock id e intent p state db =
        found-then (first (is_event id) db.provider_events) _ _ db e ready.event
        ∙ found-then e.provider_payment_id _ _ db intent ready.names
        ∙ ap (λ (m : Tx PaymentError (Unit {0})). m db)
            (take (is_open_event e.outcome) _ _ ready.unsettled) in
      let paid : succeed clock id p state db ≡ ok (tt, after) =
        ground (arith, runs, ready.pending, ready.covered) in
      (
        after,
        unfolded ∙ ap (λ (m : Tx PaymentError (Unit {0})). m db) event-succeeds ∙ paid,
        pay-IsPaid clock p id db after ready.covered runs,
        rows,
      )

  -- An open event that pays for an order is processed to the end: when it finds its payment, the
  -- order and its levels, when the order is pending, covered by what is held for it, and no payment
  -- of it has succeeded, then the order is paid now, the reservations held for it are committed, and
  -- the payment has succeeded; no other row of those tables changes.
  pub process_event-succeeds :
      (after : Db) × (process_event clock id db ≡ ok (tt, after))
      × IsPaid clock p db after
      × (find_payment p.organization_id p.id after
          ≡ some (record p {
            status = PaymentStatus.succeeded;
            provider_status = some "succeeded";
            next_reconcile_at = none;
          }))
  unfolding process_event
  process_event-succeeds =
      let (after, runs, paid, rows) = event-pays in
      let kept : find_payment p.organization_id p.id after ≡ some (succeeded_payment p) =
        ap (first (is_payment p.organization_id p.id)) rows
        ∙ first-update (is_payment p.organization_id p.id) succeeded_payment (λ x h. h) db.payments
            ready.row in
      let find = find_payment p.organization_id p.id in
      let changed : mutate_payment p.organization_id p.id (process_row clock id) db
          ≡ ok (succeeded_payment p, after) =
        found-then (find db) _ _ db p ready.row
        ∙ ok-then (lock_aggregate p.organization_id p.order_id) _ db db state ready.locked
        ∙ found-then (find db) _ _ db p ready.row
        ∙ ok-then (process_row clock id p state) _ db after tt runs
        ∙ ap (λ o. or_throw o payment_not_found after) kept in
      (
        after,
        ground (arith, ready.payment)
            ∙ ok-then (mutate_payment p.organization_id p.id (process_row clock id)) (λ q. pure tt)
                db after (succeeded_payment p) changed,
        paid,
        kept,
      )
