-- ===== src/Payment/Tests.antt =====
-- Runs of payments, and the inputs of the witnesses.
use flowcart.Prelude.{◌≡◌, refl, some, none, [], ◌∷◌, pos, ok, map, arith, true, ◌⊎◌, ◌≤◌, sort_by}
use flowcart.Database.{Db, transact, active, payment_held, committed}
use flowcart.Database.Samples.{shop, user, clock, held, paid, paid_order, for_order}
use flowcart.Database.Sales.{OrderStatus, Payment, ProviderEvent, EventOutcome}
use flowcart.Database.Stock.{reserved_on}
use flowcart.Database.Stock.Coverage.{IsCovered}
use flowcart.Order.Cancelling.{distinct_levels, any_payment, is_for_order}
use flowcart.Payment.Model.{ProviderIntent, OrderState}
use flowcart.Payment.Aggregate.{find_payment, lock_aggregate, coverage}
use flowcart.Payment.Checkout.{provider_payment, bound, create_provider}
use flowcart.Payment.Retries.{confirm_cancelled, schedule, rescheduled}
use flowcart.Payment.Events.{process_event}
use flowcart.Payment.Coverage.{payments-IsCovered}
use flowcart.Payment.Paying.{IsPaid, succeeded_payment, IsPaidBy, process_event-pays}
use flowcart.Payment.Succeeding.{IsReady, process_event-succeeds}
use flowcart.Payment.Retrying.{
  IsRetried, schedule-IsRetried, Retries, again, done, retries_left, Retries-end,
}

-- the order of four before it is paid
abbrev unpaid : Db
unpaid = record paid {
  orders = record paid_order { status = OrderStatus.pending; paid_at = none } ∷ [];
  reservations =
      held
      ∷ record (for_order 32 1) { status = active }
      ∷ record (for_order 33 3) { status = active }
      ∷ [];
}

abbrev intent : ProviderIntent
intent = record {
  id = "pi_1";
  status = "requires_payment_method";
  currency = "AUD";
  amount = pos 2000;
  amount_received = pos 0;
  livemode = true;
}

abbrev waiting : Payment
waiting = bound intent (provider_payment clock 40 shop 30 user "p-1" "h" true 2000 "AUD")

abbrev success : ProviderEvent
success = record {
  id = 50;
  provider_name = "stripe";
  provider_event_id = "evt_1";
  event_type = "payment_intent.succeeded";
  provider_payment_id = some "pi_1";
  organization_id = none;
  payment_id = none;
  provider_status = "succeeded";
  amount = pos 2000;
  amount_received = pos 2000;
  currency = "AUD";
  livemode = true;
  payload_hash = "h";
  received_at = 90;
  processed_at = none;
  outcome = EventOutcome.pending;
  reason_code = none;
  next_attempt_at = some 90;
}

-- its checkout is open, and the provider has told of its success
abbrev told : Db
told = record unpaid {
  payments = waiting ∷ [];
  provider_events = success ∷ [];
  reservations =
      held
      ∷ record (for_order 32 1) { status = payment_held }
      ∷ record (for_order 33 3) { status = payment_held }
      ∷ [];
  next_id = 60;
}

opens :
    map
      (λ r. r.status)
      (transact (create_provider clock shop user 30 "p-1" "h" true) unpaid).1.reservations
    ≡ active ∷ payment_held ∷ payment_held ∷ []
unfolding create_provider sort_by distinct_levels any_payment
opens = refl

abbrev settled_db : Db
settled_db = (transact (process_event clock 50) told).1

pays : map (λ o. o.status) settled_db.orders ≡ OrderStatus.paid ∷ []
unfolding process_event sort_by distinct_levels any_payment
pays = refl

commits : map (λ r. r.status) settled_db.reservations ≡ active ∷ committed ∷ committed ∷ []
unfolding process_event sort_by distinct_levels any_payment
commits = refl

processes : process_event clock 50 told ≡ ok (tt, settled_db)
unfolding process_event sort_by distinct_levels any_payment
processes = refl

abbrev gone : ProviderIntent
gone = record intent { status = "canceled" }

told-IsCovered : IsCovered 100 told
unfolding reserved_on
told-IsCovered = ground arith

payments-IsCovered_example :
    IsCovered 100 (transact (create_provider clock shop user 30 "p-2" "h" true) told).1
    × IsCovered 100 (transact (confirm_cancelled clock waiting gone) told).1
    × IsCovered 100 (transact (process_event clock 50) told).1
payments-IsCovered_example =
    payments-IsCovered clock 100 told shop user 30 50 "p-2" "h" true waiting gone (omega arith)
      told-IsCovered

process_event-pays_example : (settled_db.orders ≡ told.orders) ⊎ IsPaidBy clock 50 told settled_db
process_event-pays_example = process_event-pays clock 50 told settled_db processes

abbrev open_order : OrderState
open_order = record { status = OrderStatus.pending; cancel_requested_at = none }

told-IsReady : IsReady 50 success "pi_1" waiting open_order told
unfolding lock_aggregate coverage sort_by distinct_levels any_payment is_for_order
told-IsReady = record {
  event = refl;
  unsettled = refl;
  names = refl;
  payment = refl;
  row = refl;
  payable = record {
    provider = refl;
    bound = refl;
    amount = refl;
    currency = refl;
    received = refl;
    status = refl;
    type = refl;
    pending = refl;
    calm = refl;
  };
  locked = refl;
  pending = refl;
  covered = refl;
  unpaid = refl;
  numbered = refl;
  order_numbered = refl;
}

process_event-succeeds_example :
    (after : Db) × (process_event clock 50 told ≡ ok (tt, after))
    × IsPaid clock waiting told after
    × (find_payment shop 40 after ≡ some (succeeded_payment waiting))
process_event-succeeds_example =
    process_event-succeeds clock 50 success "pi_1" waiting open_order told told-IsReady

abbrev later : Payment
later = rescheduled clock.reading waiting

abbrev put_off_db : Db
put_off_db = (transact (schedule clock waiting "request") told).1

puts_off : schedule clock waiting "request" told ≡ ok (later, put_off_db)
unfolding schedule sort_by distinct_levels any_payment is_for_order
puts_off = refl

schedule-IsRetried_example :
    (old : Payment) × (find_payment shop 40 told ≡ some old)
    × (find_payment shop 40 put_off_db ≡ some later)
    × IsRetried clock "request" old later
schedule-IsRetried_example =
    schedule-IsRetried clock waiting later "request" told put_off_db puts_off

once : Retries waiting 1 told put_off_db
once =
    again clock "request" waiting later 0 told put_off_db put_off_db refl refl puts_off
      (done put_off_db)

Retries-end_example : 1 ≤ retries_left waiting
Retries-end_example = Retries-end waiting waiting 1 told put_off_db refl once
