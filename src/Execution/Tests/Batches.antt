-- ===== src/Execution/Tests/Batches.antt =====
-- apps/api/app/execution/engine.py: `cancel_many` on two orders.
use t212_cashguard.Common.{ℕ, ◌≡◌, refl, Bool, true, false, none, List, [], ◌∷◌, length}
use t212_cashguard.Common.FixedPoint.{ℤ, fixed_point, fixed_order}
use t212_cashguard.Lifecycle.{is_active_status, can_transition_order_status}
use t212_cashguard.Lifecycle.Evidence.{status_eq, transition_order_status_with_evidence}
use t212_cashguard.Broker.{usable_order_id, finite_number}
use t212_cashguard.Broker.Record.{at}
use t212_cashguard.Execution.{Session, Result, done, failed}
use t212_cashguard.Execution.Batch.{Listed, CancelBatch, empty_batch, cancel_many}
use t212_cashguard.Execution.Tallied.{count_by, tally, cancel_many-tally}
use t212_cashguard.Execution.Asked.{IsTrue}
use t212_cashguard.Execution.Reported.{cancel_many-IsTrue}
use t212_cashguard.Execution.Tests.{
  conversions, record_conversions, start, open_at_broker, one_answer,
}

abbrev listed_with : Session ℤ → Listed ℤ ℕ
listed_with s = record {
  locked = s.order;
  session = s;
  accepted_before = false;
  first_request = none;
  answers = one_answer;
  time_left = true;
  second_request = none;
}

-- One order that never reached the broker, and one that fills before it can be cancelled.
abbrev two_orders : List (Listed ℤ ℕ)
two_orders = listed_with start ∷ listed_with open_at_broker ∷ []

abbrev batch_of : Result (CancelBatch ℤ ℕ) → CancelBatch ℤ ℕ
batch_of (done b) = b
batch_of (failed e) = empty_batch

abbrev cancelled_two : CancelBatch ℤ ℕ
cancelled_two = batch_of (cancel_many fixed_point conversions record_conversions two_orders)

two_cancelled :
    cancel_many fixed_point conversions record_conversions two_orders ≡ done cancelled_two
unfolding cancel_many transition_order_status_with_evidence status_eq is_active_status
    can_transition_order_status usable_order_id finite_number at
two_cancelled = refl

one_each : (length cancelled_two.cancelled_entries ≡ 1) × (length cancelled_two.finished ≡ 1)
unfolding cancel_many transition_order_status_with_evidence status_eq is_active_status
    can_transition_order_status usable_order_id finite_number at
one_each = (refl, refl)

abbrev is_open_one : Listed ℤ ℕ → Bool
is_open_one l = status_eq l.locked.status open_at_broker.order.status

cancel_many-tally_example : tally is_open_one cancelled_two ≡ count_by is_open_one two_orders
cancel_many-tally_example =
    cancel_many-tally fixed_point conversions record_conversions is_open_one two_orders
      cancelled_two two_cancelled

cancel_many-IsTrue_example :
    IsTrue fixed_point conversions record_conversions fixed_order cancelled_two
cancel_many-IsTrue_example =
    cancel_many-IsTrue fixed_point conversions record_conversions fixed_order two_orders
      cancelled_two (refl, (refl, tt)) two_cancelled
