-- ===== src/Execution/Tests.antt =====
-- apps/api/app/execution/engine.py: a submission in demo mode, and the theorems at it.
mod Histories
mod Batches
mod Answers
use t212_cashguard.Common.{ℕ, ◌≡◌, inl, refl, ◌≤◌, true, false, none, some, [], ◌∷◌, length}
use t212_cashguard.Common.FixedPoint.{ℤ, whole, fixed_point, fixed_order}
use t212_cashguard.Store.{Order, OrderSubmissionAttempt, AppSettings}
use t212_cashguard.Lifecycle.{
  can_transition_order_status, is_active_status, accepted, known, pending_intent,
  submission_unknown, filled, rejected, cancelled,
}
use t212_cashguard.Broker.{
  Json, usable_order_id, finite_number, integer, real, text, object, end, field, Conversions,
}
use t212_cashguard.Lifecycle.Evidence.{status_eq, transition_order_status_with_evidence}
use t212_cashguard.Broker.Record.{RecordConversions, at}
use t212_cashguard.Safety.{require_broker_environment}
use t212_cashguard.Execution.{Session, done, failed, database_error}
use t212_cashguard.Execution.Submit.{
  Surroundings, Request, dispatched, begin_submission, build_broker_request,
}
use t212_cashguard.Execution.Gate.{Released}
use t212_cashguard.Execution.Dispatch.{SubmissionEnds, submission-Ends, admissible_handed_over}
use t212_cashguard.Execution.Answer.{Answer, answered, record_answer}
use t212_cashguard.Execution.Settled.{OpenOr, answer-Warranted}
use t212_cashguard.Execution.Elsewhere.{LeftAlone, resolved-LeftAlone}
use t212_cashguard.Execution.Outbox.{World, unsent, Steps, dispatches, commit_session}
use t212_cashguard.Cash.{same_environment, same_account, not_shown_in_a_reading_from}
use t212_cashguard.Execution.Intent.{Wanted, Meanwhile, Book, cash_refused}
use t212_cashguard.Execution.Create.{new_order, create_order_intent}
use t212_cashguard.Execution.Admitted.{Covers, created-Covers}
use t212_cashguard.Execution.Asking.{Reads, listed, page_failed}
use t212_cashguard.Execution.Reconcile.{reconcile_order}
use t212_cashguard.Execution.Reconciled.{Reconciles, reconcile_order-Reconciles}
use t212_cashguard.Execution.Cancel.{Meets, cancel_order}
use t212_cashguard.Execution.Cancelled.{Cancels, cancel_order-Cancels}
use t212_cashguard.Execution.Refinement.{Refines, step-Refines, stays, after, sent_once}

abbrev conversions : Conversions ℤ
conversions = record {
  Int = ℕ;
  str_of_int = λ n. "order";
  num_of_int = whole;
  num_of_text = λ t. none;
  strip = λ t. t;
  upper = λ t. t;
  lower = λ t. t;
}

abbrev record_conversions : RecordConversions ℤ ℕ
record_conversions = record {
  str_of = λ v. "";
  str_or_empty = λ v. "";
  as_amount = some;
  time_of = λ t. none;
}

abbrev intent : Order ℤ
intent = record {
  id = 1;
  ticker = "AAPL_US_EQ";
  side = "buy";
  order_type = "market";
  quantity = whole 3;
  status = known pending_intent;
  broker_order_id = none;
  filled_quantity = none;
  execution_environment = some "demo";
  broker_account_scope = none;
  filled_at = none;
  cancelled_at = none;
  rejected_at = none;
  venue = "t212";
  is_dry_run = false;
  cash_used = some (whole 600);
  retry_count = 0;
  last_reconciled_at = none;
  created_at = 0;
  updated_at = 0;
  signal_id = none;
  client_order_key = "key-1";
  limit_price = none;
  stop_price = none;
  time_validity = "DAY";
  avg_fill_price = none;
  expected_fill_price = some (whole 200);
  available_cash_at_submission = none;
  submitted_at = none;
  first_ack_at = none;
  error_message = none;
  version = 1;
}

abbrev start : Session ℤ
start = record {
  order = intent;
  attempts = [];
  staged = record { events = []; audits = [] };
  risk_events = [];
  decisions = [];
  next_id = 10;
  now = 5;
}

abbrev on_settings : AppSettings
on_settings = record { auto_trading_enabled = true; kill_switch_active = false }

abbrev demo : Surroundings
demo = record {
  app_settings = some on_settings;
  runtime = record { app_mode = "demo"; live_trading_enabled = false };
  broker_environment = some "demo";
  live_authorized = true;
}

abbrev buy_three : Request ℤ
buy_three = record {
  order_type = "market";
  ticker = "AAPL_US_EQ";
  quantity = whole 3;
  limit_price = none;
  stop_price = none;
  time_validity = "DAY";
}

abbrev first_attempt : OrderSubmissionAttempt
first_attempt = record { id = 12; order_id = 1; dispatch_committed_at = 5; outcome = none }

buy_dispatched :
    (begin_submission fixed_point demo start).0 ≡ done (dispatched buy_three first_attempt)
unfolding begin_submission transition_order_status_with_evidence status_eq
    can_transition_order_status require_broker_environment
buy_dispatched = refl

-- With the switch on nothing is handed over, and the buy is closed.
blocked_by_switch :
    let settings : AppSettings = record {
      auto_trading_enabled = true;
      kill_switch_active = true;
    } in
    (begin_submission fixed_point
      (record demo { app_settings = some settings })
      start).1.order.status
    ≡ known rejected
unfolding begin_submission transition_order_status_with_evidence status_eq
    can_transition_order_status require_broker_environment
blocked_by_switch = refl

abbrev sent : Session ℤ
sent = record start {
  order = record intent { status = known submission_unknown };
  attempts = first_attempt ∷ [];
}

abbrev whole_fill : Answer ℤ ℕ
whole_fill = answered (
    object (
      field "id" (integer 4711) (
        field "status" (text "FILLED") (
          field "filledQuantity" (integer 3) (field "filledPrice" (real (some (whole 200))) end)))))

fill_recorded :
    let order =
      (record_answer fixed_point conversions record_conversions demo sent.order first_attempt none
        whole_fill sent).1.order in
    ((order.status ≡ known filled) × (order.filled_quantity ≡ some (whole 3)))
    × (order.broker_order_id ≡ some "order")
unfolding record_answer transition_order_status_with_evidence status_eq can_transition_order_status
    usable_order_id finite_number at
fill_recorded = ((refl, refl), refl)

submission-Ends_example :
    SubmissionEnds fixed_point demo start (begin_submission fixed_point demo start)
submission-Ends_example = submission-Ends fixed_point demo start

demo-Released : Released demo
demo-Released = ((on_settings, refl, refl), inl (refl, refl), λ live. refl)

admissible_handed_over_example :
    (attempt : OrderSubmissionAttempt) × ((begin_submission fixed_point demo start).0
      ≡ done (dispatched buy_three attempt))
unfolding build_broker_request
admissible_handed_over_example =
    admissible_handed_over fixed_point demo start buy_three refl (refl, refl, refl) demo-Released

answer-Warranted_example : OpenOr fixed_point conversions record_conversions sent whole_fill (
    record_answer fixed_point conversions record_conversions demo sent.order first_attempt none
      whole_fill sent)
unfolding status_eq
answer-Warranted_example =
    answer-Warranted fixed_point conversions record_conversions demo sent.order first_attempt none
      whole_fill sent refl refl

resolved-LeftAlone_example :
    LeftAlone fixed_point conversions record_conversions
      (record intent { status = known cancelled })
      sent
      (record_answer fixed_point conversions record_conversions demo
        (record intent { status = known cancelled })
        first_attempt
        none
        whole_fill
        sent)
unfolding status_eq
resolved-LeftAlone_example =
    resolved-LeftAlone fixed_point conversions record_conversions demo
      (record intent { status = known cancelled }) first_attempt none whole_fill sent refl

abbrev new : World ℤ
new = record { stored = intent; attempts = []; awaiting = []; sent = [] }

-- The session after the dispatch, and the world after its commit.
abbrev begun : Session ℤ
begun = (begin_submission fixed_point demo start).1

abbrev committed : World ℤ
committed = record {
  stored = record (begun.order) { version = 2 };
  attempts = first_attempt ∷ [];
  awaiting = [];
  sent = [];
}

abbrev waiting : World ℤ
waiting = record committed { awaiting = buy_three ∷ [] }

dispatch_step : Steps fixed_point new waiting
unfolding begin_submission transition_order_status_with_evidence status_eq
    can_transition_order_status require_broker_environment commit_session
dispatch_step =
    dispatches demo start begun buy_three first_attempt new committed refl refl refl refl

step-Refines_example : Refines fixed_point unsent waiting
step-Refines_example = step-Refines fixed_point unsent new waiting (refl, refl, refl) dispatch_step

sent_once_example : (length waiting.sent ≤ length waiting.attempts) × (length waiting.attempts ≤ 1)
sent_once_example =
    sent_once fixed_point new waiting (refl, refl, refl)
      (after new new waiting (stays new) dispatch_step)

-- The same order once it is open at the broker, and the broker's record of its fill.
abbrev open_at_broker : Session ℤ
open_at_broker = record start {
  order = record intent { status = known accepted; broker_order_id = some "order" };
}

abbrev filled_record : Json ℤ ℕ
filled_record = object (
    field "order"
      (object (
        field "id" (integer 4711)
          (field "status" (text "FILLED") (field "filledQuantity" (integer 3) end))))
      (field "fill" (object (field "quantity" (integer 3) (field "price" (integer 200) end))) end))

abbrev one_answer : Reads ℤ ℕ
one_answer = record {
  of_order = listed filled_record;
  newest = page_failed "broker_read_failed";
  of_ticker = page_failed "broker_read_failed";
}

fill_reconciled :
    (reconcile_order fixed_point conversions record_conversions one_answer none
      open_at_broker).1.order.status
    ≡ known filled
unfolding reconcile_order transition_order_status_with_evidence status_eq is_active_status
    can_transition_order_status usable_order_id finite_number at
fill_reconciled = refl

-- The record is read before the flush fails.
stale_flush :
    reconcile_order fixed_point conversions record_conversions one_answer
      (some "StaleDataError")
      open_at_broker
    ≡ (
      failed (database_error "StaleDataError"),
      (reconcile_order fixed_point conversions record_conversions one_answer none open_at_broker).1,
    )
unfolding reconcile_order transition_order_status_with_evidence status_eq is_active_status
    can_transition_order_status usable_order_id finite_number at
stale_flush = refl

reconcile_order-Reconciles_example :
    Reconciles fixed_point conversions record_conversions fixed_order one_answer none open_at_broker
      (reconcile_order fixed_point conversions record_conversions one_answer none open_at_broker)
reconcile_order-Reconciles_example =
    reconcile_order-Reconciles fixed_point conversions record_conversions fixed_order one_answer
      none open_at_broker refl

-- A cancellation whose request the broker takes, and whose record then says that it was filled.
abbrev filled_first : Meets fixed_point conversions record_conversions
filled_first = record {
  accepted_before = false;
  first_request = none;
  second_request = none;
  first_reads = one_answer;
  second_reads = one_answer;
  time_for_first = true;
  time_for_second = true;
}

cancel_finds_fill :
    (cancel_order fixed_point conversions record_conversions filled_first open_at_broker.order
      start).1.order.status
    ≡ known filled
unfolding cancel_order transition_order_status_with_evidence status_eq is_active_status
    can_transition_order_status usable_order_id finite_number at
cancel_finds_fill = refl

cancel_order-Cancels_example :
    Cancels fixed_point conversions record_conversions fixed_order open_at_broker.order (
      cancel_order fixed_point conversions record_conversions filled_first open_at_broker.order
        start)
cancel_order-Cancels_example =
    cancel_order-Cancels fixed_point conversions record_conversions fixed_order filled_first
      open_at_broker.order start refl

-- Three shares at 200 against 1,000, and the same while 600 are promised already.
abbrev wanted : Wanted ℤ
wanted = record {
  ticker = "AAPL_US_EQ";
  side = "buy";
  order_type = "market";
  quantity = whole 3;
  signal_id = none;
  limit_price = none;
  stop_price = none;
  time_validity = "DAY";
  is_dry_run = false;
  available_cash = some (whole 1_000);
  estimated_price = some (whole 200);
  venue = "t212";
  cash_read_at = none;
  has_operation_identity = true;
  client_key = "key-2";
  app_mode = "demo";
  account_scope = none;
}

abbrev quiet : Meanwhile ℤ
quiet = record { account_bound = false; turn_taken = true; at_turn = []; at_insert = [] }

abbrev no_rows : Book ℤ
no_rows = record { orders = []; events = []; risk_events = [] }

second_refused :
    (create_order_intent fixed_point wanted
      (record quiet { at_turn = intent ∷ []; at_insert = intent ∷ [] })
      2
      5
      no_rows).0
    ≡ cash_refused
unfolding create_order_intent same_environment same_account not_shown_in_a_reading_from
    is_active_status
second_refused = refl

created-Covers_example :
    Covers fixed_point wanted quiet 5
      (whole 1_000)
      (new_order fixed_point wanted 1 5)
      (create_order_intent fixed_point wanted quiet 1 5 no_rows)
unfolding create_order_intent
created-Covers_example =
    created-Covers fixed_point wanted quiet 1 5 no_rows (whole 1_000)
      (new_order fixed_point wanted 1 5) refl refl refl refl refl
