-- ===== src/Execution/Unknown.antt =====
-- apps/api/app/execution/engine.py: `reconcile_unknown_submission`. What its reads find is an
-- argument. The alerts, latencies, execution quality and what is no text in the payloads are left
-- out; an average price of a working order that is no finite number is taken as none.
use t212_cashguard.Common.{
  ℕ, ◌+◌, Bool, false, not, ◌&&◌, ◌||◌, Option, none, some, String, List, [], ◌∷◌, ◌++◌, any, ltb,
  str_eq, if◌then◌else◌,
}
use t212_cashguard.Common.Numeric.{Decimals, zero_of}
use t212_cashguard.Store.{Order, OrderSubmissionAttempt, Payload}
use t212_cashguard.Lifecycle.{
  Status, known, accepted, submission_unknown, filled, cancelled, rejected,
}
use t212_cashguard.Lifecycle.Evidence.{status_eq}
use t212_cashguard.Broker.{Json, item, nil, array, Conversions}
use t212_cashguard.Broker.Record.{
  Checked, fine, refused, LocalOrder, RecordConversions, num_eq, some_or,
}
use t212_cashguard.Broker.Record.Verdict.{FinalRecord}
use t212_cashguard.Broker.Record.History.{interpret_history}
use t212_cashguard.Broker.Snapshot.{AnyDecimal, finite, infinite, nan, Parser, BrokerOrderSnapshot}
use t212_cashguard.Execution.{
  Session, Method, Result, done, failed, decimal_error, ◌>>◌, pass, raise, assign, raise_risk,
  log_order_event, transition,
}
use t212_cashguard.Execution.Settle.{submission_unknown_message, named, unless}
use t212_cashguard.Execution.Answer.{as_local_order}
use t212_cashguard.Execution.Asking.{Reads, PageAnswer}
use t212_cashguard.Execution.Reconcile.{has_id, believable_fill_time, reconcile_order}
use t212_cashguard.Execution.Claim.{OrderRow, min_age, claimed_record}

-- `ABOUT_ANOTHER_ORDER` of broker_record.py
abbrev about_another_order : List String
about_another_order =
    "not_an_object" ∷ "order_id_differs" ∷ "ticker_differs" ∷ "side_differs" ∷ "order_type_differs"
    ∷ "quantity_differs" ∷ "quantity_nan" ∷ "quantity_sign_contradicts_side" ∷ "quantity_too_large"
    ∷ "record_contradicts_itself" ∷ []

abbrev pub is_about_another_order : String → Bool
is_about_another_order reason = any (str_eq reason) about_another_order

-- What the method reads: the broker's environment, whether the alarm of this order is stored, a page
-- of the history of its ticker, the rows of the orders, and what `reconcile_order` reads and its flush
-- raises.
pub record Seen (Num Int : Type 0) : Type 0 where
  pub environment : String
  pub already_raised : Bool
  pub history : PageAnswer Num Int
  pub rows : List (OrderRow Num)
  pub reads : Reads Num Int
  pub database : Option String

-- What an order is resolved to, before the record is read in full.
unfoldable pub resolved_status : String → Option Status
resolved_status word =
    if str_eq word "FILLED"
    then some (known filled)
    else if str_eq word "CANCELLED"
    then some (known cancelled)
    else if str_eq word "REJECTED"
    then some (known rejected)
    else if str_eq word "WORKING" || str_eq word "PENDING"
    then some (known accepted)
    else none

abbrev pub is_final : Status → Bool
is_final status =
    status_eq status (known filled)
    || status_eq status (known cancelled)
    || status_eq status (known rejected)

abbrev pub may_be_filled : Option Status → Bool
may_be_filled none = false
may_be_filled (some status) = status_eq status (known filled)

-- An order has at most one attempt.
abbrev pub dispatch_time : List OrderSubmissionAttempt → Option ℕ → Option ℕ
dispatch_time [] submitted_at = submitted_at
dispatch_time (attempt ∷ _) submitted_at = some attempt.dispatch_committed_at

abbrev pub in_flight : Option ℕ → ℕ → Bool
in_flight none now = false
in_flight (some dispatched) now = ltb now (dispatched + min_age)

-- What the full reading of a claimed record ends in.
pub data Judgement (Num : Type 0) : Type 0 where
  another_order : Judgement Num
  settles : FinalRecord Num → Judgement Num
  unsettled : Option String → Judgement Num

abbrev with_reason : Option String → Payload
with_reason none = []
with_reason (some reason) = ("not_settled_because", some reason) ∷ []

-- The amount, the price and the time that a resolved order is given.
pub record Resolution (Num : Type 0) : Type 0 where
  pub status : Status
  pub filled_quantity : Option Num
  pub fill_price : Option Num
  pub fill_time : Option ℕ

module _ (D : Decimals) (C : Conversions (Decimals.Num D))
    (R : RecordConversions (Decimals.Num D) (Conversions.Int C))
    (parse : Parser (Decimals.Num D)) where
  open D use {Num, less, absolute}
  open C use {Int, upper}

  abbrev pub match_status : BrokerOrderSnapshot Num Int → String
  match_status match = upper (some_or match.status "")

  -- `new_status` after the tests of the filled amount; none where comparing a NaN raises.
  unfoldable pub proposed_status :
      Order Num → Option (AnyDecimal Num) → Option Status → Option (Option Status)
  proposed_status order none status = some (if may_be_filled status then none else status)
  proposed_status order (some nan) status = none
  proposed_status order (some infinite) status = some none
  proposed_status order (some (finite amount)) status = some (
      if may_be_filled status && not (num_eq D C R (absolute amount) order.quantity)
      then none
      else if less order.quantity (absolute amount)
      then none
      else status)

  abbrev pub judgement :
      Status → Checked Num (Option (FinalRecord Num × List (Json Num Int))) → Judgement Num
  judgement status (refused e) =
      if is_about_another_order e.reason then another_order else unsettled (some e.reason)
  judgement status (fine none) = unsettled none
  judgement status (fine (some (r, _))) =
      if status_eq r.order_status status then settles r else unsettled none

  abbrev pub resolution_of : FinalRecord Num → Resolution Num
  resolution_of r = record {
    status = r.order_status;
    filled_quantity = some r.filled_quantity;
    fill_price = r.fill_price;
    fill_time = r.filled_at;
  }

  abbrev magnitude : Option (AnyDecimal Num) → Option Num
  magnitude none = none
  magnitude (some infinite) = none
  magnitude (some nan) = none
  magnitude (some (finite amount)) = some (absolute amount)

  abbrev finite_or_none : Option (AnyDecimal Num) → Option Num
  finite_or_none none = none
  finite_or_none (some infinite) = none
  finite_or_none (some nan) = none
  finite_or_none (some (finite amount)) = some amount

  abbrev pub still_working : BrokerOrderSnapshot Num Int → Status → Resolution Num
  still_working match status = record {
    status = status;
    filled_quantity = magnitude match.filled_quantity;
    fill_price = finite_or_none match.average_fill_price;
    fill_time = none;
  }

  abbrev pub with_part : Option Num → Option Num → Order Num → Order Num
  with_part none price order = order
  with_part (some amount) price order =
      if num_eq D C R amount (zero_of D)
      then order
      else record order { filled_quantity = some amount; avg_fill_price = price }

  -- What is written after the transition.
  unfoldable pub write_resolution : Resolution Num → ℕ → Order Num → Order Num
  unfolding believable_fill_time
  write_resolution r now order =
      let order' : Order Num =
        with_part r.filled_quantity r.fill_price (record order { error_message = none }) in
      if status_eq r.status (known filled)
      then record order {
        error_message = none;
        filled_quantity = some order.quantity;
        avg_fill_price = r.fill_price;
        filled_at = some (believable_fill_time order r.fill_time now);
      }
      else if status_eq r.status (known cancelled)
      then record order' { cancelled_at = some now }
      else if status_eq r.status (known rejected)
      then record order' { rejected_at = some now }
      else order'

  abbrev pub evidence_for : BrokerOrderSnapshot Num Int → Payload
  evidence_for match =
      ("broker_order_id", some match.broker_order_id)
      ∷ ("broker_status", named (match_status match))
      ∷ []

  -- The order is looked at, and stays as it is.
  abbrev pub leave_unresolved : Method Num (Unit {0})
  leave_unresolved = assign λ now order. record order { last_reconciled_at = some now }

  abbrev pub adopt : BrokerOrderSnapshot Num Int → Method Num (Unit {0})
  adopt match = assign λ now order. record order {
    broker_order_id = some match.broker_order_id;
    last_reconciled_at = some now;
  }

  -- The id is kept, the outcome is not known yet.
  unfoldable pub identify : BrokerOrderSnapshot Num Int → Option String → Method Num (Unit {0})
  unfolding log_order_event
  identify match reason = do
    adopt match
    log_order_event "unknown_submission_identified" (evidence_for match ++ with_reason reason)

  unfoldable pub resolve : BrokerOrderSnapshot Num Int → Resolution Num → Method Num (Unit {0})
  unfolding transition write_resolution
  resolve match r = do
    adopt match
    transition r.status "unknown_submission_resolved"
        "one broker history record matches the dispatched request" (evidence_for match)
    assign (write_resolution r)

  abbrev pub settle_judged : BrokerOrderSnapshot Num Int → Judgement Num → Method Num (Unit {0})
  settle_judged match another_order = leave_unresolved
  settle_judged match (settles r) = resolve match (resolution_of r)
  settle_judged match (unsettled reason) = identify match reason

  -- The record alone, as a page of the history.
  abbrev pub read_in_full :
      BrokerOrderSnapshot Num Int → Status → Option (LocalOrder Num) → Method Num (Unit {0})
  read_in_full match status none = raise decimal_error
  read_in_full match status (some facts) =
      settle_judged match
        (judgement status (interpret_history D C R (array (item match.raw nil)) facts))

  abbrev pub settle_proposed :
      BrokerOrderSnapshot Num Int → Option (Option Status) → Method Num (Unit {0})
  settle_proposed match none s = raise decimal_error s
  settle_proposed match (some none) s = identify match none s
  settle_proposed match (some (some status)) s =
      if is_final status
      then read_in_full match status (as_local_order D C R s.order match.broker_order_id) s
      else resolve match (still_working match status) s

  abbrev pub settle_claim : Option (BrokerOrderSnapshot Num Int) → Method Num (Unit {0})
  settle_claim none s = leave_unresolved s
  settle_claim (some match) s =
      settle_proposed match
        (proposed_status s.order match.filled_quantity (resolved_status (match_status match))) s

  -- A process that died after its dispatch never raised the alarm.
  abbrev pub raise_alarm : Method Num (Unit {0})
  raise_alarm = do
    raise_risk "submission_unknown"
    assign λ now order. record order { error_message = some submission_unknown_message }

  abbrev pub dispatched_at : Session Num → Option ℕ
  dispatched_at s = dispatch_time s.attempts s.order.submitted_at

  abbrev pub claim_of : Seen Num Int → Session Num → Option (BrokerOrderSnapshot Num Int)
  claim_of seen s =
      claimed_record D C R parse seen.environment seen.rows s.order (dispatched_at s) seen.history

  -- The end, once the request can no longer be in flight.
  abbrev pub look_it_up : Seen Num Int → Method Num (Unit {0})
  look_it_up seen = do unless seen.already_raised raise_alarm; λ s. settle_claim (claim_of seen s) s

  abbrev pub without_reason : Result (Option String) × Session Num → Result (Unit {0}) × Session Num
  without_reason (done _, s) = (done tt, s)
  without_reason (failed e, s) = (failed e, s)

  -- The three ways out at the top.
  abbrev pub is_unresolved : Order Num → Bool
  is_unresolved order = status_eq order.status (known submission_unknown) && not order.is_dry_run

  unfoldable pub reconcile_unknown_submission : Seen Num Int → Method Num (Unit {0})
  unfolding reconcile_order claimed_record proposed_status resolved_status identify resolve
      interpret_history as_local_order
  reconcile_unknown_submission seen s =
      if not (is_unresolved s.order)
      then pass s
      else if has_id s.order.broker_order_id
      then without_reason (reconcile_order D C R seen.reads seen.database s)
      else if in_flight (dispatched_at s) s.now
      then pass s
      else look_it_up seen s
