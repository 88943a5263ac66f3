-- ===== src/Execution/Answer.antt =====
-- apps/api/app/execution/engine.py: what `submit_order` does with what a transmission ends in, and
-- with an acknowledgement above all.
use t212_cashguard.Common.{ℕ, Bool, Option, none, some, String, [], ◌∷◌, str_eq, if◌then◌else◌}
use t212_cashguard.Common.Numeric.{Decimals}
use t212_cashguard.Store.{Order, OrderSubmissionAttempt, Payload}
use t212_cashguard.Lifecycle.{known, filled, cancelled, rejected}
use t212_cashguard.Lifecycle.Evidence.{status_eq}
use t212_cashguard.Broker.{Json, Conversions}
use t212_cashguard.Broker.Acknowledgement.{
  Acknowledgement, Trusted, trusted, untrusted, interpret_acknowledgement,
}
use t212_cashguard.Broker.Record.{Checked, fine, refused, LocalOrder, RecordConversions}
use t212_cashguard.Broker.Record.Reading.{require_same_order}
use t212_cashguard.Execution.{
  Session, Method, Result, Raised, done, failed, bad_value, bad_transition, outcome_rewritten,
  safety_violation, cancellation_failed, cancellation_unconfirmed, decimal_error, database_error,
  ◌>>=◌, ◌>>◌, raise, pass, assign, decide, transition, close_attempt,
}
use t212_cashguard.Execution.Submit.{Surroundings, on_demo}
use t212_cashguard.Execution.Settle.{
  error_evidence, resolved_elsewhere, unless, record_not_transmitted, record_broker_refusal,
  record_unknown_outcome,
}

-- What a transmission ends in: one of the two classified errors, any other exception, each with the
-- name of its type, or an answer. The last check of a live dispatch fails as not transmitted.
pub data Answer (Num Int : Type 0) : Type 0 where
  not_transmitted : String → Answer Num Int
  refusal : String → Answer Num Int
  ambiguous : String → Answer Num Int
  answered : Json Num Int → Answer Num Int

-- The type and the reason of an untrusted answer.
abbrev pub untrusted_evidence : String → String → Payload
untrusted_evidence error_type reason =
    ("error_type", some error_type) ∷ ("reason", some reason) ∷ []

-- The names of the exceptions' types.
abbrev pub error_type_of : Raised → String
error_type_of bad_value = "ValueError"
error_type_of bad_transition = "InvalidOrderTransition"
error_type_of outcome_rewritten = "RuntimeError"
error_type_of (safety_violation _) = "SafetyPolicyViolation"
error_type_of decimal_error = "DecimalException"
error_type_of (database_error error_type) = error_type
error_type_of cancellation_failed = "OrderCancellationFailed"
error_type_of (cancellation_unconfirmed _ _ _) = "OrderCancellationUnconfirmed"

module _ (D : Decimals) (C : Conversions (Decimals.Num D))
    (R : RecordConversions (Decimals.Num D) (Conversions.Int C)) where
  open D use {Num}
  open C use {Int}
  open R use {as_amount}

  -- What a trusted answer makes of the order, after the transition.
  unfoldable pub settle_times : Acknowledgement Num → ℕ → Order Num → Order Num
  settle_times ack now order =
      if status_eq ack.order_status (known filled)
      then record order {
        filled_quantity = ack.filled_quantity;
        avg_fill_price = ack.fill_price;
        filled_at = some now;
      }
      else if status_eq ack.order_status (known cancelled)
      then record order { cancelled_at = some now }
      else if status_eq ack.order_status (known rejected)
      then record order { rejected_at = some now }
      else order

  -- The outcome of the attempt.
  abbrev pub attempt_outcome : Bool → String
  attempt_outcome is_rejected = if is_rejected then "rejected" else "accepted"

  abbrev pub finish_acknowledgement : Surroundings → Method Num (Unit {0})
  finish_acknowledgement around =
      if on_demo around then decide "demo_broker_order_success" "allowed" else pass

  abbrev pub write_acknowledgement :
      Surroundings → OrderSubmissionAttempt → Acknowledgement Num → Method Num (Unit {0})
  write_acknowledgement around attempt ack = do
    assign λ now order. record order {
      broker_order_id = some ack.broker_order_id;
      first_ack_at = some now;
    }
    transition ack.order_status "broker_accepted" ack.transition_reason
        (("broker_status", some ack.broker_status) ∷ [])
    assign (settle_times ack)
    close_attempt attempt.id (attempt_outcome (status_eq ack.order_status (known rejected)))
    finish_acknowledgement around

  -- `_save_acknowledgement` up to the commit.
  unfoldable pub save_acknowledgement :
      Surroundings
      → Order Num
      → OrderSubmissionAttempt
      → Acknowledgement Num
      → Method Num (Unit {0})
  unfolding resolved_elsewhere close_attempt transition settle_times
  save_acknowledgement around stored attempt ack = do
    resolved ←
        resolved_elsewhere stored attempt (attempt_outcome (str_eq ack.broker_status "REJECTED"))
          (some ack.broker_order_id)
          (("broker_order_id", some ack.broker_order_id)
            ∷ ("broker_status", some ack.broker_status)
            ∷ [])
    unless resolved (write_acknowledgement around attempt ack)

  -- The commit, which fails with the name of an exception's type or not at all.
  abbrev pub commit : Option String → Result (Unit {0}) × Session Num → Option String × Session Num
  commit none (done _, s) = (none, s)
  commit (some error_type) (done _, s) = (some error_type, s)
  commit database (failed e, s) = (some (error_type_of e), s)

  -- The fallback after a rollback and a refresh.
  abbrev pub or_unknown :
      Surroundings
      → Order Num
      → OrderSubmissionAttempt
      → String
      → Session Num
      → Option String × Session Num
      → Result (Unit {0}) × Session Num
  or_unknown around stored attempt id before (none, s) = (done tt, s)
  or_unknown around stored attempt id before (some error_type, s) =
      record_unknown_outcome around stored attempt (error_evidence error_type) (some id) none
        (record before { order = stored })

  abbrev pub save_or_unknown :
      Surroundings
      → Order Num
      → OrderSubmissionAttempt
      → Option String
      → Acknowledgement Num
      → Method Num (Unit {0})
  save_or_unknown around stored attempt database ack s =
      or_unknown around stored attempt ack.broker_order_id s
        (commit database (save_acknowledgement around stored attempt ack s))

  abbrev pub unless_other_order :
      Surroundings
      → Order Num
      → OrderSubmissionAttempt
      → Option String
      → Acknowledgement Num
      → Checked Num (Unit {0})
      → Method Num (Unit {0})
  unless_other_order around stored attempt database ack (fine _) =
      save_or_unknown around stored attempt database ack
  unless_other_order around stored attempt database ack (refused e) =
      record_unknown_outcome around stored attempt (untrusted_evidence "UntrustedRecord" e.reason)
        none (some ack.broker_order_id)

  -- `_as_local_order`; none where `as_amount` raises. A quantity is not negative, so that `copy_abs`
  -- changes nothing.
  unfoldable pub as_local_order : Order Num → String → Option (LocalOrder Num)
  as_local_order order broker_order_id = local_of (as_amount order.quantity)
    where
      local_of : Option Num → Option (LocalOrder Num)
      local_of none = none
      local_of (some quantity) = some (record {
        broker_order_id = broker_order_id;
        ticker = order.ticker;
        side = order.side;
        order_type = order.order_type;
        quantity = quantity;
      })

  abbrev pub compare_order :
      Surroundings
      → Order Num
      → OrderSubmissionAttempt
      → Option String
      → Json Num Int
      → Acknowledgement Num
      → Option (LocalOrder Num)
      → Method Num (Unit {0})
  compare_order around stored attempt database response ack none = raise decimal_error
  compare_order around stored attempt database response ack (some facts) =
      unless_other_order around stored attempt database ack
        (require_same_order D C R response facts)

  abbrev pub judge_answer :
      Surroundings
      → Order Num
      → OrderSubmissionAttempt
      → Option String
      → Json Num Int
      → Trusted (Acknowledgement Num)
      → Method Num (Unit {0})
  judge_answer around stored attempt database response (untrusted reason id) s =
      record_unknown_outcome around stored attempt
        (untrusted_evidence "UntrustedAcknowledgement" reason) id none s
  judge_answer around stored attempt database response (trusted ack) s =
      compare_order around stored attempt database response ack
        (as_local_order s.order ack.broker_order_id) s

  -- `_record_acknowledgement`
  unfoldable pub record_acknowledgement :
      Surroundings
      → Order Num
      → OrderSubmissionAttempt
      → Option String
      → Json Num Int
      → Method Num (Unit {0})
  unfolding record_unknown_outcome save_acknowledgement as_local_order interpret_acknowledgement
      require_same_order
  record_acknowledgement around stored attempt database response s =
      judge_answer around stored attempt database response
        (interpret_acknowledgement D C response s.order.side s.order.quantity) s

  -- The end of `submit_order`, by what the transmission ends in.
  unfoldable pub record_answer :
      Surroundings
      → Order Num
      → OrderSubmissionAttempt
      → Option String
      → Answer Num Int
      → Method Num (Unit {0})
  unfolding record_not_transmitted record_broker_refusal record_unknown_outcome
      record_acknowledgement
  record_answer around stored attempt database (not_transmitted error_type) =
      record_not_transmitted around stored attempt error_type
  record_answer around stored attempt database (refusal error_type) =
      record_broker_refusal around stored attempt error_type
  record_answer around stored attempt database (ambiguous error_type) =
      record_unknown_outcome around stored attempt (error_evidence error_type) none none
  record_answer around stored attempt database (answered response) =
      record_acknowledgement around stored attempt database response
