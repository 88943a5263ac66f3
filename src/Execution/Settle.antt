-- ===== src/Execution/Settle.antt =====
-- apps/api/app/execution/engine.py: the outcomes of a transmission other than an acknowledgement.
-- `stored` is the order's row as the re-read under the lock finds it.
-- Evidence keeps the error's type, the reason and the broker's ids. The alert that follows an
-- unknown outcome, and the one on slippage, are left out.
use t212_cashguard.Common.{
  Bool, true, false, not, Option, none, some, String, [], ◌∷◌, ◌++◌, str_eq, if◌then◌else◌,
}
use t212_cashguard.Store.{Order, OrderSubmissionAttempt, Payload}
use t212_cashguard.Lifecycle.{known, submission_unknown, rejected, error}
use t212_cashguard.Lifecycle.Evidence.{status_eq}
use t212_cashguard.Execution.{
  Method, ◌>>=◌, ◌>>◌, return, pass, assign, decide, raise_risk, log_order_event, transition,
  close_attempt,
}
use t212_cashguard.Execution.Submit.{Surroundings, on_demo}

-- `SUBMISSION_UNKNOWN_MESSAGE`
abbrev pub submission_unknown_message : String
submission_unknown_message =
    "Broker submission outcome is unknown. An order may exist at the broker; it will not be resubmitted and needs reconciliation."

abbrev pub error_evidence : String → Payload
error_evidence error_type = ("error_type", some error_type) ∷ []

-- `evidence.get("broker_order_id")`, when it is not empty.
abbrev pub named : String → Option String
named id = if str_eq id "" then none else some id

abbrev pub truthy : Option String → Option String
truthy none = none
truthy (some id) = named id

-- `{**evidence, key: id}` where there is an id.
abbrev pub with_id : String → Option String → Payload → Payload
with_id key none evidence = evidence
with_id key (some id) evidence = evidence ++ (key, some id) ∷ []

abbrev pub set_id : {N : Type 0} → Option String → Order N → Order N
set_id none order = order
set_id (some id) order = record order { broker_order_id = some id }

-- Two ids that are both there and differ.
abbrev pub conflict : Option String → Option String → Bool
conflict (some a) (some b) = not (str_eq a b)
conflict none b = false
conflict (some a) none = false

module _ {N : Type 0} where
  abbrev pub load : Order N → Method N (Unit {0})
  load stored = assign λ now order. stored

  abbrev pub raise_conflict : Option String → Order N → Method N (Unit {0})
  raise_conflict late_id stored =
      if conflict (truthy late_id) (truthy stored.broker_order_id)
      then raise_risk "submission_identity_conflict"
      else pass

  abbrev keep_late :
      Order N → OrderSubmissionAttempt → String → Option String → Payload → Method N Bool
  keep_late stored attempt outcome late_id evidence = do
    load stored
    raise_conflict late_id stored
    close_attempt attempt.id outcome
    log_order_event "late_submission_outcome" (evidence ++ ("attempt_outcome", some outcome) ∷ [])
    return true

  -- `_resolved_elsewhere`; the evidence's broker order id is an argument of its own.
  unfoldable pub resolved_elsewhere :
      Order N → OrderSubmissionAttempt → String → Option String → Payload → Method N Bool
  unfolding close_attempt log_order_event
  resolved_elsewhere stored attempt outcome late_id evidence =
      if status_eq stored.status (known submission_unknown)
      then return false
      else keep_late stored attempt outcome late_id evidence

  abbrev pub unless : Bool → Method N (Unit {0}) → Method N (Unit {0})
  unless true m = pass
  unless false m = m

  abbrev pub audit_failure : Surroundings → String → String → Method N (Unit {0})
  audit_failure around action decision =
      decide (if on_demo around then "demo_broker_order_failure" else action) decision

  abbrev pub end_untransmitted :
      Surroundings → OrderSubmissionAttempt → String → Method N (Unit {0})
  end_untransmitted around attempt error_type = do
    close_attempt attempt.id "not_transmitted"
    transition (known error) "broker_error" "broker request was not transmitted"
        (error_evidence error_type)
    assign λ now order. record order {
      error_message = some "Broker request was not transmitted; no order was sent.";
      rejected_at = some now;
    }
    audit_failure around "broker_request_failed" "failed"

  unfoldable pub record_not_transmitted :
      Surroundings → Order N → OrderSubmissionAttempt → String → Method N (Unit {0})
  unfolding resolved_elsewhere close_attempt transition
  record_not_transmitted around stored attempt error_type = do
    resolved ← resolved_elsewhere stored attempt "not_transmitted" none (error_evidence error_type)
    unless resolved (end_untransmitted around attempt error_type)

  abbrev pub end_refused : Surroundings → OrderSubmissionAttempt → String → Method N (Unit {0})
  end_refused around attempt error_type = do
    close_attempt attempt.id "rejected"
    transition (known rejected) "broker_rejected" "broker refused the order request"
        (error_evidence error_type)
    assign λ now order. record order {
      error_message = some "Broker refused the order request; no order was created.";
      first_ack_at = some now;
      rejected_at = some now;
    }
    audit_failure around "broker_request_rejected" "failed"

  unfoldable pub record_broker_refusal :
      Surroundings → Order N → OrderSubmissionAttempt → String → Method N (Unit {0})
  unfolding resolved_elsewhere close_attempt transition
  record_broker_refusal around stored attempt error_type = do
    resolved ← resolved_elsewhere stored attempt "rejected" none (error_evidence error_type)
    unless resolved (end_refused around attempt error_type)

  abbrev pub keep_unknown :
      Surroundings → OrderSubmissionAttempt → Payload → Option String → Method N (Unit {0})
  keep_unknown around attempt evidence id = do
    assign λ now order. set_id id order
    close_attempt attempt.id "ambiguous"
    assign λ now order. record order { error_message = some submission_unknown_message }
    log_order_event "submission_outcome_unknown" evidence
    raise_risk "submission_unknown"
    audit_failure around "broker_submission_unknown" "unknown"

  -- `_record_unknown_outcome` with the id that becomes the order's, and the one that does not.
  unfoldable pub record_unknown_outcome :
      Surroundings
      → Order N
      → OrderSubmissionAttempt
      → Payload
      → Option String
      → Option String
      → Method N (Unit {0})
  unfolding resolved_elsewhere close_attempt log_order_event
  record_unknown_outcome around stored attempt failure broker_order_id named_broker_order_id = do
    let evidence =
        with_id "named_broker_order_id" (truthy named_broker_order_id)
          (with_id "broker_order_id" (truthy broker_order_id) failure)
    resolved ← resolved_elsewhere stored attempt "ambiguous" (truthy broker_order_id) evidence
    unless resolved (keep_unknown around attempt evidence (truthy broker_order_id))
