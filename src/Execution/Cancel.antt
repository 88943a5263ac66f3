-- ===== src/Execution/Cancel.antt =====
-- apps/api/app/execution/engine.py: `cancel_order`, with the reads of cancellation.py. What is later
-- written into the payload of `cancel_request_accepted`, amounts in payloads, and latencies are left
-- out. A cancel request ends in none, when the broker took it, or in the name of an exception's type.
use Prim.Native.String.{◌++◌}
use t212_cashguard.Common.{
  Bool, true, false, not, ◌&&◌, ◌||◌, Option, none, some, String, [], ◌∷◌, if◌then◌else◌,
}
use t212_cashguard.Common.Numeric.{Decimals}
use t212_cashguard.Store.{Order}
use t212_cashguard.Lifecycle.{
  known, submission_unknown, cancelled, is_active_status, can_transition_order_status,
}
use t212_cashguard.Lifecycle.Evidence.{status_eq}
use t212_cashguard.Broker.{Conversions}
use t212_cashguard.Broker.Record.{RecordConversions}
use t212_cashguard.Broker.Record.Verdict.{Verdict, final_record, open_record}
use t212_cashguard.Execution.{
  Session, Method, Result, Raised, done, failed, bad_value, bad_transition, outcome_rewritten,
  safety_violation, decimal_error, database_error, cancellation_failed, cancellation_unconfirmed,
  ◌>>=◌, ◌>>◌, return, raise, assign, log_order_event, transition,
}
use t212_cashguard.Execution.Settle.{load}
use t212_cashguard.Execution.Asking.{
  Reads, Reading, found, no_record, untrusted_record, unread, read_broker_record,
}
use t212_cashguard.Execution.Reconcile.{is_working, has_id, record_final_state}

-- `CancelReads` at the time of a read.
pub record CancelReads : Type 0 where
  pub stopped_because : Option String
  pub has_time : Bool

-- The broker's record, or the word that says why there is none.
pub data AfterCancel (Num : Type 0) : Type 0 where
  record_read : Verdict Num → String → AfterCancel Num
  not_read : String → AfterCancel Num

module _ {N : Type 0} where
  -- `_block_unknown_submission_cancel`
  unfoldable pub block_unknown_submission_cancel : Option String → Method N (Unit {0})
  unfolding log_order_event
  block_unknown_submission_cancel failure s =
      (do
        log_order_event "cancel_blocked_unknown_submission" (
            ("broker_order_id", s.order.broker_order_id)
            ∷ ("error_type", failure)
            ∷ ("reason", some "cancellation cannot be confirmed; reconciliation is required")
            ∷ [])
        raise cancellation_failed)
        s

  abbrev pub cancel_refused : String → Method N (Unit {0})
  cancel_refused error_type = do
    log_order_event "cancel_failed" (
        ("error_type", some error_type)
        ∷ ("reason", some "broker cancellation failed; the order may still be open")
        ∷ [])
    assign λ now order. record order {
      error_message = some ("Broker request failed with " ++ error_type ++ ".");
    }
    raise cancellation_failed

  -- `_send_cancel`
  unfoldable pub send_cancel : Option String → Method N (Unit {0})
  unfolding block_unknown_submission_cancel log_order_event
  send_cancel none s =
      log_order_event "cancel_request_accepted" (("broker_order_id", s.order.broker_order_id) ∷ [])
        s
  send_cancel (some error_type) s =
      if status_eq s.order.status (known submission_unknown)
      then block_unknown_submission_cancel (some error_type) s
      else cancel_refused error_type s

  -- `_cancel_locally`
  unfoldable pub cancel_locally : Method N (Unit {0})
  unfolding transition
  cancel_locally = do
    transition (known cancelled) "cancelled" "local cancellation requested" []
    assign λ now order. record order { cancelled_at = some now }

  abbrev pub is_unknown : Order N → Bool
  is_unknown order = status_eq order.status (known submission_unknown) && not order.is_dry_run

  -- The request for an order whose status allows one.
  abbrev pub request_of : Bool → Option String → Order N → Method N Bool
  request_of accepted_before failure order =
      if is_unknown order && not (has_id order.broker_order_id)
      then (do block_unknown_submission_cancel none; return false)
      else if not (has_id order.broker_order_id) || order.is_dry_run
      then (do cancel_locally; return false)
      else if accepted_before
      then return false
      else (do send_cancel failure; return true)

  abbrev pub refuse_ended : Method N Bool
  refuse_ended = do
    transition (known cancelled) "cancelled" "local cancellation requested" []
    return false

  -- `request_cancel`: whether the broker has taken a request now. `stored` is the locked row, and
  -- `accepted_before` the answer of `_cancel_already_accepted`.
  unfoldable pub request_cancel : Order N → Bool → Option String → Method N Bool
  unfolding transition send_cancel cancel_locally block_unknown_submission_cancel
  request_cancel stored accepted_before failure = do
    load stored
    if status_eq stored.status (known cancelled)
        then return false
        else if not (is_unknown stored)
            && not (can_transition_order_status stored.status (known cancelled))
        then refuse_ended
        else request_of accepted_before failure stored

-- `OrderCancellationUnconfirmed` that may be asked again.
abbrev pub may_ask_again : Raised → Bool
may_ask_again (cancellation_unconfirmed _ _ again) = again
may_ask_again bad_value = false
may_ask_again bad_transition = false
may_ask_again outcome_rewritten = false
may_ask_again (safety_violation _) = false
may_ask_again decimal_error = false
may_ask_again (database_error _) = false
may_ask_again cancellation_failed = false

module _ (D : Decimals) (C : Conversions (Decimals.Num D))
    (R : RecordConversions (Decimals.Num D) (Conversions.Int C)) where
  open D use {Num}
  open C use {Int}

  abbrev pub reading_of : CancelReads → Reading Num → AfterCancel Num × CancelReads
  reading_of reads (found verdict source) = (record_read verdict source, reads)
  reading_of reads no_record = (not_read "no_broker_record", reads)
  reading_of reads (untrusted_record e) = (not_read e.reason, reads)
  reading_of reads (unread word) = (not_read word, record reads { stopped_because = some word })

  abbrev pub unless_stopped :
      CancelReads → Option String → Reading Num → AfterCancel Num × CancelReads
  unless_stopped reads (some _) reading = (not_read "not_read_after_a_failed_read", reads)
  unless_stopped reads none reading =
      if reads.has_time
      then reading_of reads reading
      else (not_read "read_time_spent", record reads { stopped_because = some "read_time_spent" })

  -- `_read_after_cancel`
  unfoldable pub read_after_cancel :
      CancelReads → Reads Num Int → Order Num → AfterCancel Num × CancelReads
  unfolding read_broker_record
  read_after_cancel reads answers order =
      unless_stopped reads reads.stopped_because (read_broker_record D C R order answers)

  -- `confirm_cancel`, after the read.
  unfoldable pub confirm_cancel : Bool → AfterCancel Num → Method Num (Unit {0})
  unfolding record_final_state
  confirm_cancel accepted (record_read (final_record r) source) = record_final_state D C R r source
  confirm_cancel accepted (record_read (open_record word) source) = raise (
      cancellation_unconfirmed "still_open_at_broker" (some word) (not accepted && is_working word))
  confirm_cancel accepted (not_read reason) = raise (cancellation_unconfirmed reason none false)

  -- The second half of `cancel_order`.
  abbrev pub ask_again :
      Method Num (Unit {0}) → Result (Unit {0}) × Session Num → Result (Unit {0}) × Session Num
  ask_again again (done _, s) = (done tt, s)
  ask_again again (failed e, s) = if may_ask_again e then again s else (failed e, s)

  -- What a cancellation meets: whether the broker took a request before, what its requests end in,
  -- what the reads answer, and whether there is time left for each.
  pub record Meets : Type 0 where
    pub accepted_before : Bool
    pub first_request : Option String
    pub second_request : Option String
    pub first_reads : Reads Num Int
    pub second_reads : Reads Num Int
    pub time_for_first : Bool
    pub time_for_second : Bool

  abbrev pub first_read : Meets → Order Num → AfterCancel Num × CancelReads
  first_read meets order =
      read_after_cancel (record { stopped_because = none; has_time = meets.time_for_first })
        meets.first_reads order

  abbrev pub second_read : Meets → Order Num → AfterCancel Num × CancelReads
  second_read meets order =
      read_after_cancel
        (record {
          stopped_because = (first_read meets order).1.stopped_because;
          has_time = meets.time_for_second;
        })
        meets.second_reads order

  abbrev pub resend : Meets → Method Num (Unit {0})
  resend meets = do
    send_cancel meets.second_request
    λ s. confirm_cancel true (second_read meets s.order).0 s

  abbrev pub confirm : Meets → Bool → Method Num (Unit {0})
  confirm meets accepted s =
      if is_active_status s.order.status
      then ask_again (resend meets) (confirm_cancel accepted (first_read meets s.order).0 s)
      else (done tt, s)

  -- `cancel_order`
  unfoldable pub cancel_order : Meets → Order Num → Method Num (Unit {0})
  unfolding request_cancel send_cancel confirm_cancel read_after_cancel
  cancel_order meets stored = do
    accepted ← request_cancel stored meets.accepted_before meets.first_request
    confirm meets accepted
