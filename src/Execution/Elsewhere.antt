-- ===== src/Execution/Elsewhere.antt =====
-- apps/api/app/execution/engine.py: the end of a submission whose order was resolved meanwhile.
use t212_cashguard.Common.{
  ◌≡◌, ◌⊎◌, inl, inr, refl, false, Option, none, some, String, [], ◌∷◌, str_eq,
}
use t212_cashguard.Common.Numeric.{Decimals}
use t212_cashguard.Store.{Order, OrderSubmissionAttempt, Payload}
use t212_cashguard.Lifecycle.{known, submission_unknown}
use t212_cashguard.Lifecycle.Evidence.{status_eq}
use t212_cashguard.Broker.{Json, Conversions}
use t212_cashguard.Broker.Acknowledgement.{Acknowledgement, Trusted, trusted, untrusted}
use t212_cashguard.Broker.Record.{Checked, fine, refused, LocalOrder, RecordConversions}
use t212_cashguard.Execution.{Session, Result, done, failed, decimal_error}
use t212_cashguard.Execution.Submit.{Surroundings}
use t212_cashguard.Execution.Settle.{
  record_not_transmitted, record_broker_refusal, record_unknown_outcome, end_untransmitted,
  end_refused, keep_unknown, with_id, truthy, error_evidence,
}
use t212_cashguard.Execution.Answer.{
  Answer, not_transmitted, refusal, ambiguous, answered, save_acknowledgement,
  record_acknowledgement, record_answer, write_acknowledgement, attempt_outcome, save_or_unknown,
  compare_order, judge_answer, unless_other_order, or_unknown, commit,
}
use t212_cashguard.Execution.Written.{late-Stored}

module _ (D : Decimals) (C : Conversions (Decimals.Num D))
    (R : RecordConversions (Decimals.Num D) (Conversions.Int C)) where
  open D use {Num}
  open C use {Int}

  unknown-Stored :
      (around : Surroundings) (stored : Order Num) (attempt : OrderSubmissionAttempt)
      (failure : Payload) (id named_id : Option String) (s : Session Num)
      → status_eq stored.status (known submission_unknown) ≡ false
      → (record_unknown_outcome around stored attempt failure id named_id s).1.order ≡ stored
  unfolding record_unknown_outcome
  unknown-Stored around stored attempt failure id named_id s e =
      let evidence =
        with_id "named_broker_order_id" (truthy named_id)
          (with_id "broker_order_id" (truthy id) failure) in
      late-Stored stored attempt "ambiguous" (truthy id) evidence
        (keep_unknown around attempt evidence (truthy id)) s e

  committed-Stored :
      (around : Surroundings) (stored : Order Num) (attempt : OrderSubmissionAttempt)
      (database : Option String) (ack : Acknowledgement Num) (before : Session Num)
      (run : Result (Unit {0}) × Session Num)
      → status_eq stored.status (known submission_unknown) ≡ false
      → run.1.order ≡ stored
      → (or_unknown D C R around stored attempt ack.broker_order_id before
          (commit D C R database run)).1.order
        ≡ stored
  committed-Stored around stored attempt none ack before (done _, s) e q = q
  committed-Stored around stored attempt (some t) ack before (done _, s) e q =
      unknown-Stored around stored attempt _ (some ack.broker_order_id) none _ e
  committed-Stored around stored attempt none ack before (failed x, s) e q =
      unknown-Stored around stored attempt _ (some ack.broker_order_id) none _ e
  committed-Stored around stored attempt (some t) ack before (failed x, s) e q =
      unknown-Stored around stored attempt _ (some ack.broker_order_id) none _ e

  saved-Stored :
      (around : Surroundings) (stored : Order Num) (attempt : OrderSubmissionAttempt)
      (database : Option String) (ack : Acknowledgement Num) (s : Session Num)
      → status_eq stored.status (known submission_unknown) ≡ false
      → (save_or_unknown D C R around stored attempt database ack s).1.order ≡ stored
  unfolding save_acknowledgement
  saved-Stored around stored attempt database ack s e =
      committed-Stored around stored attempt database ack s
        (save_acknowledgement D C R around stored attempt ack s) e
        (late-Stored stored attempt (attempt_outcome D C R (str_eq ack.broker_status "REJECTED"))
          (some ack.broker_order_id)
          (("broker_order_id", some ack.broker_order_id)
            ∷ ("broker_status", some ack.broker_status)
            ∷ [])
          (write_acknowledgement D C R around attempt ack) s e)

  -- Nothing is written, or what is written leaves the order as it is stored.
  abbrev pub LeftAlone : Order Num → Session Num → Result (Unit {0}) × Session Num → Type 0
  LeftAlone stored s run = (run.1.order ≡ stored) ⊎ (run ≡ (failed decimal_error, s))

  judged-LeftAlone :
      (around : Surroundings) (stored : Order Num) (attempt : OrderSubmissionAttempt)
      (database : Option String) (response : Json Num Int) (ack : Acknowledgement Num)
      (verdict : Checked Num (Unit {0})) (s : Session Num)
      → status_eq stored.status (known submission_unknown) ≡ false
      → (unless_other_order D C R around stored attempt database ack verdict s).1.order ≡ stored
  judged-LeftAlone around stored attempt database response ack (fine _) s e =
      saved-Stored around stored attempt database ack s e
  judged-LeftAlone around stored attempt database response ack (refused x) s e =
      unknown-Stored around stored attempt _ none (some ack.broker_order_id) s e

  compared-LeftAlone :
      (around : Surroundings) (stored : Order Num) (attempt : OrderSubmissionAttempt)
      (database : Option String) (response : Json Num Int) (ack : Acknowledgement Num)
      (facts : Option (LocalOrder Num)) (s : Session Num)
      → status_eq stored.status (known submission_unknown) ≡ false
      → LeftAlone stored s (compare_order D C R around stored attempt database response ack facts s)
  compared-LeftAlone around stored attempt database response ack none s e = inr refl
  compared-LeftAlone around stored attempt database response ack (some facts) s e =
      inl (judged-LeftAlone around stored attempt database response ack _ s e)

  answered-LeftAlone :
      (around : Surroundings) (stored : Order Num) (attempt : OrderSubmissionAttempt)
      (database : Option String) (response : Json Num Int) (reading : Trusted (Acknowledgement Num))
      (s : Session Num)
      → status_eq stored.status (known submission_unknown) ≡ false
      → LeftAlone stored s (judge_answer D C R around stored attempt database response reading s)
  answered-LeftAlone around stored attempt database response (untrusted reason id) s e =
      inl (unknown-Stored around stored attempt _ id none s e)
  answered-LeftAlone around stored attempt database response (trusted ack) s e =
      compared-LeftAlone around stored attempt database response ack _ s e

  -- An order that has been resolved while the request was on its way, so that its stored row is no
  -- longer `submission_unknown`, is left exactly as it is stored, whatever the transmission ends in;
  -- or nothing at all is changed, where the ordered quantity cannot be brought to a stored amount.
  pub resolved-LeftAlone :
      (around : Surroundings) (stored : Order Num) (attempt : OrderSubmissionAttempt)
      (database : Option String) (answer : Answer Num Int) (s : Session Num)
      → status_eq stored.status (known submission_unknown) ≡ false
      → LeftAlone stored s (record_answer D C R around stored attempt database answer s)
  unfolding record_answer record_not_transmitted record_broker_refusal record_acknowledgement
  resolved-LeftAlone around stored attempt database (not_transmitted t) s e = inl (
      late-Stored stored attempt "not_transmitted" none (error_evidence t)
        (end_untransmitted around attempt t) s e)
  resolved-LeftAlone around stored attempt database (refusal t) s e = inl (
      late-Stored stored attempt "rejected" none (error_evidence t) (end_refused around attempt t) s
        e)
  resolved-LeftAlone around stored attempt database (ambiguous t) s e =
      inl (unknown-Stored around stored attempt (error_evidence t) none none s e)
  resolved-LeftAlone around stored attempt database (answered response) s e =
      answered-LeftAlone around stored attempt database response _ s e
