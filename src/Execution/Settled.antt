-- ===== src/Execution/Settled.antt =====
-- apps/api/app/execution/engine.py: what the end of a submission may make of the order.
use mathlib.Core.Path.{subst}
use t212_cashguard.Common.{
  ◌≡◌, ◌⊎◌, inl, inr, refl, sym, ◌∙◌, true, Option, none, some, String, [], ◌∷◌, str_eq,
}
use t212_cashguard.Common.Numeric.{Decimals}
use t212_cashguard.Store.{Order, OrderSubmissionAttempt, Payload}
use t212_cashguard.Lifecycle.{known, submission_unknown, rejected, error}
use t212_cashguard.Lifecycle.Evidence.{status_eq}
use t212_cashguard.Lifecycle.Edges.{status_eq_of_same}
use t212_cashguard.Broker.{Json, Conversions}
use t212_cashguard.Broker.Acknowledgement.{
  Acknowledgement, Trusted, trusted, untrusted, interpret_acknowledgement,
}
use t212_cashguard.Broker.Record.{Checked, fine, refused, LocalOrder, RecordConversions}
use t212_cashguard.Broker.Record.Reading.{require_same_order}
use t212_cashguard.Execution.{Session, Result, done, failed}
use t212_cashguard.Execution.Submit.{Surroundings}
use t212_cashguard.Execution.Settle.{
  record_not_transmitted, record_broker_refusal, record_unknown_outcome, with_id, truthy,
  error_evidence,
}
use t212_cashguard.Execution.Answer.{
  Answer, not_transmitted, refusal, ambiguous, answered, as_local_order, save_acknowledgement,
  record_acknowledgement, record_answer, write_acknowledgement, untrusted_evidence, error_type_of,
  attempt_outcome, save_or_unknown, compare_order, judge_answer, unless_other_order, or_unknown,
  commit,
}
use t212_cashguard.Execution.Written.{
  own_run, untransmitted-Either, refused-Either, unknown-Same, Written, WritesOrFails, write-Writes,
}

module _ (D : Decimals) (C : Conversions (Decimals.Num D))
    (R : RecordConversions (Decimals.Num D) (Conversions.Int C)) where
  open D use {Num}
  open C use {Int}

  -- What a transmission's end warrants: `error` that nothing was transmitted, `rejected` that the
  -- broker refused, and what an answer says, if it is trusted and about this order.
  abbrev pub Warranted : Order Num → Answer Num Int → Order Num → Type 0
  Warranted before answer order =
      ((error_type : String) × (answer ≡ not_transmitted error_type) × (order.status ≡ known error))
      ⊎ ((error_type : String) × (answer ≡ refusal error_type) × (order.status ≡ known rejected))
      ⊎ ((response : Json Num Int) × (ack : Acknowledgement Num) × (facts : LocalOrder Num)
          × (answer ≡ answered response)
          × (interpret_acknowledgement D C response before.side before.quantity ≡ trusted ack)
          × (as_local_order D C R before ack.broker_order_id ≡ some facts)
          × (require_same_order D C R response facts ≡ fine tt)
          × Written D C R ack order)

  abbrev pub OpenOr : Session Num → Answer Num Int → Result (Unit {0}) × Session Num → Type 0
  OpenOr s answer run =
      (run.1.order.status ≡ known submission_unknown) ⊎ Warranted s.order answer run.1.order

  unknown-Open :
      (around : Surroundings) (stored : Order Num) (attempt : OrderSubmissionAttempt)
      (failure : Payload) (id named_id : Option String) (s : Session Num)
      → status_eq stored.status (known submission_unknown) ≡ true
      → s.order.status ≡ known submission_unknown
      → (record_unknown_outcome around stored attempt failure id named_id s).1.order.status
        ≡ known submission_unknown
  unfolding record_unknown_outcome
  unknown-Open around stored attempt failure id named_id s e open_ =
      let evidence =
        with_id "named_broker_order_id" (truthy named_id)
          (with_id "broker_order_id" (truthy id) failure) in
      rw (own_run stored attempt "ambiguous" (truthy id) evidence s e)
        (unknown-Same around attempt evidence (truthy id) s ∙ open_)

  fallback-Open :
      (around : Surroundings) (stored : Order Num) (attempt : OrderSubmissionAttempt)
      (id error_type : String) (before : Session Num)
      → status_eq stored.status (known submission_unknown) ≡ true
      → (record_unknown_outcome around stored attempt
          (error_evidence error_type)
          (some id)
          none
          (record before { order = stored })).1.order.status
        ≡ known submission_unknown
  fallback-Open around stored attempt id error_type before e =
      unknown-Open around stored attempt (error_evidence error_type) (some id) none
        (record before { order = stored }) e (status_eq_of_same _ _ e)

  -- After the commit, or instead of it.
  committed-OpenOr :
      (around : Surroundings) (stored : Order Num) (attempt : OrderSubmissionAttempt)
      (database : Option String) (ack : Acknowledgement Num) (before : Session Num)
      (run : Result (Unit {0}) × Session Num)
      → status_eq stored.status (known submission_unknown) ≡ true
      → WritesOrFails D C R ack run
      → let after =
          or_unknown D C R around stored attempt ack.broker_order_id before
            (commit D C R database run) in
        (after.1.order.status ≡ known submission_unknown) ⊎ Written D C R ack after.1.order
  committed-OpenOr around stored attempt none ack before (done _, s) e (inl (x, q)) = absurd (cc)
  committed-OpenOr around stored attempt none ack before (done _, s) e (inr w) = inr w
  committed-OpenOr around stored attempt (some t) ack before (done _, s) e w =
      inl (fallback-Open around stored attempt ack.broker_order_id t before e)
  committed-OpenOr around stored attempt none ack before (failed x, s) e w =
      inl (fallback-Open around stored attempt ack.broker_order_id (error_type_of x) before e)
  committed-OpenOr around stored attempt (some t) ack before (failed x, s) e w =
      inl (fallback-Open around stored attempt ack.broker_order_id (error_type_of x) before e)

  own_save :
      (around : Surroundings) (stored : Order Num) (attempt : OrderSubmissionAttempt)
      (ack : Acknowledgement Num) (s : Session Num)
      → status_eq stored.status (known submission_unknown) ≡ true
      → save_acknowledgement D C R around stored attempt ack s
        ≡ write_acknowledgement D C R around attempt ack s
  unfolding save_acknowledgement
  own_save around stored attempt ack s e =
      rw
        (own_run stored attempt (attempt_outcome D C R (str_eq ack.broker_status "REJECTED"))
          (some ack.broker_order_id)
          (("broker_order_id", some ack.broker_order_id)
            ∷ ("broker_status", some ack.broker_status)
            ∷ [])
          s e)
        refl

  saved-OpenOr :
      (around : Surroundings) (stored : Order Num) (attempt : OrderSubmissionAttempt)
      (database : Option String) (ack : Acknowledgement Num) (s : Session Num)
      → status_eq stored.status (known submission_unknown) ≡ true
      → let run = save_or_unknown D C R around stored attempt database ack s in
        (run.1.order.status ≡ known submission_unknown) ⊎ Written D C R ack run.1.order
  saved-OpenOr around stored attempt database ack s e =
      committed-OpenOr around stored attempt database ack s _ e (
        subst (WritesOrFails D C R ack) (sym (own_save around stored attempt ack s e))
          (write-Writes D C R around attempt ack s))

  compared-OpenOr :
      (around : Surroundings) (stored : Order Num) (attempt : OrderSubmissionAttempt)
      (database : Option String) (response : Json Num Int) (ack : Acknowledgement Num)
      (s : Session Num) (facts : Option (LocalOrder Num))
      → status_eq stored.status (known submission_unknown) ≡ true
      → s.order.status ≡ known submission_unknown
      → interpret_acknowledgement D C response s.order.side s.order.quantity ≡ trusted ack
      → as_local_order D C R s.order ack.broker_order_id ≡ facts
      → OpenOr s
          (answered response)
          (compare_order D C R around stored attempt database response ack facts s)
  compared-OpenOr around stored attempt database response ack s none e open_ i l = inl open_
  compared-OpenOr around stored attempt database response ack s (some facts) e open_ i l =
      judged (require_same_order D C R response facts) refl
    where
      judged :
          (verdict : Checked Num (Unit {0}))
          → require_same_order D C R response facts ≡ verdict
          → OpenOr s
              (answered response)
              (unless_other_order D C R around stored attempt database ack verdict s)
      judged (refused x) q = inl (
          unknown-Open around stored attempt (untrusted_evidence "UntrustedRecord" x.reason) none
            (some ack.broker_order_id) s e open_)
      judged (fine tt) q = elim (saved-OpenOr around stored attempt database ack s e) [
        | inl o ↦ inl o
        | inr w ↦ inr (inr (inr (response, ack, facts, refl, i, l, q, w)))
      ]

  answered-OpenOr :
      (around : Surroundings) (stored : Order Num) (attempt : OrderSubmissionAttempt)
      (database : Option String) (response : Json Num Int) (s : Session Num)
      (reading : Trusted (Acknowledgement Num))
      → status_eq stored.status (known submission_unknown) ≡ true
      → s.order.status ≡ known submission_unknown
      → interpret_acknowledgement D C response s.order.side s.order.quantity ≡ reading
      → OpenOr s
          (answered response)
          (judge_answer D C R around stored attempt database response reading s)
  answered-OpenOr around stored attempt database response s (untrusted reason id) e open_ i = inl (
      unknown-Open around stored attempt (untrusted_evidence "UntrustedAcknowledgement" reason) id
        none s e open_)
  answered-OpenOr around stored attempt database response s (trusted ack) e open_ i =
      compared-OpenOr around stored attempt database response ack s _ e open_ i refl

  -- While the stored order's outcome is unknown, the end of a transmission leaves it unknown or makes
  -- of it only what that end warrants: `error` if nothing was transmitted, `rejected` if the broker
  -- refused, and after an answer the status, the broker's id and, for a fill, the quantity and price
  -- of a trusted acknowledgement whose answer passes as one about this order.
  pub answer-Warranted :
      (around : Surroundings) (stored : Order Num) (attempt : OrderSubmissionAttempt)
      (database : Option String) (answer : Answer Num Int) (s : Session Num)
      → status_eq stored.status (known submission_unknown) ≡ true
      → s.order.status ≡ known submission_unknown
      → OpenOr s answer (record_answer D C R around stored attempt database answer s)
  unfolding record_answer record_not_transmitted record_broker_refusal record_acknowledgement
  answer-Warranted around stored attempt database (not_transmitted t) s e open_ =
      rw (own_run stored attempt "not_transmitted" none (error_evidence t) s e)
        (elim (untransmitted-Either around attempt t s) [
          | inl same ↦ inl (same ∙ open_)
          | inr ended ↦ inr (inl (t, refl, ended))
        ])
  answer-Warranted around stored attempt database (refusal t) s e open_ =
      rw (own_run stored attempt "rejected" none (error_evidence t) s e)
        (elim (refused-Either around attempt t s) [
          | inl same ↦ inl (same ∙ open_)
          | inr ended ↦ inr (inr (inl (t, refl, ended)))
        ])
  answer-Warranted around stored attempt database (ambiguous t) s e open_ =
      inl (unknown-Open around stored attempt (error_evidence t) none none s e open_)
  answer-Warranted around stored attempt database (answered response) s e open_ =
      answered-OpenOr around stored attempt database response s _ e open_ refl
