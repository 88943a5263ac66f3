-- ===== src/Execution/Written.antt =====
-- apps/api/app/execution/engine.py: what the steps at the end of a submission make of the order.
use t212_cashguard.Common.{
  ◌≡◌, ◌≢◌, ◌⊎◌, inl, inr, refl, ap, ℕ, ◌+◌, true, false, Option, none, some, String, List, [], ◌∷◌,
  arith, Bool-cases, Option-cases,
}
use t212_cashguard.Common.Numeric.{Decimals}
use t212_cashguard.Store.{Order, OrderSubmissionAttempt, Payload}
use t212_cashguard.Lifecycle.{Status, known, submission_unknown, filled, cancelled, rejected, error}
use t212_cashguard.Lifecycle.Evidence.{status_eq}
use t212_cashguard.Lifecycle.Edges.{status_eq_refl}
use t212_cashguard.Broker.{Conversions}
use t212_cashguard.Broker.Acknowledgement.{Acknowledgement}
use t212_cashguard.Broker.Record.{RecordConversions}
use t212_cashguard.Execution.{
  Session, Method, Result, Raised, done, failed, outcome_rewritten, continue, log_order_event,
  close_attempt, close_in,
}
use t212_cashguard.Execution.Transition.{transition-Ends}
use t212_cashguard.Execution.Submit.{Surroundings, on_demo}
use t212_cashguard.Execution.Settle.{
  resolved_elsewhere, unless, end_untransmitted, end_refused, keep_unknown, set_id, error_evidence,
}
use t212_cashguard.Execution.Answer.{
  settle_times, finish_acknowledgement, write_acknowledgement, attempt_outcome,
}

module _ {N : Type 0} where
  pub late-Stored :
      (stored : Order N) (attempt : OrderSubmissionAttempt) (outcome : String)
      (late_id : Option String) (evidence : Payload) (m : Method N (Unit {0})) (s : Session N)
      → status_eq stored.status (known submission_unknown) ≡ false
      → (continue
          (λ resolved. unless resolved m)
          (resolved_elsewhere stored attempt outcome late_id evidence s)).1.order
        ≡ stored
  unfolding resolved_elsewhere log_order_event close_attempt
  late-Stored stored attempt outcome late_id evidence m s e = ground arith

  pub own_run :
      (stored : Order N) (attempt : OrderSubmissionAttempt) (outcome : String)
      (late_id : Option String) (evidence : Payload) (s : Session N)
      → status_eq stored.status (known submission_unknown) ≡ true
      → resolved_elsewhere stored attempt outcome late_id evidence s ≡ (done false, s)
  unfolding resolved_elsewhere
  own_run stored attempt outcome late_id evidence s e = rw e refl

  pub close_attempt-Ends :
      (id : ℕ) (outcome : String) (s : Session N)
      → (close_attempt id outcome s ≡ (failed outcome_rewritten, s))
        ⊎ ((attempts : List OrderSubmissionAttempt) × (close_attempt id outcome s
              ≡ (done tt, record s { attempts = attempts })))
  unfolding close_attempt
  close_attempt-Ends id outcome s = elim (Option-cases (close_in id outcome s.attempts)) [
    | inl e ↦ inl (rw e refl)
    | inr (attempts, e) ↦ inr (attempts, rw e refl)
  ]

  -- A run after which the order has the status that it had, or this one.
  abbrev pub Either : Status → Session N → Result (Unit {0}) × Session N → Type 0
  Either to_status s run = (run.1.order.status ≡ s.order.status) ⊎ (run.1.order.status ≡ to_status)

  pub untransmitted-Either :
      (around : Surroundings) (attempt : OrderSubmissionAttempt) (error_type : String)
      (s : Session N)
      → Either (known error) s (end_untransmitted around attempt error_type s)
  untransmitted-Either around attempt error_type s =
      elim (close_attempt-Ends attempt.id "not_transmitted" s) [
        | inl e ↦ rw e (inl refl)
        | inr (attempts, e) ↦
            elim (transition-Ends (known error) "broker_error" "broker request was not transmitted"
              (error_evidence error_type) (record s { attempts = attempts })) [
                | inl (x, f) ↦ rw (e, f) (inl refl)
                | inr (staged, f) ↦ rw (e, f) (inr refl)
              ]
      ]

  pub refused-Either :
      (around : Surroundings) (attempt : OrderSubmissionAttempt) (error_type : String)
      (s : Session N)
      → Either (known rejected) s (end_refused around attempt error_type s)
  refused-Either around attempt error_type s = elim (close_attempt-Ends attempt.id "rejected" s) [
    | inl e ↦ rw e (inl refl)
    | inr (attempts, e) ↦
        elim (transition-Ends (known rejected) "broker_rejected" "broker refused the order request"
          (error_evidence error_type) (record s { attempts = attempts })) [
            | inl (x, f) ↦ rw (e, f) (inl refl)
            | inr (staged, f) ↦ rw (e, f) (inr refl)
          ]
  ]

  pub set_id-status :
      (id : Option String) (order : Order N) → (set_id id order).status ≡ order.status
  set_id-status none order = refl
  set_id-status (some id) order = refl

  pub unknown-Same :
      (around : Surroundings) (attempt : OrderSubmissionAttempt) (evidence : Payload)
      (id : Option String) (s : Session N)
      → (keep_unknown around attempt evidence id s).1.order.status ≡ s.order.status
  unfolding log_order_event
  unknown-Same around attempt evidence id s =
      let s' : Session N = record s { order = set_id id s.order } in
      elim (close_attempt-Ends attempt.id "ambiguous" s') [
        | inl e ↦ rw e (set_id-status id s.order)
        | inr (attempts, e) ↦ rw e (set_id-status id s.order)
      ]

module _ (D : Decimals) (C : Conversions (Decimals.Num D))
    (R : RecordConversions (Decimals.Num D) (Conversions.Int C)) where
  open D use {Num}
  open C use {Int}

  -- The order says what the acknowledgement says.
  abbrev pub Written : Acknowledgement Num → Order Num → Type 0
  Written ack order =
      (order.status ≡ ack.order_status)
      × (order.broker_order_id ≡ some ack.broker_order_id)
      × (ack.order_status ≡ known filled
          → (order.filled_quantity ≡ ack.filled_quantity) × (order.avg_fill_price ≡ ack.fill_price))

  abbrev pub WritesOrFails : Acknowledgement Num → Result (Unit {0}) × Session Num → Type 0
  WritesOrFails ack run = ((e : Raised) × (run.0 ≡ failed e)) ⊎ Written ack run.1.order

  pub settle_times-Written :
      (ack : Acknowledgement Num) (now : ℕ) (order : Order Num)
      → order.status ≡ ack.order_status
      → order.broker_order_id ≡ some ack.broker_order_id
      → Written ack (settle_times D C R ack now order)
  unfolding settle_times
  settle_times-Written ack now order st id =
      elim (Bool-cases (status_eq ack.order_status (known filled))) [
        | inl is_filled ↦ rw is_filled (st, id, λ _. (refl, refl))
        | inr e ↦ elim (Bool-cases (status_eq ack.order_status (known cancelled))) [
          | inl c ↦ rw (e, c) (st, id, λ f. absurd (not_filled e f))
          | inr nc ↦ elim (Bool-cases (status_eq ack.order_status (known rejected))) [
            | inl r ↦ rw (e, nc, r) (st, id, λ f. absurd (not_filled e f))
            | inr nr ↦ rw (e, nc, nr) (st, id, λ f. absurd (not_filled e f))
          ]
        ]
      ]
    where
      not_filled :
          status_eq ack.order_status (known filled) ≡ false → ack.order_status ≢ known filled
      not_filled e f = cc (status_eq_refl (known filled), ap (λ t. status_eq t (known filled)) f)

  pub finish-Writes :
      (around : Surroundings) (ack : Acknowledgement Num) (s : Session Num)
      → Written ack s.order
      → WritesOrFails ack (finish_acknowledgement D C R around s)
  finish-Writes around ack s w = elim (Bool-cases (on_demo around)) [
    | inl demo ↦ rw demo (inr w)
    | inr other ↦ rw other (inr w)
  ]

  pub write-Writes :
      (around : Surroundings) (attempt : OrderSubmissionAttempt) (ack : Acknowledgement Num)
      (s : Session Num)
      → WritesOrFails ack (write_acknowledgement D C R around attempt ack s)
  write-Writes around attempt ack s =
      let s1 : Session Num = record s {
        order = record (s.order) {
          broker_order_id = some ack.broker_order_id;
          first_ack_at = some s.now;
        };
      } in
      elim (transition-Ends ack.order_status "broker_accepted" ack.transition_reason
        (("broker_status", some ack.broker_status) ∷ []) s1) [
          | inl (x, f) ↦ rw f (inl (x, refl))
          | inr (staged, f) ↦
              let moved : Order Num = record (s1.order) { status = ack.order_status } in
              let s2 : Session Num = record s1 {
                order = settle_times D C R ack s.now moved;
                staged = staged;
                next_id = s.next_id + 2;
              } in
              elim (close_attempt-Ends attempt.id
                (attempt_outcome D C R (status_eq ack.order_status (known rejected))) s2) [
                  | inl g ↦ rw (f, g) (inl (outcome_rewritten, refl))
                  | inr (attempts, g) ↦
                      rw (f, g)
                        (finish-Writes around ack (record s2 { attempts = attempts })
                          (settle_times-Written ack s.now moved refl refl))
                ]
        ]
