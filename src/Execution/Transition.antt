-- ===== src/Execution/Transition.antt =====
-- apps/api/app/execution/engine.py: what a transition with evidence does to a session. The actor,
-- the event type and the reason that the engine gives always fit their columns, so only the order's
-- key can be too long.
use t212_cashguard.Common.{
  ◌≡◌, Bool-cases, ◌⊎◌, inl, inr, ◌∙◌, refl, ◌+◌, true, false, some, String, count, List, ltb,
  arith, ◌==◌, ◌||◌,
}
use t212_cashguard.Store.{Order, OrderSubmissionAttempt, Payload}
use t212_cashguard.Lifecycle.{Status, can_transition_order_status}
use t212_cashguard.Lifecycle.Trail.{with_evidence-Ends}
use t212_cashguard.Lifecycle.Evidence.{
  Staged, invalid_order_transition, Evidence, returned, status_eq, stage, order_event, audit_log,
  refuses_evidence, transition_with_rows, transition_order_status,
  transition_order_status_with_evidence,
}
use t212_cashguard.Execution.{
  Session, Method, Result, continue, done, failed, bad_value, bad_transition, Raised, evidence_of,
  transition,
}

-- The event type and the reason fit.
abbrev pub Fits : String → String → Type 0
Fits event_type reason =
    ((count event_type == 0 || ltb 50 (count event_type)) ≡ false)
    × ((count reason == 0 || ltb 500 (count reason)) ≡ false)

module _ {N : Type 0} where
  -- The key fits the column of the correlation id.
  abbrev pub KeyFits : Order N → Type 0
  KeyFits order = ltb 100 (count order.client_order_key) ≡ false

  -- The session after the move.
  abbrev pub moved : Session N → Status → String → String → Payload → Session N
  moved s to_status event_type reason payload =
      let e = evidence_of s event_type reason payload in
      record s {
        order = record (s.order) { status = to_status };
        staged = stage (order_event s.order to_status e) (audit_log s.order to_status e) s.staged;
        next_id = s.next_id + 2;
      }

  abbrev pub untouched : Session N → Session N
  untouched s = record s { next_id = s.next_id + 2 }

  rows-moved :
      (db : Staged) (order : Order N) (to_status : Status) (e : Evidence)
      → can_transition_order_status order.status to_status ≡ true
      → status_eq order.status to_status ≡ false
      → transition_with_rows db order to_status e ≡ (
        returned (some (order_event order to_status e)),
        record order { status = to_status },
        stage (order_event order to_status e) (audit_log order to_status e) db,
      )
  unfolding transition_with_rows transition_order_status
  rows-moved db order to_status e may move = ground arith

  pub transition-moved :
      (s : Session N) (to_status : Status) (event_type reason : String) (payload : Payload)
      → Fits event_type reason
      → KeyFits s.order
      → can_transition_order_status s.order.status to_status ≡ true
      → status_eq s.order.status to_status ≡ false
      → transition to_status event_type reason payload s
        ≡ (done tt, moved s to_status event_type reason payload)
  unfolding transition transition_order_status_with_evidence refuses_evidence
  transition-moved s to_status event_type reason payload (f, g) key may move =
      let e = evidence_of s event_type reason payload in
      rw (f, g, key, rows-moved s.staged s.order to_status e may move) refl

  pub transition-too_long :
      (s : Session N) (to_status : Status) (event_type reason : String) (payload : Payload)
      → Fits event_type reason
      → ltb 100 (count s.order.client_order_key) ≡ true
      → transition to_status event_type reason payload s ≡ (failed bad_value, untouched s)
  unfolding transition transition_order_status_with_evidence refuses_evidence
  transition-too_long s to_status event_type reason payload (f, g) key = rw (f, g, key) refl

  -- A method that leaves the attempts as they are.
  abbrev pub Keeps : {A : Type 0} → Method N A → Type 0
  Keeps m = (s : Session N) → (m s).1.attempts ≡ s.attempts

  pub continue-Keeps :
      {A B : Type 0} (f : A → Method N B) (attempts : List OrderSubmissionAttempt)
      → ((a : A) → Keeps (f a))
      → (run : Result A × Session N) → run.1.attempts ≡ attempts
      → (continue f run).1.attempts ≡ attempts
  continue-Keeps f attempts k (done a, s) e = k a s ∙ e
  continue-Keeps f attempts k (failed x, s) e = e

  pub transition-Keeps :
      (to_status : Status) (event_type reason : String) (payload : Payload)
      → Keeps (transition to_status event_type reason payload)
  unfolding transition
  transition-Keeps to_status event_type reason payload s = refl

  -- A transition either raises and leaves the order and the rows as they were, or gives the order
  -- the status.
  abbrev pub TransitionEnds : Status → Session N → Result (Unit {0}) × Session N → Type 0
  TransitionEnds to_status s run =
      ((e : Raised) × (run ≡ (failed e, untouched s)))
      ⊎ ((staged : Staged) × (run ≡ (
        done tt,
        record s {
          order = record (s.order) { status = to_status };
          staged = staged;
          next_id = s.next_id + 2;
        },
      )))

  pub transition-Ends :
      (to_status : Status) (event_type reason : String) (payload : Payload) (s : Session N)
      → TransitionEnds to_status s (transition to_status event_type reason payload s)
  unfolding transition
  transition-Ends to_status event_type reason payload s =
      elim (with_evidence-Ends s.staged s.order to_status
        (evidence_of s event_type reason payload)) [
          | inl (e, _) ↦ inl (bad_value, rw e refl)
          | inr (inl (e, _)) ↦ inl (bad_transition, rw e refl)
          | inr (inr (inl (e, _))) ↦ inr (s.staged, rw e refl)
          | inr (inr (inr (e, _, _))) ↦
              inr ((moved s to_status event_type reason payload).staged, rw e refl)
        ]

  rows-refused :
      (db : Staged) (order : Order N) (to_status : Status) (e : Evidence)
      → can_transition_order_status order.status to_status ≡ false
      → transition_with_rows db order to_status e ≡ (invalid_order_transition, order, db)
  unfolding transition_with_rows transition_order_status
  rows-refused db order to_status e no_edge = ground arith

  -- A status that the table does not allow is refused.
  pub transition-refused :
      (to_status : Status) (event_type reason : String) (payload : Payload) (s : Session N)
      → can_transition_order_status s.order.status to_status ≡ false
      → (e : Raised) × (transition to_status event_type reason payload s ≡ (failed e, untouched s))
  unfolding transition transition_order_status_with_evidence
  transition-refused to_status event_type reason payload s no_edge =
      let e = evidence_of s event_type reason payload in
      elim (Bool-cases (refuses_evidence e)) [
        | inl bad ↦ (bad_value, rw bad refl)
        | inr fine ↦
            (bad_transition, rw (fine, rows-refused s.staged s.order to_status e no_edge) refl)
      ]
