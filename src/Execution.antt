-- ===== src/Execution.antt =====
-- apps/api/app/execution/engine.py: `ExecutionEngine`. This file has what its methods share: the
-- session with the order at hand, a method as a function from it to a result and the session after
-- it, and the rows that a method stages. The texts of messages and reasons are left out, and so are
-- the parts of payloads that are no texts, latencies and execution quality. The time is an argument
-- of the session, and a fresh identifier is the next number.
pub mod Transition
pub mod Submit
pub mod Gate
pub mod Dispatch
pub mod Settle
pub mod Answer
pub mod Written
pub mod Settled
pub mod Elsewhere
pub mod Posted
pub mod Silent
pub mod Repeated
pub mod Outbox
pub mod Refinement
pub mod Intent
pub mod Create
pub mod Promised
pub mod Admitted
pub mod Asking
pub mod Reconcile
pub mod Reconciled
pub mod Claim
pub mod Unknown
pub mod Resolution
pub mod Resolved
pub mod Claimed
pub mod Cancel
pub mod Requested
pub mod Cancelled
pub mod Batch
pub mod Tallied
pub mod Asked
pub mod Reported
mod Tests
use t212_cashguard.Common.{
  ℕ, suc, ◌+◌, Bool, true, false, ◌&&◌, Option, none, some, String, List, [], ◌∷◌, ◌++◌, ◌==◌,
  str_eq, if◌then◌else◌,
}
use t212_cashguard.Store.{Order, OrderEvent, OrderSubmissionAttempt, RiskEvent, Payload}
use t212_cashguard.Lifecycle.{Status}
use t212_cashguard.Lifecycle.Evidence.{
  Outcome, returned, invalid_order_transition, value_error, Staged, Evidence,
  transition_order_status_with_evidence,
}

-- A row of `audit_safety_decision`.
pub record Decision : Type 0 where
  pub action : String
  pub decision : String

-- A session: the order as this session has it, the attempts for the order, and the rows staged.
pub record Session (N : Type 0) : Type 0 where
  pub order : Order N
  pub attempts : List OrderSubmissionAttempt
  pub staged : Staged
  pub risk_events : List RiskEvent
  pub decisions : List Decision
  pub next_id : ℕ
  pub now : ℕ

pub data Raised : Type 0 where
  bad_value : Raised
  bad_transition : Raised
  -- `RuntimeError` of `_close_attempt`.
  outcome_rewritten : Raised
  -- `SafetyPolicyViolation` with its decision code.
  safety_violation : String → Raised
  -- `DecimalException`.
  decimal_error : Raised
  -- An exception of the database, with the name of its type.
  database_error : String → Raised
  cancellation_failed : Raised
  -- `OrderCancellationUnconfirmed`: the reason, the broker's status, and whether to ask again.
  cancellation_unconfirmed : String → Option String → Bool → Raised

pub data Result (A : Type 0) : Type 0 where
  done : A → Result A
  failed : Raised → Result A

abbrev pub Method : Type 0 → Type 0 → Type 0
Method N A = Session N → Result A × Session N

-- What follows is done on the session that the method before it has left, if that returned.
abbrev pub continue :
    {N A B : Type 0} → (A → Method N B) → Result A × Session N → Result B × Session N
continue f (done a, s) = f a s
continue f (failed e, s) = (failed e, s)

infixl 5 ◌>>=◌ ◌>>◌
abbrev pub ◌>>=◌ : {N A B : Type 0} → Method N A → (A → Method N B) → Method N B
◌>>=◌ m f s = continue f (m s)

abbrev pub ◌>>◌ : {N B : Type 0} → Method N (Unit {0}) → Method N B → Method N B
m >> k = m >>= λ _. k

abbrev result_of : {A : Type 0} → Outcome A → Result (Unit {0})
result_of (returned _) = done tt
result_of invalid_order_transition = failed bad_transition
result_of value_error = failed bad_value

abbrev with_outcome : String → Option String → Option (Option String)
with_outcome outcome none = some (some outcome)
with_outcome outcome (some _) = none

abbrev cons_closed :
    OrderSubmissionAttempt
    → List OrderSubmissionAttempt
    → Option (Option String)
    → Option (List OrderSubmissionAttempt)
cons_closed a rest none = none
cons_closed a rest (some outcome) = some (record a { outcome = outcome } ∷ rest)

abbrev keep_before :
    OrderSubmissionAttempt
    → Option (List OrderSubmissionAttempt)
    → Option (List OrderSubmissionAttempt)
keep_before a none = none
keep_before a (some rest) = some (a ∷ rest)

unfoldable pub close_in :
    ℕ → String → List OrderSubmissionAttempt → Option (List OrderSubmissionAttempt)
close_in id outcome [] = some []
close_in id outcome (a ∷ rest) =
    let later = keep_before a (close_in id outcome rest) in
    if a.id == id then cons_closed a rest (with_outcome outcome a.outcome) else later

module _ {N : Type 0} where
  abbrev pub return : {A : Type 0} → A → Method N A
  return a s = (done a, s)

  abbrev pub raise : {A : Type 0} → Raised → Method N A
  raise e s = (failed e, s)

  abbrev pub pass : Method N (Unit {0})
  pass s = (done tt, s)

  abbrev pub gets : {A : Type 0} → (Session N → A) → Method N A
  gets f s = (done (f s), s)

  -- Assignments to attributes of the order.
  abbrev pub assign : (ℕ → Order N → Order N) → Method N (Unit {0})
  assign f s = (done tt, record s { order = f s.now s.order })

  abbrev pub decide : String → String → Method N (Unit {0})
  decide action decision s =
      let row : Decision = record { action = action; decision = decision } in
      (done tt, record s { decisions = s.decisions ++ row ∷ [] })

  abbrev pub raise_risk : String → Method N (Unit {0})
  raise_risk event_type s =
      let event : RiskEvent = record {
        event_type = event_type;
        ticker = some s.order.ticker;
        signal_id = s.order.signal_id;
      } in
      (done tt, record s { risk_events = s.risk_events ++ event ∷ [] })

  -- `_log_order_event` from the order's status to the same.
  unfoldable pub log_order_event : String → Payload → Method N (Unit {0})
  log_order_event event_type payload s =
      let event : OrderEvent = record {
        id = s.next_id;
        order_id = s.order.id;
        event_type = event_type;
        from_status = s.order.status;
        to_status = s.order.status;
        payload = payload;
        occurred_at = s.now;
      } in
      (
        done tt,
        record s {
          staged = record (s.staged) { events = s.staged.events ++ event ∷ [] };
          next_id = s.next_id + 1;
        },
      )

  -- The arguments that the engine gives to a transition with evidence.
  abbrev pub evidence_of : Session N → String → String → Payload → Evidence
  evidence_of s event_type reason payload = record {
    event_type = event_type;
    reason = reason;
    actor = "execution_engine";
    correlation_id = some s.order.client_order_key;
    payload = payload;
    event_id = s.next_id;
    audit_id = s.next_id + 1;
    now = s.now;
  }

  unfoldable pub transition : Status → String → String → Payload → Method N (Unit {0})
  transition to_status event_type reason payload s =
      let (out, order, staged) =
        transition_order_status_with_evidence s.staged s.order to_status
          (evidence_of s event_type reason payload) in
      (result_of out, record s { order = order; staged = staged; next_id = s.next_id + 2 })

  -- `_close_attempt` on the attempt with this id.
  abbrev put_attempts :
      Session N → Option (List OrderSubmissionAttempt) → Result (Unit {0}) × Session N
  put_attempts s none = (failed outcome_rewritten, s)
  put_attempts s (some attempts) = (done tt, record s { attempts = attempts })

  unfoldable pub close_attempt : ℕ → String → Method N (Unit {0})
  unfolding close_in
  close_attempt id outcome s = put_attempts s (close_in id outcome s.attempts)
