-- ===== src/Lifecycle/Evidence.antt =====
-- apps/api/app/execution/state_machine.py: the functions that change an order's status. An order
-- that Python mutates is returned, and so are the rows that the session has staged. The texts of
-- exceptions are left out; the ids and the time that the standard library supplies are arguments.
use t212_cashguard.Common.{
  ℕ, Bool, false, ◌||◌, Option, none, some, String, count, List, [], ◌∷◌, ◌++◌, ltb, ◌==◌, str_eq,
  if◌then◌else◌,
}
use t212_cashguard.Store.{Order, OrderEvent, AuditLog, Payload}
use t212_cashguard.Lifecycle.{
  Status, known, other, index, is_terminal_status, can_transition_order_status,
}

-- What a call ends in: a value, or one of the exceptions that the module raises.
pub data Outcome (A : Type 0) : Type 0 where
  returned : A → Outcome A
  invalid_order_transition : Outcome A
  value_error : Outcome A

-- The rows added to the session and not yet committed.
pub record Staged : Type 0 where
  pub events : List OrderEvent
  pub audits : List AuditLog

-- `==` on two statuses, which are texts.
unfoldable pub status_eq : Status → Status → Bool
status_eq (known a) (known b) = index a == index b
status_eq (known _) (other _) = false
status_eq (other _) (known _) = false
status_eq (other s) (other t) = str_eq s t

module _ {N : Type 0} where
  unfoldable pub require_already_finished : Order N → Outcome (Unit {0})
  unfolding is_terminal_status
  require_already_finished order =
      if is_terminal_status order.status then returned tt else invalid_order_transition

  unfoldable pub transition_order_status : Order N → Status → Outcome (Unit {0}) × Order N
  transition_order_status order to_status =
      if can_transition_order_status order.status to_status
      then (returned tt, record order { status = to_status })
      else (invalid_order_transition, order)

-- `d[k] = v` on a dictionary.
unfoldable pub put : String → Option String → Payload → Payload
put k v [] = (k, v) ∷ []
put k v ((j, w) ∷ d) = if str_eq k j then (j, v) ∷ d else (j, w) ∷ put k v d

-- The arguments of a transition with evidence, beside the order and the status.
pub record Evidence : Type 0 where
  pub event_type : String
  pub reason : String
  pub actor : String
  pub correlation_id : Option String
  pub payload : Payload
  -- From `uuid.uuid4()` and `datetime.now(UTC)`.
  pub event_id : ℕ
  pub audit_id : ℕ
  pub now : ℕ

-- `not text or len(text) > limit`
abbrev bad_text : String → ℕ → Bool
bad_text text limit = count text == 0 || ltb limit (count text)

abbrev too_long : Option String → ℕ → Bool
too_long none limit = false
too_long (some text) limit = ltb limit (count text)

-- The four checks of the arguments, each of which raises `ValueError`.
unfoldable pub refuses_evidence : Evidence → Bool
refuses_evidence e =
    bad_text e.event_type 50
    || bad_text e.actor 100
    || bad_text e.reason 500
    || too_long e.correlation_id 100

unfoldable pub event_payload : Evidence → Payload
unfolding put
event_payload e =
    put "correlation_id" e.correlation_id
      (put "transition_actor" (some e.actor) (put "transition_reason" (some e.reason) e.payload))

abbrev pub stage : OrderEvent → AuditLog → Staged → Staged
stage event audit db = record { events = db.events ++ event ∷ []; audits = db.audits ++ audit ∷ [] }

module _ {N : Type 0} where
  unfoldable pub order_event : Order N → Status → Evidence → OrderEvent
  unfolding event_payload
  order_event order to_status e = record {
    id = e.event_id;
    order_id = order.id;
    event_type = e.event_type;
    from_status = order.status;
    to_status = to_status;
    payload = event_payload e;
    occurred_at = e.now;
  }

  unfoldable pub audit_log : Order N → Status → Evidence → AuditLog
  audit_log order to_status e = record {
    id = e.audit_id;
    action = "order_status_transitioned";
    entity_type = "order";
    entity_id = order.id;
    actor = e.actor;
    event_type = e.event_type;
    from_status = order.status;
    to_status = to_status;
    reason = e.reason;
    correlation_id = e.correlation_id;
    occurred_at = e.now;
  }

  -- After the checks of the arguments: nothing is staged for a transition to the same status.
  unfoldable pub transition_with_rows :
      Staged → Order N → Status → Evidence → Outcome (Option OrderEvent) × Order N × Staged
  unfolding transition_order_status
  transition_with_rows db order to_status e =
      let (result, order') = transition_order_status order to_status in
      let event = order_event order to_status e in
      elim result [
        | returned _ ↦
            if status_eq order.status to_status
            then (returned none, order', db)
            else (returned (some event), order', stage event (audit_log order to_status e) db)
        | invalid_order_transition ↦ (invalid_order_transition, order', db)
        | value_error ↦ (value_error, order', db)
      ]

  unfoldable pub transition_order_status_with_evidence :
      Staged → Order N → Status → Evidence → Outcome (Option OrderEvent) × Order N × Staged
  unfolding transition_with_rows refuses_evidence
  transition_order_status_with_evidence db order to_status e =
      if refuses_evidence e
      then (value_error, order, db)
      else transition_with_rows db order to_status e
