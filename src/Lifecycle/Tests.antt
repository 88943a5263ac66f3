-- ===== src/Lifecycle/Tests.antt =====
-- apps/api/app/execution/state_machine.py: runs of the transition guard, and its theorems at inputs.
use t212_cashguard.Common.{◌≡◌, ◌⊎◌, ◌≤◌, refl, true, false, none, some, List, [], ◌∷◌, length}
use t212_cashguard.Common.FixedPoint.{ℤ, whole}
use t212_cashguard.Store.{Order}
use t212_cashguard.Lifecycle.{
  Status, known, other, pending_intent, submission_unknown, accepted, filled, cancelled,
  can_transition_order_status,
}
use t212_cashguard.Lifecycle.Edges.{count_changes, count_changes_le_four}
use t212_cashguard.Lifecycle.Evidence.{
  Staged, Evidence, invalid_order_transition, value_error, refuses_evidence,
  transition_order_status, transition_order_status_with_evidence, status_eq,
}
use t212_cashguard.Lifecycle.Trail.{Ends, with_evidence-Ends}
use t212_cashguard.Lifecycle.History.{after_requests, Leads, AgreesAll, history_replays}

abbrev order : Order ℤ
order = record {
  id = 7;
  ticker = "AAPL_US_EQ";
  side = "buy";
  order_type = "market";
  quantity = whole 3;
  status = known pending_intent;
  broker_order_id = none;
  filled_quantity = none;
  execution_environment = some "demo";
  broker_account_scope = none;
  filled_at = none;
  cancelled_at = none;
  rejected_at = none;
  venue = "t212";
  is_dry_run = false;
  cash_used = some (whole 600);
  retry_count = 0;
  last_reconciled_at = none;
  created_at = 10;
  updated_at = 10;
  signal_id = none;
  client_order_key = "key-1";
  limit_price = none;
  stop_price = none;
  time_validity = "DAY";
  avg_fill_price = none;
  expected_fill_price = some (whole 200);
  available_cash_at_submission = none;
  submitted_at = none;
  first_ack_at = none;
  error_message = none;
  version = 1;
}

abbrev evidence : Evidence
evidence = record {
  event_type = "order_dispatched";
  reason = "request committed";
  actor = "execution_engine";
  correlation_id = none;
  payload = ("attempt", some "1") ∷ [];
  event_id = 1;
  audit_id = 2;
  now = 11;
}

abbrev no_rows : Staged
no_rows = record { events = []; audits = [] }

abbrev requests : List (Status × Evidence)
requests =
    (known submission_unknown, evidence)
    ∷ (known pending_intent, evidence)
    ∷ (known accepted, evidence)
    ∷ (known accepted, evidence)
    ∷ (known filled, evidence)
    ∷ (known cancelled, evidence)
    ∷ []

-- Of the six requests two are refused and one is to the status that the order has.
requests_run :
    let (o, db) = after_requests order no_rows requests in
    (o.status ≡ known filled) × (length db.events ≡ 3) × (length db.audits ≡ 3)
unfolding after_requests transition_order_status_with_evidence can_transition_order_status status_eq
requests_run = (refl, refl, refl)

unknown_status : (transition_order_status order (other "expired")).0 ≡ invalid_order_transition
unfolding transition_order_status can_transition_order_status
unknown_status = refl

history_replays_example :
    let (o, db) = after_requests order no_rows requests in
    Leads order.status db.events o.status × AgreesAll db.events db.audits × (length db.events ≤ 4)
history_replays_example = history_replays order requests

with_evidence-Ends_example :
    ((transition_order_status_with_evidence no_rows order (known filled) evidence
        ≡ (value_error, order, no_rows))
      × (refuses_evidence evidence ≡ true))
    ⊎ Ends no_rows order
        (known filled)
        evidence
        (transition_order_status_with_evidence no_rows order (known filled) evidence)
with_evidence-Ends_example = with_evidence-Ends no_rows order (known filled) evidence

count_changes_le_four_example :
    count_changes order (known accepted ∷ known submission_unknown ∷ known filled ∷ []) ≤ 4
count_changes_le_four_example =
    count_changes_le_four order (known accepted ∷ known submission_unknown ∷ known filled ∷ [])
