-- ===== src/Lifecycle/Trail.antt =====
-- apps/api/app/execution/state_machine.py: the events and audit entries that transitions with
-- evidence leave behind.
use t212_cashguard.Common.{
  ◌≡◌, ◌≢◌, ◌⊎◌, inl, inr, ap, true, false, Option, none, some, arith, Bool-cases,
}
use mathlib.Core.Path.{subst}
use t212_cashguard.Store.{Order, OrderEvent}
use t212_cashguard.Lifecycle.{Status, can_transition_order_status}
use t212_cashguard.Lifecycle.Edges.{status_eq_refl, status_eq_of_same}
use t212_cashguard.Lifecycle.Evidence.{
  Outcome, returned, invalid_order_transition, value_error, Staged, Evidence, status_eq, stage,
  refuses_evidence, order_event, audit_log, transition_with_rows,
  transition_order_status_with_evidence,
}

module _ {N : Type 0} (db : Staged) (order : Order N) (to_status : Status) (e : Evidence) where
  abbrev pub Run : Type 0
  Run = Outcome (Option OrderEvent) × Order N × Staged

  -- The order with the new status, and the session with one event and one audit entry more.
  abbrev pub moved : Order N
  moved = record order { status = to_status }

  abbrev pub recorded : Staged
  recorded = stage (order_event order to_status e) (audit_log order to_status e) db

  -- The three ways in which a transition ends once its arguments have passed.
  abbrev pub Ends : Run → Type 0
  Ends run =
      ((run ≡ (invalid_order_transition, order, db))
        × (can_transition_order_status order.status to_status ≡ false))
      ⊎ ((run ≡ (returned none, moved, db)) × (order.status ≡ to_status))
      ⊎ ((run ≡ (returned (some (order_event order to_status e)), moved, recorded))
          × (can_transition_order_status order.status to_status ≡ true)
          × (order.status ≢ to_status))

  with_rows-Ends : Ends (transition_with_rows db order to_status e)
  unfolding transition_with_rows
  with_rows-Ends = elim (Bool-cases (can_transition_order_status order.status to_status)) [
    | inr no_edge ↦ inl (ground arith, no_edge)
    | inl edge ↦ elim (Bool-cases (status_eq order.status to_status)) [
      | inl same ↦ inr (inl (ground arith, status_eq_of_same _ _ same))
      | inr differ ↦ inr (inr (ground arith, edge, λ q. differs differ q))
    ]
  ]
    where
      differs : status_eq order.status to_status ≡ false → order.status ≢ to_status
      differs f q = cc (status_eq_refl to_status, ap (λ x. status_eq x to_status) q)

  -- A transition with evidence either is refused, by its arguments or by the table, and changes
  -- neither the order nor the session; or it is to the status that the order has, and stages nothing;
  -- or it is an edge of the table to another status, and stages exactly one event and one audit entry.
  pub with_evidence-Ends :
      ((transition_order_status_with_evidence db order to_status e ≡ (value_error, order, db))
        × (refuses_evidence e ≡ true))
      ⊎ Ends (transition_order_status_with_evidence db order to_status e)
  unfolding transition_order_status_with_evidence
  with_evidence-Ends = elim (Bool-cases (refuses_evidence e)) [
    | inl refused ↦ inl (ground arith, refused)
    | inr fine ↦ inr (subst Ends (ground arith) with_rows-Ends)
  ]
