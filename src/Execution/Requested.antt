-- ===== src/Execution/Requested.antt =====
-- apps/api/app/execution/engine.py: what `request_cancel` may make of an order.
use t212_cashguard.Common.{
  ◌≡◌, ◌⊎◌, inl, inr, refl, Bool, true, false, not, ◌&&◌, ◌||◌, Option, none, some, String, [],
  arith, Bool-cases,
}
use t212_cashguard.Store.{Order}
use t212_cashguard.Lifecycle.{known, submission_unknown, cancelled, can_transition_order_status}
use t212_cashguard.Lifecycle.Evidence.{status_eq}
use t212_cashguard.Execution.{
  Session, Result, Raised, done, failed, cancellation_failed, continue, return, log_order_event,
}
use t212_cashguard.Execution.Transition.{transition-Ends, transition-refused}
use t212_cashguard.Execution.Reconcile.{has_id}
use t212_cashguard.Execution.Cancel.{
  block_unknown_submission_cancel, send_cancel, cancel_locally, is_unknown, request_of,
  refuse_ended, request_cancel,
}

module _ {N : Type 0} where
  -- What is not touched when a cancellation raises.
  abbrev pub Kept : Order N → Order N → Type 0
  Kept before order =
      (order.status ≡ before.status)
      × (order.filled_quantity ≡ before.filled_quantity)
      × (order.broker_order_id ≡ before.broker_order_id)

  -- A request that raised, or that has been taken with the order as it is stored.
  unfoldable pub SendEnds : Order N → Result (Unit {0}) × Session N → Type 0
  SendEnds order run =
      ((run.0 ≡ done tt) × (run.1.order ≡ order))
      ⊎ (((e : Raised) × (run.0 ≡ failed e)) × Kept order run.1.order)

  pub send-Ends :
      (failure : Option String) (s : Session N) → SendEnds s.order (send_cancel failure s)
  unfolding SendEnds send_cancel block_unknown_submission_cancel log_order_event
  send-Ends none s = inl (refl, refl)
  send-Ends (some t) s = elim (Bool-cases (status_eq s.order.status (known submission_unknown))) [
    | inl e ↦ rw e (inr ((cancellation_failed, refl), (refl, refl, refl)))
    | inr e ↦ rw e (inr ((cancellation_failed, refl), (refl, refl, refl)))
  ]

  -- An order that never reached a broker.
  abbrev pub IsLocal : Order N → Type 0
  IsLocal order = (has_id order.broker_order_id ≡ false) ⊎ (order.is_dry_run ≡ true)

  abbrev pub LocallyCancelled : Order N → Order N → Type 0
  LocallyCancelled before order =
      IsLocal before
      × (is_unknown before ≡ false)
      × (order.status ≡ known cancelled)
      × (order.filled_quantity ≡ before.filled_quantity)

  -- The ways in which `request_cancel` ends.
  unfoldable pub RequestEnds : Order N → Result Bool × Session N → Type 0
  RequestEnds stored run =
      (((e : Raised) × (run.0 ≡ failed e)) × Kept stored run.1.order)
      ⊎ ((accepted : Bool) × (run.0 ≡ done accepted) × (run.1.order ≡ stored))
      ⊎ ((run.0 ≡ done false) × LocallyCancelled stored run.1.order)

  local-Ends :
      (s : Session N)
      → IsLocal s.order
      → is_unknown s.order ≡ false
      → RequestEnds s.order (continue (λ _. return false) (cancel_locally s))
  unfolding RequestEnds cancel_locally
  local-Ends s l u =
      elim (transition-Ends (known cancelled) "cancelled" "local cancellation requested" [] s) [
        | inl (x, f) ↦ rw f (inl ((x, refl), (refl, refl, refl)))
        | inr (staged, f) ↦ rw f (inr (inr (refl, (l, u, refl, refl))))
      ]

  sent-Ends :
      (order : Order N) (run : Result (Unit {0}) × Session N)
      → SendEnds order run
      → RequestEnds order (continue (λ _. return true) run)
  unfolding SendEnds RequestEnds
  sent-Ends order (done _, s) (inl (_, same)) = inr (inl (true, refl, same))
  sent-Ends order (done _, s) (inr ((e, q), k)) = absurd (cc)
  sent-Ends order (failed e, s) (inl (q, same)) = absurd (cc)
  sent-Ends order (failed e, s) (inr (_, k)) = inl ((e, refl), k)

  is_local :
      (order : Order N)
      → (not (has_id order.broker_order_id) || order.is_dry_run) ≡ true
      → IsLocal order
  is_local order h = elim (Bool-cases order.is_dry_run) [
    | inl dry ↦ inr dry
    | inr wet ↦ inl (ground arith)
  ]

  request_of-Ends :
      (accepted_before : Bool) (failure : Option String) (s : Session N)
      → RequestEnds s.order (request_of accepted_before failure s.order s)
  unfolding RequestEnds block_unknown_submission_cancel log_order_event
  request_of-Ends accepted_before failure s =
      elim (Bool-cases (is_unknown s.order && not (has_id s.order.broker_order_id))) [
        | inl e ↦ rw e (inl ((cancellation_failed, refl), (refl, refl, refl)))
        | inr e ↦ elim (Bool-cases (not (has_id s.order.broker_order_id) || s.order.is_dry_run)) [
          | inl l ↦ rw (e, l) (local-Ends s (is_local s.order l) (ground arith))
          | inr l ↦ elim (Bool-cases accepted_before) [
            | inl a ↦ rw (e, l, a) (inr (inl (false, refl, refl)))
            | inr a ↦ rw (e, l, a) (sent-Ends s.order (send_cancel failure s) (send-Ends failure s))
          ]
        ]
      ]

  refused-Ends :
      (s : Session N)
      → can_transition_order_status s.order.status (known cancelled) ≡ false
      → RequestEnds s.order (refuse_ended s)
  unfolding RequestEnds
  refused-Ends s no_edge =
      let (x, f) =
        transition-refused (known cancelled) "cancelled" "local cancellation requested" [] s
          no_edge in
      rw f (inl ((x, refl), (refl, refl, refl)))

  already : (s : Session N) → RequestEnds s.order (done false, s)
  unfolding RequestEnds
  already s = inr (inl (false, refl, refl))

  pub request-Ends :
      (stored : Order N) (accepted_before : Bool) (failure : Option String) (s : Session N)
      → RequestEnds stored (request_cancel stored accepted_before failure s)
  unfolding request_cancel
  request-Ends stored accepted_before failure s =
      let s' : Session N = record s { order = stored } in
      elim (Bool-cases (status_eq stored.status (known cancelled))) [
        | inl c ↦ rw c (already s')
        | inr c ↦
            elim (Bool-cases (
              not (is_unknown stored)
              && not (can_transition_order_status stored.status (known cancelled)))) [
                | inl r ↦ rw (c, r) (refused-Ends s' (ground arith))
                | inr r ↦ rw (c, r) (request_of-Ends accepted_before failure s')
              ]
      ]
