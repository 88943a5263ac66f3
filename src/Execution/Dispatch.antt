-- ===== src/Execution/Dispatch.antt =====
-- apps/api/app/execution/engine.py: when `submit_order` hands a request to the broker.
use mathlib.Core.Path.{subst}
use t212_cashguard.Common.{
  ◌≡◌, ◌≢◌, ◌⊎◌, inl, inr, refl, ap, sym, ◌∙◌, Bool, true, false, not, ◌&&◌, Option, none, some,
  String, count, List, [], ◌∷◌, ◌++◌, ltb, arith, Bool-cases, if◌then◌else◌, str_eq,
}
use t212_cashguard.Common.Numeric.{Decimals}
use t212_cashguard.Store.{Order, OrderSubmissionAttempt}
use t212_cashguard.Lifecycle.{
  known, pending_intent, submission_unknown, error, can_transition_order_status,
  order_status_transitions,
}
use t212_cashguard.Lifecycle.Evidence.{status_eq}
use t212_cashguard.Lifecycle.Edges.{status_eq_of_same}
use t212_cashguard.Execution.{
  ◌>>◌, Session, continue, raise, return, safety_violation, Decision, Result, done, failed,
  transition,
}
use t212_cashguard.Execution.Transition.{KeyFits, Keeps, transition-moved, transition-too_long}
use t212_cashguard.Execution.Submit.{
  Surroundings, require_order_submission_allowed, Begun, Request, dispatched, simulated,
  build_broker_request, begin_submission, stage_dispatch, record_failed_before_dispatch, prepare,
  gated, refuse_blocked, simulate, close_blocked_buy,
}
use t212_cashguard.Execution.Gate.{Released, gate-Ends}

-- What `begin_submission` has staged when it hands a request over: the order no longer knows its
-- outcome, and the one new attempt is the order's and has no outcome yet.
abbrev pub Committed : {N : Type 0} → Session N → OrderSubmissionAttempt → Session N → Type 0
Committed s attempt s' =
    (s'.order.status ≡ known submission_unknown)
    × (s'.attempts ≡ s.attempts ++ attempt ∷ [])
    × (s'.order.id ≡ s.order.id)
    × (attempt.order_id ≡ s.order.id)
    × (attempt.outcome ≡ none)

module _ (D : Decimals) where
  open D use {Num}

  -- What must hold of the order.
  abbrev pub Ready : Order Num → Request Num → Type 0
  Ready order request =
      (order.status ≡ known pending_intent)
      × (order.is_dry_run ≡ false)
      × (build_broker_request D order ≡ some request)

  -- A submission ends in one of two ways.
  abbrev pub SubmissionEnds : Surroundings → Session Num → Result (Begun Num) × Session Num → Type 0
  SubmissionEnds around s run =
      ((request : Request Num) × (attempt : OrderSubmissionAttempt) × (run.0
          ≡ done (dispatched request attempt))
        × Ready s.order request
        × Released around
        × Committed s attempt run.1)
      ⊎ ((run.1.attempts ≡ s.attempts)
          × ((request : Request Num) (attempt : OrderSubmissionAttempt)
              → run.0 ≢ done (dispatched request attempt)))

  prepared_case :
      (around : Surroundings) (s : Session Num) (request : Option (Request Num))
      → build_broker_request D s.order ≡ request
      → s.order.status ≡ known pending_intent
      → s.order.is_dry_run ≡ false
      → Released around
      → SubmissionEnds around s (prepare D around request s)
  unfolding stage_dispatch record_failed_before_dispatch can_transition_order_status status_eq
      order_status_transitions
  prepared_case around s none e pending wet r =
      elim (Bool-cases (ltb 100 (count s.order.client_order_key))) [
        | inl long ↦
            rw
              (transition-too_long s (known error) "broker_error"
                "order could not be prepared; nothing was sent"
                (("error_type", some "ValueError") ∷ []) (refl, refl) long)
              (inr (refl, λ q a. cc))
        | inr fits ↦
            rw
              (transition-moved s (known error) "broker_error"
                "order could not be prepared; nothing was sent"
                (("error_type", some "ValueError") ∷ []) (refl, refl) fits (rw pending refl)
                (rw pending refl))
              (inr (refl, λ q a. cc))
      ]
  prepared_case around s (some request) e pending wet r =
      elim (Bool-cases (ltb 100 (count s.order.client_order_key))) [
        | inl long ↦
            rw
              (transition-too_long s (known submission_unknown) "dispatch_committed"
                "broker request recorded before transmission" [] (refl, refl) long)
              (inr (refl, λ q a. cc))
        | inr fits ↦
            rw
              (transition-moved s (known submission_unknown) "dispatch_committed"
                "broker request recorded before transmission" [] (refl, refl) fits (rw pending refl)
                (rw pending refl))
              (inl (request, _, refl, (pending, wet, e), r, (refl, refl, refl, refl, refl)))
      ]

  -- A run that hands nothing over.
  abbrev Idle : Session Num → Result (Begun Num) × Session Num → Type 0
  Idle s run =
      (run.1.attempts ≡ s.attempts)
      × ((request : Request Num) (attempt : OrderSubmissionAttempt)
          → run.0 ≢ done (dispatched request attempt))

  close_blocked_buy-Keeps : (code : String) → Keeps {N = Num} (close_blocked_buy code)
  unfolding close_blocked_buy transition
  close_blocked_buy-Keeps code s = ground arith

  refuse_blocked-Keeps : (code : String) (order : Order Num) → Keeps (refuse_blocked code order)
  refuse_blocked-Keeps code order s =
      elim (Bool-cases (str_eq order.side "buy" && not order.is_dry_run)) [
        | inl buy ↦ rw buy (close_blocked_buy-Keeps code s)
        | inr other ↦ rw other refl
      ]

  simulate-Keeps : Keeps (simulate D)
  unfolding simulate transition
  simulate-Keeps s = ground arith

  -- What raises, or returns that it has simulated, hands nothing over.
  raised-Idle :
      (s : Session Num) (code : String) (run : Result (Unit {0}) × Session Num)
      → run.1.attempts ≡ s.attempts
      → Idle s (continue (λ _. raise (safety_violation code)) run)
  raised-Idle s code (done _, s') e = (e, λ q a. cc)
  raised-Idle s code (failed x, s') e = (e, λ q a. cc)

  simulated-Idle :
      (s : Session Num) (run : Result (Unit {0}) × Session Num)
      → run.1.attempts ≡ s.attempts
      → Idle s (continue (λ _. return simulated) run)
  simulated-Idle s (done _, s') e = (e, λ q a. cc)
  simulated-Idle s (failed x, s') e = (e, λ q a. cc)

  gated-Ends :
      (around : Surroundings) (s : Session Num) (code : Option String)
      → s.order.status ≡ known pending_intent
      → (code ≡ none → s.order.is_dry_run ≡ false → Released around)
      → SubmissionEnds around s (gated D around code s)
  gated-Ends around s (some code) pending r =
      inr (raised-Idle s code (refuse_blocked code s.order s) (refuse_blocked-Keeps code s.order s))
  gated-Ends around s none pending r = elim (Bool-cases s.order.is_dry_run) [
    | inl dry ↦
        subst (SubmissionEnds around s) (sym (ap run dry))
          (inr (simulated-Idle s (simulate D s) (simulate-Keeps s)))
    | inr wet ↦
        subst (SubmissionEnds around s) (sym (ap run wet))
          (prepared_case around s _ refl pending wet (r refl wet))
  ]
    where
      run : Bool → Result (Begun Num) × Session Num
      run dry =
          (if dry
              then (do simulate D; return simulated)
              else prepare D around (build_broker_request D s.order))
            s

  -- A request is handed over only for an order that is a pending intent, no dry run and well formed,
  -- with the kill switch off, the broker's environment allowed and, in live mode, the dispatch
  -- authorized; and then the order is `submission_unknown` and has one more attempt, without an
  -- outcome, before the request is sent. A submission that ends otherwise adds no attempt.
  pub submission-Ends :
      (around : Surroundings) (s : Session Num)
      → SubmissionEnds around s (begin_submission D around s)
  unfolding begin_submission
  submission-Ends around s = elim (Bool-cases (status_eq s.order.status (known pending_intent))) [
    | inr other ↦ rw other (inr (refl, λ q a. cc))
    | inl pending ↦
        let (code, decisions, e, r, _) = gate-Ends around s in
        rw (pending, e)
          (gated-Ends around (record s { decisions = decisions }) code
            (status_eq_of_same _ _ pending) r)
  ]

  staged_case :
      (around : Surroundings) (s : Session Num) (request : Request Num)
      → KeyFits s.order
      → s.order.status ≡ known pending_intent
      → (attempt : OrderSubmissionAttempt) × ((prepare D around (some request) s).0
          ≡ done (dispatched request attempt))
  unfolding stage_dispatch can_transition_order_status status_eq order_status_transitions
  staged_case around s request fits pending =
      rw
        (transition-moved s (known submission_unknown) "dispatch_committed"
          "broker request recorded before transmission" [] (refl, refl) fits (rw pending refl)
          (rw pending refl))
        (_, refl)

  passed_gate :
      (around : Surroundings) (s : Session Num) (code : Option String) (decisions : List Decision)
      → status_eq s.order.status (known pending_intent) ≡ true
      → require_order_submission_allowed around s ≡ (done code, record s { decisions = decisions })
      → begin_submission D around s ≡ gated D around code (record s { decisions = decisions })
  unfolding begin_submission
  passed_gate around s code decisions pending ran = rw (pending, ran) refl

  wet_run :
      (around : Surroundings) (s : Session Num) (request : Request Num)
      → s.order.is_dry_run ≡ false
      → build_broker_request D s.order ≡ some request
      → gated D around none s ≡ prepare D around (some request) s
  wet_run around s request wet e = rw (e, wet) refl

  -- An order that is a pending intent, no dry run and well formed is handed over, with the request
  -- built from it, if the kill switch is off, the environment allowed, the dispatch authorized in
  -- live mode, and the order's key no longer than a hundred characters.
  pub admissible_handed_over :
      (around : Surroundings) (s : Session Num) (request : Request Num)
      → KeyFits s.order
      → Ready s.order request
      → Released around
      → (attempt : OrderSubmissionAttempt) × ((begin_submission D around s).0
          ≡ done (dispatched request attempt))
  unfolding status_eq
  admissible_handed_over around s request fits (pending, wet, e) r =
      let (code, decisions, ran, _, passes) = gate-Ends around s in
      let s' = record s { decisions = decisions } in
      let (attempt, q) = staged_case around s' request fits pending in
      (
        attempt,
        (ap (λ run. run.0) (passed_gate around s code decisions (rw pending refl) ran)
              ∙ ap (λ c. (gated D around c s').0) (passes wet r)
              ∙ ap (λ run. run.0) (wet_run around s' request wet e))
            ∙ q,
      )
