-- ===== src/Execution/Refinement.antt =====
-- apps/api/app/execution/engine.py: that one order is transmitted once at most.
use mathlib.Core.Path.{subst}
use t212_cashguard.Broker.Record.{some_or}
use t212_cashguard.Common.{
  ◌≡◌, ◌⊎◌, inl, inr, refl, ap, sym, ◌∙◌, ℕ, ◌≤◌, true, false, some, List, [], ◌∷◌, ◌++◌, ◌==◌,
  length, arith, Bool-cases,
}
use t212_cashguard.Common.Numeric.{Decimals}
use t212_cashguard.Store.{Order, OrderSubmissionAttempt}
use t212_cashguard.Execution.{Session, done}
use t212_cashguard.Execution.Submit.{Surroundings, Request, dispatched, begin_submission}
use t212_cashguard.Execution.Dispatch.{submission-Ends}
use t212_cashguard.Execution.Outbox.{
  World, order_ids, taken, commit_session, Phase, unsent, recorded, transmitted, lost, Moves,
  records, transmits, loses, Steps, dispatches, sends, dies, writes, Shows,
}

module _ (D : Decimals) where
  open D use {Num}

  -- What an accepted commit of one new attempt leaves.
  abbrev Commits : World Num → Session Num → OrderSubmissionAttempt → World Num → Type 0
  Commits w s a w' =
      (taken a.order_id w.attempts ≡ false)
      × (w'.stored.id ≡ s.order.id)
      × (w'.attempts ≡ w.attempts ++ a ∷ [])
      × (w'.awaiting ≡ w.awaiting)
      × (w'.sent ≡ w.sent)

  commit-Commits :
      (w : World Num) (s : Session Num) (a : OrderSubmissionAttempt) (w' : World Num)
      → s.attempts ≡ a ∷ []
      → commit_session w s ≡ some w'
      → Commits w s a w'
  unfolding commit_session
  commit-Commits w s a w' e h = elim (Bool-cases (s.order.version == w.stored.version)) [
    | inr stale ↦ absurd (cc (rw stale at h))
    | inl current ↦ elim (Bool-cases (taken a.order_id w.attempts)) [
      | inl refused ↦ absurd (cc (rw (current, e, refused) at h))
      | inr accepted ↦
          subst (Commits w s a) (ap (λ o. some_or o w) (rw (current, e, accepted) at h))
            (accepted, refl, refl, refl, refl)
    ]
  ]

  taken_of_recorded :
      (id : ℕ) (rows : List OrderSubmissionAttempt)
      → order_ids rows ≡ id ∷ []
      → taken id rows ≡ true
  taken_of_recorded id [] h = absurd (cc)
  taken_of_recorded id (a ∷ rows) h = ground arith

  -- What a dispatch adds.
  abbrev Added : World Num → World Num → Type 0
  Added w w' =
      (a : OrderSubmissionAttempt) × (a.order_id ≡ w.stored.id)
      × (taken a.order_id w.attempts ≡ false)
      × (w'.stored.id ≡ w.stored.id)
      × (w'.attempts ≡ w.attempts ++ a ∷ [])
      × (w'.awaiting ≡ w.awaiting)
      × (w'.sent ≡ w.sent)

  dispatch-Added :
      (around : Surroundings) (s s' : Session Num) (request : Request Num)
      (attempt : OrderSubmissionAttempt) (w w' : World Num)
      → s.order.id ≡ w.stored.id
      → s.attempts ≡ []
      → begin_submission D around s ≡ (done (dispatched request attempt), s')
      → commit_session w s' ≡ some w'
      → Added w w'
  dispatch-Added around s s' request attempt w w' same fresh ran committed =
      elim (submission-Ends D around s) [
        | inl (request', a, q, _, _, (_, rows, id, own, _)) ↦
            let rows' : s'.attempts ≡ a ∷ [] =
              sym (ap (λ run. run.1.attempts) ran) ∙ rows ∙ ap (λ l. l ++ a ∷ []) fresh in
            let (free, id', more, waits, sent) = commit-Commits w s' a w' rows' committed in
            (
              a,
              own ∙ same,
              free,
              id' ∙ sym (ap (λ run. run.1.order.id) ran) ∙ id ∙ same,
              more,
              waits,
              sent,
            )
        | inr (_, no_dispatch) ↦ absurd (no_dispatch request attempt (ap (λ run. run.0) ran))
      ]

  -- A step keeps the phase, or moves as the phases allow.
  abbrev pub Refines : Phase → World Num → Type 0
  Refines p w' = Shows D w' p ⊎ ((p' : Phase) × Moves p p' × Shows D w' p')

  recorded_twice :
      {A : Type 0} (w w' : World Num) → order_ids w.attempts ≡ w.stored.id ∷ [] → Added w w' → A
  recorded_twice w w' rows (a, own, free, _, _, _, _) =
      absurd (cc (own, free, taken_of_recorded w.stored.id w.attempts rows))

  rows_of :
      {id id' : ℕ} (a : OrderSubmissionAttempt) {rows rows' : List OrderSubmissionAttempt}
      → id' ≡ id
      → rows' ≡ rows ++ a ∷ []
      → a.order_id ≡ id
      → rows ≡ []
      → order_ids rows' ≡ id' ∷ []
  rows_of a i more own none_ =
      ap order_ids (more ∙ ap (λ l. l ++ a ∷ []) none_) ∙ ap (λ x. x ∷ []) (own ∙ sym i)

  tail_of :
      {request q : Request Num} {rest : List (Request Num)} → request ∷ rest ≡ q ∷ [] → rest ≡ []
  tail_of e = cc

  no_rows : (rows : List OrderSubmissionAttempt) → order_ids rows ≡ [] → rows ≡ []
  no_rows [] h = refl
  no_rows (a ∷ rows) h = absurd (cc)

  written-Shows :
      (p : Phase) (w : World Num) (order : Order Num) (attempts : List OrderSubmissionAttempt)
      → order.id ≡ w.stored.id
      → order_ids attempts ≡ order_ids w.attempts
      → Shows D w p
      → Shows D (record w { stored = order; attempts = attempts }) p
  written-Shows unsent w order attempts i e (rows, waits, sent) =
      (no_rows attempts (e ∙ ap order_ids rows), waits, sent)
  written-Shows recorded w order attempts i e (rows, waits, sent) =
      (e ∙ rows ∙ ap (λ x. x ∷ []) (sym i), waits, sent)
  written-Shows transmitted w order attempts i e (rows, waits, sent) =
      (e ∙ rows ∙ ap (λ x. x ∷ []) (sym i), waits, sent)
  written-Shows lost w order attempts i e (rows, waits, sent) =
      (e ∙ rows ∙ ap (λ x. x ∷ []) (sym i), waits, sent)

  Added-Refines :
      (p : Phase) (w w' : World Num) (request : Request Num)
      → Shows D w p
      → Added w w'
      → Refines p (record w' { awaiting = request ∷ w.awaiting })
  Added-Refines unsent w w' request (rows, waits, sent) (a, own, free, id, more, waits', sent') =
      inr (
        recorded,
        records,
        (rows_of a id more own rows, (request, ap (λ l. request ∷ l) waits), sent' ∙ sent),
      )
  Added-Refines recorded w w' request (rows, _, _) added = recorded_twice w w' rows added
  Added-Refines transmitted w w' request (rows, _, _) added = recorded_twice w w' rows added
  Added-Refines lost w w' request (rows, _, _) added = recorded_twice w w' rows added

  sent-Refines :
      (p : Phase) (w : World Num) (request : Request Num) (rest : List (Request Num))
      → Shows D w p
      → w.awaiting ≡ request ∷ rest
      → Refines p (record w { awaiting = rest; sent = request ∷ w.sent })
  sent-Refines unsent w request rest (_, waits, _) e = absurd (cc (waits, e))
  sent-Refines recorded w request rest (rows, (q, waits), sent) e = inr (
    transmitted,
    transmits,
    (rows, tail_of (sym e ∙ waits), (request, ap (λ l. request ∷ l) sent)),
  )
  sent-Refines transmitted w request rest (_, waits, _) e = absurd (cc (waits, e))
  sent-Refines lost w request rest (_, waits, _) e = absurd (cc (waits, e))

  died-Refines :
      (p : Phase) (w : World Num) (request : Request Num) (rest : List (Request Num))
      → Shows D w p
      → w.awaiting ≡ request ∷ rest
      → Refines p (record w { awaiting = rest })
  died-Refines unsent w request rest (_, waits, _) e = absurd (cc (waits, e))
  died-Refines recorded w request rest (rows, (q, waits), sent) e =
      inr (lost, loses, (rows, tail_of (sym e ∙ waits), sent))
  died-Refines transmitted w request rest (_, waits, _) e = absurd (cc (waits, e))
  died-Refines lost w request rest (_, waits, _) e = absurd (cc (waits, e))

  -- Whatever happens next, an order that stands at a phase stays there, or goes from unsent to
  -- recorded, or from recorded to transmitted or lost.
  pub step-Refines : (p : Phase) (w w' : World Num) → Shows D w p → Steps D w w' → Refines p w'
  step-Refines p _ _ shows (writes order attempts w i e) =
      inl (written-Shows p w order attempts i e shows)
  step-Refines p _ _ shows (sends request rest w e) = sent-Refines p w request rest shows e
  step-Refines p _ _ shows (dies request rest w e) = died-Refines p w request rest shows e
  step-Refines p _ _ shows (dispatches around s s' request attempt w w' same fresh ran committed) =
      Added-Refines p w w' request shows
        (dispatch-Added around s s' request attempt w w' same fresh ran committed)

  -- Any number of steps.
  pub data Reaches : World Num → World Num → Type 0 where
    stays : (w : World Num) → Reaches w w
    after : (w w' w'' : World Num) → Reaches w w' → Steps D w' w'' → Reaches w w''

  reached-Shows : (w w' : World Num) → Shows D w unsent → Reaches w w' → (p : Phase) × Shows D w' p
  reached-Shows w _ shows (stays _) = (unsent, shows)
  reached-Shows w _ shows (after _ w' w'' r step) =
      let (p, shows') = reached-Shows w w' shows r in
      elim (step-Refines p w' w'' shows' step) [
        | inl same ↦ (p, same)
        | inr (p', _, moved) ↦ (p', moved)
      ]

  one_row :
      (id : ℕ) (rows : List OrderSubmissionAttempt) → order_ids rows ≡ id ∷ [] → length rows ≡ 1
  one_row id [] h = absurd (cc)
  one_row id (a ∷ []) h = refl
  one_row id (a ∷ b ∷ rows) h = absurd (cc)

  sent-Few :
      (w : World Num) (p : Phase)
      → Shows D w p
      → (length w.sent ≤ length w.attempts) × (length w.attempts ≤ 1)
  sent-Few w unsent (rows, _, sent) = omega (arith, ap length rows, ap length sent)
  sent-Few w recorded (rows, _, sent) =
      omega (arith, one_row w.stored.id w.attempts rows, ap length sent)
  sent-Few w transmitted (rows, _, (q, sent)) =
      omega (arith, one_row w.stored.id w.attempts rows, ap length sent)
  sent-Few w lost (rows, _, sent) =
      omega (arith, one_row w.stored.id w.attempts rows, ap length sent)

  -- From an order without an attempt, however many processes submit it, from whatever copies of it,
  -- there is never more than one attempt, and never more than one request sent for it, none while no
  -- attempt is stored.
  pub sent_once :
      (w w' : World Num)
      → Shows D w unsent
      → Reaches w w'
      → (length w'.sent ≤ length w'.attempts) × (length w'.attempts ≤ 1)
  sent_once w w' shows r = let (p, shows') = reached-Shows w w' shows r in sent-Few w' p shows'
