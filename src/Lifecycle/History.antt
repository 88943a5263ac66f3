-- ===== src/Lifecycle/History.antt =====
-- apps/api/app/execution/state_machine.py: what a sequence of transitions with evidence stages.
use t212_cashguard.Common.{
  suc, ◌+◌, ◌≤◌, ◌≡◌, ◌≢◌, inl, inr, refl, sym, true, Option, List, [], ◌∷◌, ◌++◌, arith, length,
}
use mathlib.Core.Path.{subst}
use t212_cashguard.Store.{Order, OrderEvent, AuditLog}
use t212_cashguard.Lifecycle.{Status, can_transition_order_status}
use t212_cashguard.Lifecycle.Edges.{rank, rank_le, transition_raises_rank}
use t212_cashguard.Lifecycle.Evidence.{
  Outcome, Staged, Evidence, order_event, audit_log, transition_order_status_with_evidence,
}
use t212_cashguard.Lifecycle.Trail.{with_evidence-Ends}

-- The events lead from one status to another along edges of the table, each to another status.
abbrev pub Leads : Status → List OrderEvent → Status → Type 0
Leads s [] t = s ≡ t
Leads s (e ∷ es) t =
    (e.from_status ≡ s)
    × (can_transition_order_status e.from_status e.to_status ≡ true)
    × (e.from_status ≢ e.to_status)
    × Leads e.to_status es t

-- An audit entry says of an order what an event says of it.
abbrev pub Agrees : OrderEvent → AuditLog → Type 0
Agrees e a =
    (a.entity_id ≡ e.order_id)
    × (a.event_type ≡ e.event_type)
    × (a.from_status ≡ e.from_status)
    × (a.to_status ≡ e.to_status)

-- As many audit entries as events, agreeing one by one.
abbrev pub AgreesAll : List OrderEvent → List AuditLog → Type 0
AgreesAll [] [] = Unit
AgreesAll [] (_ ∷ _) = ⊥
AgreesAll (_ ∷ _) [] = ⊥
AgreesAll (e ∷ es) (a ∷ as') = Agrees e a × AgreesAll es as'

Leads-snoc :
    (s : Status) (es : List OrderEvent) (e : OrderEvent)
    → Leads s es e.from_status
    → can_transition_order_status e.from_status e.to_status ≡ true
    → e.from_status ≢ e.to_status
    → Leads s (es ++ e ∷ []) e.to_status
Leads-snoc s [] e h c ne = (sym h, c, ne, refl)
Leads-snoc s (x ∷ es) e h c ne = (h.0, h.1, h.2, Leads-snoc x.to_status es e h.3 c ne)

AgreesAll-snoc :
    (es : List OrderEvent) (as' : List AuditLog) (e : OrderEvent) (a : AuditLog)
    → AgreesAll es as'
    → Agrees e a
    → AgreesAll (es ++ e ∷ []) (as' ++ a ∷ [])
AgreesAll-snoc [] [] e a h k = (k, tt)
AgreesAll-snoc [] (_ ∷ _) e a h k = absurd h
AgreesAll-snoc (_ ∷ _) [] e a h k = absurd h
AgreesAll-snoc (x ∷ es) (y ∷ as') e a h k = (h.0, AgreesAll-snoc es as' e a h.1 k)

Leads-rank :
    (s : Status) (es : List OrderEvent) (t : Status) → Leads s es t → length es + rank s ≤ rank t
Leads-rank s [] t h = subst (λ x. length {A = OrderEvent} [] + rank s ≤ rank x) h (omega arith)
Leads-rank s (e ∷ es) t h =
    let step = transition_raises_rank e.from_status e.to_status h.1 h.2 in
    let tail = Leads-rank e.to_status es t h.3 in
    subst (λ x. suc (length es) + rank x ≤ rank t) h.0 (omega (arith, step, tail))

module _ {N : Type 0} where
  -- The requests are made in turn, whatever becomes of each.
  unfoldable pub after_requests : Order N → Staged → List (Status × Evidence) → Order N × Staged
  after_requests order db [] = (order, db)
  after_requests order db ((t, e) ∷ rest) =
      let (_, order', db') = transition_order_status_with_evidence db order t e in
      after_requests order' db' rest

  abbrev IsRecorded : Status → Order N → Staged → Type 0
  IsRecorded start order db = Leads start db.events order.status × AgreesAll db.events db.audits

  -- After a run that ends in this way, what was recorded still is.
  abbrev StaysRecorded : Status → Outcome (Option OrderEvent) × Order N × Staged → Type 0
  StaysRecorded start (_, order, db) = IsRecorded start order db

  request-IsRecorded :
      (start : Status) (db : Staged) (order : Order N) (t : Status) (e : Evidence)
      → IsRecorded start order db
      → let (_, order', db') = transition_order_status_with_evidence db order t e in
        IsRecorded start order' db'
  unfolding order_event audit_log
  request-IsRecorded start db order t e (leads, agrees) = elim (with_evidence-Ends db order t e) [
    | inl (q, _) ↦ subst (StaysRecorded start) (sym q) (leads, agrees)
    | inr (inl (q, _)) ↦ subst (StaysRecorded start) (sym q) (leads, agrees)
    | inr (inr (inl (q, same))) ↦
        subst (StaysRecorded start) (sym q) (subst (Leads start db.events) same leads, agrees)
    | inr (inr (inr (q, edge, ne))) ↦ subst (StaysRecorded start) (sym q) (
      Leads-snoc start db.events (order_event order t e) leads edge ne,
      AgreesAll-snoc db.events db.audits (order_event order t e) (audit_log order t e) agrees
          (refl, refl, refl, refl),
    )
  ]

  after_requests-IsRecorded :
      (start : Status) (order : Order N) (db : Staged) (requests : List (Status × Evidence))
      → IsRecorded start order db
      → let (order', db') = after_requests order db requests in IsRecorded start order' db'
  unfolding after_requests
  after_requests-IsRecorded start order db [] h = h
  after_requests-IsRecorded start order db ((t, e) ∷ rest) h =
      let (_, order', db') = transition_order_status_with_evidence db order t e in
      after_requests-IsRecorded start order' db' rest (request-IsRecorded start db order t e h)

  -- However an order's status is changed, if each change is a transition with evidence: the staged
  -- events lead from its first status to its last along edges of the table, each has its audit
  -- entry, and there are four of them at most.
  pub history_replays :
      (order : Order N) (requests : List (Status × Evidence))
      → let (order', db') = after_requests order (record { events = []; audits = [] }) requests in
        Leads order.status db'.events order'.status
        × AgreesAll db'.events db'.audits
        × (length db'.events ≤ 4)
  history_replays order requests =
      let (order', db') = after_requests order (record { events = []; audits = [] }) requests in
      let h =
        after_requests-IsRecorded order.status order (record { events = []; audits = [] }) requests
          (refl, tt) in
      (
        h.0,
        h.1,
        omega (arith, Leads-rank order.status db'.events order'.status h.0, rank_le order'.status),
      )
