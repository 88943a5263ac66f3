-- ===== src/Execution/Reconciled.antt =====
-- apps/api/app/execution/engine.py: what `reconcile_order` makes of an order.
use mathlib.Core.Path.{subst}
use Prim.Native.String.{◌++◌}
use t212_cashguard.Common.{
  ◌≡◌, ◌≢◌, ◌⊎◌, inl, inr, refl, ap, sym, ℕ, Bool, true, false, Option, none, some, String, [], ◌∷◌,
  arith, Bool-cases, if◌then◌else◌,
}
use t212_cashguard.Common.Numeric.{Decimals, IsOrdered}
use t212_cashguard.Store.{Order}
use t212_cashguard.Lifecycle.{known, accepted, submission_unknown, filled, cancelled}
use t212_cashguard.Lifecycle.Evidence.{status_eq}
use t212_cashguard.Lifecycle.Edges.{status_eq_of_same, status_eq_refl}
use t212_cashguard.Broker.{Conversions}
use t212_cashguard.Broker.Record.{RecordConversions}
use t212_cashguard.Broker.Record.Verdict.{FinalRecord, final_record, open_record}
use t212_cashguard.Execution.{Session, Result, Raised, done, failed, database_error}
use t212_cashguard.Execution.Transition.{transition-Ends}
use t212_cashguard.Execution.Asking.{
  Reads, Reading, found, no_record, untrusted_record, unread, read_broker_record,
}
use t212_cashguard.Execution.Reconcile.{
  resolves_unknown, record_still_open, known_fill, kept_fill, write_final, final_event,
  record_final_state, act_on, after_flush, may_reconcile, reconcile_order, is_working,
}

-- What a record that is still open may change: the time of the reading, and the outcome that was
-- unknown.
abbrev pub StaysOpen : {N : Type 0} → Order N → String → Order N → Type 0
StaysOpen before word order =
    ((order.status ≡ before.status)
      ⊎ ((before.status ≡ known submission_unknown)
          × (is_working word ≡ true)
          × (order.status ≡ known accepted)))
    × (order.filled_quantity ≡ before.filled_quantity)
    × (order.broker_order_id ≡ before.broker_order_id)

module _ {N : Type 0} where
  accepted-StaysOpen :
      (word : String) (s : Session N)
      → resolves_unknown s.order word ≡ true
      → StaysOpen s.order word (record_still_open word s).1.order
  unfolding record_still_open
  accepted-StaysOpen word s e =
      elim (transition-Ends (known accepted) "unknown_submission_resolved"
        "broker reports the order as working"
        (("broker_status", some word) ∷ ("broker_order_id", s.order.broker_order_id) ∷ []) s) [
          | inl (x, f) ↦ rw (e, f) (inl refl, refl, refl)
          | inr (staged, f) ↦
              rw (e, f) (inr (status_eq_of_same _ _ (ground arith), ground arith, refl), refl, refl)
        ]

  still_open-StaysOpen :
      (word : String) (s : Session N) → StaysOpen s.order word (record_still_open word s).1.order
  unfolding record_still_open
  still_open-StaysOpen word s = elim (Bool-cases (resolves_unknown s.order word)) [
    | inl e ↦ accepted-StaysOpen word s e
    | inr e ↦ rw e (inl refl, refl, refl)
  ]

module _ (D : Decimals) (C : Conversions (Decimals.Num D))
    (R : RecordConversions (Decimals.Num D) (Conversions.Int C))
    (ordered : IsOrdered (Decimals.Num D) (Decimals.less D)) where
  open D use {Num, less}
  open C use {Int}

  -- What a final record makes of the order: its status, and no less filled than was known.
  abbrev pub Ended : Order Num → FinalRecord Num → Order Num → Type 0
  Ended before r order =
      (order.status ≡ r.order_status)
      × ((filled_amount : Num) × (order.filled_quantity ≡ some filled_amount)
          × (less filled_amount (known_fill D C R before) ≡ false)
          × (r.order_status ≡ known filled → filled_amount ≡ before.quantity))
      × (order.broker_order_id ≡ before.broker_order_id)

  -- An order is not filled beyond its quantity.
  abbrev pub WithinQuantity : Order Num → Type 0
  WithinQuantity order = less order.quantity (known_fill D C R order) ≡ false

  kept_fill-Least :
      (order : Order Num) (r : FinalRecord Num)
      → WithinQuantity order
      → (less (kept_fill D C R order r).0 (known_fill D C R order) ≡ false)
        × (r.order_status ≡ known filled → (kept_fill D C R order r).0 ≡ order.quantity)
  unfolding kept_fill
  kept_fill-Least order r h = elim (Bool-cases (status_eq r.order_status (known filled))) [
    | inl e ↦ rw e (h, λ f. refl)
    | inr e ↦ elim (Bool-cases (less r.filled_quantity (known_fill D C R order))) [
      | inl l ↦ rw (e, l) (ordered.irrefl (known_fill D C R order), λ f. absurd (not_filled e f))
      | inr l ↦ rw (e, l) (l, λ f. absurd (not_filled e f))
    ]
  ]
    where
      not_filled : status_eq r.order_status (known filled) ≡ false → r.order_status ≢ known filled
      not_filled e f = cc (status_eq_refl (known filled), ap (λ t. status_eq t (known filled)) f)

  write_final-Ended :
      (before : Order Num) (r : FinalRecord Num) (now : ℕ)
      → WithinQuantity before
      → Ended before r (
          write_final D C R r
            (kept_fill D C R before r)
            now
            (record before { status = r.order_status }))
  unfolding write_final
  write_final-Ended before r now h =
      let (least, whole) = kept_fill-Least before r h in
      elim (Bool-cases (status_eq r.order_status (known filled))) [
        | inl e ↦ rw e (refl, (_, refl, least, whole), refl)
        | inr e ↦ elim (Bool-cases (status_eq r.order_status (known cancelled))) [
          | inl c ↦ rw (e, c) (refl, (_, refl, least, whole), refl)
          | inr c ↦ rw (e, c) (refl, (_, refl, least, whole), refl)
        ]
      ]

  pub final-Ended :
      (r : FinalRecord Num) (source : String) (s : Session Num)
      → WithinQuantity s.order
      → let run = record_final_state D C R r source s in
        (((e : Raised) × (run.0 ≡ failed e)) × (run.1.order ≡ s.order))
        ⊎ ((run.0 ≡ done tt) × Ended s.order r run.1.order)
  unfolding record_final_state
  final-Ended r source s h =
      elim (transition-Ends r.order_status (final_event D C R r.order_status)
        ("reconciliation returned " ++ r.broker_status)
        (("broker_status", some r.broker_status) ∷ ("source", some source) ∷ []) s) [
          | inl (x, f) ↦ rw f (inl ((x, refl), refl))
          | inr (staged, f) ↦ rw f (inr (refl, write_final-Ended s.order r s.now h))
        ]

  -- The three things that reconciling an order may do to it.
  abbrev pub Changes : Reads Num Int → Order Num → Order Num → Type 0
  Changes reads before order =
      (order ≡ before)
      ⊎ ((word source : String) × (may_reconcile D C R before ≡ true)
          × (read_broker_record D C R before reads ≡ found (open_record word) source)
          × StaysOpen before word order)
      ⊎ ((r : FinalRecord Num) × (source : String) × (may_reconcile D C R before ≡ true)
          × (read_broker_record D C R before reads ≡ found (final_record r) source)
          × Ended before r order)

  -- It returns, where the flush at the end does not raise or is not reached, or it raises what the
  -- flush raises.
  abbrev pub EndsBy : Option String → Order Num → Result (Option String) → Type 0
  EndsBy database before result =
      (((reason : Option String) × (result ≡ done reason))
        × ((database ≡ none) ⊎ (may_reconcile D C R before ≡ false)))
      ⊎ ((error_type : String) × (database ≡ some error_type)
          × (may_reconcile D C R before ≡ true)
          × (result ≡ failed (database_error error_type)))

  abbrev pub Reconciles :
      Reads Num Int → Option String → Session Num → Result (Option String) × Session Num → Type 0
  Reconciles reads database s run =
      EndsBy database s.order run.0 × Changes reads s.order run.1.order

  flushed-Reconciles :
      (reads : Reads Num Int) (database : Option String) (s : Session Num)
      (run : Result (Option String) × Session Num)
      → may_reconcile D C R s.order ≡ true
      → (reason : Option String) × (run.0 ≡ done reason)
      → Changes reads s.order run.1.order
      → Reconciles reads database s (after_flush D C R database run)
  flushed-Reconciles reads none s run m returns c = (inl (returns, inl refl), c)
  flushed-Reconciles reads (some error_type) s (done _, s') m returns c =
      (inr (error_type, refl, m, refl), c)
  flushed-Reconciles reads (some error_type) s (failed e, s') m returns c =
      let (reason, e) = returns in absurd (cc e)

  acted-Reconciles :
      (reads : Reads Num Int) (s : Session Num) (reading : Reading Num)
      → WithinQuantity s.order
      → may_reconcile D C R s.order ≡ true
      → read_broker_record D C R s.order reads ≡ reading
      → let run = act_on D C R reading s in
        ((reason : Option String) × (run.0 ≡ done reason)) × Changes reads s.order run.1.order
  acted-Reconciles reads s (found (final_record r) source) h m e = (
    (none, refl),
    elim (final-Ended r source s h) [
      | inl (_, same) ↦ inl same
      | inr (_, ended) ↦ inr (inr (r, source, m, e, ended))
    ],
  )
  acted-Reconciles reads s (found (open_record word) source) h m e =
      ((none, refl), inr (inl (word, source, m, e, still_open-StaysOpen word s)))
  acted-Reconciles reads s no_record h m e = ((_, refl), inl refl)
  acted-Reconciles reads s (untrusted_record x) h m e = ((_, refl), inl refl)
  acted-Reconciles reads s (unread word) h m e = ((_, refl), inl refl)

  -- Reconciling an order that is not filled beyond its quantity raises nothing but what the flush at
  -- its end raises, which is reached if the order may be reconciled. Whether or not it raises, the
  -- session has the order as it was, or the broker's record of it has been read and the order may be
  -- reconciled: a record that is still open changes the status only of an unknown submission that is
  -- working, to `accepted`; a final one gives its status, with no less filled than was known, and the
  -- whole quantity if it is filled.
  pub reconcile_order-Reconciles :
      (reads : Reads Num Int) (database : Option String) (s : Session Num)
      → WithinQuantity s.order
      → Reconciles reads database s (reconcile_order D C R reads database s)
  unfolding reconcile_order
  reconcile_order-Reconciles reads database s h = elim (Bool-cases (may_reconcile D C R s.order)) [
    | inl m ↦
        let (returns, changes) = acted-Reconciles reads s _ h m refl in
        subst (Reconciles reads database s) (sym (ap run m))
          (flushed-Reconciles reads database s _ m returns changes)
    | inr m ↦
        subst (Reconciles reads database s) (sym (ap run m)) (inl ((none, refl), inr m), inl refl)
  ]
    where
      run : Bool → Result (Option String) × Session Num
      run may =
          if may
          then after_flush D C R database (act_on D C R (read_broker_record D C R s.order reads) s)
          else (done none, s)
