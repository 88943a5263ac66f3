-- ===== src/Execution/Resolution.antt =====
-- apps/api/app/execution/engine.py: how the search for an unknown submission may end, and what is
-- written of it.
use t212_cashguard.Common.{
  ◌≡◌, ◌≢◌, ◌⊎◌, inl, inr, refl, sym, ◌∙◌, ap, ℕ, Bool, true, false, ◌||◌, Option, none, some,
  String, List, arith, Bool-cases, str_eq, if◌then◌else◌,
}
use t212_cashguard.Common.Numeric.{Decimals, zero_of}
use t212_cashguard.Store.{Order}
use t212_cashguard.Lifecycle.{Status, known, accepted, filled, cancelled, rejected}
use t212_cashguard.Lifecycle.Evidence.{status_eq}
use t212_cashguard.Lifecycle.Edges.{status_eq_of_same, status_eq_refl}
use t212_cashguard.Broker.{Json, item, nil, array, Conversions}
use t212_cashguard.Broker.Record.{
  Refusal, Checked, fine, refused, LocalOrder, RecordConversions, some_or, num_eq,
}
use t212_cashguard.Broker.Record.Verdict.{FinalRecord}
use t212_cashguard.Broker.Record.History.{interpret_history}
use t212_cashguard.Broker.Snapshot.{AnyDecimal, finite, infinite, nan, Parser, BrokerOrderSnapshot}
use t212_cashguard.Execution.{Session, Result, Raised, done, failed}
use t212_cashguard.Execution.Answer.{as_local_order}
use t212_cashguard.Execution.Unknown.{
  Resolution, resolved_status, is_final, is_about_another_order, proposed_status, match_status,
  identify, write_resolution, with_part,
}

module _ (D : Decimals) (C : Conversions (Decimals.Num D))
    (R : RecordConversions (Decimals.Num D) (Conversions.Int C))
    (parse : Parser (Decimals.Num D)) where
  open D use {Num}
  open C use {Int}

  -- The record alone, read in full for this order.
  abbrev pub FullReading :
      Order Num
      → BrokerOrderSnapshot Num Int
      → Checked Num (Option (FinalRecord Num × List (Json Num Int)))
      → Type 0
  FullReading order match answer =
      (facts : LocalOrder Num) × (as_local_order D C R order match.broker_order_id ≡ some facts)
      × (interpret_history D C R (array (item match.raw nil)) facts ≡ answer)

  -- The status, the id and the amount stay.
  abbrev pub Stays : Order Num → Order Num → Type 0
  Stays before after =
      (after.status ≡ before.status)
      × (after.broker_order_id ≡ before.broker_order_id)
      × (after.filled_quantity ≡ before.filled_quantity)

  -- What the status of a resolved order rests on.
  abbrev pub RestsOn : Order Num → BrokerOrderSnapshot Num Int → Status → Type 0
  RestsOn before match status =
      (status ≡ known accepted)
      ⊎ ((r : FinalRecord Num) × (found : List (Json Num Int)) × FullReading before match
            (fine (some (r, found)))
          × (r.order_status ≡ status))

  abbrev pub Resolves : Order Num → BrokerOrderSnapshot Num Int → Order Num → Type 0
  Resolves before match after =
      (resolved_status (match_status D C R parse match) ≡ some after.status)
      × RestsOn before match after.status
      × (after.status ≡ known filled → after.filled_quantity ≡ some before.quantity)

  abbrev pub Adopts : Order Num → BrokerOrderSnapshot Num Int → Order Num → Type 0
  Adopts before match after =
      (after.broker_order_id ≡ some match.broker_order_id)
      × (((after.status ≡ before.status) × (after.filled_quantity ≡ before.filled_quantity))
          ⊎ Resolves before match after)

  -- The ways in which a claim may end: an exception, which has written neither a status nor an
  -- amount; nothing claimed; a record that is about another order; or the record's id adopted.
  abbrev pub Concludes :
      Option (BrokerOrderSnapshot Num Int) → Order Num → Result (Unit {0}) × Session Num → Type 0
  Concludes claim before run =
      (((e : Raised) × (run.0 ≡ failed e))
        × (run.1.order.status ≡ before.status)
        × (run.1.order.filled_quantity ≡ before.filled_quantity))
      ⊎ ((run.0 ≡ done tt) × (claim ≡ none) × Stays before run.1.order)
      ⊎ ((match : BrokerOrderSnapshot Num Int) × (run.0 ≡ done tt)
          × (claim ≡ some match)
          × (e : Refusal Num) × FullReading before match (refused e)
          × (is_about_another_order e.reason ≡ true)
          × Stays before run.1.order)
      ⊎ ((match : BrokerOrderSnapshot Num Int) × (run.0 ≡ done tt)
          × (claim ≡ some match)
          × Adopts before match run.1.order)

  abbrev final_or_accepted : Option Status → Bool
  final_or_accepted none = true
  final_or_accepted (some status) = is_final status || status_eq status (known accepted)

  resolved_status-Known : (word : String) → final_or_accepted (resolved_status word) ≡ true
  unfolding resolved_status status_eq
  resolved_status-Known word = elim (Bool-cases (str_eq word "FILLED")) [
    | inl e ↦ rw e refl
    | inr e ↦ elim (Bool-cases (str_eq word "CANCELLED")) [
      | inl f ↦ rw (e, f) refl
      | inr f ↦ elim (Bool-cases (str_eq word "REJECTED")) [
        | inl g ↦ rw (e, f, g) refl
        | inr g ↦ elim (Bool-cases (str_eq word "WORKING" || str_eq word "PENDING")) [
          | inl h ↦ rw (e, f, g, h) refl
          | inr h ↦ rw (e, f, g, h) refl
        ]
      ]
    ]
  ]

  pub resolved_status-accepted :
      (word : String) (status : Status)
      → resolved_status word ≡ some status
      → is_final status ≡ false
      → status ≡ known accepted
  resolved_status-accepted word status e f =
      let known_status : is_final status || status_eq status (known accepted) ≡ true =
        ap final_or_accepted (sym e) ∙ resolved_status-Known word in
      status_eq_of_same _ _ (ground arith)

  unless_none :
      (b : Bool) (wanted : Option Status) (status : Status)
      → (if b then none else wanted) ≡ some status
      → wanted ≡ some status
  unless_none true wanted status e = cc e
  unless_none false wanted status e = e

  unwrapped : {A : Type 0} {o : Option A} {a : A} → some o ≡ some (some a) → o ≡ some a
  unwrapped e = ap (λ o. some_or o none) e

  pub proposed_status-Same :
      (order : Order Num) (amount : Option (AnyDecimal Num)) (wanted : Option Status)
      (status : Status)
      → proposed_status D C R parse order amount wanted ≡ some (some status)
      → wanted ≡ some status
  unfolding proposed_status
  proposed_status-Same order none wanted status e = unless_none _ _ _ (unwrapped e)
  proposed_status-Same order (some nan) wanted status e = cc e
  proposed_status-Same order (some infinite) wanted status e = cc e
  proposed_status-Same order (some (finite x)) wanted status e =
      unless_none _ _ _ (unless_none _ _ _ (unwrapped e))

  pub identify-Adopts :
      (match : BrokerOrderSnapshot Num Int) (reason : Option String) (s : Session Num)
      → let run = identify D C R parse match reason s in
        (run.0 ≡ done tt) × Adopts s.order match run.1.order
  unfolding identify
  identify-Adopts match reason s = (refl, (refl, inl (refl, refl)))

  with_part-Kept :
      (amount price : Option Num) (order : Order Num)
      → let after = with_part D C R parse amount price order in
        (after.status ≡ order.status) × (after.broker_order_id ≡ order.broker_order_id)
  with_part-Kept none price order = (refl, refl)
  with_part-Kept (some x) price order = elim (Bool-cases (num_eq D C R x (zero_of D))) [
    | inl e ↦ rw e (refl, refl)
    | inr e ↦ rw e (refl, refl)
  ]

  not_same : (s t : Status) → status_eq s t ≡ false → s ≢ t
  not_same s t e g = cc (status_eq_refl t, ap (λ u. status_eq u t) g)

  pub write_resolution-Kept :
      (r : Resolution Num) (now : ℕ) (order : Order Num)
      → let after = write_resolution D C R parse r now order in
        (after.status ≡ order.status)
        × (after.broker_order_id ≡ order.broker_order_id)
        × (r.status ≡ known filled → after.filled_quantity ≡ some order.quantity)
  unfolding write_resolution
  write_resolution-Kept r now order =
      let (status, id) =
        with_part-Kept r.filled_quantity r.fill_price (record order { error_message = none }) in
      elim (Bool-cases (status_eq r.status (known filled))) [
        | inl e ↦ rw e (refl, refl, λ _. refl)
        | inr e ↦ elim (Bool-cases (status_eq r.status (known cancelled))) [
          | inl f ↦ rw (e, f) (status, id, λ g. absurd (not_same _ _ e g))
          | inr f ↦ elim (Bool-cases (status_eq r.status (known rejected))) [
            | inl h ↦ rw (e, f, h) (status, id, λ g. absurd (not_same _ _ e g))
            | inr h ↦ rw (e, f, h) (status, id, λ g. absurd (not_same _ _ e g))
          ]
        ]
      ]
