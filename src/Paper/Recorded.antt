-- ===== src/Paper/Recorded.antt =====
-- apps/api/app/execution/paper_operations.py: what a submission of a named command records.
use mathlib.Core.Path.{subst}
use t212_cashguard.Common.{
  ◌≡◌, ◌⊎◌, inl, inr, refl, sym, ℕ, Bool, true, false, not, ◌&&◌, Option, none, some, String, List,
  [], ◌∷◌, ◌++◌, arith, Bool-cases, str_eq, eq_iff, ◌==◌, if◌then◌else◌,
}
use t212_cashguard.Common.Numeric.{Decimals, Floats, IsOrdered}
use t212_cashguard.Paper.{
  PaperOrder, Session, Around, Result, done, failed, paper_execution_error, paper_business_refusal,
  bad_value, bad_transition, risk_engine_error,
}
use t212_cashguard.Paper.Policy.{PaperSimulationProfile, standard, partial_fill, no_liquidity}
use t212_cashguard.Paper.Operations.{
  Command, Receipt, PaperStore, View, OperationResult, Commit, acknowledged, acknowledgement_lost,
  not_committed, Conditions, Attempt, answered, broken, same_text, same_profile, is_for, receipt_of,
  order_with, view_found, view_ordered, view, result_with, unconfirmed_result, detail,
}
use t212_cashguard.Paper.Submit.{
  same_number, same_amount, same_request, order_receipt, refusal_receipt, with_receipt,
  conclude_commit, record_outcome, carry_out, try_submit, recovered, submit_identified,
}

same_text_refl : (a : Option String) → same_text a a ≡ true
same_text_refl none = refl
same_text_refl (some t) = (eq_iff t t).1 refl

same_profile_refl : (p : PaperSimulationProfile) → same_profile p p ≡ true
same_profile_refl standard = refl
same_profile_refl partial_fill = refl
same_profile_refl no_liquidity = refl

if_none :
    {A : Type 0} (b : Bool) (x : A) (o : Option A)
    → (if b then some x else o) ≡ none
    → (b ≡ false) × (o ≡ none)
if_none true x o e = cc e
if_none false x o e = (refl, e)

module _ {N : Type 0} where
  pub receipt_of-append :
      (owner operation : ℕ) (rs : List (Receipt N)) (r : Receipt N)
      → receipt_of owner operation rs ≡ none
      → is_for owner operation r ≡ true
      → receipt_of owner operation (rs ++ r ∷ []) ≡ some r
  unfolding receipt_of
  receipt_of-append owner operation [] r h k = rw k refl
  receipt_of-append owner operation (x ∷ xs) r h k =
      let (other, absent) =
        if_none (is_for owner operation x) x (receipt_of owner operation xs) h in
      rw other (receipt_of-append owner operation xs r absent k)

  -- What is shown does not depend on whether it is shown again.
  pub view_again :
      (w : PaperStore N) (r : Receipt N) (v : View N)
      → view w r false ≡ some v
      → (v' : View N) × (view w r true ≡ some v')
  unfolding view
  view_again w r v e = of_order r.order_id e
    where
      of_found :
          (o : Option (PaperOrder N))
          → view_found r false o ≡ some v
          → (v' : View N) × (view_found r true o ≡ some v')
      of_found none e = cc e
      of_found (some o) e = (_, refl)

      of_order :
          (id : Option ℕ)
          → view_ordered r false w.orders id ≡ some v
          → (v' : View N) × (view_ordered r true w.orders id ≡ some v')
      of_order none e = (_, refl)
      of_order (some id) e = of_found (order_with id w.orders) e

module _ (D : Decimals) (F : Floats (Decimals.Num D)) (fits : Decimals.Num D → Bool)
    (upper : String → String) (around : Around)
    (ordered : IsOrdered (Decimals.Num D) (Decimals.less D)) where
  open D use {Num, less}

  same_number_refl : (a : Num) → same_number D F fits upper around a a ≡ true
  same_number_refl a = rw (ordered.irrefl a) refl

  same_amount_refl : (a : Option Num) → same_amount D F fits upper around a a ≡ true
  same_amount_refl none = refl
  same_amount_refl (some a) = same_number_refl a

  pub same_request_refl : (a : Command Num) → same_request D F fits upper around a a ≡ true
  unfolding same_request
  same_request_refl a =
      rw
        (
          (eq_iff a.body.ticker a.body.ticker).1 refl,
          (eq_iff a.body.side a.body.side).1 refl,
          same_amount_refl a.body.quantity,
          same_amount_refl a.body.notional,
          same_number_refl a.body.estimated_price,
          (eq_iff a.body.order_type a.body.order_type).1 refl,
          (eq_iff a.body.venue a.body.venue).1 refl,
          same_profile_refl a.body.simulation_profile,
          same_text_refl a.strategy,
          (eq_iff a.source a.source).1 refl,
        )
        refl

  -- Nothing is recorded, or a receipt of this command is, with what it shows.
  abbrev pub NothingNew : PaperStore Num → PaperStore Num → Type 0
  NothingNew before after = after.receipts ≡ before.receipts

  abbrev pub Records : PaperStore Num → Command Num → ℕ → ℕ → PaperStore Num → Type 0
  Records before command owner operation after =
      (r : Receipt Num) × (v : View Num) × (after.receipts ≡ before.receipts ++ r ∷ [])
      × (is_for owner operation r ≡ true)
      × (r.canonical_request ≡ command)
      × ((r.request_version == 1) ≡ true)
      × (view after r false ≡ some v)

  abbrev pub committed_by : Attempt Num → PaperStore Num
  committed_by (answered result w) = w
  committed_by (broken w) = w

  abbrev pub RecordsOrNot : PaperStore Num → Command Num → ℕ → ℕ → PaperStore Num → Type 0
  RecordsOrNot before command owner operation after =
      NothingNew before after ⊎ Records before command owner operation after

  concluded-RecordsOrNot :
      (commit : Commit) (w : PaperStore Num) (command : Command Num) (owner operation : ℕ)
      (r : Receipt Num) (orders : List (PaperOrder Num)) (s : Session Num)
      (shown : Option (View Num))
      → view (with_receipt D F fits upper around w r orders s) r false ≡ shown
      → is_for owner operation r ≡ true
      → r.canonical_request ≡ command
      → (r.request_version == 1) ≡ true
      → RecordsOrNot w command owner operation (
          committed_by (
            conclude_commit D F fits upper around commit w
              (with_receipt D F fits upper around w r orders s)
              shown))
  concluded-RecordsOrNot commit w command owner operation r orders s none e k c n = inl refl
  concluded-RecordsOrNot acknowledged w command owner operation r orders s (some v) e k c n =
      inr (r, v, refl, k, c, n, e)
  concluded-RecordsOrNot acknowledgement_lost w command owner operation r orders s (some v) e k c
        n =
      inr (r, v, refl, k, c, n, e)
  concluded-RecordsOrNot not_committed w command owner operation r orders s (some v) e k c n =
      inl refl

  is_own : (owner operation : ℕ) → (owner == owner && operation == operation) ≡ true
  is_own owner operation = ground arith

  outcome-RecordsOrNot :
      (commit : Commit) (w : PaperStore Num) (command : Command Num) (owner operation : ℕ)
      (run : Result (PaperOrder Num) × Session Num)
      → RecordsOrNot w command owner operation
          (committed_by (record_outcome D F fits upper around commit w command owner operation run))
  unfolding record_outcome
  outcome-RecordsOrNot commit w command owner operation (done order, s) =
      concluded-RecordsOrNot commit w command owner operation
        (order_receipt D F fits upper around command owner operation order s.now) (order ∷ []) s _
        refl (is_own owner operation) refl refl
  outcome-RecordsOrNot commit w command owner operation (failed (paper_business_refusal code), s) =
      concluded-RecordsOrNot commit w command owner operation
        (refusal_receipt D F fits upper around command owner operation code s.now) [] s _ refl
        (is_own owner operation) refl refl
  outcome-RecordsOrNot commit w command owner operation (failed (paper_execution_error code), s) =
      inl refl
  outcome-RecordsOrNot commit w command owner operation (failed bad_value, s) = inl refl
  outcome-RecordsOrNot commit w command owner operation (failed bad_transition, s) = inl refl
  outcome-RecordsOrNot commit w command owner operation (failed risk_engine_error, s) = inl refl

  recovered-Same :
      (c : Conditions) (command : Command Num) (owner operation : ℕ) (attempt : Attempt Num)
      → (recovered D F fits upper around c command owner operation attempt).1 ≡ committed_by attempt
  recovered-Same c command owner operation (answered result w) = refl
  recovered-Same c command owner operation (broken w) = refl

  tried-RecordsOrNot :
      (c : Conditions) (w : PaperStore Num) (command : Command Num) (owner operation : ℕ)
      → receipt_of owner operation w.receipts ≡ none
      → RecordsOrNot w command owner operation
          (committed_by (try_submit D F fits upper around c w command owner operation))
  unfolding try_submit
  tried-RecordsOrNot c w command owner operation absent = elim (Bool-cases c.is_read_committed) [
    | inr f ↦ rw f (inl refl)
    | inl e ↦ elim (Bool-cases c.is_active_admin) [
      | inr f ↦ rw (e, f) (inl refl)
      | inl f ↦
          rw (e, f, absent)
            (outcome-RecordsOrNot c.commit_end w command owner operation
              (carry_out D F fits upper around w.session.risk.saved_settings command w.session))
    ]
  ]

  either_end :
      (w : PaperStore Num) (command : Command Num) (owner operation : ℕ) (b : Bool)
      (x y : OperationResult Num × PaperStore Num)
      → RecordsOrNot w command owner operation x.1
      → RecordsOrNot w command owner operation y.1
      → RecordsOrNot w command owner operation (if b then x else y).1
  either_end w command owner operation true x y h k = h
  either_end w command owner operation false x y h k = k

  pub identified-RecordsOrNot :
      (c : Conditions) (w : PaperStore Num) (command : Command Num) (owner operation : ℕ)
      → receipt_of owner operation w.receipts ≡ none
      → RecordsOrNot w command owner operation
          (submit_identified D F fits upper around c w command owner operation).1
  identified-RecordsOrNot c w command owner operation absent =
      let attempt = try_submit D F fits upper around c w command owner operation in
      let ended = recovered D F fits upper around c command owner operation attempt in
      let refused : OperationResult Num × PaperStore Num =
        (result_with 403 (detail "not in mock mode"), w) in
      let reached =
        subst (RecordsOrNot w command owner operation)
          (sym (recovered-Same c command owner operation attempt))
          (tried-RecordsOrNot c w command owner operation absent) in
      either_end w command owner operation (not (str_eq around.app_mode "mock")) refused
        (if not c.is_postgresql then (unconfirmed_result, w) else ended) (inl refl)
        (either_end w command owner operation (not c.is_postgresql) (unconfirmed_result, w) ended
          (inl refl) reached)
