-- ===== src/Paper/FollowedUp.antt =====
-- apps/api/app/execution/paper_engine.py: what `fill_partial_order` returns.
use t212_cashguard.Common.{
  ℕ, ◌≡◌, ◌≢◌, ◌⊎◌, ◌∙◌, Bool, true, false, not, ◌&&◌, ◌||◌, Option, none, some, String, refl, sym,
  ap, inl, inr, Bool-cases, str_eq, if◌then◌else◌, arith,
}
use mathlib.Core.Path.{subst}
use t212_cashguard.Common.Numeric.{Decimals, IsOrdered, zero_of, is_positive}
use t212_cashguard.Store.{Order, AppSettings}
use t212_cashguard.Lifecycle.{Status, Known, known}
use t212_cashguard.Lifecycle.Evidence.{
  Outcome, returned, invalid_order_transition, value_error, Staged,
  transition_order_status_with_evidence,
}
use t212_cashguard.Lifecycle.Edges.{status_eq_of_same}
use t212_cashguard.Lifecycle.Trail.{with_evidence-Ends}
use t212_cashguard.Paper.{
  PaperOrder, Session, paper_execution_error, Result, done, failed, Around, ◌>>=◌, raise, gets,
  transition, result_of, evidence_of,
}
use t212_cashguard.Paper.Policy.{
  PaperFillDecision, PaperFillOutcome, PaperSimulationProfile, evaluate_paper_fill,
}
use t212_cashguard.Paper.Ledger.{value_or_zero, cash_of}
use t212_cashguard.Paper.FollowUp.{
  remaining_quantity, is_active_partial, is_some_id, differs, filled_at_price, required_cash,
  remaining_after, with_fill, advance, enter_fill, block_fill, heed_switch, pay_for, fill_at_price,
  fill_quantity, fill_partial_order,
}
use t212_cashguard.Paper.Rules.{
  Yields, OnDone, after-Yields, bind-Yields, return-Yields, raise-Yields, unless-OnDone,
}

outcome-cases :
    (o : PaperFillOutcome)
    → (o ≡ PaperFillOutcome.filled)
      ⊎ (o ≡ PaperFillOutcome.partially_filled)
      ⊎ (o ≡ PaperFillOutcome.rejected)
outcome-cases PaperFillOutcome.filled = inl refl
outcome-cases PaperFillOutcome.partially_filled = inr (inl refl)
outcome-cases PaperFillOutcome.rejected = inr (inr refl)

module _ {N : Type 0} where
  -- The order of a transition that returns is the one before it, with the new status.
  abbrev MovedTo : Status → PaperOrder N → PaperOrder N → Type 0
  MovedTo status order after = after.row ≡ record (order.row) { status = status }

  outcome_moved :
      {A : Type 0} (db : Staged) (order : PaperOrder N) (status : Status)
      → (out : Outcome A) (row : Order N) (staged : Staged)
      → (out ≡ invalid_order_transition)
        ⊎ (out ≡ value_error)
        ⊎ (row ≡ record (order.row) { status = status })
      → OnDone (MovedTo status order) (result_of out (record order { row = row }))
  outcome_moved db order status out row staged (inl e) = rw e tt
  outcome_moved db order status out row staged (inr (inl e)) = rw e tt
  outcome_moved db order status (returned _) row staged (inr (inr e)) = e
  outcome_moved db order status invalid_order_transition row staged (inr (inr e)) = tt
  outcome_moved db order status value_error row staged (inr (inr e)) = tt

  transition-Yields_moved :
      (around : Around) (order : PaperOrder N) (status : Status) (event_type reason : String)
      → Yields (MovedTo status order) (transition around order status event_type reason)
  unfolding transition
  transition-Yields_moved around order status event_type reason = record {
    yields = λ s.
        let e = evidence_of around s order.row event_type reason in
        let run = transition_order_status_with_evidence s.staged order.row status e in
        outcome_moved s.staged order status run.0 run.1 run.2
          (elim (with_evidence-Ends s.staged order.row status e) [
            | inl (r, _) ↦ inr (inl (ap (λ x. x.0) r))
            | inr (inl (r, _)) ↦ inl (ap (λ x. x.0) r)
            | inr (inr (inl (r, _))) ↦ inr (inr (ap (λ x. x.1) r))
            | inr (inr (inr (r, _, _))) ↦ inr (inr (ap (λ x. x.1) r))
          ]);
  }

module _ (D : Decimals) (fits : Decimals.Num D → Bool) (upper : String → String)
    (around : Around) where
  open D use {Num, add, sub, less, quantize_down}

  -- What a follow-up fill of a quantity leaves to be filled.
  abbrev pub left_after : Order Num → Num → Num
  left_after row q = sub row.quantity (add (value_or_zero D row.filled_quantity) q)

  -- What an order that a follow-up fill returns is, beside the order before it.
  pub record IsFollowUp (s : Session Num) (order : PaperOrder Num) (q : Num)
      (result : PaperOrder Num) : Type 0 where
    pub filled :
        result.row.filled_quantity ≡ some (add (value_or_zero D order.row.filled_quantity) q)
    pub never_over : less (left_after order.row q) (zero_of D) ≡ false
    pub ends :
        ((result.row.status ≡ known Known.filled) × (left_after order.row q ≡ zero_of D))
        ⊎ ((result.row.status ≡ known Known.partially_filled)
            × (left_after order.row q ≢ zero_of D))
    pub not_halted :
        (settings : AppSettings) × (s.risk.saved_settings ≡ some settings)
        × (settings.kill_switch_active ≡ false)

  module _ (ordered : IsOrdered Num less) where
    same_of : (a b : Num) → (less a b || less b a) ≡ false → a ≡ b
    same_of a b h = ordered.connected a b (ground arith) (ground arith)

    differ_of : (a b : Num) → (less a b || less b a) ≡ true → a ≢ b
    differ_of a b h e =
        let here = subst (λ x. (less a x || less x a) ≡ true) (sym e) h in
        cc (here, ordered.irrefl a)

    -- What `advance` returns, for an order that is filled in part.
    abbrev Advanced : PaperOrder Num → Num → PaperOrder Num → Type 0
    Advanced order left after =
        (after.row.filled_quantity ≡ order.row.filled_quantity)
        × (((after.row.status ≡ known Known.filled) × (left ≡ zero_of D))
            ⊎ ((after.row.status ≡ order.row.status) × (left ≢ zero_of D)))

    advance-Yields :
        (order : PaperOrder Num) (decision : PaperFillDecision Num) (now : ℕ)
        → Yields
            (Advanced order (remaining_after D fits upper around order.row decision))
            (advance D fits upper around order decision now)
    unfolding advance
    advance-Yields order decision now =
        let left = remaining_after D fits upper around order.row decision in
        elim (Bool-cases (differs D fits upper around left (zero_of D))) [
          | inl e ↦ rw e (
              bind-Yields _ _ _
                λ _. return-Yields _ order (refl, inr (refl, differ_of left (zero_of D) e)))
          | inr e ↦ rw e (
              after-Yields (MovedTo (known Known.filled) order) _ _ _
                (transition-Yields_moved around order _ _ _)
                λ after moved. return-Yields _ _ (
                  ap (λ r. r.filled_quantity) moved,
                  inl (ap (λ r. r.status) moved, same_of left (zero_of D) e),
                ))
        ]

    -- The value of an order that is returned, by the quantity of the fill.
    abbrev Entered : PaperOrder Num → Num → PaperOrder Num → Type 0
    Entered order q result =
        (result.row.filled_quantity ≡ some (add (value_or_zero D order.row.filled_quantity) q))
        × (((result.row.status ≡ known Known.filled) × (left_after order.row q ≡ zero_of D))
            ⊎ ((result.row.status ≡ order.row.status) × (left_after order.row q ≢ zero_of D)))

    enter_fill-Yields :
        (order : PaperOrder Num) (decision : PaperFillDecision Num) (price : Num) (now : ℕ)
        → Yields
            (Entered order decision.filled_quantity)
            (enter_fill D fits upper around order decision price now)
    unfolding enter_fill with_fill
    enter_fill-Yields order decision price now =
        after-Yields (Advanced order (remaining_after D fits upper around order.row decision)) _ _ _
          (bind-Yields _ _ _ λ _. advance-Yields order decision now)
          λ after (same, ends). bind-Yields _ _ _ λ _.
            return-Yields _ _
              (ap (λ o. some (add (value_or_zero D o) decision.filled_quantity)) same, ends)

    block_fill-Yields :
        (Q : PaperOrder Num → Type 0) (code : String)
        → Yields Q (block_fill D fits upper around code)
    unfolding block_fill
    block_fill-Yields Q code = bind-Yields Q _ _ λ _. raise-Yields Q (paper_execution_error 422)

    module _ (s : Session Num) (order : PaperOrder Num)
        (part : order.row.status ≡ known Known.partially_filled) where
      abbrev Q : Num → PaperOrder Num → Type 0
      Q q result = IsFollowUp s order q result

      follow_up :
          (q : Num) (settings : AppSettings)
          → less (left_after order.row q) (zero_of D) ≡ false
          → s.risk.saved_settings ≡ some settings
          → settings.kill_switch_active ≡ false
          → (result : PaperOrder Num) → Entered order q result
          → Q q result
      follow_up q settings over saved off result (filled, ends) = record {
        filled = filled;
        never_over = over;
        ends = elim ends [ inl h ↦ inl h | inr (same, h) ↦ inr (same ∙ part, h) ];
        not_halted = (settings, saved, off);
      }

      on_done :
          (P R : PaperOrder Num → Type 0) (r : Result (PaperOrder Num))
          → ((o : PaperOrder Num) → P o → R o)
          → OnDone P r
          → OnDone R r
      on_done P R (done o) f h = f o h
      on_done P R (failed e) f h = tt

      heed_switch-OnDone :
          (decision : PaperFillDecision Num) (price : Num) (saved : Option AppSettings)
          → s.risk.saved_settings ≡ saved
          → less (left_after order.row decision.filled_quantity) (zero_of D) ≡ false
          → OnDone
              (Q decision.filled_quantity)
              (heed_switch D fits upper around order decision price saved s).0
      unfolding ◌>>=◌ gets
      heed_switch-OnDone decision price none e over =
          (block_fill-Yields _ "safety_settings_missing").yields s
      heed_switch-OnDone decision price (some settings) e over =
          elim (Bool-cases settings.kill_switch_active) [
            | inl on ↦ rw on ((block_fill-Yields _ "kill_switch_active").yields s)
            | inr off ↦ rw off (
                on_done (Entered order decision.filled_quantity) _ _
                  (follow_up decision.filled_quantity settings over e off)
                  ((enter_fill-Yields order decision price s.now).yields s))
          ]

      pay_for-OnDone :
          (decision : PaperFillDecision Num) (price cash : Num)
          → OnDone
              (Q decision.filled_quantity)
              (pay_for D fits upper around order decision price cash s).0
      unfolding pay_for ◌>>=◌ gets
      pay_for-OnDone decision price cash =
          let dear =
            str_eq order.row.side "buy"
            && less cash (required_cash D fits upper around decision price) in
          elim (Bool-cases dear) [
            | inl e ↦ rw e ((block_fill-Yields _ "paper_cash_guard").yields s)
            | inr e ↦ rw e (
                unless-OnDone _ (less (left_after order.row decision.filled_quantity) (zero_of D))
                  (paper_execution_error 422) _ s
                  λ over. heed_switch-OnDone decision price s.risk.saved_settings refl over)
          ]

      filled_at-same :
          (decision : PaperFillDecision Num) (q price : Num)
          → filled_at_price D fits upper around decision q ≡ some price
          → decision.filled_quantity ≡ q
      filled_at-same decision q price h = elim (outcome-cases decision.outcome) [
        | inl e ↦ elim (Bool-cases (differs D fits upper around decision.filled_quantity q)) [
          | inl g ↦
              let k : filled_at_price D fits upper around decision q ≡ none = rw (e, g) refl in
              cc (h, k)
          | inr g ↦ same_of decision.filled_quantity q g
        ]
        | inr (inl e) ↦
            let k : filled_at_price D fits upper around decision q ≡ none = rw (e) refl in cc (h, k)
        | inr (inr e) ↦
            let k : filled_at_price D fits upper around decision q ≡ none = rw (e) refl in cc (h, k)
      ]

      fill_at_price-OnDone :
          (decision : PaperFillDecision Num) (q : Num) (price : Option Num)
          → filled_at_price D fits upper around decision q ≡ price
          → OnDone (Q q) (fill_at_price D fits upper around order decision price s).0
      unfolding ◌>>=◌ gets
      fill_at_price-OnDone decision q none e =
          (raise-Yields (Q q) (paper_execution_error 422)).yields s
      fill_at_price-OnDone decision q (some price) e =
          subst
            (λ n. OnDone (Q n) (fill_at_price D fits upper around order decision (some price) s).0)
            (filled_at-same decision q price e) (pay_for-OnDone decision price (cash_of D s.book))

      fill_quantity-OnDone :
          (q estimated_price : Num)
          → OnDone (Q q) (fill_quantity D fits upper around order q estimated_price s).0
      unfolding fill_quantity
      fill_quantity-OnDone q estimated_price =
          let decision =
            evaluate_paper_fill D fits order.row.side q estimated_price
              PaperSimulationProfile.standard in
          let price = filled_at_price D fits upper around decision q in
          unless-OnDone (Q q)
            (not (is_positive D q) || less (remaining_quantity D fits upper around order.row) q)
            (paper_execution_error 422) (fill_at_price D fits upper around order decision price) s
            λ _. fill_at_price-OnDone decision q price refl

    part_of :
        (row : Order Num)
        → not (is_active_partial D fits upper around row) ≡ false
        → row.status ≡ known Known.partially_filled
    unfolding is_active_partial
    part_of row h = status_eq_of_same row.status (known Known.partially_filled) (ground arith)

    fill_partial-OnDone :
        (s : Session Num) (order : PaperOrder Num) (quantity estimated_price : Num)
        → OnDone
            (IsFollowUp s order (quantize_down 8 quantity))
            (fill_partial_order D fits upper around order quantity estimated_price s).0
    unfolding fill_partial_order
    fill_partial-OnDone s order quantity estimated_price =
        let q = quantize_down 8 quantity in
        let goal = IsFollowUp s order q in
        let own = is_some_id D fits upper around around.connection_id order.paper_connection_id in
        let fill = fill_quantity D fits upper around order q estimated_price in
        let from_own = if not own then raise (paper_execution_error 422) else fill in
        let active = is_active_partial D fits upper around order.row in
        let from_active = if not active then raise (paper_execution_error 422) else from_own in
        unless-OnDone goal (not (str_eq around.app_mode "mock")) (paper_execution_error 403)
          from_active s
          λ _. unless-OnDone goal (not active) (paper_execution_error 422) from_own s λ is_active.
            unless-OnDone goal (not own) (paper_execution_error 422) fill s
              λ _. fill_quantity-OnDone s order (part_of order.row is_active) q estimated_price

    -- When a follow-up fill returns, the kill switch was off and the settings were there; what is
    -- filled has grown by the quantity, rounded down, and by no more than was left; and the order is
    -- filled exactly if nothing is left, and filled in part if something is. Of the order of the
    -- numbers it is assumed that it is one.
    pub fill_partial_order-IsFollowUp :
        (s : Session Num) (order : PaperOrder Num) (quantity estimated_price : Num)
        → (result : PaperOrder Num)
        → (fill_partial_order D fits upper around order quantity estimated_price s).0 ≡ done result
        → IsFollowUp s order (quantize_down 8 quantity) result
    fill_partial_order-IsFollowUp s order quantity estimated_price result e =
        subst (OnDone (IsFollowUp s order (quantize_down 8 quantity))) e
          (fill_partial-OnDone s order quantity estimated_price)
