-- ===== src/Paper/Kept.antt =====
-- apps/api/app/execution/paper_engine.py: every operation on a paper account keeps it sound.
use t212_cashguard.Common.{
  ◌≡◌, true, ◌&&◌, Option, none, some, String, ap, inl, inr, Bool-cases, str_eq,
}
use t212_cashguard.Common.Numeric.{Decimals, zero_of, is_positive}
use t212_cashguard.Store.{Order}
use t212_cashguard.Lifecycle.{Status}
use t212_cashguard.Lifecycle.Evidence.{Staged, Evidence, transition_order_status_with_evidence}
use t212_cashguard.Lifecycle.Trail.{with_evidence-Ends}
use t212_cashguard.Paper.{paper_execution_error, bad_value, Method, Around}
use t212_cashguard.Paper.Policy.{PaperFillDecision}
use t212_cashguard.Paper.Ledger.{
  Fill, sellable_paper_quantity, cash_after, enter_rows, settle_fill, refuse_sale, fill_or_refuse,
  effects_of, apply_fill_effects,
}
use t212_cashguard.Paper.Rules.{
  Preserves, bind-Preserves, if-Preserves, return-Preserves, raise-Preserves, gets-Preserves,
  audit-Preserves, gets_then-Preserves,
}
use t212_cashguard.Paper.Sound.{
  IsSigned, NotNegative, IsSound, sound, HasSide, SoundIfFound, latest-Sound, IsChecked,
  book_after-Sound,
}

module _ {N : Type 0} where
  -- A transition changes no side.
  pub with_evidence_side :
      (db : Staged) (order : Order N) (status : Status) (e : Evidence)
      → (transition_order_status_with_evidence db order status e).1.side ≡ order.side
  with_evidence_side db order status e = elim (with_evidence-Ends db order status e) [
    | inl (run, _) ↦ ap (λ r. r.1.side) run
    | inr (inl (run, _)) ↦ ap (λ r. r.1.side) run
    | inr (inr (inl (run, _))) ↦ ap (λ r. r.1.side) run
    | inr (inr (inr (run, _, _))) ↦ ap (λ r. r.1.side) run
  ]

module _ (D : Decimals) (upper : String → String) (signs : IsSigned D) (around : Around) where
  open D use {Num, less}

  abbrev Kept : {A : Type 0} → Method Num A → Type 0
  Kept m = Preserves (sound D) m

  refuse_sale-Kept : Kept (refuse_sale D upper around)
  unfolding refuse_sale
  refuse_sale-Kept =
      bind-Preserves (sound D) _ _ (audit-Preserves (sound D) around "paper_sell_fill_blocked" _)
        λ _. raise-Preserves (sound D) _ (paper_execution_error 422)

  enter_rows-Kept :
      (f : Fill D) (cash : Num)
      → IsChecked D upper signs f
      → NotNegative D cash
      → Kept (enter_rows D upper f cash)
  unfolding enter_rows
  enter_rows-Kept f cash h c = record {
    keeps = λ s p. book_after-Sound D upper signs s.book f cash s.now h c p;
  }

  settle_fill-Kept :
      (f : Fill D) (cash : Num)
      → IsChecked D upper signs f
      → NotNegative D cash
      → Kept (settle_fill D upper around f cash)
  unfolding settle_fill
  settle_fill-Kept f cash h c = bind-Preserves (sound D) _ _ (enter_rows-Kept f cash h c) λ _.
      bind-Preserves (sound D) _ _
        (if-Preserves (sound D) _ _ _ (return-Preserves (sound D) tt)
          (audit-Preserves (sound D) around "paper_trade_closed" none))
        λ _.
          bind-Preserves (sound D) _ _
            (audit-Preserves (sound D) around "paper_account_updated" none)
            λ _. audit-Preserves (sound D) around "paper_position_updated" none

  fill_or_refuse-Kept :
      (f : Fill D) (cash_before : Num)
      → is_positive D f.filled_quantity ≡ true
      → HasSide D f.order.side
      → SoundIfFound D upper f.previous
      → Kept (fill_or_refuse D upper around f cash_before)
  unfolding fill_or_refuse
  fill_or_refuse-Kept f cash_before positive side found =
      let oversold =
        str_eq f.order.side "sell"
        && less (sellable_paper_quantity D f.previous) f.filled_quantity in
      elim (Bool-cases oversold) [
        | inl e ↦ rw e refuse_sale-Kept
        | inr e ↦ elim (Bool-cases (less (cash_after D cash_before f) (zero_of D))) [
          | inl g ↦ rw (e, g) (raise-Preserves (sound D) _ (paper_execution_error 422))
          | inr g ↦
              rw (e, g)
                (settle_fill-Kept f (cash_after D cash_before f)
                  (record { positive = positive; side = side; owned = e; found = found }) g)
        ]
      ]

  effects_of-Kept :
      (order : Order Num) (decision : PaperFillDecision Num) (price : Option Num)
      → HasSide D order.side
      → Kept (effects_of D upper around order decision price)
  unfolding IsSound
  effects_of-Kept order decision none side = raise-Preserves (sound D) _ bad_value
  effects_of-Kept order decision (some price) side =
      elim (Bool-cases (is_positive D decision.filled_quantity)) [
        | inl e ↦ rw e (
            gets_then-Preserves (sound D) _ _ λ s p.
              (bind-Preserves (sound D) _ _ (gets-Preserves (sound D) _) λ cash.
                  fill_or_refuse-Kept _ cash e side
                    (latest-Sound D upper order.ticker s.book p.0)).keeps
                s p)
        | inr e ↦ rw e (raise-Preserves (sound D) _ bad_value)
      ]

  pub apply_fill_effects-Kept :
      (order : Order Num) (decision : PaperFillDecision Num)
      → HasSide D order.side
      → Preserves (sound D) (apply_fill_effects D upper around order decision)
  unfolding apply_fill_effects
  apply_fill_effects-Kept order decision side =
      effects_of-Kept order decision decision.fill_price side
