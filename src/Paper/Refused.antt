-- ===== src/Paper/Refused.antt =====
-- apps/api/app/execution/paper_engine.py: `PaperBusinessRefusal`, a refusal before an order or an
-- economic effect is staged.
use t212_cashguard.Common.{ℕ, ◌≡◌, Bool, Option, none, some, String, refl}
use t212_cashguard.Common.Numeric.{Decimals, Floats}
use t212_cashguard.Store.{Order}
use t212_cashguard.Lifecycle.{Known}
use t212_cashguard.Risk.Run.{Request}
use t212_cashguard.Paper.{
  PaperOrder, Session, paper_execution_error, paper_business_refusal, bad_value, failed, Around,
  raise, audit, ◌>>◌,
}
use t212_cashguard.Paper.Policy.{PaperFillDecision, PaperFillOutcome}
use t212_cashguard.Paper.Ledger.{
  Fill, settle_fill, enter_rows, refuse_sale, fill_or_refuse, effects_of, apply_fill_effects,
}
use t212_cashguard.Paper.Execute.{
  PaperOrderCreate, refuse_quantity, check_sell_quantity_available, ask_risk, heed_risk,
  run_risk_check, add_order, reject_order, fill_order, conclude, place_order, execute_quantity,
  execute_asked, execute,
}
use t212_cashguard.Paper.Rules.{
  Claim, Preserves, NeverRefuses, KeepsIfRefused, bind-Preserves, bind-KeepsIfRefused,
  Preserves-KeepsIfRefused, NeverRefuses-KeepsIfRefused, if-Preserves, if-KeepsIfRefused,
  return-Preserves, raise-Preserves, gets-Preserves, audit-Preserves, bind-NeverRefuses,
  if-NeverRefuses, return-NeverRefuses, raise-NeverRefuses, gets-NeverRefuses,
  order_event-NeverRefuses, write-NeverRefuses, audit-NeverRefuses, transition-NeverRefuses,
}

module _ (D : Decimals) (upper : String → String) (around : Around) where
  open D use {Num, less}

  refuse_sale-NeverRefuses : NeverRefuses (refuse_sale D upper around)
  unfolding refuse_sale
  refuse_sale-NeverRefuses =
      bind-NeverRefuses _ _ (audit-NeverRefuses around "paper_sell_fill_blocked" _)
        λ _. raise-NeverRefuses _ (paper_execution_error 422) refl

  enter_rows-NeverRefuses : (f : Fill D) (cash : Num) → NeverRefuses (enter_rows D upper f cash)
  unfolding enter_rows
  enter_rows-NeverRefuses f cash = record { never = λ s. refl }

  settle_fill-NeverRefuses :
      (f : Fill D) (cash : Num) → NeverRefuses (settle_fill D upper around f cash)
  unfolding settle_fill
  settle_fill-NeverRefuses f cash = bind-NeverRefuses _ _ (enter_rows-NeverRefuses f cash) λ _.
      bind-NeverRefuses _ _
        (if-NeverRefuses _ _ _ (return-NeverRefuses tt)
          (audit-NeverRefuses around "paper_trade_closed" none))
        λ _.
          bind-NeverRefuses _ _ (audit-NeverRefuses around "paper_account_updated" none)
            λ _. audit-NeverRefuses around "paper_position_updated" none

  fill_or_refuse-NeverRefuses :
      (f : Fill D) (cash : Num) → NeverRefuses (fill_or_refuse D upper around f cash)
  unfolding fill_or_refuse
  fill_or_refuse-NeverRefuses f cash = if-NeverRefuses _ _ _ refuse_sale-NeverRefuses (
      if-NeverRefuses _ _ _ (raise-NeverRefuses _ (paper_execution_error 422) refl)
        (settle_fill-NeverRefuses f _))

  effects_of-NeverRefuses :
      (order : Order Num) (decision : PaperFillDecision Num) (price : Option Num)
      → NeverRefuses (effects_of D upper around order decision price)
  effects_of-NeverRefuses order decision none = raise-NeverRefuses _ bad_value refl
  effects_of-NeverRefuses order decision (some price) =
      if-NeverRefuses _ _ _
        (bind-NeverRefuses _ _ (gets-NeverRefuses _) λ previous.
          bind-NeverRefuses _ _ (gets-NeverRefuses _) λ cash. fill_or_refuse-NeverRefuses _ cash)
        (raise-NeverRefuses _ bad_value refl)

  apply_fill_effects-NeverRefuses :
      (order : Order Num) (decision : PaperFillDecision Num)
      → NeverRefuses (apply_fill_effects D upper around order decision)
  unfolding apply_fill_effects
  apply_fill_effects-NeverRefuses order decision =
      effects_of-NeverRefuses order decision decision.fill_price

module _ (D : Decimals) (F : Floats (Decimals.Num D)) (fits : Decimals.Num D → Bool)
    (upper : String → String) (around : Around) where
  open D use {Num, quantize_down, less}

  reject_order-NeverRefuses :
      (order : PaperOrder Num) (decision : PaperFillDecision Num) (now : ℕ)
      → NeverRefuses (reject_order D F fits upper around order decision now)
  unfolding reject_order
  reject_order-NeverRefuses order decision now =
      bind-NeverRefuses _ _ (transition-NeverRefuses around order _ _ _) λ after.
        bind-NeverRefuses _ _
          (bind-NeverRefuses _ _ (write-NeverRefuses _)
            λ _. audit-NeverRefuses around "paper_execution_rejected" none)
          λ _. return-NeverRefuses _

  fill_order-NeverRefuses :
      (order : PaperOrder Num) (decision : PaperFillDecision Num) (status : Known) (now : ℕ)
      → NeverRefuses (fill_order D F fits upper around order decision status now)
  unfolding fill_order
  fill_order-NeverRefuses order decision status now =
      bind-NeverRefuses _ _ (transition-NeverRefuses around order _ _ _) λ after.
        bind-NeverRefuses _ _
          (bind-NeverRefuses _ _
            (bind-NeverRefuses _ _ (write-NeverRefuses _)
              λ _. audit-NeverRefuses around "paper_fill_simulated" none)
            λ _. apply_fill_effects-NeverRefuses D upper around _ decision)
          λ _. return-NeverRefuses _

  conclude-NeverRefuses :
      (decision : PaperFillDecision Num) (now : ℕ) (outcome : PaperFillOutcome)
      → (order : PaperOrder Num)
      → NeverRefuses (conclude D F fits upper around decision now outcome order)
  conclude-NeverRefuses decision now PaperFillOutcome.rejected order =
      reject_order-NeverRefuses order decision now
  conclude-NeverRefuses decision now PaperFillOutcome.filled order =
      fill_order-NeverRefuses order decision Known.filled now
  conclude-NeverRefuses decision now PaperFillOutcome.partially_filled order =
      fill_order-NeverRefuses order decision Known.partially_filled now

  add_order-NeverRefuses :
      (order : PaperOrder Num) → NeverRefuses (add_order D F fits upper around order)
  unfolding add_order
  add_order-NeverRefuses order = record { never = λ s. refl }

  place_order-NeverRefuses :
      (body : PaperOrderCreate Num) (signal_id : Option ℕ) (quantity : Num)
      → (decision : PaperFillDecision Num) (now : ℕ)
      → NeverRefuses (place_order D F fits upper around body signal_id quantity decision now)
  unfolding place_order
  place_order-NeverRefuses body signal_id quantity decision now =
      bind-NeverRefuses _ _
        (bind-NeverRefuses _ _ (gets-NeverRefuses _) λ order. add_order-NeverRefuses order)
        λ order.
          bind-NeverRefuses _ _
            (bind-NeverRefuses _ _
              (bind-NeverRefuses _ _ (order_event-NeverRefuses _ _ _)
                λ _. audit-NeverRefuses around "paper_order_created" none)
              λ _. transition-NeverRefuses around order _ _ _)
            λ submitted. conclude-NeverRefuses decision now decision.outcome _

  module _ (P : Claim Num) where
    ask_risk-Preserves :
        (request : Request Num) → Preserves P (ask_risk D F fits upper around request)
    unfolding ask_risk
    ask_risk-Preserves request = record { keeps = λ s p. p }

    refuse-Preserves :
        (code : String)
        → Preserves P (
            audit around "paper_signal_rejected" (some code)
            >> (audit around "paper_risk_check_result" (some code)
                >> raise {A = Unit {0}} (paper_business_refusal code)))
    refuse-Preserves code =
        bind-Preserves P _ _ (audit-Preserves P around "paper_signal_rejected" _) λ _.
          bind-Preserves P _ _ (audit-Preserves P around "paper_risk_check_result" _)
            λ _. raise-Preserves P _ (paper_business_refusal code)

    heed_risk-Preserves :
        (answer : Option String) → Preserves P (heed_risk D F fits upper around answer)
    unfolding heed_risk
    heed_risk-Preserves none = audit-Preserves P around "paper_risk_check_result" _
    heed_risk-Preserves (some code) = refuse-Preserves code

    pub run_risk_check-Preserves :
        (body : PaperOrderCreate Num) (quantity price : Num)
        → Preserves P (run_risk_check D F fits upper around body quantity price)
    unfolding run_risk_check
    run_risk_check-Preserves body quantity price =
        bind-Preserves P _ _
          (bind-Preserves P _ _ (gets-Preserves P _) λ request. ask_risk-Preserves request)
          λ answer. heed_risk-Preserves answer

    pub check_sell-Preserves :
        (body : PaperOrderCreate Num) (quantity : Num)
        → Preserves P (check_sell_quantity_available D F fits upper around body quantity)
    unfolding check_sell_quantity_available refuse_quantity
    check_sell-Preserves body quantity = if-Preserves P _ _ _ (return-Preserves P tt) (
        bind-Preserves P _ _ (gets-Preserves P _) λ available.
          if-Preserves P _ _ _ (refuse-Preserves "paper_oversell_block") (return-Preserves P tt))

    execute_quantity-KeepsIfRefused :
        (body : PaperOrderCreate Num) (signal_id : Option ℕ) (quantity : Num)
        → KeepsIfRefused P (execute_quantity D F fits upper around body signal_id quantity)
    unfolding execute_quantity
    execute_quantity-KeepsIfRefused body signal_id quantity =
        if-KeepsIfRefused P _ _ _
          (Preserves-KeepsIfRefused P _ (raise-Preserves P _ (paper_business_refusal _)))
          (bind-KeepsIfRefused P _ _
            (bind-Preserves P _ _
              (bind-Preserves P _ _
                (bind-Preserves P _ _ (check_sell-Preserves body quantity)
                  λ _. audit-Preserves P around "paper_signal_accepted" _)
                λ _. run_risk_check-Preserves body quantity _)
              λ _. gets-Preserves P _)
            λ now.
              NeverRefuses-KeepsIfRefused P _
                (place_order-NeverRefuses body signal_id quantity _ now))

    execute_asked-KeepsIfRefused :
        (body : PaperOrderCreate Num) (signal_id : Option ℕ) (quantity : Option Num)
        → KeepsIfRefused P (execute_asked D F fits upper around body signal_id quantity)
    execute_asked-KeepsIfRefused body signal_id none =
        Preserves-KeepsIfRefused P _ (raise-Preserves P _ (paper_execution_error 422))
    execute_asked-KeepsIfRefused body signal_id (some quantity) =
        execute_quantity-KeepsIfRefused body signal_id _

    execute-KeepsIfRefused :
        (body : PaperOrderCreate Num) (signal_id : Option ℕ)
        → KeepsIfRefused P (execute D F fits upper around body signal_id)
    unfolding execute
    execute-KeepsIfRefused body signal_id =
        if-KeepsIfRefused P _ _ _
          (Preserves-KeepsIfRefused P _ (
            bind-Preserves P _ _ (audit-Preserves P around "paper_signal_rejected" _)
              λ _. raise-Preserves P _ (paper_execution_error 403)))
          (if-KeepsIfRefused P _ _ _
            (Preserves-KeepsIfRefused P _ (raise-Preserves P _ (paper_execution_error 422)))
            (execute_asked-KeepsIfRefused body signal_id _))

  -- When `execute` ends in a `PaperBusinessRefusal`, which its caller commits, it has staged no
  -- order and has changed neither the positions nor the cash nor the trades.
  pub refusal_stages_nothing :
      (body : PaperOrderCreate Num) (signal_id : Option ℕ) (s : Session Num) (code : String)
      → (execute D F fits upper around body signal_id s).0 ≡ failed (paper_business_refusal code)
      → ((execute D F fits upper around body signal_id s).1.book ≡ s.book)
        × ((execute D F fits upper around body signal_id s).1.order ≡ s.order)
  refusal_stages_nothing body signal_id s code e =
      (execute-KeepsIfRefused (λ book order. (book ≡ s.book) × (order ≡ s.order)) body
          signal_id).if_refused
        s code (refl, refl) e
