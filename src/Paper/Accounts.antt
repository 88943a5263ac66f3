-- ===== src/Paper/Accounts.antt =====
-- apps/api/app/execution/paper_engine.py: `execute` keeps an account sound, whatever it ends in.
use t212_cashguard.Common.{ℕ, ◌≡◌, ◌∙◌, sym, Bool, Option, none, some, String, refl, if◌then◌else◌}
use mathlib.Core.Path.{subst}
use t212_cashguard.Common.Numeric.{Decimals, Floats}
use t212_cashguard.Lifecycle.{Status, Known}
use t212_cashguard.Lifecycle.Evidence.{Outcome, returned, invalid_order_transition, value_error}
use t212_cashguard.Paper.{
  PaperOrder, Session, Raised, paper_execution_error, paper_business_refusal, Method, Around, ◌>>=◌,
  raise, return, gets, audit, transition, write, result_of,
}
use t212_cashguard.Paper.Policy.{PaperFillDecision, PaperFillOutcome}
use t212_cashguard.Paper.Execute.{
  PaperOrderCreate, new_paper_order, add_order, reject_order, fill_order, conclude, place_order,
  execute_quantity, execute_asked, execute,
}
use t212_cashguard.Paper.Rules.{
  Preserves, Yields, OnDone, bind-Preserves, after-Preserves, bind-Yields, if-Preserves,
  return-Preserves, raise-Preserves, gets-Preserves, audit-Preserves, order_event-Preserves,
}
use t212_cashguard.Paper.Refused.{check_sell-Preserves, run_risk_check-Preserves}
use t212_cashguard.Paper.Sound.{IsSigned, sound, HasSide}
use t212_cashguard.Paper.Kept.{with_evidence_side, apply_fill_effects-Kept}

module _ {N : Type 0} where
  abbrev SameSide : PaperOrder N → PaperOrder N → Type 0
  SameSide order after = after.row.side ≡ order.row.side

  outcome-OnDone :
      {A : Type 0} (Q : PaperOrder N → Type 0) (out : Outcome A) (after : PaperOrder N)
      → Q after
      → OnDone Q (result_of out after)
  outcome-OnDone Q (returned _) after h = h
  outcome-OnDone Q invalid_order_transition after h = tt
  outcome-OnDone Q value_error after h = tt

  transition-Yields :
      (around : Around) (order : PaperOrder N) (status : Status) (event_type reason : String)
      → Yields (SameSide order) (transition around order status event_type reason)
  unfolding transition
  transition-Yields around order status event_type reason = record {
    yields =
        λ s. outcome-OnDone (SameSide order) _ _ (with_evidence_side s.staged order.row status _);
  }

module _ (D : Decimals) (F : Floats (Decimals.Num D)) (fits : Decimals.Num D → Bool)
    (upper : String → String) (around : Around) (signs : IsSigned D) where
  open D use {Num, less, quantize_down}

  abbrev Kept : {A : Type 0} → Method Num A → Type 0
  Kept m = Preserves (sound D) m

  -- Rules for methods that leave the account alone.
  bind-Kept :
      {A B : Type 0} (m : Method Num A) (f : A → Method Num B)
      → Kept m
      → ((a : A) → Kept (f a))
      → Kept (m >>= f)
  bind-Kept = bind-Preserves (sound D)

  if-Kept :
      {A : Type 0} (b : Bool) (m k : Method Num A) → Kept m → Kept k → Kept (if b then m else k)
  if-Kept = if-Preserves (sound D)

  audit-Kept : (action : String) (code : Option String) → Kept (audit around action code)
  audit-Kept = audit-Preserves (sound D) around

  raise-Kept : (A : Type 0) (e : Raised) → Kept {A = A} (raise e)
  raise-Kept = raise-Preserves (sound D)

  gets-Kept : {A : Type 0} (f : Session Num → A) → Kept (gets f)
  gets-Kept = gets-Preserves (sound D)

  return-Kept : {A : Type 0} (a : A) → Kept (return a)
  return-Kept = return-Preserves (sound D)

  pub transition-Kept :
      (order : PaperOrder Num) (status : Status) (event_type reason : String)
      → Kept (transition around order status event_type reason)
  unfolding transition
  transition-Kept order status event_type reason = record { keeps = λ s p. p }

  pub write-Kept : (order : PaperOrder Num) → Kept (write order)
  unfolding write
  write-Kept order = record { keeps = λ s p. p }

  reject_order-Kept :
      (order : PaperOrder Num) (decision : PaperFillDecision Num) (now : ℕ)
      → Kept (reject_order D F fits upper around order decision now)
  unfolding reject_order
  reject_order-Kept order decision now = bind-Kept _ _ (transition-Kept order _ _ _) λ after.
      bind-Kept _ _ (bind-Kept _ _ (write-Kept _) λ _. audit-Kept "paper_execution_rejected" none)
        λ _. return-Kept _

  fill_order-Kept :
      (order : PaperOrder Num) (decision : PaperFillDecision Num) (status : Known) (now : ℕ)
      → HasSide D order.row.side
      → Kept (fill_order D F fits upper around order decision status now)
  unfolding fill_order
  fill_order-Kept order decision status now side =
      after-Preserves (sound D) (SameSide order) _ _ (transition-Kept order _ _ _)
        (transition-Yields around order _ _ _)
        λ after same.
          bind-Kept _ _
            (bind-Kept _ _
              (bind-Kept _ _ (write-Kept _) λ _. audit-Kept "paper_fill_simulated" none)
              λ _.
                apply_fill_effects-Kept D upper signs around _ decision
                  (subst (HasSide D) (sym same) side))
            λ _. return-Kept _

  conclude-Kept :
      (decision : PaperFillDecision Num) (now : ℕ) (outcome : PaperFillOutcome)
      → (order : PaperOrder Num) → HasSide D order.row.side
      → Kept (conclude D F fits upper around decision now outcome order)
  conclude-Kept decision now PaperFillOutcome.rejected order side =
      reject_order-Kept order decision now
  conclude-Kept decision now PaperFillOutcome.filled order side =
      fill_order-Kept order decision Known.filled now side
  conclude-Kept decision now PaperFillOutcome.partially_filled order side =
      fill_order-Kept order decision Known.partially_filled now side

  add_order-Kept : (order : PaperOrder Num) → Kept (add_order D F fits upper around order)
  unfolding add_order
  add_order-Kept order = record { keeps = λ s p. p }

  new_order-Yields :
      (body : PaperOrderCreate Num) (signal_id : Option ℕ) (quantity : Num)
      → (decision : PaperFillDecision Num)
      → Yields
          (λ order. order.row.side ≡ body.side)
          (gets (new_paper_order D F fits upper around body signal_id quantity decision)
            >>= add_order D F fits upper around)
  unfolding ◌>>=◌ gets add_order new_paper_order
  new_order-Yields body signal_id quantity decision = record { yields = λ s. refl }

  place_order-Kept :
      (body : PaperOrderCreate Num) (signal_id : Option ℕ) (quantity : Num)
      → (decision : PaperFillDecision Num) (now : ℕ) → HasSide D body.side
      → Kept (place_order D F fits upper around body signal_id quantity decision now)
  unfolding place_order
  place_order-Kept body signal_id quantity decision now side =
      after-Preserves (sound D) (λ order. order.row.side ≡ body.side) _ _
        (bind-Kept _ _ (gets-Kept _) λ order. add_order-Kept order)
        (new_order-Yields body signal_id quantity decision)
        λ order of_body.
          after-Preserves (sound D) (SameSide order) _ _
            (bind-Kept _ _
              (bind-Kept _ _ (order_event-Preserves (sound D) _ _ _)
                λ _. audit-Kept "paper_order_created" none)
              λ _. transition-Kept order _ _ _)
            (bind-Yields (SameSide order) _ _ λ _. transition-Yields around order _ _ _)
            λ submitted same.
              conclude-Kept decision now decision.outcome _
                (subst (HasSide D) (sym (same ∙ of_body)) side)

  execute_quantity-Kept :
      (body : PaperOrderCreate Num) (signal_id : Option ℕ) (quantity : Num)
      → HasSide D body.side
      → Kept (execute_quantity D F fits upper around body signal_id quantity)
  unfolding execute_quantity
  execute_quantity-Kept body signal_id quantity side =
      if-Kept _ _ _ (raise-Kept _ (paper_business_refusal _)) (
        bind-Kept _ _
          (bind-Kept _ _
            (bind-Kept _ _
              (bind-Kept _ _ (check_sell-Preserves D F fits upper around (sound D) body quantity)
                λ _. audit-Kept "paper_signal_accepted" _)
              λ _. run_risk_check-Preserves D F fits upper around (sound D) body quantity _)
            λ _. gets-Kept _)
          λ now. place_order-Kept body signal_id quantity _ now side)

  execute_asked-Kept :
      (body : PaperOrderCreate Num) (signal_id : Option ℕ) (quantity : Option Num)
      → HasSide D body.side
      → Kept (execute_asked D F fits upper around body signal_id quantity)
  execute_asked-Kept body signal_id none side = raise-Kept _ (paper_execution_error 422)
  execute_asked-Kept body signal_id (some quantity) side =
      execute_quantity-Kept body signal_id _ side

  pub execute-Kept :
      (body : PaperOrderCreate Num) (signal_id : Option ℕ)
      → HasSide D body.side
      → Kept (execute D F fits upper around body signal_id)
  unfolding execute
  execute-Kept body signal_id side =
      if-Kept _ _ _
        (bind-Kept _ _ (audit-Kept "paper_signal_rejected" _)
          λ _. raise-Kept _ (paper_execution_error 403))
        (if-Kept _ _ _ (raise-Kept _ (paper_execution_error 422))
          (execute_asked-Kept body signal_id _ side))
