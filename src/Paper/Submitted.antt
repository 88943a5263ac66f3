-- ===== src/Paper/Submitted.antt =====
-- apps/api/app/execution/paper_operations.py: what is told when a command is submitted again.
use mathlib.Core.Path.{subst}
use t212_cashguard.Common.{
  ◌≡◌, inl, inr, refl, sym, ◌∙◌, ap, ℕ, Bool, true, Option, none, some, String, str_eq, ◌==◌,
}
use t212_cashguard.Common.Numeric.{Decimals, Floats, IsOrdered}
use t212_cashguard.Paper.{Around}
use t212_cashguard.Paper.Operations.{
  Command, Receipt, PaperStore, View, OperationResult, Conditions, receipt_of, view, submit_result,
}
use t212_cashguard.Broker.Record.{some_or}
use t212_cashguard.Paper.Submit.{same_request, try_submit, submit_identified, submit}
use t212_cashguard.Paper.Recorded.{
  receipt_of-append, view_again, RecordsOrNot, identified-RecordsOrNot, same_request_refl,
}

module _ (D : Decimals) (F : Floats (Decimals.Num D)) (fits : Decimals.Num D → Bool)
    (upper : String → String) (around : Around)
    (ordered : IsOrdered (Decimals.Num D) (Decimals.less D)) where
  open D use {Num, less}

  -- A submission that reaches the receipts.
  pub record IsOpen (c : Conditions) : Type 0 where
    pub in_mock_mode : str_eq around.app_mode "mock" ≡ true
    pub on_postgresql : c.is_postgresql ≡ true
    pub read_committed : c.is_read_committed ≡ true
    pub by_admin : c.is_active_admin ≡ true

  replayed :
      (c : Conditions) (w : PaperStore Num) (command : Command Num) (owner operation : ℕ)
      (r : Receipt Num) (v : View Num)
      → IsOpen c
      → command.operation_id ≡ some operation
      → receipt_of owner operation w.receipts ≡ some r
      → r.canonical_request ≡ command
      → (r.request_version == 1) ≡ true
      → view w r true ≡ some v
      → submit D F fits upper around c w command owner ≡ some (submit_result v, w)
  unfolding submit try_submit
  replayed c w command owner operation r v open_now named found canonical version shown =
      let same : same_request D F fits upper around r.canonical_request command ≡ true =
        ap (λ a. same_request D F fits upper around a command) canonical
        ∙ same_request_refl D F fits upper around ordered command in
      rw
        (
          named, open_now.in_mock_mode, open_now.on_postgresql, open_now.read_committed,
          open_now.by_admin, found, same, version, shown,
        )
        refl

  identified_by :
      (c : Conditions) (w after : PaperStore Num) (command : Command Num) (owner operation : ℕ)
      (result : OperationResult Num)
      → command.operation_id ≡ some operation
      → submit D F fits upper around c w command owner ≡ some (result, after)
      → (submit_identified D F fits upper around c w command owner operation).1 ≡ after
  unfolding submit
  identified_by c w after command owner operation result named run =
      let told : submit D F fits upper around c w command owner
          ≡ some (submit_identified D F fits upper around c w command owner operation) =
        rw named refl in
      ap (λ (o : Option (OperationResult Num × PaperStore Num)). (some_or o (result, after)).1)
        (sym told ∙ run)

  -- A named command that was new and has been recorded is not carried out again: submitted again, in
  -- conditions that let a submission through to the receipts, it changes nothing and is answered with
  -- what its receipt shows, also where the first submission's answer was lost.
  pub submit-replayed :
      (c c' : Conditions) (w after : PaperStore Num) (command : Command Num) (owner operation : ℕ)
      (result : OperationResult Num) (r : Receipt Num)
      → command.operation_id ≡ some operation
      → receipt_of owner operation w.receipts ≡ none
      → submit D F fits upper around c w command owner ≡ some (result, after)
      → receipt_of owner operation after.receipts ≡ some r
      → IsOpen c'
      → (v : View Num) × (view after r true ≡ some v)
        × (submit D F fits upper around c' after command owner ≡ some (submit_result v, after))
  submit-replayed c c' w after command owner operation result r named absent run there open_now =
      elim (subst (RecordsOrNot D F fits upper around ordered w command owner operation)
        (identified_by c w after command owner operation result named run)
        (identified-RecordsOrNot D F fits upper around ordered c w command owner operation
          absent)) [
            | inl same ↦
                let gone : receipt_of owner operation after.receipts ≡ none =
                  ap (receipt_of owner operation) same ∙ absent in
                cc (gone, there)
            | inr (r', v', appended, own, canonical, version, shown) ↦
                let found : receipt_of owner operation after.receipts ≡ some r' =
                  ap (receipt_of owner operation) appended
                  ∙ receipt_of-append owner operation w.receipts r' absent own in
                let same : r' ≡ r = ap (λ o. some_or o r) (sym found ∙ there) in
                let (v, again) = view_again after r' v' shown in
                (
                  v,
                  subst (λ x. view after x true ≡ some v) same again,
                  replayed c' after command owner operation r' v open_now named found canonical
                      version again,
                )
          ]
