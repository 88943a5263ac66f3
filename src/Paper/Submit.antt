-- ===== src/Paper/Submit.antt =====
-- apps/api/app/execution/paper_operations.py: a paper command that names itself is carried out at most
-- once, and told again from its receipt.
use t212_cashguard.Common.{
  ℕ, Bool, true, false, not, ◌&&◌, ◌||◌, Option, none, some, String, List, [], ◌∷◌, ◌++◌, ◌==◌,
  str_eq, if◌then◌else◌,
}
use t212_cashguard.Common.Numeric.{Decimals, Floats}
use t212_cashguard.Store.{AppSettings}
use t212_cashguard.Paper.{
  PaperOrder, Session, Around, Result, done, failed, paper_execution_error, paper_business_refusal,
  bad_value, bad_transition, risk_engine_error, Method, ◌>>◌, raise, audit,
}
use t212_cashguard.Paper.Execute.{execute}
use t212_cashguard.Paper.Operations.{
  Command, Receipt, PaperStore, View, OperationResult, Commit, acknowledged, acknowledgement_lost,
  not_committed, Conditions, Attempt, answered, broken, detail, same_text, same_profile,
  result_with, unconfirmed_result, other_inputs, receipt_of, view, submit_result,
}

module _ (D : Decimals) (F : Floats (Decimals.Num D)) (fits : Decimals.Num D → Bool)
    (upper : String → String) (around : Around) where
  open D use {Num, less}

  abbrev pub same_number : Num → Num → Bool
  same_number a b = not (less a b) && not (less b a)

  abbrev pub same_amount : Option Num → Option Num → Bool
  same_amount none none = true
  same_amount (some a) (some b) = same_number a b
  same_amount none (some b) = false
  same_amount (some a) none = false

  -- `canonical_request(a) == canonical_request(b)`
  unfoldable pub same_request : Command Num → Command Num → Bool
  same_request a b =
      str_eq a.body.ticker b.body.ticker
      && str_eq a.body.side b.body.side
      && same_amount a.body.quantity b.body.quantity
      && same_amount a.body.notional b.body.notional
      && same_number a.body.estimated_price b.body.estimated_price
      && str_eq a.body.order_type b.body.order_type
      && str_eq a.body.venue b.body.venue
      && same_profile a.body.simulation_profile b.body.simulation_profile
      && same_text a.strategy b.strategy
      && str_eq a.source b.source

  -- A rollback leaves the rejections that another connection has committed.
  abbrev pub rolled_back : PaperStore Num → Session Num → PaperStore Num
  rolled_back w s = record w { session = record (w.session) { durable_audits = s.durable_audits } }

  -- The receipt of an order, and that of a refusal.
  abbrev pub order_receipt : Command Num → ℕ → ℕ → PaperOrder Num → ℕ → Receipt Num
  order_receipt command owner operation order now = record {
    user_id = owner;
    operation = operation;
    request_version = 1;
    canonical_request = command;
    outcome = "order_recorded";
    http_status = 201;
    decision_code = none;
    order_id = some order.row.id;
    completed_at = now;
  }

  abbrev pub refusal_receipt : Command Num → ℕ → ℕ → String → ℕ → Receipt Num
  refusal_receipt command owner operation code now = record {
    user_id = owner;
    operation = operation;
    request_version = 1;
    canonical_request = command;
    outcome = "blocked";
    http_status = 422;
    decision_code = some code;
    order_id = none;
    completed_at = now;
  }

  abbrev pub with_receipt :
      PaperStore Num → Receipt Num → List (PaperOrder Num) → Session Num → PaperStore Num
  with_receipt w r orders s = record {
    receipts = w.receipts ++ r ∷ [];
    orders = w.orders ++ orders;
    session = s;
  }

  -- The result is made before the commit.
  abbrev pub conclude_commit :
      Commit → PaperStore Num → PaperStore Num → Option (View Num) → Attempt Num
  conclude_commit commit before after none = broken (rolled_back before after.session)
  conclude_commit acknowledged before after (some v) = answered (submit_result v) after
  conclude_commit acknowledgement_lost before after (some v) = broken after
  conclude_commit not_committed before after (some v) = broken (rolled_back before after.session)

  abbrev pub keep_receipt :
      Commit → PaperStore Num → Receipt Num → List (PaperOrder Num) → Session Num → Attempt Num
  keep_receipt commit w r orders s =
      let after = with_receipt w r orders s in conclude_commit commit w after (view after r false)

  unfoldable pub record_outcome :
      Commit
      → PaperStore Num
      → Command Num
      → ℕ
      → ℕ
      → Result (PaperOrder Num) × Session Num
      → Attempt Num
  unfolding view
  record_outcome commit w command owner operation (done order, s) =
      keep_receipt commit w (order_receipt command owner operation order s.now) (order ∷ []) s
  record_outcome commit w command owner operation (failed (paper_business_refusal code), s) =
      keep_receipt commit w (refusal_receipt command owner operation code s.now) [] s
  record_outcome commit w command owner operation (failed (paper_execution_error code), s) =
      broken (rolled_back w s)
  record_outcome commit w command owner operation (failed bad_value, s) = broken (rolled_back w s)
  record_outcome commit w command owner operation (failed bad_transition, s) =
      broken (rolled_back w s)
  record_outcome commit w command owner operation (failed risk_engine_error, s) =
      broken (rolled_back w s)

  -- Without the row of the settings, nothing is executed.
  unfoldable pub carry_out : Option AppSettings → Command Num → Method Num (PaperOrder Num)
  unfolding execute
  carry_out none command =
      audit around "paper_signal_rejected" (some "safety_settings_missing")
      >> raise (paper_business_refusal "safety_settings_missing")
  carry_out (some settings) command = execute D F fits upper around command.body none

  abbrev pub told_again : PaperStore Num → Option (View Num) → Attempt Num
  told_again w none = broken w
  told_again w (some v) = answered (submit_result v) w

  abbrev pub after_prior :
      Conditions → PaperStore Num → Command Num → ℕ → ℕ → Option (Receipt Num) → Attempt Num
  after_prior c w command owner operation none =
      record_outcome c.commit_end w command owner operation
        (carry_out w.session.risk.saved_settings command w.session)
  after_prior c w command owner operation (some r) =
      if not (same_request r.canonical_request command) || not (r.request_version == 1)
      then answered other_inputs w
      else told_again w (view w r true)

  -- `_submit`
  unfoldable pub try_submit : Conditions → PaperStore Num → Command Num → ℕ → ℕ → Attempt Num
  unfolding record_outcome carry_out receipt_of same_request view
  try_submit c w command owner operation =
      if not c.is_read_committed
      then answered unconfirmed_result w
      else if not c.is_active_admin
      then answered (result_with 403 (detail "not an active administrator")) w
      else after_prior c w command owner operation (receipt_of owner operation w.receipts)

  abbrev pub or_unconfirmed : Option (View Num) → OperationResult Num
  or_unconfirmed none = unconfirmed_result
  or_unconfirmed (some v) = submit_result v

  abbrev pub reconciled : PaperStore Num → Command Num → Option (Receipt Num) → OperationResult Num
  reconciled w command none = unconfirmed_result
  reconciled w command (some r) =
      if same_request r.canonical_request command
      then or_unconfirmed (view w r true)
      else other_inputs

  -- `_reconcile`
  unfoldable pub reconcile : Bool → PaperStore Num → Command Num → ℕ → ℕ → OperationResult Num
  unfolding receipt_of same_request view
  reconcile readable w command owner operation =
      if readable
      then reconciled w command (receipt_of owner operation w.receipts)
      else unconfirmed_result

  abbrev pub recovered :
      Conditions → Command Num → ℕ → ℕ → Attempt Num → OperationResult Num × PaperStore Num
  recovered c command owner operation (answered result w) = (result, w)
  recovered c command owner operation (broken w) =
      (reconcile c.readable w command owner operation, w)

  abbrev pub submit_identified :
      Conditions → PaperStore Num → Command Num → ℕ → ℕ → OperationResult Num × PaperStore Num
  submit_identified c w command owner operation =
      if not (str_eq around.app_mode "mock")
      then (result_with 403 (detail "not in mock mode"), w)
      else if not c.is_postgresql
      then (unconfirmed_result, w)
      else recovered c command owner operation (try_submit c w command owner operation)

  abbrev pub submit_operation :
      Conditions
      → PaperStore Num
      → Command Num
      → ℕ
      → Option ℕ
      → Option (OperationResult Num × PaperStore Num)
  submit_operation c w command owner none = none
  submit_operation c w command owner (some operation) =
      some (submit_identified c w command owner operation)

  -- `submit`; none where it raises `ValueError`.
  unfoldable pub submit :
      Conditions → PaperStore Num → Command Num → ℕ → Option (OperationResult Num × PaperStore Num)
  unfolding try_submit reconcile
  submit c w command owner = submit_operation c w command owner command.operation_id
