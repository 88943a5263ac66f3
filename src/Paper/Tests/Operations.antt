-- ===== src/Paper/Tests/Operations.antt =====
-- apps/api/app/execution/paper_operations.py: a purchase on paper that names itself, twice.
use t212_cashguard.Common.{◌≡◌, refl, true, false, Option, none, some, List, [], ◌∷◌}
use t212_cashguard.Common.FixedPoint.{ℤ, fixed_point, fixed_floats, fixed_order}
use t212_cashguard.Lifecycle.{can_transition_order_status, order_status_transitions}
use t212_cashguard.Lifecycle.Evidence.{
  status_eq, transition_order_status, put, refuses_evidence, event_payload, audit_log,
  transition_with_rows, transition_order_status_with_evidence,
}
use t212_cashguard.Risk.Run.{run_all_checks}
use t212_cashguard.Risk.Checks.{
  check_kill_switch, check_auto_trading_enabled, check_duplicate_order, check_max_open_positions,
  check_max_trades_today, check_symbol_cooldown,
}
use t212_cashguard.Risk.Limits.{
  check_cash_guard, check_daily_loss_limit, check_position_size, check_consecutive_losses,
  check_portfolio_heat,
}
use t212_cashguard.Paper.{◌>>=◌, return, raise, gets, audit, order_event, transition, write}
use t212_cashguard.Paper.Policy.{
  PaperSimulationProfile, reject, fill_price_of, fee_of, evaluate_paper_fill,
}
use t212_cashguard.Paper.Ledger.{
  cash_of, sellable_of, sellable_paper_quantity, latest_paper_positions,
  current_open_paper_positions_count, latest_paper_account, value_of, opening_of, cash_after,
  new_quantity, new_available_quantity, new_avg, trade_of, snapshot_of, account_of, book_after,
  enter_rows, settle_fill, refuse_sale, fill_or_refuse, apply_fill_effects,
}
use t212_cashguard.Paper.Execute.{
  execute, refuse_quantity, check_sell_quantity_available, risk_request, ask_risk, heed_risk,
  run_risk_check, risk_price_of, new_paper_order, add_order, reject_order, fill_order, place_order,
  execute_quantity,
}
use t212_cashguard.Paper.Operations.{
  Command, Receipt, PaperStore, View, OperationResult, acknowledgement_lost, Conditions, receipt_of,
  order_with, view, submit_result, unconfirmed_result,
}
use t212_cashguard.Paper.Submit.{
  refusal_receipt, record_outcome, carry_out, try_submit, reconcile, same_request, submit,
}
use t212_cashguard.Paper.Submitted.{submit-replayed}
use t212_cashguard.Paper.Tests.{upper, fits, around, request, fresh, running}

abbrev command : Command ℤ
command = record {
  operation_id = some 42;
  body = request "buy" 10 PaperSimulationProfile.standard;
  strategy = none;
  source = "manual_qa";
}

abbrev before : PaperStore ℤ
before = record { receipts = []; orders = []; session = fresh running }

-- The first answer is lost, and cannot be read again.
abbrev cut_off : Conditions
cut_off = record {
  is_postgresql = true;
  is_read_committed = true;
  is_active_admin = true;
  commit_end = acknowledgement_lost;
  readable = false;
}

abbrev told : Option (OperationResult ℤ × PaperStore ℤ) → OperationResult ℤ × PaperStore ℤ
told none = (unconfirmed_result, before)
told (some x) = x

abbrev first_try : OperationResult ℤ × PaperStore ℤ
first_try = told (submit fixed_point fixed_floats fits upper around cut_off before command 7)

abbrev receipt_in : List (Receipt ℤ) → Receipt ℤ
receipt_in [] = refusal_receipt fixed_point fixed_floats fits upper around command 7 42 "" 0
receipt_in (r ∷ _) = r

abbrev kept_receipt : Receipt ℤ
kept_receipt = receipt_in first_try.1.receipts

first_run :
    submit fixed_point fixed_floats fits upper around cut_off before command 7 ≡ some first_try
unfolding submit
first_run = refl

kept_in : receipt_of 7 42 first_try.1.receipts ≡ some kept_receipt
unfolding ◌>>=◌ return raise gets audit order_event transition write reject fill_price_of fee_of
    evaluate_paper_fill sellable_of sellable_paper_quantity latest_paper_positions
    current_open_paper_positions_count latest_paper_account cash_of value_of opening_of cash_after
    new_quantity new_available_quantity new_avg trade_of snapshot_of account_of book_after
    enter_rows settle_fill refuse_sale fill_or_refuse apply_fill_effects refuse_quantity
    check_sell_quantity_available risk_request ask_risk heed_risk run_risk_check risk_price_of
    new_paper_order add_order reject_order fill_order place_order execute_quantity execute
    can_transition_order_status order_status_transitions status_eq transition_order_status put
    refuses_evidence event_payload audit_log transition_with_rows
    transition_order_status_with_evidence run_all_checks check_kill_switch
    check_auto_trading_enabled check_duplicate_order check_max_open_positions check_max_trades_today
    check_symbol_cooldown check_cash_guard check_daily_loss_limit check_position_size
    check_consecutive_losses check_portfolio_heat submit try_submit record_outcome carry_out
    receipt_of order_with view same_request reconcile
kept_in = refl

is_lost : first_try.0.status_code ≡ 503
unfolding ◌>>=◌ return raise gets audit order_event transition write reject fill_price_of fee_of
    evaluate_paper_fill sellable_of sellable_paper_quantity latest_paper_positions
    current_open_paper_positions_count latest_paper_account cash_of value_of opening_of cash_after
    new_quantity new_available_quantity new_avg trade_of snapshot_of account_of book_after
    enter_rows settle_fill refuse_sale fill_or_refuse apply_fill_effects refuse_quantity
    check_sell_quantity_available risk_request ask_risk heed_risk run_risk_check risk_price_of
    new_paper_order add_order reject_order fill_order place_order execute_quantity execute
    can_transition_order_status order_status_transitions status_eq transition_order_status put
    refuses_evidence event_payload audit_log transition_with_rows
    transition_order_status_with_evidence run_all_checks check_kill_switch
    check_auto_trading_enabled check_duplicate_order check_max_open_positions check_max_trades_today
    check_symbol_cooldown check_cash_guard check_daily_loss_limit check_position_size
    check_consecutive_losses check_portfolio_heat submit try_submit record_outcome carry_out
    receipt_of order_with view same_request reconcile
is_lost = refl

is_recorded : kept_receipt.outcome ≡ "order_recorded"
unfolding ◌>>=◌ return raise gets audit order_event transition write reject fill_price_of fee_of
    evaluate_paper_fill sellable_of sellable_paper_quantity latest_paper_positions
    current_open_paper_positions_count latest_paper_account cash_of value_of opening_of cash_after
    new_quantity new_available_quantity new_avg trade_of snapshot_of account_of book_after
    enter_rows settle_fill refuse_sale fill_or_refuse apply_fill_effects refuse_quantity
    check_sell_quantity_available risk_request ask_risk heed_risk run_risk_check risk_price_of
    new_paper_order add_order reject_order fill_order place_order execute_quantity execute
    can_transition_order_status order_status_transitions status_eq transition_order_status put
    refuses_evidence event_payload audit_log transition_with_rows
    transition_order_status_with_evidence run_all_checks check_kill_switch
    check_auto_trading_enabled check_duplicate_order check_max_open_positions check_max_trades_today
    check_symbol_cooldown check_cash_guard check_daily_loss_limit check_position_size
    check_consecutive_losses check_portfolio_heat submit try_submit record_outcome carry_out
    receipt_of order_with view same_request reconcile
is_recorded = refl

submit-replayed_example :
    (v : View ℤ) × (view first_try.1 kept_receipt true ≡ some v)
    × (submit fixed_point fixed_floats fits upper around cut_off first_try.1 command 7
        ≡ some (submit_result v, first_try.1))
unfolding receipt_of
submit-replayed_example =
    submit-replayed fixed_point fixed_floats fits upper around fixed_order cut_off cut_off before
      first_try.1 command 7 42 first_try.0 kept_receipt refl refl first_run kept_in
      (record { in_mock_mode = refl; on_postgresql = refl; read_committed = refl; by_admin = refl })
