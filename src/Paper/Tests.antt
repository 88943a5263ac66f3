-- ===== src/Paper/Tests.antt =====
-- Concrete runs of apps/api/app/execution/paper_engine.py.
mod Operations
use t212_cashguard.Common.{
  ℕ, ◌≡◌, Bool, true, false, Option, none, some, String, [], ◌∷◌, refl, inl, arith,
}
use t212_cashguard.Common.FixedPoint.{ℤ, fixed_point, fixed_floats, fixed_order, whole}
use t212_cashguard.Store.{RiskProfile, AppSettings}
use t212_cashguard.Lifecycle.{
  Status, Known, known, can_transition_order_status, order_status_transitions,
}
use t212_cashguard.Lifecycle.Evidence.{
  status_eq, transition_order_status, put, refuses_evidence, event_payload, audit_log,
  transition_with_rows, transition_order_status_with_evidence,
}
use t212_cashguard.Risk.Run.{run_all_checks}
use t212_cashguard.Risk.Checks.{
  check_kill_switch, check_auto_trading_enabled, check_duplicate_order, check_max_open_positions,
  check_max_trades_today, check_symbol_cooldown,
}
use t212_cashguard.Risk.Limits.{
  check_cash_guard, check_daily_loss_limit, check_position_size, check_consecutive_losses,
  check_portfolio_heat,
}
use t212_cashguard.Paper.{
  PaperOrder, Session, Around, Result, done, failed, paper_execution_error, paper_business_refusal,
  ◌>>=◌, return, raise, gets, audit, order_event, transition, write,
}
use t212_cashguard.Paper.Policy.{
  PaperSimulationProfile, reject, fill_price_of, fee_of, evaluate_paper_fill,
}
use t212_cashguard.Paper.Ledger.{
  cash_of, sellable_of, sellable_paper_quantity, latest_paper_positions,
  current_open_paper_positions_count, latest_paper_account, value_of, opening_of, cash_after,
  new_quantity, new_available_quantity, new_avg, trade_of, snapshot_of, account_of, book_after,
  enter_rows, settle_fill, refuse_sale, fill_or_refuse, apply_fill_effects,
}
use t212_cashguard.Paper.Execute.{
  PaperOrderCreate, execute, refuse_quantity, check_sell_quantity_available, risk_request, ask_risk,
  heed_risk, run_risk_check, risk_price_of, new_paper_order, add_order, reject_order, fill_order,
  place_order, execute_quantity,
}
use t212_cashguard.Paper.FollowUp.{fill_partial_order}
use t212_cashguard.Paper.Refused.{refusal_stages_nothing}
use t212_cashguard.Paper.Sound.{IsSigned, IsSound}
use t212_cashguard.Paper.FollowedUp.{IsFollowUp, fill_partial_order-IsFollowUp}
use t212_cashguard.Paper.FollowUp.{
  fill_partial_order, fill_quantity, pay_for, enter_fill, advance, with_fill, cumulative_avg,
  required_cash, remaining_quantity, is_active_partial,
}
use t212_cashguard.Paper.Reached.{Reached, opened, executed, account-IsSound}

fixed_signs : IsSigned fixed_point
fixed_signs = record {
  order = fixed_order;
  add_nonneg = λ a b h k. ground arith;
  sub_nonneg = λ a b h. ground arith;
}

abbrev upper : String → String
upper s = s

abbrev fits : ℤ → Bool
fits n = true

abbrev around : Around
around = record {
  app_mode = "mock";
  durable_available = true;
  client_order_key = "key";
  connection_id = 7;
  email = "a@example.com";
  account_scope = "paper:mock:user:1";
}

abbrev profile : RiskProfile ℤ
profile = record {
  max_daily_loss_pct = whole 5;
  max_open_positions = 5;
  max_position_size_pct = whole 10;
  max_trades_per_day = 20;
  stop_after_consecutive_losses = 3;
  symbol_cooldown_seconds = 300;
  max_risk_per_trade_pct = whole 1;
  cfd_max_risk_per_trade_pct = none;
  cfd_max_daily_loss_pct = none;
  min_free_margin_pct = whole 50;
  cfd_max_leverage = whole 1;
  is_default = true;
}

-- A session on an account without rows.
abbrev fresh : AppSettings → Session ℤ
fresh settings = record {
  book = record { positions = []; accounts = []; trades = [] };
  order = none;
  staged = record { events = []; audits = [] };
  events = [];
  audits = [];
  durable_audits = [];
  risk = record {
    session_settings = some settings;
    saved_settings = some settings;
    risk_profiles = profile ∷ [];
    orders = [];
    trades = [];
    risk_events = [];
  };
  next_id = 1;
  now = 1_000_000_000_000;
}

abbrev running : AppSettings
running = record { auto_trading_enabled = true; kill_switch_active = false }

abbrev halted : AppSettings
halted = record { auto_trading_enabled = true; kill_switch_active = true }

abbrev request : String → ℕ → PaperSimulationProfile → PaperOrderCreate ℤ
request side shares simulation_profile = record {
  ticker = "ACME";
  side = side;
  quantity = some (whole shares);
  notional = none;
  estimated_price = whole 100;
  order_type = "market";
  venue = "paper";
  simulation_profile = simulation_profile;
}

abbrev run : PaperOrderCreate ℤ → Session ℤ → Result (PaperOrder ℤ) × Session ℤ
run body s = execute fixed_point fixed_floats fits upper around body none s

-- What a result says of the order: its status and what is filled, or the exception.
abbrev outcome : Result (PaperOrder ℤ) → Result (Status × Option ℤ)
outcome (done order) = done (order.row.status, order.row.filled_quantity)
outcome (failed e) = failed e

abbrev bought : Session ℤ
bought = (run (request "buy" 10 PaperSimulationProfile.partial_fill) (fresh running)).1

abbrev buy_outcome : Result (Status × Option ℤ)
buy_outcome = outcome (run (request "buy" 10 PaperSimulationProfile.partial_fill) (fresh running)).0

abbrev sale_outcome : Result (Status × Option ℤ)
sale_outcome = outcome (run (request "sell" 6 PaperSimulationProfile.standard) bought).0

abbrev halted_outcome : Result (Status × Option ℤ)
halted_outcome = outcome (run (request "buy" 10 PaperSimulationProfile.standard) (fresh halted)).0

abbrev cash_left : ℤ
cash_left = cash_of fixed_point bought.book

abbrev rest_of : Option (PaperOrder ℤ) → Result (Status × Option ℤ)
rest_of none = failed (paper_execution_error 0)
rest_of (some order) =
    outcome (fill_partial_order fixed_point fits upper around order (whole 5) (whole 100) bought).0

-- Half of an order is bought, more than that cannot be sold, and the kill switch refuses an order.
buy_outcome_lem : buy_outcome ≡ done (known Known.partially_filled, some (whole 5))
unfolding ◌>>=◌ return raise gets audit order_event transition write reject fill_price_of fee_of
    evaluate_paper_fill sellable_of sellable_paper_quantity latest_paper_positions
    current_open_paper_positions_count latest_paper_account cash_of value_of opening_of cash_after
    new_quantity new_available_quantity new_avg trade_of snapshot_of account_of book_after
    enter_rows settle_fill refuse_sale fill_or_refuse apply_fill_effects refuse_quantity
    check_sell_quantity_available risk_request ask_risk heed_risk run_risk_check risk_price_of
    new_paper_order add_order reject_order fill_order place_order execute_quantity execute
    can_transition_order_status order_status_transitions status_eq transition_order_status put
    refuses_evidence event_payload audit_log transition_with_rows
    transition_order_status_with_evidence run_all_checks check_kill_switch
    check_auto_trading_enabled check_duplicate_order check_max_open_positions check_max_trades_today
    check_symbol_cooldown check_cash_guard check_daily_loss_limit check_position_size
    check_consecutive_losses check_portfolio_heat
buy_outcome_lem = refl

sale_outcome_lem : sale_outcome ≡ failed (paper_business_refusal "paper_oversell_block")
unfolding ◌>>=◌ return raise gets audit order_event transition write reject fill_price_of fee_of
    evaluate_paper_fill sellable_of sellable_paper_quantity latest_paper_positions
    current_open_paper_positions_count latest_paper_account cash_of value_of opening_of cash_after
    new_quantity new_available_quantity new_avg trade_of snapshot_of account_of book_after
    enter_rows settle_fill refuse_sale fill_or_refuse apply_fill_effects refuse_quantity
    check_sell_quantity_available risk_request ask_risk heed_risk run_risk_check risk_price_of
    new_paper_order add_order reject_order fill_order place_order execute_quantity execute
    can_transition_order_status order_status_transitions status_eq transition_order_status put
    refuses_evidence event_payload audit_log transition_with_rows
    transition_order_status_with_evidence run_all_checks check_kill_switch
    check_auto_trading_enabled check_duplicate_order check_max_open_positions check_max_trades_today
    check_symbol_cooldown check_cash_guard check_daily_loss_limit check_position_size
    check_consecutive_losses check_portfolio_heat
sale_outcome_lem = refl

kill_switch_refuses :
    (run (request "buy" 10 PaperSimulationProfile.standard) (fresh halted)).0
    ≡ failed (paper_business_refusal "kill_switch_block")
unfolding ◌>>=◌ return raise gets audit order_event transition write reject fill_price_of fee_of
    evaluate_paper_fill sellable_of sellable_paper_quantity latest_paper_positions
    current_open_paper_positions_count latest_paper_account cash_of value_of opening_of cash_after
    new_quantity new_available_quantity new_avg trade_of snapshot_of account_of book_after
    enter_rows settle_fill refuse_sale fill_or_refuse apply_fill_effects refuse_quantity
    check_sell_quantity_available risk_request ask_risk heed_risk run_risk_check risk_price_of
    new_paper_order add_order reject_order fill_order place_order execute_quantity execute
    can_transition_order_status order_status_transitions status_eq transition_order_status put
    refuses_evidence event_payload audit_log transition_with_rows
    transition_order_status_with_evidence run_all_checks check_kill_switch
    check_auto_trading_enabled check_duplicate_order check_max_open_positions check_max_trades_today
    check_symbol_cooldown check_cash_guard check_daily_loss_limit check_position_size
    check_consecutive_losses check_portfolio_heat
kill_switch_refuses = refl

bought-Reached : Reached fixed_point fixed_floats fits upper bought.book
bought-Reached =
    executed around (request "buy" 10 PaperSimulationProfile.partial_fill) none (fresh running)
      (inl refl) opened

abbrev whole_order : PaperOrder ℤ
whole_order =
    new_paper_order fixed_point fixed_floats fits upper around
      (request "buy" 10 PaperSimulationProfile.partial_fill) none (whole 10)
      (evaluate_paper_fill fixed_point fits "buy" (whole 10) (whole 100)
        PaperSimulationProfile.partial_fill)
      (fresh running)

abbrev order_or : Option (PaperOrder ℤ) → PaperOrder ℤ → PaperOrder ℤ
order_or none d = d
order_or (some order) d = order

abbrev returned_or : Result (PaperOrder ℤ) → PaperOrder ℤ → PaperOrder ℤ
returned_or (done order) d = order
returned_or (failed e) d = d

abbrev half : PaperOrder ℤ
half = order_or bought.order whole_order

abbrev two_more : PaperOrder ℤ
two_more =
    returned_or
      (fill_partial_order fixed_point fits upper around half (whole 2) (whole 100) bought).0 half

-- Two more of the five that are left.
two_more_filled :
    (fill_partial_order fixed_point fits upper around half (whole 2) (whole 100) bought).0
    ≡ done two_more
unfolding ◌>>=◌ return raise gets audit order_event transition write reject fill_price_of fee_of
    evaluate_paper_fill sellable_of sellable_paper_quantity latest_paper_positions
    current_open_paper_positions_count latest_paper_account cash_of value_of opening_of cash_after
    new_quantity new_available_quantity new_avg trade_of snapshot_of account_of book_after
    enter_rows settle_fill refuse_sale fill_or_refuse apply_fill_effects refuse_quantity
    check_sell_quantity_available risk_request ask_risk heed_risk run_risk_check risk_price_of
    new_paper_order add_order reject_order fill_order place_order execute_quantity execute
    can_transition_order_status order_status_transitions status_eq transition_order_status put
    refuses_evidence event_payload audit_log transition_with_rows
    transition_order_status_with_evidence run_all_checks check_kill_switch
    check_auto_trading_enabled check_duplicate_order check_max_open_positions check_max_trades_today
    check_symbol_cooldown check_cash_guard check_daily_loss_limit check_position_size
    check_consecutive_losses check_portfolio_heat fill_partial_order fill_quantity pay_for
    enter_fill advance with_fill cumulative_avg required_cash remaining_quantity is_active_partial
two_more_filled = refl

fill_partial_order-IsFollowUp_example :
    IsFollowUp fixed_point fits upper around bought half (whole 2) two_more
fill_partial_order-IsFollowUp_example =
    fill_partial_order-IsFollowUp fixed_point fits upper around fixed_order bought half (whole 2)
      (whole 100) two_more two_more_filled

refusal_stages_nothing_example :
    ((run (request "buy" 10 PaperSimulationProfile.standard) (fresh halted)).1.book
      ≡ (fresh halted).book)
    × ((run (request "buy" 10 PaperSimulationProfile.standard) (fresh halted)).1.order ≡ none)
refusal_stages_nothing_example =
    refusal_stages_nothing fixed_point fixed_floats fits upper around
      (request "buy" 10 PaperSimulationProfile.standard) none (fresh halted) "kill_switch_block"
      kill_switch_refuses

account-IsSound_example : IsSound fixed_point bought.book
account-IsSound_example =
    account-IsSound fixed_point fixed_floats fits upper fixed_signs bought.book bought-Reached
