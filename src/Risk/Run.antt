-- ===== src/Risk/Run.antt =====
-- apps/api/app/risk/engine.py: `RiskEngine.run_all_checks`.
use t212_cashguard.Common.{ℕ, Bool, true, false, Option, none, some, String, List, str_eq}
use t212_cashguard.Common.Numeric.{Decimals, Floats}
use t212_cashguard.Store.{RiskProfile}
use t212_cashguard.Risk.{Method, ◌>>◌, pass, block}
use t212_cashguard.Risk.Checks.{
  check_kill_switch, check_auto_trading_enabled, check_duplicate_order, check_max_open_positions,
  check_max_trades_today, check_symbol_cooldown,
}
use t212_cashguard.Risk.Limits.{
  HeatPosition, check_cash_guard, check_daily_loss_limit, check_position_size,
  check_consecutive_losses, check_portfolio_heat,
}

-- The arguments of `run_all_checks`, with the time that its queries read from the clock.
pub record Request (N : Type 0) : Type 0 where
  pub ticker : String
  pub side : String
  pub quantity : N
  pub estimated_price : N
  pub available_cash : N
  pub account_value : N
  pub realized_pnl_today : N
  pub current_open_positions : ℕ
  pub signal_id : Option ℕ
  pub risk_profile : Option (RiskProfile N)
  pub skip_auto_trading_check : Bool
  pub stop_price : Option N
  pub open_positions : Option (List (HeatPosition N))
  pub is_cfd : Bool
  pub is_exit : Bool
  pub now : ℕ

abbrev pub is_buy : {N : Type 0} → Request N → Bool
is_buy r = str_eq r.side "buy"

-- `if skipped: …` around a check.
abbrev pub unless : {N : Type 0} → Bool → Method N (Unit {0}) → Method N (Unit {0})
unless true check = pass
unless false check = check

abbrev pub when : {N : Type 0} → Bool → Method N (Unit {0}) → Method N (Unit {0})
when true check = check
when false check = pass

module _ (D : Decimals) (F : Floats (Decimals.Num D)) where
  open D use {Num, mul, sub, absolute}

  -- Check 11, where the stop price and the positions are known.
  abbrev pub heat_of :
      Request Num → Option Num → Option (List (HeatPosition Num)) → Method Num (Unit {0})
  heat_of r (some stop) (some positions) =
      check_portfolio_heat D F r.ticker (mul (absolute (sub r.estimated_price stop)) r.quantity)
        r.account_value positions r.signal_id r.risk_profile
  heat_of r (some stop) none = pass
  heat_of r none positions = pass

  unfoldable pub run_all_checks : Request Num → Method Num (Unit {0})
  unfolding block
  run_all_checks r = do
    when r.is_cfd (block "cash_only_cfd_block" (some r.ticker) r.signal_id)
    check_kill_switch
    unless r.skip_auto_trading_check check_auto_trading_enabled
    when (is_buy r)
        (check_cash_guard D r.ticker r.quantity r.estimated_price r.available_cash r.signal_id)
    check_duplicate_order r.ticker r.side r.signal_id
    unless r.is_exit (check_daily_loss_limit D r.realized_pnl_today r.account_value r.risk_profile)
    unless r.is_exit (check_max_open_positions r.current_open_positions r.risk_profile)
    when (is_buy r) (
        check_position_size D r.ticker (mul r.quantity r.estimated_price) r.account_value
          r.signal_id r.risk_profile)
    check_max_trades_today r.now r.risk_profile
    check_consecutive_losses D r.risk_profile
    check_symbol_cooldown r.now r.ticker r.risk_profile
    when (is_buy r) (heat_of r r.stop_price r.open_positions)
