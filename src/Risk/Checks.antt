-- ===== src/Risk/Checks.antt =====
-- apps/api/app/risk/engine.py: the checks of `RiskEngine` that read no prices.
use t212_cashguard.Common.{
  ℕ, ◌-◌, ◌*◌, ◌%◌, Bool, true, false, not, ◌&&◌, ◌||◌, Option, none, some, String, select, length,
  leb, ◌==◌, str_eq, if◌then◌else◌,
}
use t212_cashguard.Lifecycle.{Status, known, rejected, cancelled, is_active_status}
use t212_cashguard.Store.{Order, Trade, RiskProfile, AppSettings}
use t212_cashguard.Risk.{
  Method, ok, risk_violation, ◌>>=◌, pass, raise, gets, block, get_settings, profile_or_default,
}

-- `saved is not False` and `saved is not True` of a column that may be missing.
abbrev pub is_not_false : Option Bool → Bool
is_not_false (some false) = false
is_not_false _ = true

abbrev pub is_not_true : Option Bool → Bool
is_not_true (some true) = false
is_not_true _ = true

-- `_saved_setting`: one column of the saved row.
abbrev pub saved_setting : (AppSettings → Bool) → Option AppSettings → Option Bool
saved_setting column none = none
saved_setting column (some s) = some (column s)

-- `datetime.now(UTC).replace(hour=0, minute=0, second=0, microsecond=0)`
abbrev pub start_of_day : ℕ → ℕ
start_of_day now = now - now % 86_400_000_000

-- `Order.status.not_in(["rejected", "cancelled"])`
abbrev pub counts_as_trade : Status → Bool
counts_as_trade (known rejected) = false
counts_as_trade (known cancelled) = false
counts_as_trade _ = true

-- `Trade.closed_at >= cutoff`, which is not true of a missing time.
abbrev pub closed_since : ℕ → Option ℕ → Bool
closed_since cutoff none = false
closed_since cutoff (some t) = leb cutoff t

module _ {N : Type 0} where
  unfoldable pub check_kill_switch : Method N (Unit {0})
  unfolding get_settings block
  check_kill_switch = do
    s ← get_settings
    saved ← gets (λ db. saved_setting (λ row. row.kill_switch_active) db.saved_settings)
    if s.kill_switch_active || is_not_false saved then block "kill_switch_block" none none else pass

  unfoldable pub check_auto_trading_enabled : Method N (Unit {0})
  unfolding get_settings
  check_auto_trading_enabled = do
    s ← get_settings
    saved ← gets (λ db. saved_setting (λ row. row.auto_trading_enabled) db.saved_settings)
    if not s.auto_trading_enabled || is_not_true saved
        then raise (risk_violation "auto_trading_disabled")
        else pass

  -- The query of `check_duplicate_order`.
  abbrev pub is_active_order : String → String → Order N → Bool
  is_active_order ticker side order =
      str_eq order.ticker ticker && str_eq order.side side && is_active_status order.status

  unfoldable pub check_duplicate_order : String → String → Option ℕ → Method N (Unit {0})
  unfolding block
  check_duplicate_order ticker side signal_id = do
    existing ← gets (λ db. select (is_active_order ticker side) db.orders)
    if length existing == 0 then pass else block "duplicate_order_block" (some ticker) signal_id

  -- What a check does with the profile: without one it does nothing.
  abbrev pub when_some :
      Option (RiskProfile N) → (RiskProfile N → Method N (Unit {0})) → Method N (Unit {0})
  when_some none check db = (ok tt, db)
  when_some (some rp) check db = check rp db

  abbrev pub with_profile :
      Option (RiskProfile N) → (RiskProfile N → Method N (Unit {0})) → Method N (Unit {0})
  with_profile risk_profile check = do rp ← profile_or_default risk_profile; when_some rp check

  abbrev pub open_positions_test : ℕ → RiskProfile N → Method N (Unit {0})
  open_positions_test current_open rp =
      if leb rp.max_open_positions current_open then block "max_positions_block" none none else pass

  unfoldable pub check_max_open_positions : ℕ → Option (RiskProfile N) → Method N (Unit {0})
  unfolding profile_or_default block
  check_max_open_positions current_open risk_profile =
      with_profile risk_profile (open_positions_test current_open)

  -- The orders that `check_max_trades_today` counts.
  abbrev pub is_trade_since : ℕ → Order N → Bool
  is_trade_since today order =
      leb today order.created_at && not order.is_dry_run && counts_as_trade order.status

  abbrev pub trades_today_test : ℕ → RiskProfile N → Method N (Unit {0})
  trades_today_test now rp = do
    counted ← gets (λ db. select (is_trade_since (start_of_day now)) db.orders)
    if leb rp.max_trades_per_day (length counted) then block "max_trades_block" none none else pass

  unfoldable pub check_max_trades_today : ℕ → Option (RiskProfile N) → Method N (Unit {0})
  unfolding profile_or_default block
  check_max_trades_today now risk_profile = with_profile risk_profile (trades_today_test now)

  -- The trades that `check_symbol_cooldown` looks for.
  abbrev pub is_recent_trade : String → ℕ → Trade N → Bool
  is_recent_trade ticker cutoff trade =
      str_eq trade.ticker ticker && closed_since cutoff trade.closed_at && not trade.is_dry_run

  abbrev pub cooldown_cutoff : ℕ → RiskProfile N → ℕ
  cooldown_cutoff now rp = now - rp.symbol_cooldown_seconds * 1_000_000

  abbrev pub cooldown_test : ℕ → String → RiskProfile N → Method N (Unit {0})
  cooldown_test now ticker rp = do
    recent ← gets (λ db. select (is_recent_trade ticker (cooldown_cutoff now rp)) db.trades)
    if rp.symbol_cooldown_seconds == 0 || length recent == 0
        then pass
        else block "cooldown_block" (some ticker) none

  unfoldable pub check_symbol_cooldown : ℕ → String → Option (RiskProfile N) → Method N (Unit {0})
  unfolding profile_or_default block
  check_symbol_cooldown now ticker risk_profile =
      with_profile risk_profile (cooldown_test now ticker)
