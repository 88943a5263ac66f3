-- ===== src/Risk/Admission.antt =====
-- apps/api/app/risk/engine.py: what `RiskEngine.run_all_checks` admits.
use t212_cashguard.Common.{◌≡◌, Bool, true, false, Option, none, some, List, inl, refl}
use t212_cashguard.Common.Numeric.{Decimals, Floats}
use t212_cashguard.Risk.{Db, block}
use t212_cashguard.Risk.Checks.{
  check_kill_switch, check_auto_trading_enabled, check_duplicate_order, check_max_open_positions,
  check_max_trades_today, check_symbol_cooldown, is_active_order,
}
use t212_cashguard.Risk.Limits.{
  HeatPosition, check_cash_guard, check_daily_loss_limit, check_position_size,
  check_consecutive_losses,
}
use t212_cashguard.Risk.Run.{Request, run_all_checks, when, is_buy, heat_of}
use t212_cashguard.Risk.Judge.{
  Judges, UnderProfile, Judges-iff, Judges-test, Judged, ◌then_check◌, only_when, only_unless,
}
use t212_cashguard.Risk.Enforced.{
  BothSay, Without, kill_switch_enforced, auto_trading_enforced, duplicate_enforced,
}
use t212_cashguard.Risk.ProfileLimits.{
  HasRoom, MayTradeToday, IsCool, max_open_positions_enforced, max_trades_enforced,
  cooldown_enforced,
}
use t212_cashguard.Risk.AmountLimits.{
  IsCovered, IsLossBelow, IsSizeWithin, IsNotLosing, IsHeatWithin, cash_guard_enforced,
  daily_loss_enforced, position_size_enforced, consecutive_losses_enforced, portfolio_heat_enforced,
}

module _ (D : Decimals) (F : Floats (Decimals.Num D)) (db : Db (Decimals.Num D))
    (r : Request (Decimals.Num D)) where
  open D use {Num, mul, sub, absolute}

  -- The heat limit, where a stop price and the open positions are given.
  abbrev pub HeatLimit : Option Num → Option (List (HeatPosition Num)) → Type 0
  HeatLimit (some stop) (some positions) =
      UnderProfile db r.risk_profile (λ _. Unit)
      × IsHeatWithin D db F (mul (absolute (sub r.estimated_price stop)) r.quantity) r.account_value
          positions
  HeatLimit (some stop) none = Unit
  HeatLimit none positions = Unit

  -- Every rule that an order has to meet.
  pub record IsAdmissible : Type 0 where
    pub cash_only : r.is_cfd ≡ false
    pub switch_off : BothSay (λ s. s.kill_switch_active) false db.session_settings db.saved_settings
    pub auto_on :
        r.skip_auto_trading_check ≡ false
        → BothSay (λ s. s.auto_trading_enabled) true db.session_settings db.saved_settings
    pub covered : is_buy r ≡ true → IsCovered D db r.quantity r.estimated_price r.available_cash
    pub not_duplicate : Without (is_active_order r.ticker r.side) db.orders
    pub loss_below :
        r.is_exit ≡ false
        → UnderProfile db r.risk_profile (IsLossBelow D db r.realized_pnl_today r.account_value)
    pub has_room :
        r.is_exit ≡ false → UnderProfile db r.risk_profile (HasRoom db r.current_open_positions)
    pub size_within :
        is_buy r ≡ true
        → UnderProfile db r.risk_profile
            (IsSizeWithin D db (mul r.quantity r.estimated_price) r.account_value)
    pub may_trade : UnderProfile db r.risk_profile (MayTradeToday db r.now)
    pub not_losing : UnderProfile db r.risk_profile (IsNotLosing D db)
    pub cool : UnderProfile db r.risk_profile (IsCool db r.now r.ticker)
    pub heat_within : is_buy r ≡ true → HeatLimit r.stop_price r.open_positions

  heat_judged :
      (stop : Option Num) (positions : Option (List (HeatPosition Num)))
      → Judges (heat_of D F r stop positions) (HeatLimit stop positions) db
  heat_judged (some stop) (some positions) =
      portfolio_heat_enforced D db F r.ticker
        (mul (absolute (sub r.estimated_price stop)) r.quantity) r.account_value positions
        r.signal_id r.risk_profile
  heat_judged (some stop) none = inl (tt, refl)
  heat_judged none positions = inl (tt, refl)

  cfd_judged :
      Judges
        (when r.is_cfd (block "cash_only_cfd_block" (some r.ticker) r.signal_id))
        (r.is_cfd ≡ false)
        db
  cfd_judged = cfd_test r.is_cfd
    where
      cfd_test :
          (c : Bool)
          → Judges (when c (block "cash_only_cfd_block" (some r.ticker) r.signal_id)) (c ≡ false) db
      cfd_test true = Judges-test db true "cash_only_cfd_block" (some r.ticker) r.signal_id
      cfd_test false = Judges-test db false "cash_only_cfd_block" (some r.ticker) r.signal_id

  judged_cfd :
      Judged db
        (when r.is_cfd (block "cash_only_cfd_block" (some r.ticker) r.signal_id))
        (r.is_cfd ≡ false)
  judged_cfd = record { verdict = cfd_judged }

  judged_switch :
      Judged db check_kill_switch
        (BothSay (λ s. s.kill_switch_active) false db.session_settings db.saved_settings)
  judged_switch = record { verdict = kill_switch_enforced db }

  judged_auto :
      Judged db check_auto_trading_enabled
        (BothSay (λ s. s.auto_trading_enabled) true db.session_settings db.saved_settings)
  judged_auto = record { verdict = auto_trading_enforced db }

  judged_cash :
      Judged db
        (check_cash_guard D r.ticker r.quantity r.estimated_price r.available_cash r.signal_id)
        (IsCovered D db r.quantity r.estimated_price r.available_cash)
  judged_cash = record {
    verdict =
        cash_guard_enforced D db r.ticker r.quantity r.estimated_price r.available_cash r.signal_id;
  }

  judged_duplicate :
      Judged db
        (check_duplicate_order r.ticker r.side r.signal_id)
        (Without (is_active_order r.ticker r.side) db.orders)
  judged_duplicate = record { verdict = duplicate_enforced db r.ticker r.side r.signal_id }

  judged_loss :
      Judged db
        (check_daily_loss_limit D r.realized_pnl_today r.account_value r.risk_profile)
        (UnderProfile db r.risk_profile (IsLossBelow D db r.realized_pnl_today r.account_value))
  judged_loss = record {
    verdict = daily_loss_enforced D db r.realized_pnl_today r.account_value r.risk_profile;
  }

  judged_room :
      Judged db
        (check_max_open_positions r.current_open_positions r.risk_profile)
        (UnderProfile db r.risk_profile (HasRoom db r.current_open_positions))
  judged_room = record {
    verdict = max_open_positions_enforced db r.current_open_positions r.risk_profile;
  }

  judged_size :
      Judged db
        (check_position_size D r.ticker
          (mul r.quantity r.estimated_price)
          r.account_value
          r.signal_id
          r.risk_profile)
        (UnderProfile db r.risk_profile
          (IsSizeWithin D db (mul r.quantity r.estimated_price) r.account_value))
  judged_size = record {
    verdict =
        position_size_enforced D db r.ticker (mul r.quantity r.estimated_price) r.account_value
          r.signal_id r.risk_profile;
  }

  judged_trades :
      Judged db
        (check_max_trades_today r.now r.risk_profile)
        (UnderProfile db r.risk_profile (MayTradeToday db r.now))
  judged_trades = record { verdict = max_trades_enforced db r.now r.risk_profile }

  judged_losing :
      Judged db
        (check_consecutive_losses D r.risk_profile)
        (UnderProfile db r.risk_profile (IsNotLosing D db))
  judged_losing = record { verdict = consecutive_losses_enforced D db r.risk_profile }

  judged-IsCool :
      Judged db
        (check_symbol_cooldown r.now r.ticker r.risk_profile)
        (UnderProfile db r.risk_profile (IsCool db r.now r.ticker))
  judged-IsCool = record { verdict = cooldown_enforced db r.now r.ticker r.risk_profile }

  judged_heat :
      Judged db
        (heat_of D F r r.stop_price r.open_positions)
        (HeatLimit r.stop_price r.open_positions)
  judged_heat = record { verdict = heat_judged r.stop_price r.open_positions }

  -- `run_all_checks` passes an order exactly where every rule is met, and then it has changed nothing.
  -- Else it raises, and it has either logged one risk event of the violation's own type or, if
  -- auto-trading was off, the settings were missing or two profiles were marked as default, nothing.
  pub run_all_checks_enforced : Judges (run_all_checks D F r) IsAdmissible db
  unfolding run_all_checks
  run_all_checks_enforced =
      Judges-iff db (run_all_checks D F r) _ IsAdmissible
        (
          (λ h. record {
            cash_only = h.0;
            switch_off = h.1.0;
            auto_on = h.1.1.0;
            covered = h.1.1.1.0;
            not_duplicate = h.1.1.1.1.0;
            loss_below = h.1.1.1.1.1.0;
            has_room = h.1.1.1.1.1.1.0;
            size_within = h.1.1.1.1.1.1.1.0;
            may_trade = h.1.1.1.1.1.1.1.1.0;
            not_losing = h.1.1.1.1.1.1.1.1.1.0;
            cool = h.1.1.1.1.1.1.1.1.1.1.0;
            heat_within = h.1.1.1.1.1.1.1.1.1.1.1;
          }),
          (λ a. (
            a.cash_only,
            (
              a.switch_off,
              (
                a.auto_on,
                (
                  a.covered,
                  (
                    a.not_duplicate,
                    (
                      a.loss_below,
                      (
                        a.has_room,
                        (a.size_within, (a.may_trade, (a.not_losing, (a.cool, a.heat_within)))),
                      ),
                    ),
                  ),
                ),
              ),
            ),
          )),
        )
        (judged_cfd
          then_check judged_switch
          then_check only_unless r.skip_auto_trading_check judged_auto
          then_check only_when (is_buy r) judged_cash
          then_check judged_duplicate
          then_check only_unless r.is_exit judged_loss
          then_check only_unless r.is_exit judged_room
          then_check only_when (is_buy r) judged_size
          then_check judged_trades
          then_check judged_losing
          then_check judged-IsCool
          then_check only_when (is_buy r) judged_heat).verdict
