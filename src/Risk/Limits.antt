-- ===== src/Risk/Limits.antt =====
-- apps/api/app/risk/engine.py: the checks of `RiskEngine` that compare amounts with limits.
use t212_cashguard.Common.{
  ℕ, Bool, true, false, not, ◌&&◌, ◌||◌, Option, none, some, String, List, [], ◌∷◌, select, all,
  length, take, ltb, ◌==◌, if◌then◌else◌,
}
use t212_cashguard.Common.Numeric.{Decimals, Floats, zero_of, hundred_of}
use t212_cashguard.Store.{Trade, RiskProfile}
use t212_cashguard.Risk.{Method, ◌>>=◌, pass, gets, block, profile_or_default}
use t212_cashguard.Risk.Checks.{with_profile}

-- A broker position, as far as the heat check reads it: the two spellings of its risk.
pub record HeatPosition (N : Type 0) : Type 0 where
  pub risk_dollars_camel : Option N
  pub risk_dollars : Option N

abbrev pub is_some : {A : Type 0} → Option A → Bool
is_some none = false
is_some (some _) = true

-- One closing time is later than another.
abbrev pub later : Option ℕ → Option ℕ → Bool
later none _ = false
later (some _) none = true
later (some s) (some t) = ltb t s

module _ {N : Type 0} where
  abbrev insert_trade : Trade N → List (Trade N) → List (Trade N)
  insert_trade t [] = t ∷ []
  insert_trade t (u ∷ us) =
      let rest = insert_trade t us in if later u.closed_at t.closed_at then u ∷ rest else t ∷ u ∷ us

  -- `.order_by(desc(Trade.closed_at))`
  abbrev pub latest_first : List (Trade N) → List (Trade N)
  latest_first [] = []
  latest_first (t ∷ ts) = insert_trade t (latest_first ts)

  -- The filter of `check_consecutive_losses`.
  abbrev pub is_closed_trade : Trade N → Bool
  is_closed_trade t = is_some t.closed_at && not t.is_dry_run && is_some t.realized_pnl

module _ (D : Decimals) where
  open D use {Num, literal, add, mul, div, sub, absolute, less}

  unfoldable pub check_cash_guard : String → Num → Num → Num → Option ℕ → Method Num (Unit {0})
  unfolding block
  check_cash_guard ticker quantity estimated_price available_cash signal_id =
      if not (less (zero_of D) quantity)
      then pass
      else if less available_cash (mul quantity estimated_price)
      then block "cash_guard_block" (some ticker) signal_id
      else pass

  -- `abs(amount) / account_value * 100`
  abbrev pub percent_of : Num → Num → Num
  percent_of amount account_value = mul (div amount account_value) (hundred_of D)

  abbrev pub daily_loss_test : Num → Num → RiskProfile Num → Method Num (Unit {0})
  daily_loss_test realized_pnl_today account_value rp =
      if not (less (zero_of D) account_value)
      then pass
      else if not (less realized_pnl_today (zero_of D))
      then pass
      else if not
          (less (percent_of (absolute realized_pnl_today) account_value) rp.max_daily_loss_pct)
      then block "daily_loss_breach" none none
      else pass

  unfoldable pub check_daily_loss_limit :
      Num → Num → Option (RiskProfile Num) → Method Num (Unit {0})
  unfolding profile_or_default block
  check_daily_loss_limit realized_pnl_today account_value risk_profile =
      with_profile risk_profile (daily_loss_test realized_pnl_today account_value)

  abbrev pub position_size_test :
      String → Num → Num → Option ℕ → RiskProfile Num → Method Num (Unit {0})
  position_size_test ticker estimated_cost account_value signal_id rp =
      if not (less (zero_of D) account_value)
      then pass
      else if less rp.max_position_size_pct (percent_of estimated_cost account_value)
      then block "position_size_block" (some ticker) signal_id
      else pass

  unfoldable pub check_position_size :
      String → Num → Num → Option ℕ → Option (RiskProfile Num) → Method Num (Unit {0})
  unfolding profile_or_default block
  check_position_size ticker estimated_cost account_value signal_id risk_profile =
      with_profile risk_profile (position_size_test ticker estimated_cost account_value signal_id)

  abbrev pub is_loss_of : Option Num → Bool
  is_loss_of none = less (zero_of D) (zero_of D)
  is_loss_of (some pnl) = less pnl (zero_of D)

  -- `(t.realized_pnl or Decimal("0")) < 0`
  abbrev pub is_loss : Trade Num → Bool
  is_loss t = is_loss_of t.realized_pnl

  abbrev pub recent_trades : ℕ → List (Trade Num) → List (Trade Num)
  recent_trades max_losses trades = take max_losses (latest_first (select is_closed_trade trades))

  abbrev pub consecutive_losses_test : RiskProfile Num → Method Num (Unit {0})
  consecutive_losses_test rp = do
    recent ← gets (λ db. recent_trades rp.stop_after_consecutive_losses db.trades)
    if rp.stop_after_consecutive_losses == 0
        then pass
        else if ltb (length recent) rp.stop_after_consecutive_losses
        then pass
        else if all is_loss recent
        then block "consecutive_loss_stop" none none
        else pass

  unfoldable pub check_consecutive_losses : Option (RiskProfile Num) → Method Num (Unit {0})
  unfolding profile_or_default block
  check_consecutive_losses risk_profile = with_profile risk_profile consecutive_losses_test

  -- Python's `a or b` where `a` is a number or `None`.
  abbrev pub first_nonzero : Option Num → Option Num → Option Num
  first_nonzero none b = b
  first_nonzero (some a) b = if less a (zero_of D) || less (zero_of D) a then some a else b

  -- `existing_heat += …` where there is a risk to add.
  abbrev pub add_risk : Num → Option Num → Num
  add_risk heat none = heat
  add_risk heat (some rd) = add heat rd

  -- `pos.get("riskDollars") or pos.get("risk_dollars")`: a zero in the first place is passed over.
  abbrev pub risk_of : HeatPosition Num → Option Num
  risk_of pos = first_nonzero pos.risk_dollars_camel pos.risk_dollars

  -- The loop that sums the heat of the open positions.
  unfoldable pub existing_heat : List (HeatPosition Num) → Num → Num
  existing_heat [] heat = heat
  existing_heat (pos ∷ rest) heat = existing_heat rest (add_risk heat (risk_of pos))

  module _ (F : Floats Num) where
    open F use {float_literal, to_float, float_less}

    -- `RiskProfile` has no `max_portfolio_heat_pct`, so `hasattr` is false and the limit is the
    -- default argument, 5.0; the profile is still looked up.
    unfoldable pub check_portfolio_heat :
        String
        → Num
        → Num
        → List (HeatPosition Num)
        → Option ℕ
        → Option (RiskProfile Num)
        → Method Num (Unit {0})
    unfolding profile_or_default block existing_heat
    check_portfolio_heat ticker new_position_risk account_value open_positions signal_id
          risk_profile =
        do
          rp ← profile_or_default risk_profile
          let total_heat = add (existing_heat open_positions (zero_of D)) new_position_risk
          let heat_pct = to_float (percent_of total_heat account_value)
          if not (less (zero_of D) account_value)
              then pass
              else if float_less (float_literal 50 1) heat_pct
              then block "portfolio_heat_block" (some ticker) signal_id
              else pass
