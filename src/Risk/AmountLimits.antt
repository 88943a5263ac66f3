-- ===== src/Risk/AmountLimits.antt =====
-- apps/api/app/risk/engine.py: the conditions that the checks enforce which compare amounts with
-- limits.
use t212_cashguard.Common.{
  ℕ, ◌<◌, ◌≤◌, ◌≡◌, ◌↔◌, refl, Bool, true, false, not, Option, none, some, String, List, arith,
  length, all, ltb, ◌==◌, if◌then◌else◌,
}
use t212_cashguard.Common.Numeric.{Decimals, Floats, zero_of}
use t212_cashguard.Store.{RiskProfile}
use t212_cashguard.Risk.{Db, pass, block}
use t212_cashguard.Risk.Limits.{
  daily_loss_test, position_size_test, consecutive_losses_test, HeatPosition, check_cash_guard,
  check_daily_loss_limit, check_position_size, check_consecutive_losses, check_portfolio_heat,
  percent_of, recent_trades, is_loss, existing_heat,
}
use t212_cashguard.Risk.Judge.{
  Judges, UnderProfile, Judges-block, Judges-return, Judges-lookup, Judges-profile,
}

not-not : (c : Bool) (P : Type 0) → (not c ≡ false → P) ↔ (c ≡ true → P)
not-not true P = ((λ f h. f refl), (λ f h. f refl))
not-not false P = ((λ f h. cc), (λ f h. cc))

return_iff : (n : ℕ) (P : Type 0) → ((n == 0) ≡ false → P) ↔ (0 < n → P)
return_iff n P = ((λ f h. f (ground arith)), (λ f h. f (ground arith)))

short_iff : (n m : ℕ) (P : Type 0) → (ltb m n ≡ false → P) ↔ (n ≤ m → P)
short_iff n m P = ((λ f h. f (ground arith)), (λ f h. f (ground arith)))

module _ (D : Decimals) (db : Db (Decimals.Num D)) where
  open D use {Num, literal, add, mul, less, absolute}

  abbrev pub IsCovered : Num → Num → Num → Type 0
  IsCovered quantity estimated_price available_cash =
      less (zero_of D) quantity ≡ true → less available_cash (mul quantity estimated_price) ≡ false

  pub cash_guard_enforced :
      (ticker : String) (quantity estimated_price available_cash : Num) (signal_id : Option ℕ)
      → Judges
          (check_cash_guard D ticker quantity estimated_price available_cash signal_id)
          (IsCovered quantity estimated_price available_cash)
          db
  unfolding check_cash_guard
  cash_guard_enforced ticker q p cash signal_id =
      let short = less cash (mul q p) in
      Judges-return db (not (less (zero_of D) q))
        (if short then block "cash_guard_block" (some ticker) signal_id else pass) (short ≡ false)
        (IsCovered q p cash) (not-not (less (zero_of D) q) (short ≡ false))
        (Judges-block db short (short ≡ false) "cash_guard_block" (some ticker) signal_id
          ((λ h. h), (λ h. h)))

  -- With a positive account value, a loss is below the limit, in percent of that value.
  abbrev pub IsLossBelow : Num → Num → RiskProfile Num → Type 0
  IsLossBelow realized_pnl_today account_value rp =
      less (zero_of D) account_value ≡ true
      → less realized_pnl_today (zero_of D) ≡ true
      → less (percent_of D (absolute realized_pnl_today) account_value) rp.max_daily_loss_pct ≡ true

  not-false : (c : Bool) → (not c ≡ false) ↔ (c ≡ true)
  not-false true = ((λ h. refl), (λ h. refl))
  not-false false = ((λ h. cc), (λ h. cc))

  pub daily_loss_enforced :
      (pnl account_value : Num) (risk_profile : Option (RiskProfile Num))
      → Judges
          (check_daily_loss_limit D pnl account_value risk_profile)
          (UnderProfile db risk_profile (IsLossBelow pnl account_value))
          db
  unfolding check_daily_loss_limit
  daily_loss_enforced pnl account_value risk_profile =
      Judges-profile db risk_profile (daily_loss_test D pnl account_value)
        (IsLossBelow pnl account_value)
        λ rp.
          let below = less (percent_of D (absolute pnl) account_value) rp.max_daily_loss_pct in
          let in_loss = less pnl (zero_of D) in
          let stop = if not below then block "daily_loss_breach" none none else pass in
          Judges-return db (not (less (zero_of D) account_value))
            (if not in_loss then pass else stop) (in_loss ≡ true → below ≡ true)
            (IsLossBelow pnl account_value rp)
            (not-not (less (zero_of D) account_value) (in_loss ≡ true → below ≡ true))
            (Judges-return db (not in_loss) stop (below ≡ true) (in_loss ≡ true → below ≡ true)
              (not-not in_loss (below ≡ true))
              (Judges-block db (not below) (below ≡ true) "daily_loss_breach" none none
                (not-false below)))

  abbrev pub IsSizeWithin : Num → Num → RiskProfile Num → Type 0
  IsSizeWithin estimated_cost account_value rp =
      less (zero_of D) account_value ≡ true
      → less rp.max_position_size_pct (percent_of D estimated_cost account_value) ≡ false

  pub position_size_enforced :
      (ticker : String) (cost account_value : Num) (signal_id : Option ℕ)
      (risk_profile : Option (RiskProfile Num))
      → Judges
          (check_position_size D ticker cost account_value signal_id risk_profile)
          (UnderProfile db risk_profile (IsSizeWithin cost account_value))
          db
  unfolding check_position_size
  position_size_enforced ticker cost account_value signal_id risk_profile =
      Judges-profile db risk_profile (position_size_test D ticker cost account_value signal_id)
        (IsSizeWithin cost account_value)
        λ rp.
          let over = less rp.max_position_size_pct (percent_of D cost account_value) in
          Judges-return db (not (less (zero_of D) account_value))
            (if over then block "position_size_block" (some ticker) signal_id else pass)
            (over ≡ false) (IsSizeWithin cost account_value rp)
            (not-not (less (zero_of D) account_value) (over ≡ false))
            (Judges-block db over (over ≡ false) "position_size_block" (some ticker) signal_id
              ((λ h. h), (λ h. h)))

  -- Where losses in a row are counted at all and there are enough closed trades, not all of the
  -- latest ones are losses.
  abbrev pub IsNotLosing : RiskProfile Num → Type 0
  IsNotLosing rp =
      let n = rp.stop_after_consecutive_losses in
      0 < n
      → n ≤ length (recent_trades D n db.trades)
      → all (is_loss D) (recent_trades D n db.trades) ≡ false

  pub consecutive_losses_enforced :
      (risk_profile : Option (RiskProfile Num))
      → Judges
          (check_consecutive_losses D risk_profile)
          (UnderProfile db risk_profile IsNotLosing)
          db
  unfolding check_consecutive_losses
  consecutive_losses_enforced risk_profile =
      Judges-profile db risk_profile (consecutive_losses_test D) IsNotLosing λ rp.
        let n = rp.stop_after_consecutive_losses in
        let recent = recent_trades D n db.trades in
        let stop =
          if all (is_loss D) recent then block "consecutive_loss_stop" none none else pass in
        let P = all (is_loss D) recent ≡ false in
        Judges-return db (n == 0) (if ltb (length recent) n then pass else stop)
          (n ≤ length recent → P) (IsNotLosing rp) (return_iff n (n ≤ length recent → P))
          (Judges-return db (ltb (length recent) n) stop P (n ≤ length recent → P)
            (short_iff n (length recent) P)
            (Judges-block db (all (is_loss D) recent) P "consecutive_loss_stop" none none
              ((λ h. h), (λ h. h))))

  module _ (F : Floats Num) where
    open F use {float_literal, to_float, float_less}

    -- With a positive account value, the risk of the open positions and of the new one together is
    -- 5.0 percent of it at most.
    abbrev pub IsHeatWithin : Num → Num → List (HeatPosition Num) → Type 0
    IsHeatWithin new_risk account_value positions =
        less (zero_of D) account_value ≡ true
        → float_less (float_literal 50 1) (
            to_float
              (percent_of D (add (existing_heat D positions (zero_of D)) new_risk) account_value))
          ≡ false

    pub portfolio_heat_enforced :
        (ticker : String) (new_risk account_value : Num) (positions : List (HeatPosition Num))
        (signal_id : Option ℕ) (risk_profile : Option (RiskProfile Num))
        → Judges
            (check_portfolio_heat D F ticker new_risk account_value positions signal_id
              risk_profile)
            (UnderProfile db risk_profile (λ _. Unit)
              × IsHeatWithin new_risk account_value positions)
            db
    unfolding check_portfolio_heat
    portfolio_heat_enforced ticker new_risk account_value positions signal_id risk_profile =
        let total = add (existing_heat D positions (zero_of D)) new_risk in
        let over = float_less (float_literal 50 1) (to_float (percent_of D total account_value)) in
        let stop = if over then block "portfolio_heat_block" (some ticker) signal_id else pass in
        Judges-lookup db risk_profile (if not (less (zero_of D) account_value) then pass else stop)
          (IsHeatWithin new_risk account_value positions)
          (Judges-return db (not (less (zero_of D) account_value)) stop (over ≡ false)
            (IsHeatWithin new_risk account_value positions)
            (not-not (less (zero_of D) account_value) (over ≡ false))
            (Judges-block db over (over ≡ false) "portfolio_heat_block" (some ticker) signal_id
              ((λ h. h), (λ h. h))))
