-- ===== src/Risk/Cfd.antt =====
-- apps/api/app/risk/engine.py: `RiskEngine.check_cfd_limits`. Nothing in the application calls it.
use t212_cashguard.Common.{
  ℕ, ◌≡◌, Bool, true, false, not, ◌&&◌, Option, none, some, String, if◌then◌else◌,
}
use t212_cashguard.Common.Numeric.{Decimals, Floats, zero_of}
use t212_cashguard.Store.{RiskProfile}
use t212_cashguard.Risk.{Db, Method, ◌>>◌, pass, block}
use t212_cashguard.Risk.Checks.{with_profile}
use t212_cashguard.Risk.Limits.{percent_of}

-- The arguments of `check_cfd_limits` less the profile.
pub record CfdRequest (N : Type 0) : Type 0 where
  pub ticker : String
  pub quantity : N
  pub estimated_price : N
  pub account_value : N
  pub realized_pnl_today : N
  pub free_margin_pct : Option N
  pub signal_id : Option ℕ

module _ (D : Decimals) (F : Floats (Decimals.Num D)) where
  open D use {Num, literal, mul, div, absolute, less}
  open F use {to_float, num_less_float}

  -- `override or default`: a zero counts as no override.
  abbrev pub override_or : Option Num → Num → Num
  override_or none default = default
  override_or (some x) default =
      if not (less x (zero_of D)) && not (less (zero_of D) x) then default else x

  abbrev pub effective_risk_pct : RiskProfile Num → Num
  effective_risk_pct rp =
      override_or rp.cfd_max_risk_per_trade_pct (mul rp.max_risk_per_trade_pct (literal 5 1))

  abbrev pub effective_daily_loss : RiskProfile Num → Num
  effective_daily_loss rp =
      override_or rp.cfd_max_daily_loss_pct (mul rp.max_daily_loss_pct (literal 67 2))

  abbrev pub notional : CfdRequest Num → Num
  notional r = mul r.quantity r.estimated_price

  abbrev pub has_value : CfdRequest Num → Bool
  has_value r = less (zero_of D) r.account_value

  abbrev pub margin_below : Option Num → Num → Bool
  margin_below none limit = false
  margin_below (some margin) limit = less margin limit

  abbrev pub cfd_size_test : CfdRequest Num → RiskProfile Num → Method Num (Unit {0})
  cfd_size_test r rp =
      if has_value r && less (effective_risk_pct rp) (percent_of D (notional r) r.account_value)
      then block "cfd_size_block" (some r.ticker) r.signal_id
      else pass

  abbrev pub cfd_loss_test : CfdRequest Num → RiskProfile Num → Method Num (Unit {0})
  cfd_loss_test r rp =
      if (has_value r && less r.realized_pnl_today (zero_of D))
        && not (
            num_less_float (percent_of D (absolute r.realized_pnl_today) r.account_value)
              (to_float (effective_daily_loss rp)))
      then block "cfd_daily_loss_block" none r.signal_id
      else pass

  abbrev pub cfd_leverage_test : CfdRequest Num → RiskProfile Num → Method Num (Unit {0})
  cfd_leverage_test r rp =
      if has_value r && less rp.cfd_max_leverage (div (notional r) r.account_value)
      then block "cfd_leverage_block" (some r.ticker) r.signal_id
      else pass

  abbrev pub cfd_margin_test : CfdRequest Num → RiskProfile Num → Method Num (Unit {0})
  cfd_margin_test r rp =
      if margin_below r.free_margin_pct rp.min_free_margin_pct
      then block "cfd_margin_block" (some r.ticker) r.signal_id
      else pass

  abbrev pub cfd_tests : CfdRequest Num → RiskProfile Num → Method Num (Unit {0})
  cfd_tests r rp = do
    cfd_size_test r rp
    cfd_loss_test r rp
    cfd_leverage_test r rp
    cfd_margin_test r rp

  unfoldable pub check_cfd_limits :
      CfdRequest Num → Option (RiskProfile Num) → Method Num (Unit {0})
  unfolding block
  check_cfd_limits r risk_profile = with_profile risk_profile (cfd_tests r)

  -- The account has a value, and the position is within the risk of a trade and the leverage; today's
  -- loss is below the limit for CFDs; and a margin that the broker states is large enough.
  pub record IsCfdWithin (r : CfdRequest Num) (rp : RiskProfile Num) : Type 0 where
    pub size :
        has_value r ≡ true
        → less (effective_risk_pct rp) (percent_of D (notional r) r.account_value) ≡ false
    pub loss :
        (has_value r && less r.realized_pnl_today (zero_of D)) ≡ true
        → num_less_float
            (percent_of D (absolute r.realized_pnl_today) r.account_value)
            (to_float (effective_daily_loss rp))
          ≡ true
    pub leverage :
        has_value r ≡ true → less rp.cfd_max_leverage (div (notional r) r.account_value) ≡ false
    pub margin : (m : Num) → r.free_margin_pct ≡ some m → less m rp.min_free_margin_pct ≡ false

  module _ (db : Db Num) (r : CfdRequest Num) (rp : RiskProfile Num) where
    abbrev size_over : Bool
    size_over = less (effective_risk_pct rp) (percent_of D (notional r) r.account_value)

    abbrev loss_below : Bool
    loss_below =
        num_less_float (percent_of D (absolute r.realized_pnl_today) r.account_value)
          (to_float (effective_daily_loss rp))

    abbrev at_loss : Bool
    at_loss = has_value r && less r.realized_pnl_today (zero_of D)

    abbrev levered : Bool
    levered = less rp.cfd_max_leverage (div (notional r) r.account_value)
