-- ===== src/Risk/ProfileLimits.antt =====
-- apps/api/app/risk/engine.py: the conditions that the checks enforce which read a risk profile or
-- amounts.
use t212_cashguard.Common.{
  ℕ, ◌<◌, ◌≡◌, ◌↔◌, refl, Bool, true, false, ◌||◌, Option, none, some, String, List, arith, select,
  length, leb, ◌==◌,
}
use t212_cashguard.Store.{Trade, RiskProfile}
use t212_cashguard.Risk.{Db}
use t212_cashguard.Risk.Checks.{
  open_positions_test, trades_today_test, cooldown_test, check_max_open_positions,
  check_max_trades_today, check_symbol_cooldown, is_trade_since, is_recent_trade, start_of_day,
  cooldown_cutoff,
}
use t212_cashguard.Risk.Judge.{Judges, UnderProfile, Judges-block, Judges-pass, Judges-profile}
use t212_cashguard.Risk.Enforced.{Without, select_empty}

module _ {N : Type 0} (db : Db N) where
  abbrev pub HasRoom : ℕ → RiskProfile N → Type 0
  HasRoom current_open rp = current_open < rp.max_open_positions

  not_leb : (a b : ℕ) → (leb a b ≡ false) ↔ (b < a)
  not_leb a b = (λ h. ground arith, λ h. ground arith)

  pub max_open_positions_enforced :
      (current_open : ℕ) (risk_profile : Option (RiskProfile N))
      → Judges
          (check_max_open_positions current_open risk_profile)
          (UnderProfile db risk_profile (HasRoom current_open))
          db
  unfolding check_max_open_positions
  max_open_positions_enforced n risk_profile =
      Judges-profile db risk_profile (open_positions_test n) (HasRoom n) λ rp.
        Judges-block db (leb rp.max_open_positions n) (HasRoom n rp) "max_positions_block" none none
          (not_leb rp.max_open_positions n)

  abbrev pub MayTradeToday : ℕ → RiskProfile N → Type 0
  MayTradeToday now rp =
      length (select (is_trade_since (start_of_day now)) db.orders) < rp.max_trades_per_day

  pub max_trades_enforced :
      (now : ℕ) (risk_profile : Option (RiskProfile N))
      → Judges
          (check_max_trades_today now risk_profile)
          (UnderProfile db risk_profile (MayTradeToday now))
          db
  unfolding check_max_trades_today
  max_trades_enforced now risk_profile =
      Judges-profile db risk_profile (trades_today_test now) (MayTradeToday now) λ rp.
        let n = length (select (is_trade_since (start_of_day now)) db.orders) in
        Judges-block db (leb rp.max_trades_per_day n) (MayTradeToday now rp) "max_trades_block" none
          none (not_leb rp.max_trades_per_day n)

  -- With a cooldown, no real trade of the ticker has closed since its cutoff.
  abbrev pub IsCool : ℕ → String → RiskProfile N → Type 0
  IsCool now ticker rp =
      0 < rp.symbol_cooldown_seconds
      → Without (is_recent_trade ticker (cooldown_cutoff now rp)) db.trades

  cool_iff :
      (seconds : ℕ) (p : Trade N → Bool) (ts : List (Trade N))
      → ((seconds == 0 || length (select p ts) == 0) ≡ true) ↔ (0 < seconds → Without p ts)
  cool_iff seconds p ts = (
    (λ h s. (select_empty p ts).0 (ground arith)),
    (λ h.
        cool_back (seconds == 0) (length (select p ts) == 0)
          (λ z. (select_empty p ts).1 (h (ground arith)))),
  )
    where
      cool_back : (c d : Bool) → (c ≡ false → d ≡ true) → (c || d) ≡ true
      cool_back true d f = refl
      cool_back false d f = f refl

  pub cooldown_enforced :
      (now : ℕ) (ticker : String) (risk_profile : Option (RiskProfile N))
      → Judges
          (check_symbol_cooldown now ticker risk_profile)
          (UnderProfile db risk_profile (IsCool now ticker))
          db
  unfolding check_symbol_cooldown
  cooldown_enforced now ticker risk_profile =
      Judges-profile db risk_profile (cooldown_test now ticker) (IsCool now ticker) λ rp.
        let p = is_recent_trade ticker (cooldown_cutoff now rp) in
        Judges-pass db (rp.symbol_cooldown_seconds == 0 || length (select p db.trades) == 0)
          (IsCool now ticker rp) "cooldown_block" (some ticker) none
          (cool_iff rp.symbol_cooldown_seconds p db.trades)
