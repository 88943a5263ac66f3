-- ===== src/Risk/Tests.antt =====
-- apps/api/app/risk/engine.py: runs of the risk engine over numbers with eight decimals, and its
-- theorems at inputs.
use t212_cashguard.Common.{◌*◌, ◌-◌, ℕ, ◌≡◌, refl, true, false, Option, none, some, String, [], ◌∷◌}
use t212_cashguard.Common.FixedPoint.{ℤ, pos, negsuc, whole, fixed_point, fixed_floats, fixed_order}
use t212_cashguard.Store.{Trade, RiskProfile, AppSettings}
use t212_cashguard.Correlation.{Position, check_sector_exposure}
use t212_cashguard.Risk.{Db, ok, raised, risk_violation, profile_or_default}
use t212_cashguard.Risk.Checks.{
  check_kill_switch, check_auto_trading_enabled, check_duplicate_order, check_max_trades_today,
  check_symbol_cooldown, check_max_open_positions,
}
use t212_cashguard.Risk.Limits.{
  check_cash_guard, check_daily_loss_limit, check_position_size, check_consecutive_losses,
  check_portfolio_heat,
}
use t212_cashguard.Risk.Run.{Request, run_all_checks}
use t212_cashguard.Risk.Judge.{Judges, Refused, with_event}
use t212_cashguard.Risk.Admission.{IsAdmissible, run_all_checks_enforced}
use t212_cashguard.Risk.Sizing.{
  Tiers, get_drawdown_size_factor, apply_drawdown_sizing, sizing_raises_fractions,
}
use t212_cashguard.Risk.Sector.{
  check_sector_and_correlation, correlation_checker, correlation_never_blocks,
}
use t212_cashguard.Risk.Cfd.{CfdRequest, check_cfd_limits}
use t212_cashguard.Risk.Market.{
  FeedSnapshot, MarketRegime, WatchlistContext, check_market_conditions,
}
use t212_cashguard.Risk.Switch.{
  activate_kill_switch, deactivate_kill_switch, seen_by, switch_stops_all,
}

abbrev settings : AppSettings
settings = record { auto_trading_enabled = true; kill_switch_active = false }

abbrev profile : RiskProfile ℤ
profile = record {
  max_daily_loss_pct = whole 3;
  max_open_positions = 5;
  max_position_size_pct = whole 10;
  max_trades_per_day = 20;
  stop_after_consecutive_losses = 3;
  symbol_cooldown_seconds = 300;
  max_risk_per_trade_pct = whole 1;
  cfd_max_risk_per_trade_pct = none;
  cfd_max_daily_loss_pct = none;
  min_free_margin_pct = whole 30;
  cfd_max_leverage = whole 5;
  is_default = true;
}

abbrev loss : Trade ℤ
loss = record {
  ticker = "MSFT_US_EQ";
  realized_pnl = some (negsuc 99);
  closed_at = some 1_000_000_000;
  is_dry_run = false;
}

abbrev db : Db ℤ
db = record {
  session_settings = some settings;
  saved_settings = some settings;
  risk_profiles = profile ∷ [];
  orders = [];
  trades = loss ∷ loss ∷ [];
  risk_events = [];
}

-- 4 shares at 200, of an account of 10,000.
abbrev request : Request ℤ
request = record {
  ticker = "AAPL_US_EQ";
  side = "buy";
  quantity = whole 4;
  estimated_price = whole 200;
  available_cash = whole 5_000;
  account_value = whole 10_000;
  realized_pnl_today = pos 0;
  current_open_positions = 1;
  signal_id = none;
  risk_profile = none;
  skip_auto_trading_check = false;
  stop_price = some (whole 190);
  open_positions = some [];
  is_cfd = false;
  is_exit = false;
  now = 200_000_000_000;
}

request_passes : run_all_checks fixed_point fixed_floats request db ≡ (ok tt, db)
unfolding run_all_checks check_kill_switch check_auto_trading_enabled check_cash_guard
    check_duplicate_order check_daily_loss_limit check_max_open_positions check_position_size
    check_max_trades_today check_consecutive_losses check_symbol_cooldown check_portfolio_heat
request_passes = refl

-- A third loss in a row stops trading.
third_loss_stops :
    (run_all_checks fixed_point fixed_floats request
      (record db { trades = loss ∷ loss ∷ loss ∷ [] })).0
    ≡ raised (risk_violation "consecutive_loss_stop")
unfolding run_all_checks check_kill_switch check_auto_trading_enabled check_cash_guard
    check_duplicate_order check_daily_loss_limit check_max_open_positions check_position_size
    check_max_trades_today check_consecutive_losses check_symbol_cooldown check_portfolio_heat
third_loss_stops = refl

run_all_checks_enforced_example :
    Judges
      (run_all_checks fixed_point fixed_floats request)
      (IsAdmissible fixed_point fixed_floats db request)
      db
run_all_checks_enforced_example = run_all_checks_enforced fixed_point fixed_floats db request

abbrev tiers : Tiers ℤ
tiers = record { tier1 = pos 50_000_000; tier2 = whole 1; tier3 = pos 150_000_000 }

abbrev loss_of : ℕ → ℤ
loss_of n = negsuc (n * 100_000_000 - 1)

sizing_raises_fractions_example :
    (s : ℤ) × (apply_drawdown_sizing fixed_point fixed_floats tiers
        (pos 30_000_000)
        (loss_of 200)
        (whole 10_000)
        none
        none
        db
      ≡ (
        ok s,
        with_event
            (record { event_type = "drawdown_size_reduction"; ticker = none; signal_id = none })
            db,
      ))
    × (fixed_point.less s (whole 1) ≡ false)
    × (fixed_point.less (pos 30_000_000) s ≡ true)
unfolding get_drawdown_size_factor
sizing_raises_fractions_example =
    sizing_raises_fractions fixed_point fixed_floats fixed_order tiers (pos 30_000_000)
      (loss_of 200) (whole 10_000) none none db refl refl

abbrev held : Position ℤ
held = record {
  ticker = some "MSFT";
  value = some (whole 500);
  quantity = none;
  current_price = none;
  average_price = some (whole 250);
  avg_price = none;
}

abbrev same : String → String
same s = s

correlation_never_blocks_example :
    Judges
      (check_sector_and_correlation fixed_floats same "AAPL"
        (whole 800)
        (whole 10_000)
        (held ∷ [])
        none)
      (check_sector_exposure fixed_floats same
          (correlation_checker fixed_floats same)
          "AAPL"
          (whole 800)
          (held ∷ [])
          (whole 10_000)
        ≡ true)
      db
correlation_never_blocks_example =
    correlation_never_blocks fixed_floats same "AAPL" (whole 800) (whole 10_000) (held ∷ []) none db

-- A commit that writes the object whole.
abbrev write_all : AppSettings → AppSettings → Option AppSettings → Option AppSettings
write_all before after row = some after

switch_stops_all_example :
    let on = activate_kill_switch write_all db in
    let off = deactivate_kill_switch write_all on in
    let copy : Option AppSettings = some settings in
    Refused (seen_by write_all copy on) (check_kill_switch (seen_by write_all copy on))
    × Refused (seen_by write_all copy on) (check_auto_trading_enabled (seen_by write_all copy on))
    × Refused (seen_by write_all copy off) (check_auto_trading_enabled (seen_by write_all copy off))
switch_stops_all_example =
    switch_stops_all write_all (λ s s'. refl) db settings (some settings) refl refl

-- 4 shares at 200 of an account of 10,000, eight times what the profile leaves for a CFD.
abbrev cfd : CfdRequest ℤ
cfd = record {
  ticker = "AAPL_US_EQ";
  quantity = whole 4;
  estimated_price = whole 200;
  account_value = whole 10_000;
  realized_pnl_today = pos 0;
  free_margin_pct = some (whole 60);
  signal_id = none;
}

cfd_too_large :
    (check_cfd_limits fixed_point fixed_floats cfd none db).0
    ≡ raised (risk_violation "cfd_size_block")
unfolding check_cfd_limits profile_or_default
cfd_too_large = refl

abbrev feed : FeedSnapshot
feed = record {
  status = some "ok";
  symbols = record { ticker = some "AAPL_US_EQ"; status = some "ok" } ∷ [];
}

abbrev unsafe : MarketRegime
unsafe = record { regime = some "unsafe"; suppressed_strategies = "orb" ∷ [] }

abbrev news : WatchlistContext ℤ
news = record { catalyst_score = some (pos 80_000_000); catalyst_event_type = some "earnings" }

unsafe_enters :
    check_market_conditions fixed_floats same "AAPL_US_EQ" "momentum" feed
      (some unsafe)
      none
      none
      db
    ≡ (ok tt, db)
unfolding check_market_conditions
unsafe_enters = refl

fade_into_news :
    (check_market_conditions fixed_floats same "AAPL_US_EQ" "opening_fade" feed
      (some unsafe)
      (some news)
      none
      db).0
    ≡ raised (risk_violation "event_risk_block")
unfolding check_market_conditions
fade_into_news = refl
