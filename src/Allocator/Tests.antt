-- ===== src/Allocator/Tests.antt =====
-- Concrete runs of apps/api/app/services/signal_allocator.py.
use t212_cashguard.Common.{
  ℕ, ◌≡◌, ◌↔◌, All, true, Option, none, some, String, List, [], ◌∷◌, map, refl, str_eq,
}
use t212_cashguard.Common.FixedPoint.{
  ℤ, fixed_point, fixed_floats, fixed_order, fixed_add_zero, whole,
}
use t212_cashguard.Common.Sorting.{stable_sort, insert_sorted}
use t212_cashguard.Correlation.{get_sector, sector_map}
use t212_cashguard.Allocator.{
  Context, AllocatorCandidate, is_in, clamp_within, notional, estimated_risk, gross_exposure, pct,
  symbol_exposure, regime_gross_cap_pct, max_symbol_pct, regime_run_risk_cap_pct,
}
use t212_cashguard.Allocator.Score.{
  pre_score, components, penalties, regime_fit, risk_reward_score, execution_quality,
  sector_overlap_penalty, correlation_proxy_penalty, broad_overlap,
}
use t212_cashguard.Allocator.Decide.{
  AllocationStatus, AllocationState, Account, new_state, decide, allocate_batch, allocate_each,
  allocate_one, blocking_reasons, ranking, sorts_before, score_of, projected_gross_pct,
  projected_symbol_pct, run_risk_pct,
}
use t212_cashguard.Allocator.Decide.AllocationStatus.{allocated, rejected}
use t212_cashguard.Allocator.Ranking.{IsRanked, allocate_batch-IsRanked}
use t212_cashguard.Allocator.Granted.{IsAffordable, decide-allocated_iff}
use t212_cashguard.Allocator.Totals.{IsWithinCaps, allocate_batch-IsWithinCaps}
use t212_cashguard.Allocator.Winners.{WonOnce, NotBought, allocate_batch-WonOnce}

-- For tickers that are in capitals.
abbrev upper : String → String
upper s = s

abbrev quiet : Context ℤ
quiet = record {
  score = some (whole 80);
  catalyst_score = none;
  pre_market_rvol = none;
  relative_volume = some (whole 2);
  spread_bps = none;
  feed_status = some "ok";
  status = none;
}

-- A signal for shares at ten each.
abbrev signal : String → String → ℕ → Option ℤ → AllocatorCandidate ℤ ℤ
signal ticker side shares confidence = record {
  ticker = ticker;
  side = side;
  strategy_id = "s1";
  strategy_name = "Momentum";
  strategy_type = "momentum";
  signal_type = "entry";
  confidence = confidence;
  entry_price = whole 10;
  quantity = whole shares;
  stop_price = some (whole 9);
  take_profit_price = some (whole 13);
  watchlist_context = quiet;
  target_weight = none;
  delta_value = none;
}

abbrev account : Account fixed_point fixed_floats upper
account = record {
  limits = record {
    min_score = fixed_point.literal 55 2;
    base_gross_exposure_pct = whole 80;
    volatile_gross_exposure_pct = whole 50;
    risk_off_gross_exposure_pct = whole 20;
    max_symbol_exposure_pct = whole 15;
    max_sleeve_symbol_exposure_pct = whole 25;
    max_run_risk_pct = whole 2;
  };
  account_value = whole 10_000;
  available_cash = whole 1_000;
  current_positions = [];
  regime = record {
    regime = some "trending_up";
    suppressed_strategies = [];
    active_strategies = [];
  };
}

abbrev fresh : AllocationState ℤ ℤ
fresh = new_state fixed_point fixed_floats upper

abbrev batch : List (AllocatorCandidate ℤ ℤ)
batch =
    signal "ACME" "buy" 60 none
    ∷ signal "ACME" "buy" 10 (some (whole 1))
    ∷ signal "OTHER" "sell" 5 none
    ∷ signal "THIRD" "buy" 60 none
    ∷ signal "OTHER" "buy" 5 none
    ∷ signal "LARGE" "buy" 101 none
    ∷ []

abbrev results : List (String × AllocationStatus)
results =
    map (λ d. (d.ticker, d.status))
      (allocate_batch fixed_point fixed_floats upper account batch fresh).0

results_lem :
    results
    ≡ ("OTHER", allocated)
      ∷ ("ACME", allocated)
      ∷ ("ACME", rejected)
      ∷ ("THIRD", allocated)
      ∷ ("OTHER", rejected)
      ∷ ("LARGE", rejected)
      ∷ []
unfolding allocate_batch allocate_each allocate_one decide blocking_reasons ranking sorts_before
    stable_sort insert_sorted pre_score components penalties score_of projected_gross_pct
    projected_symbol_pct run_risk_pct new_state regime_fit risk_reward_score execution_quality
    sector_overlap_penalty correlation_proxy_penalty broad_overlap clamp_within notional
    estimated_risk gross_exposure pct symbol_exposure regime_gross_cap_pct max_symbol_pct
    regime_run_risk_cap_pct get_sector sector_map
results_lem = refl

-- Two purchases of one run, each within the available cash, that together exceed it.
pair_above_cash :
    map
      (λ d. d.status)
      (allocate_batch fixed_point fixed_floats upper account
        (signal "ACME" "buy" 60 none ∷ signal "THIRD" "buy" 60 none ∷ [])
        fresh).0
    ≡ allocated ∷ allocated ∷ []
unfolding allocate_batch allocate_each allocate_one decide blocking_reasons ranking sorts_before
    stable_sort insert_sorted pre_score components penalties score_of projected_gross_pct
    projected_symbol_pct run_risk_pct new_state regime_fit risk_reward_score execution_quality
    sector_overlap_penalty correlation_proxy_penalty broad_overlap clamp_within notional
    estimated_risk gross_exposure pct symbol_exposure regime_gross_cap_pct max_symbol_pct
    regime_run_risk_cap_pct get_sector sector_map
pair_above_cash = refl

allocate_batch-IsRanked_example :
    IsRanked fixed_point fixed_floats upper account batch
      (allocate_batch fixed_point fixed_floats upper account batch fresh).0
allocate_batch-IsRanked_example =
    allocate_batch-IsRanked fixed_point fixed_floats upper fixed_order account batch fresh

decide-allocated_iff_example :
    ((decide fixed_point fixed_floats upper account
        (signal "ACME" "buy" 60 none)
        fresh
        (some 1)).status
      ≡ allocated)
    ↔ ((true ≡ true)
        × (true ≡ true)
        × (str_eq "buy" "buy" ≡ true
            → IsAffordable fixed_point fixed_floats upper account
                (signal "ACME" "buy" 60 none)
                fresh))
decide-allocated_iff_example =
    decide-allocated_iff fixed_point fixed_floats upper account (signal "ACME" "buy" 60 none) fresh
      (some 1)

allocate_batch-IsWithinCaps_example :
    IsWithinCaps fixed_point fixed_floats upper account fresh
      (allocate_batch fixed_point fixed_floats upper account batch fresh).1
allocate_batch-IsWithinCaps_example =
    allocate_batch-IsWithinCaps fixed_point fixed_floats upper account fixed_add_zero batch fresh

allocate_batch-WonOnce_example :
    WonOnce (allocate_batch fixed_point fixed_floats upper account batch fresh).0
    × ((t : String)
        → is_in t fresh.accepted_tickers ≡ true
        → All (NotBought t) (allocate_batch fixed_point fixed_floats upper account batch fresh).0)
allocate_batch-WonOnce_example =
    allocate_batch-WonOnce fixed_point fixed_floats upper account batch fresh
