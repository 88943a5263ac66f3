-- ===== src/Allocator/Score.antt =====
-- apps/api/app/services/signal_allocator.py: what a candidate's score is made of.
use t212_cashguard.Common.{
  ℕ, Bool, true, false, not, ◌&&◌, ◌||◌, none, some, String, List, [], ◌∷◌, ◌++◌, map, select, any,
  length, ltb, ◌==◌, str_eq, if◌then◌else◌,
}
use t212_cashguard.Common.Numeric.{Decimals, Floats, zero_of, is_positive}
use t212_cashguard.Correlation.{or_value, get_or_default, get_sector}
use t212_cashguard.Allocator.{
  Context, AllocatorCandidate, Regime, Held, is_in, text_or, regime_name, num_or, float_min, clamp,
  clamp_within, as_decimal, notional, pct, symbol_exposure, sector_from,
}

-- `{str(item) for item in items if item}`
abbrev pub named : List String → List String
named items = select (λ item. not (str_eq item "")) items

abbrev pub is_empty : List String → Bool
is_empty [] = true
is_empty (_ ∷ _) = false

-- `str(context.get("feed_status") or context.get("status") or "unknown")`
abbrev pub feed_of : {Float : Type 0} → Context Float → String
feed_of context = text_or context.feed_status (text_or context.status "unknown")

abbrev pub usable_feeds : List String
usable_feeds = "ok" ∷ "fallback" ∷ "unknown" ∷ []

-- `broad_overlap`
unfoldable pub broad_overlap : List (String × List String)
broad_overlap =
    ("Technology", "QQQ" ∷ "XLK" ∷ "SPY" ∷ [])
    ∷ ("Consumer Discretionary", "QQQ" ∷ "XLY" ∷ "SPY" ∷ [])
    ∷ ("Financials", "XLF" ∷ "SPY" ∷ [])
    ∷ ("Energy", "XLE" ∷ "SPY" ∷ [])
    ∷ ("Healthcare", "XLV" ∷ "SPY" ∷ [])
    ∷ []

module _ (D : Decimals) (F : Floats (Decimals.Num D)) where
  open D use {Num, literal, add, sub, mul, div, absolute, less}
  open F use {
    Float, float_literal, float_less, float_add, float_sub, float_mul, float_div, float_sum,
    to_float,
  }

  abbrev pub no_float : Float
  no_float = float_literal 0 0

  unfoldable pub regime_fit : String → Regime → Float
  regime_fit strategy_type r =
      let name = regime_name r in
      let suppressed = named r.suppressed_strategies in
      let active = named r.active_strategies in
      if is_in strategy_type suppressed || is_in name ("unsafe" ∷ "low_liquidity" ∷ [])
      then float_literal 5 2
      else if not (is_empty active) && is_in strategy_type active
      then float_literal 1 0
      else if is_in name ("risk_off" ∷ "trending_down" ∷ [])
      then float_literal 35 2
      else if is_in name ("volatile" ∷ "news_driven" ∷ [])
      then float_literal 50 2
      else if is_in name ("trending_up" ∷ "ranging" ∷ "mean_reverting" ∷ [])
      then float_literal 75 2
      else float_literal 65 2

  -- `_risk_reward_score` where both prices are given.
  abbrev pub reward_of : Num → Num → Num → Float
  reward_of entry stop target =
      let downside = absolute (sub entry stop) in
      let upside = absolute (sub target entry) in
      if is_positive D downside
      then clamp D F (float_div (to_float (div upside downside)) (float_literal 3 0))
      else float_literal 25 2

  unfoldable pub risk_reward_score : AllocatorCandidate Num Float → Float
  risk_reward_score c =
      let scored : Float = elim c.stop_price [
        | some stop ↦ elim c.take_profit_price [
          | some target ↦ reward_of c.entry_price stop target
          | none ↦ float_literal 65 2
        ]
        | none ↦ float_literal 65 2
      ] in
      if str_eq c.side "sell" then float_literal 1 0 else scored

  -- `context.get("pre_market_rvol", context.get("relative_volume", 0.0)) or 0.0`
  abbrev pub rvol_of : Context Float → Float
  rvol_of context = or_value (or_value context.pre_market_rvol context.relative_volume) no_float

  unfoldable pub execution_quality : Context Float → Float
  execution_quality context =
      let base =
        if is_in (feed_of context) usable_feeds then float_literal 70 2 else float_literal 25 2 in
      let rvol = rvol_of context in
      let raised =
        if not (float_less rvol (float_literal 2 0))
        then float_add base (float_literal 15 2)
        else if not (float_less rvol (float_literal 12 1))
        then float_add base (float_literal 8 2)
        else base in
      let spread_bps = or_value context.spread_bps no_float in
      clamp D F (
        if float_less (float_literal 25 0) spread_bps
        then float_sub raised (float_literal 20 2)
        else raised)

  unfoldable pub components : AllocatorCandidate Num Float → Regime → List (String × Float)
  components c r =
      let context = c.watchlist_context in
      let given = num_or D F (or_value c.confidence (zero_of D)) (literal 5 1) in
      let confidence = clamp D F (to_float given) in
      let watchlist_score =
        clamp D F (float_div (or_value context.score no_float) (float_literal 100 0)) in
      let catalyst_score = clamp D F (or_value context.catalyst_score no_float) in
      ("confidence", float_mul confidence (float_literal 30 2))
      ∷ ("watchlist_quality", float_mul watchlist_score (float_literal 15 2))
      ∷ ("catalyst", float_mul catalyst_score (float_literal 10 2))
      ∷ ("regime_fit", float_mul (regime_fit c.strategy_type r) (float_literal 20 2))
      ∷ ("risk_reward", float_mul (risk_reward_score c) (float_literal 15 2))
      ∷ ("execution_quality", float_mul (execution_quality context) (float_literal 10 2))
      ∷ []

  -- `sum(d.values())`
  abbrev pub sum_of : List (String × Float) → Float
  sum_of d = float_sum (map (λ entry. entry.1) d)

  unfoldable pub pre_score : AllocatorCandidate Num Float → Regime → Float
  pre_score c r = clamp D F (sum_of (components c r))

  module _ (upper : String → String) where
    unfoldable pub sector_overlap_penalty :
        AllocatorCandidate Num Float → List (Held Num) → Num → Float
    sector_overlap_penalty c positions account_value =
        let sector = get_sector upper c.ticker in
        let sector_pct =
          pct D F (sector_from D F upper sector (notional D F c) positions) account_value in
        if not (is_positive D account_value)
        then no_float
        else if is_in sector ("ETF" ∷ "Unknown" ∷ [])
        then no_float
        else if float_less (float_literal 15 0) sector_pct
        then clamp_within D F
            (float_div (float_sub sector_pct (float_literal 15 0)) (float_literal 100 0)) no_float
            (float_literal 25 2)
        else no_float

    abbrev pub same_sector_count : String → List (Held Num) → ℕ
    same_sector_count sector positions = length (
        select
          (λ p.
            str_eq (get_sector upper p.ticker) sector && is_positive D (as_decimal D F p.quantity))
          positions)

    abbrev pub has_broad_overlap : String → List (Held Num) → Bool
    has_broad_overlap sector positions =
        any (λ p. is_in (upper p.ticker) (get_or_default sector ("SPY" ∷ []) broad_overlap))
          positions

    unfoldable pub correlation_proxy_penalty :
        AllocatorCandidate Num Float → List (Held Num) → Float
    correlation_proxy_penalty c positions =
        let sector = get_sector upper c.ticker in
        let n = same_sector_count sector positions in
        let counted =
          if not (ltb n 2)
          then float_add no_float (float_literal 8 2)
          else if n == 1
          then float_add no_float (float_literal 4 2)
          else no_float in
        let penalty =
          if has_broad_overlap sector positions
          then float_add counted (float_literal 4 2)
          else counted in
        if is_in sector ("ETF" ∷ "Unknown" ∷ [])
        then no_float
        else clamp_within D F penalty no_float (float_literal 16 2)

    -- `if test: penalties[name] = value`
    abbrev pub when_set : Bool → String → Float → List (String × Float)
    when_set test name value = if test then (name, value) ∷ [] else []

    unfoldable pub penalties :
        AllocatorCandidate Num Float → List (Held Num) → Num → List String → List (String × Float)
    penalties c positions account_value accepted_tickers =
        let context = c.watchlist_context in
        let existing = pct D F (symbol_exposure D F upper c.ticker positions) account_value in
        let spread_bps = or_value context.spread_bps no_float in
        let sector_penalty = sector_overlap_penalty c positions account_value in
        let correlation_penalty = correlation_proxy_penalty c positions in
        if str_eq c.side "sell"
        then []
        else when_set (is_in (upper c.ticker) accepted_tickers) "duplicate_symbol_run"
            (float_literal 40 2)
          ++ when_set (float_less no_float existing) "existing_symbol_exposure"
              (float_min D F (float_div existing (float_literal 100 0)) (float_literal 25 2))
          ++ when_set (not (is_in (feed_of context) usable_feeds)) "feed_quality"
              (float_literal 30 2)
          ++ when_set (float_less (float_literal 25 0) spread_bps) "wide_spread"
              (float_min D F (float_div spread_bps (float_literal 250 0)) (float_literal 25 2))
          ++ when_set (float_less no_float sector_penalty) "sector_overlap" sector_penalty
          ++ when_set (float_less no_float correlation_penalty) "correlation_proxy"
              correlation_penalty
