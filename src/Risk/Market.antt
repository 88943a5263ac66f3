-- ===== src/Risk/Market.antt =====
-- apps/api/app/risk/engine.py: `RiskEngine.check_market_conditions`, and what it reads of the feed's
-- health, the market regime and the watchlist. In these dictionaries an entry may be missing.
pub mod Enterable
use mathlib.Core.Path.{subst}
use t212_cashguard.Common.{
  ◌∙◌, All, arith, ap, sym, eq_iff, Bool-cases, ℕ, ◌≡◌, ◌↔◌, inl, inr, refl, Bool, true, false, not,
  ◌&&◌, ◌||◌, Option, none, some, String, List, [], ◌∷◌, any, str_eq, select, if◌then◌else◌,
}
use t212_cashguard.Common.Numeric.{Floats}
use t212_cashguard.Risk.{Db, Method, ◌>>◌, pass, block}
use t212_cashguard.Risk.Judge.{Judges, Judges-iff, Judges-test, Judged, ◌then_check◌}

pub record FeedSymbol : Type 0 where
  pub ticker : Option String
  pub status : Option String

-- `get_feed_health_snapshot()`
pub record FeedSnapshot : Type 0 where
  pub status : Option String
  pub symbols : List FeedSymbol

pub record MarketRegime : Type 0 where
  pub regime : Option String
  pub suppressed_strategies : List String

pub record WatchlistContext (Float : Type 0) : Type 0 where
  pub catalyst_score : Option Float
  pub catalyst_event_type : Option String

-- `str(value or default)`
abbrev pub or_text : String → Option String → String
or_text default none = default
or_text default (some t) = if str_eq t "" then default else t

abbrev pub one_of_words : List String → String → Bool
one_of_words words t = any (str_eq t) words

-- `market_regime or {}` and `watchlist_context or {}`
abbrev pub regime_or_empty : Option MarketRegime → MarketRegime
regime_or_empty none = record { regime = none; suppressed_strategies = [] }
regime_or_empty (some r) = r

abbrev pub context_or_empty :
    {Float : Type 0} → Option (WatchlistContext Float) → WatchlistContext Float
context_or_empty none = record { catalyst_score = none; catalyst_event_type = none }
context_or_empty (some c) = c

-- `trusted_regimes`
abbrev pub trusted_regimes : List String
trusted_regimes =
    "trending_up" ∷ "trending_down" ∷ "ranging" ∷ "risk_off" ∷ "unsafe" ∷ "high_volatility" ∷ []

module _ {Num : Type 0} (F : Floats Num) (upper : String → String) where
  open F use {Float, float_literal, float_less}

  -- The loop over the symbols: the status of the first one with this ticker.
  unfoldable pub symbol_status : String → List FeedSymbol → Option String
  symbol_status ticker [] = none
  symbol_status ticker (symbol ∷ rest) =
      let later = symbol_status ticker rest in
      if str_eq (upper (or_text "" symbol.ticker)) (upper ticker)
      then some (or_text "unknown" symbol.status)
      else later

  -- `symbol_status and symbol_status not in {"ok", "fallback"}`
  abbrev pub is_bad_symbol : Option String → Bool
  is_bad_symbol none = false
  is_bad_symbol (some status) =
      not (str_eq status "") && not (one_of_words ("ok" ∷ "fallback" ∷ []) status)

  -- `float(context.get("catalyst_score", 0.0) or 0.0)`
  abbrev pub score_or_zero : Option Float → Float
  score_or_zero none = float_literal 0 0
  score_or_zero (some score) = score

  abbrev pub is_event_risk : String → WatchlistContext Float → Bool
  is_event_risk strategy_type context =
      one_of_words ("opening_fade" ∷ "vwap_reclaim" ∷ []) strategy_type
      && not (float_less (score_or_zero context.catalyst_score) (float_literal 7 1))
      && one_of_words ("earnings" ∷ "guidance" ∷ "m&a" ∷ "legal_regulatory" ∷ [])
          (or_text "" context.catalyst_event_type)

  abbrev pub refuse_when : Bool → String → String → Option ℕ → Method Num (Unit {0})
  refuse_when test event_type ticker signal_id =
      if test then block event_type (some ticker) signal_id else pass

  unfoldable pub check_market_conditions :
      String
      → String
      → FeedSnapshot
      → Option MarketRegime
      → Option (WatchlistContext Float)
      → Option ℕ
      → Method Num (Unit {0})
  unfolding block symbol_status
  check_market_conditions ticker strategy_type feed market_regime watchlist_context signal_id = do
    let regime = regime_or_empty market_regime
    let regime_name = or_text "unknown" regime.regime
    let feed_status = or_text "unknown" feed.status
    refuse_when (one_of_words ("stale" ∷ "error" ∷ []) feed_status) "feed_health_block" ticker
        signal_id
    refuse_when (is_bad_symbol (symbol_status ticker feed.symbols)) "feed_symbol_block" ticker
        signal_id
    refuse_when (str_eq regime_name "unknown") "regime_block" ticker signal_id
    refuse_when (not (one_of_words trusted_regimes regime_name)) "regime_block" ticker signal_id
    refuse_when (str_eq regime_name "high_volatility") "regime_block" ticker signal_id
    refuse_when
        (any (λ item. not (str_eq item "") && str_eq strategy_type item)
          regime.suppressed_strategies)
        "regime_block" ticker signal_id
    refuse_when (is_event_risk strategy_type (context_or_empty watchlist_context))
        "event_risk_block" ticker signal_id
