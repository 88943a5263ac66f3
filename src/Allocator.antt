-- ===== src/Allocator.antt =====
-- apps/api/app/services/signal_allocator.py: which signals of a run deserve the portfolio's capital.
-- `upper` is `str.upper`. A dictionary that is read by fixed keys is a record; each field says what
-- it holds for a missing key. Texts of reasons and the rounding of payloads are left out.
pub mod Score
pub mod Decide
pub mod Ranking
pub mod Granted
pub mod Totals
pub mod Winners
mod Tests
use t212_cashguard.Common.{
  ℕ, Bool, true, false, not, ◌&&◌, ◌||◌, Option, none, some, String, List, [], ◌∷◌, any, str_eq,
  if◌then◌else◌,
}
use t212_cashguard.Common.Numeric.{Decimals, Floats, zero_of, hundred_of, less_eq, is_positive}
use t212_cashguard.Correlation.{or_value, get_sector}

-- `x in {...}` of texts.
abbrev pub is_in : String → List String → Bool
is_in s names = any (str_eq s) names

-- `watchlist_context`: a field is none where the key is missing or holds None.
pub record Context (Float : Type 0) : Type 0 where
  pub score : Option Float
  pub catalyst_score : Option Float
  -- None where the key is missing, and `some none` where it holds None.
  pub pre_market_rvol : Option (Option Float)
  pub relative_volume : Option Float
  pub spread_bps : Option Float
  pub feed_status : Option String
  pub status : Option String

pub record AllocatorCandidate (Num Float : Type 0) : Type 0 where
  pub ticker : String
  pub side : String
  pub strategy_id : String
  pub strategy_name : String
  pub strategy_type : String
  pub signal_type : String
  pub confidence : Option Num
  pub entry_price : Num
  pub quantity : Num
  pub stop_price : Option Num
  pub take_profit_price : Option Num
  pub watchlist_context : Context Float
  pub target_weight : Option Num
  pub delta_value : Option Num

-- The keys of `regime` that are read; a list is empty for a missing key.
pub record Regime : Type 0 where
  pub regime : Option String
  pub suppressed_strategies : List String
  pub active_strategies : List String

-- A position: `str(position.get("ticker", ""))`, and each number as `Decimal(str(value))` reads it,
-- none where it is missing, None or not readable. The keys
-- `currentPrice` and `averagePrice` are the fields with `broker_`.
pub record Held (Num : Type 0) : Type 0 where
  pub ticker : String
  pub quantity : Option Num
  pub broker_current_price : Option Num
  pub current_price : Option Num
  pub broker_average_price : Option Num
  pub avg_price : Option Num

-- The settings `PORTFOLIO_ALLOCATOR_...`, each after `float(...)`.
pub record AllocatorSettings (Float : Type 0) : Type 0 where
  pub min_score : Float
  pub base_gross_exposure_pct : Float
  pub volatile_gross_exposure_pct : Float
  pub risk_off_gross_exposure_pct : Float
  pub max_symbol_exposure_pct : Float
  pub max_sleeve_symbol_exposure_pct : Float
  pub max_run_risk_pct : Float

-- Python's `a or b` of a text or None.
abbrev pub text_or : Option String → String → String
text_or none d = d
text_or (some s) d = if str_eq s "" then d else s

-- `str(regime.get("regime") or "unknown")`
abbrev pub regime_name : Regime → String
regime_name r = text_or r.regime "unknown"

module _ (D : Decimals) (F : Floats (Decimals.Num D)) where
  open D use {Num, literal, add, sub, mul, div, absolute, less}
  open F use {Float, float_literal, float_less, to_float}

  -- Python's `a or b` of decimals.
  abbrev pub num_or : Num → Num → Num
  num_or x y = if less x (zero_of D) || less (zero_of D) x then x else y

  -- `min(x, y)` and `max(x, y)` of floats.
  abbrev pub float_min : Float → Float → Float
  float_min x y = if float_less y x then y else x

  abbrev pub float_max : Float → Float → Float
  float_max x y = if float_less x y then y else x

  -- `_clamp(value, floor, ceiling)`
  unfoldable pub clamp_within : Float → Float → Float → Float
  clamp_within value floor ceiling = float_max floor (float_min value ceiling)

  abbrev pub clamp : Float → Float
  clamp value = clamp_within value (float_literal 0 0) (float_literal 1 0)

  -- `_as_decimal` of a field as it is read.
  abbrev pub as_decimal : Option Num → Num
  as_decimal value = or_value value (zero_of D)

  unfoldable pub notional : AllocatorCandidate Num Float → Num
  notional c = absolute (mul c.entry_price c.quantity)

  unfoldable pub estimated_risk : AllocatorCandidate Num Float → Num
  estimated_risk c = elim c.stop_price [
    | some stop ↦
        if is_positive D c.entry_price
        then mul (absolute (sub c.entry_price stop)) (absolute c.quantity)
        else mul (notional c) (literal 2 2)
    | none ↦ mul (notional c) (literal 2 2)
  ]

  -- The price that the three exposures read.
  abbrev pub held_price : Held Num → Num
  held_price p =
      num_or
        (num_or (num_or (as_decimal p.broker_current_price) (as_decimal p.current_price))
          (as_decimal p.broker_average_price))
        (as_decimal p.avg_price)

  abbrev pub held_value : Held Num → Num
  held_value p = mul (absolute (as_decimal p.quantity)) (held_price p)

  abbrev gross_from : Num → List (Held Num) → Num
  gross_from total [] = total
  gross_from total (p ∷ rest) =
      gross_from
        (if is_positive D (absolute (as_decimal p.quantity))
          then add total (held_value p)
          else total)
        rest

  unfoldable pub gross_exposure : List (Held Num) → Num
  gross_exposure positions = gross_from (zero_of D) positions

  unfoldable pub pct : Num → Num → Float
  pct value account_value =
      if is_positive D account_value
      then to_float (mul (div value account_value) (hundred_of D))
      else float_literal 0 0

  module _ (upper : String → String) where
    abbrev symbol_from : String → Num → List (Held Num) → Num
    symbol_from ticker_upper total [] = total
    symbol_from ticker_upper total (p ∷ rest) =
        symbol_from ticker_upper
          (if str_eq (upper p.ticker) ticker_upper then add total (held_value p) else total) rest

    unfoldable pub symbol_exposure : String → List (Held Num) → Num
    symbol_exposure ticker positions = symbol_from (upper ticker) (zero_of D) positions

    -- The loop of `_sector_overlap_penalty`.
    abbrev pub sector_from : String → Num → List (Held Num) → Num
    sector_from sector total [] = total
    sector_from sector total (p ∷ rest) =
        sector_from sector
          (if str_eq (get_sector upper p.ticker) sector then add total (held_value p) else total)
          rest

  unfoldable pub regime_gross_cap_pct : AllocatorSettings Float → Regime → Float
  regime_gross_cap_pct s r =
      let name = regime_name r in
      if is_in name ("unsafe" ∷ "low_liquidity" ∷ [])
      then float_literal 0 0
      else if str_eq name "risk_off"
      then s.risk_off_gross_exposure_pct
      else if is_in name ("volatile" ∷ "news_driven" ∷ [])
      then s.volatile_gross_exposure_pct
      else if str_eq name "trending_down"
      then float_min s.volatile_gross_exposure_pct (float_literal 40 0)
      else s.base_gross_exposure_pct

  unfoldable pub max_symbol_pct : AllocatorSettings Float → AllocatorCandidate Num Float → Float
  max_symbol_pct s c = elim c.target_weight [
    | some _ ↦ s.max_sleeve_symbol_exposure_pct
    | none ↦ s.max_symbol_exposure_pct
  ]

  unfoldable pub regime_run_risk_cap_pct : AllocatorSettings Float → Regime → Float
  regime_run_risk_cap_pct s r =
      let name = regime_name r in
      let base = s.max_run_risk_pct in
      if is_in name ("unsafe" ∷ "low_liquidity" ∷ [])
      then float_literal 0 0
      else if str_eq name "risk_off"
      then float_min base (float_literal 50 2)
      else if is_in name ("volatile" ∷ "news_driven" ∷ "trending_down" ∷ [])
      then float_min base (float_literal 1 0)
      else base
