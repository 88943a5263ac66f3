-- ===== src/Correlation.antt =====
-- apps/api/app/risk/correlation.py: the sector and correlation limits. The numbers in a position
-- count as floats. `upper` is `str.upper`, of the standard library; reasons and messages are left out.
use t212_cashguard.Common.{
  ℕ, Bool, true, not, ◌&&◌, ◌||◌, Option, none, some, String, List, [], ◌∷◌, length, take, ltb,
  str_eq, min, if◌then◌else◌,
}
use mathlib.Core.List.{flat_map}
use t212_cashguard.Common.Numeric.{Floats}

-- `SECTOR_MAP`
unfoldable pub sector_map : List (String × String)
sector_map =
    ("AAPL", "Technology")
    ∷ ("MSFT", "Technology")
    ∷ ("NVDA", "Technology")
    ∷ ("GOOGL", "Technology")
    ∷ ("GOOG", "Technology")
    ∷ ("META", "Technology")
    ∷ ("AVGO", "Technology")
    ∷ ("ORCL", "Technology")
    ∷ ("CRM", "Technology")
    ∷ ("AMD", "Technology")
    ∷ ("INTC", "Technology")
    ∷ ("QCOM", "Technology")
    ∷ ("ADBE", "Technology")
    ∷ ("NOW", "Technology")
    ∷ ("SNOW", "Technology")
    ∷ ("PLTR", "Technology")
    ∷ ("PANW", "Technology")
    ∷ ("CRWD", "Technology")
    ∷ ("AMZN", "Consumer Discretionary")
    ∷ ("TSLA", "Consumer Discretionary")
    ∷ ("HD", "Consumer Discretionary")
    ∷ ("MCD", "Consumer Discretionary")
    ∷ ("NKE", "Consumer Discretionary")
    ∷ ("SBUX", "Consumer Discretionary")
    ∷ ("TGT", "Consumer Discretionary")
    ∷ ("LOW", "Consumer Discretionary")
    ∷ ("JPM", "Financials")
    ∷ ("BAC", "Financials")
    ∷ ("WFC", "Financials")
    ∷ ("GS", "Financials")
    ∷ ("MS", "Financials")
    ∷ ("BRK.B", "Financials")
    ∷ ("V", "Financials")
    ∷ ("MA", "Financials")
    ∷ ("AXP", "Financials")
    ∷ ("UNH", "Healthcare")
    ∷ ("JNJ", "Healthcare")
    ∷ ("LLY", "Healthcare")
    ∷ ("ABBV", "Healthcare")
    ∷ ("MRK", "Healthcare")
    ∷ ("PFE", "Healthcare")
    ∷ ("TMO", "Healthcare")
    ∷ ("ABT", "Healthcare")
    ∷ ("XOM", "Energy")
    ∷ ("CVX", "Energy")
    ∷ ("COP", "Energy")
    ∷ ("SLB", "Energy")
    ∷ ("NFLX", "Communication")
    ∷ ("DIS", "Communication")
    ∷ ("T", "Communication")
    ∷ ("VZ", "Communication")
    ∷ ("CMCSA", "Communication")
    ∷ ("SPY", "ETF")
    ∷ ("QQQ", "ETF")
    ∷ ("IWM", "ETF")
    ∷ ("DIA", "ETF")
    ∷ ("XLK", "ETF")
    ∷ ("XLF", "ETF")
    ∷ ("XLE", "ETF")
    ∷ ("XLV", "ETF")
    ∷ ("SQQQ", "ETF")
    ∷ ("TQQQ", "ETF")
    ∷ ("UPRO", "ETF")
    ∷ ("PG", "Consumer Staples")
    ∷ ("KO", "Consumer Staples")
    ∷ ("PEP", "Consumer Staples")
    ∷ ("COST", "Consumer Staples")
    ∷ ("WMT", "Consumer Staples")
    ∷ ("CAT", "Industrials")
    ∷ ("DE", "Industrials")
    ∷ ("BA", "Industrials")
    ∷ ("GE", "Industrials")
    ∷ ("HON", "Industrials")
    ∷ ("RTX", "Industrials")
    ∷ []

-- `d.get(key, default)`
abbrev pub get_or_default {ℓ} : {V : Type ℓ} → String → V → List (String × V) → V
get_or_default key d [] = d
get_or_default key d ((k, v) ∷ rest) = if str_eq k key then v else get_or_default key d rest

-- `d[key] = v`
abbrev pub put_key {ℓ} : {V : Type ℓ} → String → V → List (String × V) → List (String × V)
put_key key v [] = (key, v) ∷ []
put_key key v ((k, w) ∷ rest) = if str_eq k key then (k, v) ∷ rest else (k, w) ∷ put_key key v rest

module _ (upper : String → String) where
  unfoldable pub get_sector : String → String
  get_sector ticker = get_or_default (upper ticker) "Unknown" sector_map

-- A position, with the keys that are read.
pub record Position (Float : Type 0) : Type 0 where
  pub ticker : Option String
  pub value : Option Float
  pub quantity : Option Float
  pub current_price : Option Float
  pub average_price : Option Float
  pub avg_price : Option Float

-- `CorrelationRiskChecker`
pub record Checker (Float : Type 0) : Type 0 where
  pub max_sector_pct : Float
  pub max_correlation : Float
  pub etf_exempt : Bool

pub record CorrelationViolation (Float : Type 0) : Type 0 where
  pub ticker_new : String
  pub ticker_existing : String
  -- Before it is rounded to three places.
  pub correlation : Float

-- `d.get(key, default)` for a key of a position.
abbrev pub or_value {ℓ} : {A : Type ℓ} → Option A → A → A
or_value none d = d
or_value (some a) d = a

module _ {Num : Type 0} (F : Floats Num) (upper : String → String) where
  open F use {
    Float, float_literal, float_less, float_add, float_sub, float_mul, float_div, float_pow,
    float_abs, float_sum,
  }

  abbrev pub float_zero : Float
  float_zero = float_literal 0 0

  -- The number `n` as a float.
  abbrev of_ℕ : ℕ → Float
  of_ℕ n = float_literal n 0

  -- `[(p[i] - p[i-1]) / p[i-1] for i in range(1, n) if p[i-1] > 0]` of the first `n` prices.
  abbrev pub returns_of : List Float → List Float
  returns_of [] = []
  returns_of (p ∷ []) = []
  returns_of (p ∷ q ∷ rest) =
      let later = returns_of (q ∷ rest) in
      if float_less float_zero p then float_div (float_sub q p) p ∷ later else later

  -- `zip`
  abbrev products : Float → Float → List Float → List Float → List Float
  products mean_a mean_b [] bs = []
  products mean_a mean_b (a ∷ as') [] = []
  products mean_a mean_b (a ∷ as') (b ∷ bs) =
      float_mul (float_sub a mean_a) (float_sub b mean_b) ∷ products mean_a mean_b as' bs

  abbrev squares : Float → List Float → List Float
  squares mean [] = []
  squares mean (a ∷ as') = float_pow (float_sub a mean) (of_ℕ 2) ∷ squares mean as'

  -- The end of `compute_correlation`, over as many returns of each series.
  abbrev correlation_of : ℕ → List Float → List Float → Float
  correlation_of n rets_a rets_b =
      let mean_a = float_div (float_sum rets_a) (of_ℕ n) in
      let mean_b = float_div (float_sum rets_b) (of_ℕ n) in
      let cov = float_div (float_sum (products mean_a mean_b rets_a rets_b)) (of_ℕ n) in
      let var_a = float_div (float_sum (squares mean_a rets_a)) (of_ℕ n) in
      let var_b = float_div (float_sum (squares mean_b rets_b)) (of_ℕ n) in
      if not (float_less float_zero var_a) || not (float_less float_zero var_b)
      then float_zero
      else float_div cov
          (float_mul (float_pow var_a (float_literal 5 1)) (float_pow var_b (float_literal 5 1)))

  unfoldable pub compute_correlation : List Float → List Float → Float
  compute_correlation prices_a prices_b =
      let n = min (length prices_a) (length prices_b) in
      let rets_a = returns_of (take n prices_a) in
      let rets_b = returns_of (take n prices_b) in
      let m = min (length rets_a) (length rets_b) in
      if ltb (length prices_a) 5 || ltb (length prices_b) 5
      then float_zero
      else if ltb m 5
      then float_zero
      else correlation_of m (take m rets_a) (take m rets_b)

  -- Python's `v or p` of a float or `None`.
  abbrev pub nonzero_or : Option Float → Float → Float
  nonzero_or none p = p
  nonzero_or (some v) p = if float_less v float_zero || float_less float_zero v then v else p

  -- `float(pos.get("value") or pos.get("quantity", 0) * pos.get("current_price", 0))`
  abbrev pub position_value : Position Float → Float
  position_value pos =
      let product =
        float_mul (or_value pos.quantity float_zero) (or_value pos.current_price float_zero) in
      nonzero_or pos.value product

  -- The loop that adds the exposure of the same sector.
  abbrev pub sector_value : String → Float → List (Position Float) → Float
  sector_value sector total [] = total
  sector_value sector total (pos ∷ rest) =
      sector_value sector
        (if str_eq (get_sector upper (or_value pos.ticker "")) sector
          then float_add total (position_value pos)
          else total)
        rest

  -- Whether the position is allowed; the reason is left out.
  unfoldable pub check_sector_exposure :
      Checker Float → String → Float → List (Position Float) → Float → Bool
  check_sector_exposure checker new_ticker new_value current_positions account_value =
      let new_sector = get_sector upper new_ticker in
      let total = sector_value new_sector new_value current_positions in
      let sector_pct = float_mul (float_div total account_value) (of_ℕ 100) in
      if not (float_less float_zero account_value)
      then true
      else if str_eq new_sector "ETF" || str_eq new_sector "Unknown"
      then true
      else not (float_less checker.max_sector_pct sector_pct)

  -- The body of the loop of `check_correlation`: the violation that one position adds.
  abbrev pub violation_of :
      Checker Float
      → String
      → List Float
      → List (String × List Float)
      → Position Float
      → List (CorrelationViolation Float)
  violation_of checker new_ticker new_prices price_history pos =
      let ticker = or_value pos.ticker "" in
      let existing_prices = get_or_default ticker [] price_history in
      let corr = compute_correlation new_prices existing_prices in
      let violation : CorrelationViolation Float = record {
        ticker_new = new_ticker;
        ticker_existing = ticker;
        correlation = corr;
      } in
      if str_eq ticker new_ticker
      then []
      else if checker.etf_exempt && str_eq (get_sector upper ticker) "ETF"
      then []
      else if ltb (length existing_prices) 10
      then []
      else if not (float_less (float_abs corr) checker.max_correlation)
      then violation ∷ []
      else []

  -- The violations that `check_correlation` returns; it allows the position when there is none.
  unfoldable pub check_correlation :
      Checker Float
      → String
      → List (Position Float)
      → List (String × List Float)
      → List (CorrelationViolation Float)
  check_correlation checker new_ticker current_positions price_history =
      let new_prices = get_or_default new_ticker [] price_history in
      if checker.etf_exempt && str_eq (get_sector upper new_ticker) "ETF"
      then []
      else if ltb (length new_prices) 10
      then []
      else flat_map (violation_of checker new_ticker new_prices price_history) current_positions
