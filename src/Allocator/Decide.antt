-- ===== src/Allocator/Decide.antt =====
-- apps/api/app/services/signal_allocator.py: the decision on one candidate and the run over a batch.
-- A set of tickers is a list that holds each once. `state.decisions` keeps the decisions, where
-- the code keeps their payloads; the time of a decision is left out.
use t212_cashguard.Common.{
  ℕ, suc, Bool, true, false, not, ◌&&◌, ◌||◌, Option, some, String, List, [], ◌∷◌, ◌++◌, map,
  str_eq, if◌then◌else◌,
}
use t212_cashguard.Common.Numeric.{Decimals, Floats, zero_of, is_positive}
use t212_cashguard.Common.Sorting.{stable_sort}
use t212_cashguard.Allocator.{
  AllocatorCandidate, Regime, Held, AllocatorSettings, is_in, clamp, notional, estimated_risk, pct,
  gross_exposure, symbol_exposure, regime_gross_cap_pct, max_symbol_pct, regime_run_risk_cap_pct,
}
use t212_cashguard.Allocator.Score.{components, penalties, sum_of, pre_score}

pub data AllocationStatus : Type 0 where
  allocated : AllocationStatus
  rejected : AllocationStatus

-- The texts that may stand in `blocking_reasons`.
pub data Blocking : Type 0 where
  invalid_quantity_or_price : Blocking
  insufficient_available_cash : Blocking
  same_symbol_already_won : Blocking
  gross_exposure_exceeds_cap : Blocking
  symbol_exposure_exceeds_cap : Blocking
  run_risk_exceeds_cap : Blocking
  score_below_threshold : Blocking

pub record AllocationDecision (Float : Type 0) : Type 0 where
  pub ticker : String
  pub side : String
  pub strategy_id : String
  pub strategy_name : String
  pub strategy_type : String
  pub signal_type : String
  pub status : AllocationStatus
  pub score : Float
  pub threshold : Float
  -- `reason`, by what it lists.
  pub reason : List Blocking
  pub rank : Option ℕ
  pub components : List (String × Float)
  pub penalties : List (String × Float)
  pub allocated_risk_pct : Float
  pub projected_gross_exposure_pct : Float
  pub projected_symbol_exposure_pct : Float
  pub regime_cap_pct : Float

pub record AllocationState (Num Float : Type 0) : Type 0 where
  pub accepted_tickers : List String
  pub allocated_value : Num
  pub allocated_risk : Num
  pub decisions : List (AllocationDecision Float)

-- `names.add(name)`
abbrev pub add_name : String → List String → List String
add_name name names = if is_in name names then names else name ∷ names

-- `if test: blocking_reasons.append(reason)`
abbrev pub block_if : Bool → Blocking → List Blocking
block_if test reason = if test then reason ∷ [] else []

-- The status that the last tests of `_decide` give.
abbrev pub status_of : List Blocking → AllocationStatus
status_of [] = AllocationStatus.allocated
status_of (_ ∷ _) = AllocationStatus.rejected

abbrev pub is_buy : {Num Float : Type 0} → AllocatorCandidate Num Float → Bool
is_buy c = str_eq c.side "buy"

module _ (D : Decimals) (F : Floats (Decimals.Num D)) (upper : String → String) where
  open D use {Num, add, less}
  open F use {Float, float_less, float_sub}

  unfoldable pub new_state : AllocationState Num Float
  new_state = record {
    accepted_tickers = [];
    allocated_value = zero_of D;
    allocated_risk = zero_of D;
    decisions = [];
  }

  -- What a run is given, besides its candidates: the same for each of them.
  pub record Account : Type 0 where
    pub limits : AllocatorSettings Float
    pub account_value : Num
    pub available_cash : Num
    pub current_positions : List (Held Num)
    pub regime : Regime

  -- `max(0.0, min(sum(components) - sum(penalties), 1.0))`
  unfoldable pub score_of :
      Account → AllocatorCandidate Num Float → AllocationState Num Float → Float
  score_of a c state = clamp D F (
      float_sub (sum_of D F (components D F c a.regime)) (
        sum_of D F
          (penalties D F upper c a.current_positions a.account_value state.accepted_tickers)))

  unfoldable pub projected_gross_pct :
      Account → AllocatorCandidate Num Float → AllocationState Num Float → Float
  projected_gross_pct a c state =
      let gross = add (gross_exposure D F a.current_positions) state.allocated_value in
      pct D F (if is_buy c then add gross (notional D F c) else gross) a.account_value

  unfoldable pub projected_symbol_pct : Account → AllocatorCandidate Num Float → Float
  projected_symbol_pct a c =
      let held = symbol_exposure D F upper c.ticker a.current_positions in
      pct D F (if is_buy c then add held (notional D F c) else held) a.account_value

  unfoldable pub run_risk_pct :
      Account → AllocatorCandidate Num Float → AllocationState Num Float → Float
  run_risk_pct a c state = pct D F (add state.allocated_risk (estimated_risk D F c)) a.account_value

  -- The list that `_decide` collects, test by test.
  unfoldable pub blocking_reasons :
      Account → AllocatorCandidate Num Float → AllocationState Num Float → List Blocking
  blocking_reasons a c state =
      let buy = is_buy c in
      block_if (not (is_positive D c.quantity) || not (is_positive D c.entry_price))
        Blocking.invalid_quantity_or_price
      ++ block_if (buy && less a.available_cash (notional D F c))
          Blocking.insufficient_available_cash
      ++ block_if (buy && is_in (upper c.ticker) state.accepted_tickers)
          Blocking.same_symbol_already_won
      ++ block_if
          (buy
            && float_less (regime_gross_cap_pct D F a.limits a.regime)
                (projected_gross_pct a c state))
          Blocking.gross_exposure_exceeds_cap
      ++ block_if (buy && float_less (max_symbol_pct D F a.limits c) (projected_symbol_pct a c))
          Blocking.symbol_exposure_exceeds_cap
      ++ block_if
          (buy
            && float_less (regime_run_risk_cap_pct D F a.limits a.regime) (run_risk_pct a c state))
          Blocking.run_risk_exceeds_cap
      ++ block_if (buy && float_less (score_of a c state) a.limits.min_score)
          Blocking.score_below_threshold

  -- `_decide`
  unfoldable pub decide :
      Account
      → AllocatorCandidate Num Float
      → AllocationState Num Float
      → Option ℕ
      → AllocationDecision Float
  decide a c state rank =
      let reasons = blocking_reasons a c state in
      record {
        ticker = upper c.ticker;
        side = c.side;
        strategy_id = c.strategy_id;
        strategy_name = c.strategy_name;
        strategy_type = c.strategy_type;
        signal_type = c.signal_type;
        status = status_of reasons;
        score = score_of a c state;
        threshold = a.limits.min_score;
        reason = reasons;
        rank = rank;
        components = components D F c a.regime;
        penalties =
            penalties D F upper c a.current_positions a.account_value state.accepted_tickers;
        allocated_risk_pct = run_risk_pct a c state;
        projected_gross_exposure_pct = projected_gross_pct a c state;
        projected_symbol_exposure_pct = projected_symbol_pct a c;
        regime_cap_pct = regime_gross_cap_pct D F a.limits a.regime;
      }

  -- `allocate_one` on a state, the caller's or `new_state`, with the state that it leaves.
  unfoldable pub allocate_one :
      Account
      → AllocatorCandidate Num Float
      → AllocationState Num Float
      → Option ℕ
      → AllocationDecision Float × AllocationState Num Float
  allocate_one a c state rank =
      let decision = decide a c state rank in
      let value = if is_buy c then notional D F c else zero_of D in
      let risk = if is_buy c then estimated_risk D F c else zero_of D in
      let counted : AllocationState Num Float = elim decision.status [
        | allocated ↦ record state {
          accepted_tickers = add_name (upper c.ticker) state.accepted_tickers;
          allocated_value = add state.allocated_value value;
          allocated_risk = add state.allocated_risk risk;
        }
        | rejected ↦ state
      ] in
      (decision, record counted { decisions = state.decisions ++ decision ∷ [] })

  -- `lambda item: (0 if item[1].side == "sell" else 1, -item[0])`, as the comparison of two items:
  -- `-x < -y` is `y < x`.
  unfoldable pub sorts_before :
      Float × AllocatorCandidate Num Float → Float × AllocatorCandidate Num Float → Bool
  sorts_before (x, c) (y, d) =
      let c_sells = str_eq c.side "sell" in
      let d_sells = str_eq d.side "sell" in
      if c_sells
      then (if d_sells then float_less y x else true)
      else (if d_sells then false else float_less y x)

  -- `prelim`, sorted.
  unfoldable pub ranking :
      Account → List (AllocatorCandidate Num Float) → List (Float × AllocatorCandidate Num Float)
  ranking a candidates =
      stable_sort sorts_before (map (λ c. (pre_score D F c a.regime, c)) candidates)

  -- The loop of `allocate_batch`, with the rank of the next candidate.
  unfoldable pub allocate_each :
      Account
      → ℕ
      → List (Float × AllocatorCandidate Num Float)
      → AllocationState Num Float
      → List (AllocationDecision Float) × AllocationState Num Float
  allocate_each a rank [] state = ([], state)
  allocate_each a rank ((_, c) ∷ rest) state =
      let (decision, after) = allocate_one a c state (some rank) in
      let (later, final) = allocate_each a (suc rank) rest after in (decision ∷ later, final)

  unfoldable pub allocate_batch :
      Account
      → List (AllocatorCandidate Num Float)
      → AllocationState Num Float
      → List (AllocationDecision Float) × AllocationState Num Float
  allocate_batch a candidates state = allocate_each a 1 (ranking a candidates) state
