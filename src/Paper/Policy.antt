-- ===== src/Paper/Policy.antt =====
-- apps/api/app/execution/paper_policy.py: what becomes of a paper order at a quoted price. `fits n`
-- is whether `n.quantize(Decimal("1e-8"))` is within the precision of the decimal context; else it
-- raises `InvalidOperation`.
use t212_cashguard.Common.{Bool, not, ◌&&◌, ◌||◌, Option, none, some, String, str_eq, if◌then◌else◌}
use t212_cashguard.Common.Numeric.{Decimals, zero_of, one_of, is_positive, max_of}

pub data PaperSimulationProfile : Type 0 where
  standard : PaperSimulationProfile
  partial_fill : PaperSimulationProfile
  no_liquidity : PaperSimulationProfile

pub data PaperFillOutcome : Type 0 where
  filled : PaperFillOutcome
  partially_filled : PaperFillOutcome
  rejected : PaperFillOutcome

pub record PaperFillDecision (N : Type 0) : Type 0 where
  pub profile : PaperSimulationProfile
  pub outcome : PaperFillOutcome
  pub quote_price : N
  pub filled_quantity : N
  pub fill_price : Option N
  pub fee_amount : N
  pub rejection_code : Option String

module _ (D : Decimals) (fits : Decimals.Num D → Bool) where
  open D use {Num, literal, add, sub, mul, div, quantize, quantize_down, less}

  -- `PAPER_SPREAD_BPS`, `PAPER_SLIPPAGE_BPS`, `PAPER_FEE_BPS`, `PAPER_MIN_FEE`
  abbrev spread_bps : Num
  spread_bps = literal 10 0

  abbrev slippage_bps : Num
  slippage_bps = literal 5 0

  abbrev fee_bps : Num
  fee_bps = literal 2 0

  abbrev pub min_fee : Num
  min_fee = literal 1 2

  abbrev bps_denominator : Num
  bps_denominator = literal 10_000 0

  unfoldable pub reject : PaperSimulationProfile → Num → String → PaperFillDecision Num
  reject profile quote_price code = record {
    profile = profile;
    outcome = PaperFillOutcome.rejected;
    quote_price = quote_price;
    filled_quantity = zero_of D;
    fill_price = none;
    fee_amount = zero_of D;
    rejection_code = some code;
  }

  abbrev adverse_rate : Num
  adverse_rate =
      add (div (div spread_bps (literal 2 0)) bps_denominator) (div slippage_bps bps_denominator)

  unfoldable pub fill_price_of : String → Num → Num
  fill_price_of side quote_price =
      let multiplier =
        if str_eq side "buy" then add (one_of D) adverse_rate else sub (one_of D) adverse_rate in
      quantize 8 (mul quote_price multiplier)

  unfoldable pub fee_of : Num → Num
  fee_of gross_value = quantize 8 (max_of D min_fee (div (mul gross_value fee_bps) bps_denominator))

  -- The end of `evaluate_paper_fill`.
  abbrev pub fill_of :
      PaperSimulationProfile → PaperFillOutcome → String → Num → Num → PaperFillDecision Num
  fill_of profile outcome side filled_quantity quote_price =
      let fill_price = fill_price_of side quote_price in
      record {
        profile = profile;
        outcome = outcome;
        quote_price = quote_price;
        filled_quantity = filled_quantity;
        fill_price = some fill_price;
        fee_amount = fee_of (mul fill_price filled_quantity);
        rejection_code = none;
      }

  abbrev pub fill_by_profile : PaperSimulationProfile → String → Num → Num → PaperFillDecision Num
  fill_by_profile no_liquidity side quantity quote_price =
      reject no_liquidity quote_price "paper_no_liquidity"
  fill_by_profile standard side quantity quote_price =
      fill_of standard PaperFillOutcome.filled side quantity quote_price
  fill_by_profile partial_fill side quantity quote_price =
      let half = quantize 8 (div quantity (literal 2 0)) in
      if is_positive D half
      then fill_of partial_fill PaperFillOutcome.partially_filled side half quote_price
      else reject partial_fill quote_price "paper_partial_fill_below_precision"

  unfoldable pub evaluate_paper_fill :
      String → Num → Num → PaperSimulationProfile → PaperFillDecision Num
  evaluate_paper_fill side quantity quote_price profile =
      let q = quantize_down 8 quantity in
      let p = quantize_down 8 quote_price in
      if not (fits quantity && fits quote_price)
      then reject profile (zero_of D) "paper_input_out_of_range"
      else if not (is_positive D q) || not (is_positive D p)
      then reject profile p "paper_input_below_precision"
      else fill_by_profile profile side q p
