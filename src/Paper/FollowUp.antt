-- ===== src/Paper/FollowUp.antt =====
-- apps/api/app/execution/paper_engine.py: `fill_partial_order`, one more fill of an order that is
-- filled in part. The order is its row as the database has it, locked.
use t212_cashguard.Common.{
  ℕ, Bool, false, not, ◌&&◌, ◌||◌, Option, none, some, String, str_eq, ◌==◌, if◌then◌else◌,
}
use t212_cashguard.Common.Numeric.{Decimals, zero_of, is_positive, max_of}
use t212_cashguard.Store.{Order, AppSettings}
use t212_cashguard.Lifecycle.{Known, known}
use t212_cashguard.Lifecycle.Evidence.{status_eq}
use t212_cashguard.Paper.{
  PaperOrder, paper_execution_error, Method, ◌>>=◌, ◌>>◌, Around, return, raise, gets, audit,
  order_event, transition, write,
}
use t212_cashguard.Paper.Policy.{
  PaperSimulationProfile, PaperFillDecision, PaperFillOutcome, evaluate_paper_fill,
}
use t212_cashguard.Paper.Ledger.{cash_of, value_or_zero, apply_fill_effects}

module _ (D : Decimals) (fits : Decimals.Num D → Bool) (upper : String → String)
    (around : Around) where
  open D use {Num, add, sub, mul, div, quantize, quantize_down, less}

  -- `Order.remaining_quantity`
  unfoldable pub remaining_quantity : Order Num → Num
  remaining_quantity row =
      max_of D (zero_of D) (sub row.quantity (value_or_zero D row.filled_quantity))

  abbrev pub is_some_id : ℕ → Option ℕ → Bool
  is_some_id id none = false
  is_some_id id (some other) = other == id

  -- Whether the order may receive a fill.
  unfoldable pub is_active_partial : Order Num → Bool
  is_active_partial row =
      row.is_dry_run
      && (elim row.execution_environment [
        | some environment ↦ str_eq environment "paper_mock"
        | none ↦ false
      ])
      && status_eq row.status (known Known.partially_filled)

  abbrev pub differs : Num → Num → Bool
  differs a b = less a b || less b a

  -- What the decision on the fill must be.
  abbrev pub filled_at_price : PaperFillDecision Num → Num → Option Num
  filled_at_price decision quantity = elim decision.outcome [
    | PaperFillOutcome.filled ↦
        if differs decision.filled_quantity quantity then none else decision.fill_price
    | PaperFillOutcome.partially_filled ↦ none
    | PaperFillOutcome.rejected ↦ none
  ]

  -- `(fill_price * filled_quantity + fee_amount).quantize(...)`
  unfoldable pub required_cash : PaperFillDecision Num → Num → Num
  required_cash decision price =
      quantize 8 (add (mul price decision.filled_quantity) decision.fee_amount)

  abbrev pub cumulative_filled : Order Num → PaperFillDecision Num → Num
  cumulative_filled row decision =
      add (value_or_zero D row.filled_quantity) decision.filled_quantity

  abbrev pub remaining_after : Order Num → PaperFillDecision Num → Num
  remaining_after row decision = sub row.quantity (cumulative_filled row decision)

  -- `locked.avg_fill_price or decision.fill_price`
  abbrev previous_avg : Order Num → Num → Num
  previous_avg row price = elim row.avg_fill_price [
    | some avg ↦ if differs avg (zero_of D) then avg else price
    | none ↦ price
  ]

  unfoldable pub cumulative_avg : Order Num → PaperFillDecision Num → Num → Num
  cumulative_avg row decision price =
      div
        (add (mul (previous_avg row price) (value_or_zero D row.filled_quantity))
          (mul price decision.filled_quantity))
        (cumulative_filled row decision)

  -- The attributes that are assigned after the fill, beside the status and `filled_at`.
  unfoldable pub with_fill : PaperOrder Num → PaperFillDecision Num → Num → ℕ → PaperOrder Num
  with_fill order decision price now =
      let row = order.row in
      let fee = add (value_or_zero D order.fee_amount) decision.fee_amount in
      record order {
        row = record row {
          filled_quantity = some (cumulative_filled row decision);
          avg_fill_price = some (quantize 8 (cumulative_avg row decision price));
          cash_used =
              if str_eq row.side "buy"
              then some (add (value_or_zero D row.cash_used) (required_cash decision price))
              else row.cash_used;
          last_reconciled_at = some now;
        };
        fee_amount = some (quantize 8 fee);
      }

  -- The change of status, or the event of one more partial fill.
  unfoldable pub advance : PaperOrder Num → PaperFillDecision Num → ℕ → Method Num (PaperOrder Num)
  advance order decision now =
      if differs (remaining_after order.row decision) (zero_of D)
      then order_event "paper_follow_up_fill" (some (known Known.partially_filled))
          (some (known Known.partially_filled))
        >> return order
      else transition around order (known Known.filled) "paper_follow_up_fill"
          "paper remainder filled locally"
        >>= λ after. return (record after { row = record (after.row) { filled_at = some now } })

  unfoldable pub enter_fill :
      PaperOrder Num → PaperFillDecision Num → Num → ℕ → Method Num (PaperOrder Num)
  enter_fill order decision price now =
      apply_fill_effects D upper around order.row decision
      >> advance order decision now
      >>= λ after.
          let written = with_fill after decision price now in
          write written >> audit around "paper_follow_up_fill" none >> return written

  unfoldable pub block_fill : String → Method Num (PaperOrder Num)
  block_fill code =
      audit around "paper_follow_up_fill_blocked" (some code) >> raise (paper_execution_error 422)

  -- `halted`, as the database has it now.
  abbrev pub heed_switch :
      PaperOrder Num
      → PaperFillDecision Num
      → Num
      → Option AppSettings
      → Method Num (PaperOrder Num)
  heed_switch order decision price none = block_fill "safety_settings_missing"
  heed_switch order decision price (some settings) =
      if settings.kill_switch_active
      then block_fill "kill_switch_active"
      else gets (λ s. s.now) >>= enter_fill order decision price

  unfoldable pub pay_for :
      PaperOrder Num → PaperFillDecision Num → Num → Num → Method Num (PaperOrder Num)
  pay_for order decision price available_cash =
      if str_eq order.row.side "buy" && less available_cash (required_cash decision price)
      then block_fill "paper_cash_guard"
      else if less (remaining_after order.row decision) (zero_of D)
      then raise (paper_execution_error 422)
      else gets (λ s. s.risk.saved_settings) >>= heed_switch order decision price

  abbrev pub fill_at_price :
      PaperOrder Num → PaperFillDecision Num → Option Num → Method Num (PaperOrder Num)
  fill_at_price order decision none = raise (paper_execution_error 422)
  fill_at_price order decision (some price) =
      gets (λ s. cash_of D s.book) >>= pay_for order decision price

  unfoldable pub fill_quantity : PaperOrder Num → Num → Num → Method Num (PaperOrder Num)
  fill_quantity order quantity estimated_price =
      let decision =
        evaluate_paper_fill D fits order.row.side quantity estimated_price
          PaperSimulationProfile.standard in
      if not (is_positive D quantity) || less (remaining_quantity order.row) quantity
      then raise (paper_execution_error 422)
      else fill_at_price order decision (filled_at_price decision quantity)

  -- `fill_partial_order`, without the lock on the paper connection.
  unfoldable pub fill_partial_order : PaperOrder Num → Num → Num → Method Num (PaperOrder Num)
  fill_partial_order order quantity estimated_price =
      if not (str_eq around.app_mode "mock")
      then raise (paper_execution_error 403)
      else if not (is_active_partial order.row)
      then raise (paper_execution_error 422)
      else if not (is_some_id around.connection_id order.paper_connection_id)
      then raise (paper_execution_error 422)
      else fill_quantity order (quantize_down 8 quantity) estimated_price
