-- ===== src/Paper/Execute.antt =====
-- apps/api/app/execution/paper_engine.py: `execute`. The exceptions that `quantize` raises for a
-- number beyond the decimal context are modelled in `evaluate_paper_fill` alone, which catches them.
use t212_cashguard.Common.{
  ℕ, ◌+◌, Bool, true, false, not, ◌&&◌, ◌||◌, Option, none, some, String, str_eq, if◌then◌else◌,
}
use t212_cashguard.Common.Numeric.{Decimals, Floats, zero_of, is_positive}
use t212_cashguard.Lifecycle.{Known, known}
use t212_cashguard.Risk.{Db, ok, raised, risk_violation, settings_not_initialized, multiple_results}
use t212_cashguard.Risk as RiskEngine
use t212_cashguard.Risk.Run.{Request, run_all_checks}
use t212_cashguard.Paper.{
  PaperOrder, Session, paper_execution_error, paper_business_refusal, risk_engine_error, Result,
  done, failed, Method, ◌>>=◌, ◌>>◌, Around, return, raise, gets, audit, order_event, transition,
  write,
}
use t212_cashguard.Paper.Policy.{
  PaperSimulationProfile, PaperFillDecision, PaperFillOutcome, evaluate_paper_fill,
}
use t212_cashguard.Paper.Ledger.{
  lookup, sellable_paper_quantity, latest_paper_positions, current_open_paper_positions_count,
  cash_of, value_of, apply_fill_effects,
}

-- `PaperOrderCreate`
pub record PaperOrderCreate (N : Type 0) : Type 0 where
  pub ticker : String
  pub side : String
  pub quantity : Option N
  pub notional : Option N
  pub estimated_price : N
  pub order_type : String
  pub venue : String
  pub simulation_profile : PaperSimulationProfile

-- `PAPER_FILL_LATENCY_MS`, in microseconds.
abbrev pub fill_latency : ℕ
fill_latency = 25_000

-- `PAPER_SUPPORTED_VENUES`
abbrev pub is_supported_venue : String → Bool
is_supported_venue venue = str_eq venue "paper" || str_eq venue "mock"

-- What a call of the risk engine ends in: the event type of a `RiskViolation`, or none, or an
-- exception that is not caught.
abbrev pub violation_of : RiskEngine.Result (Unit {0}) → Result (Option String)
violation_of (ok _) = done none
violation_of (raised (risk_violation event_type)) = done (some event_type)
violation_of (raised settings_not_initialized) = failed risk_engine_error
violation_of (raised multiple_results) = failed risk_engine_error

module _ (D : Decimals) (F : Floats (Decimals.Num D)) (fits : Decimals.Num D → Bool)
    (upper : String → String) (around : Around) where
  open D use {Num, literal, add, sub, mul, div, quantize, quantize_down, less}

  -- `_check_sell_quantity_available`
  unfoldable pub refuse_quantity : Method Num (Unit {0})
  refuse_quantity = do
    audit around "paper_signal_rejected" (some "paper_oversell_block")
    audit around "paper_risk_check_result" (some "paper_oversell_block")
    raise (paper_business_refusal "paper_oversell_block")

  unfoldable pub check_sell_quantity_available : PaperOrderCreate Num → Num → Method Num (Unit {0})
  check_sell_quantity_available body quantity =
      if not (str_eq body.side "sell")
      then return tt
      else gets (λ s.
        sellable_paper_quantity D
          (lookup (upper body.ticker) (latest_paper_positions D upper s.book)))
        >>= λ available. if less available quantity then refuse_quantity else return tt

  -- What the risk engine is asked.
  unfoldable pub risk_request : PaperOrderCreate Num → Num → Num → Session Num → Request Num
  risk_request body quantity risk_price s = record {
    ticker = upper body.ticker;
    side = body.side;
    quantity = quantity;
    estimated_price = risk_price;
    available_cash = cash_of D s.book;
    account_value = value_of D s.book;
    realized_pnl_today = zero_of D;
    current_open_positions = current_open_paper_positions_count D upper s.book;
    signal_id = none;
    risk_profile = none;
    skip_auto_trading_check = true;
    stop_price = none;
    open_positions = none;
    is_cfd = false;
    is_exit = false;
    now = s.now;
  }

  -- The call of the risk engine, with the event type of the violation that it raises.
  unfoldable pub ask_risk : Request Num → Method Num (Option String)
  ask_risk request s =
      let (answer, db) = run_all_checks D F request s.risk in
      (violation_of answer, record s { risk = db })

  unfoldable pub heed_risk : Option String → Method Num (Unit {0})
  heed_risk none = audit around "paper_risk_check_result" (some "PAPER_RISK_PASSED")
  heed_risk (some event_type) = do
    audit around "paper_signal_rejected" (some event_type)
    audit around "paper_risk_check_result" (some event_type)
    raise (paper_business_refusal event_type)

  -- `_run_risk_check`
  unfoldable pub run_risk_check : PaperOrderCreate Num → Num → Num → Method Num (Unit {0})
  run_risk_check body quantity risk_price =
      gets (risk_request body quantity risk_price) >>= ask_risk >>= heed_risk

  abbrev gross_value_of : PaperFillDecision Num → Num
  gross_value_of decision = elim decision.fill_price [
    | some price ↦ mul price decision.filled_quantity
    | none ↦ zero_of D
  ]

  -- `decision.fill_price or decision.quote_price`
  abbrev price_or_quote : PaperFillDecision Num → Num
  price_or_quote decision = elim decision.fill_price [
    | some price ↦
        if less price (zero_of D) || less (zero_of D) price then price else decision.quote_price
    | none ↦ decision.quote_price
  ]

  unfoldable pub risk_price_of : PaperOrderCreate Num → PaperFillDecision Num → Num
  risk_price_of body decision =
      if str_eq body.side "buy" && is_positive D decision.filled_quantity
      then div (add (gross_value_of decision) decision.fee_amount) decision.filled_quantity
      else price_or_quote decision

  unfoldable pub new_paper_order :
      PaperOrderCreate Num → Option ℕ → Num → PaperFillDecision Num → Session Num → PaperOrder Num
  new_paper_order body signal_id quantity decision s = record {
    row = record {
      id = s.next_id;
      ticker = upper body.ticker;
      side = body.side;
      order_type = body.order_type;
      quantity = quantity;
      status = known Known.pending_intent;
      broker_order_id = none;
      filled_quantity = none;
      execution_environment = some "paper_mock";
      broker_account_scope = some around.account_scope;
      filled_at = none;
      cancelled_at = none;
      rejected_at = none;
      venue = body.venue;
      is_dry_run = true;
      cash_used =
          if str_eq body.side "buy"
          then some (quantize 8 (add (gross_value_of decision) decision.fee_amount))
          else none;
      retry_count = 0;
      last_reconciled_at = none;
      created_at = s.now;
      updated_at = s.now;
      signal_id = signal_id;
      client_order_key = around.client_order_key;
      limit_price = none;
      stop_price = none;
      time_validity = "DAY";
      avg_fill_price = none;
      expected_fill_price = some body.estimated_price;
      available_cash_at_submission = some (cash_of D s.book);
      submitted_at = none;
      first_ack_at = none;
      error_message = none;
      version = 1;
    };
    fee_amount = some decision.fee_amount;
    paper_connection_id = some around.connection_id;
  }

  -- `self.db.add(order)`, with a fresh identifier.
  unfoldable pub add_order : PaperOrder Num → Method Num (PaperOrder Num)
  add_order order s = (done order, record s { order = some order; next_id = s.next_id + 1 })

  -- The branch of a rejected decision.
  unfoldable pub reject_order :
      PaperOrder Num → PaperFillDecision Num → ℕ → Method Num (PaperOrder Num)
  reject_order order decision now =
      transition around order (known Known.rejected) "paper_execution_rejected"
        "paper execution policy rejected the order"
      >>= λ after.
          let written = record after {
            row = record (after.row) {
              filled_quantity = some (zero_of D);
              error_message = decision.rejection_code;
              rejected_at = some now;
              first_ack_at = some (now + fill_latency);
            };
          } in
          write written >> audit around "paper_execution_rejected" none >> return written

  -- The branch of a fill, whole or in part, with the status that it leads to.
  unfoldable pub fill_order :
      PaperOrder Num → PaperFillDecision Num → Known → ℕ → Method Num (PaperOrder Num)
  fill_order order decision status now =
      transition around order (known status) "paper_fill_simulated" "paper fill simulated locally"
      >>= λ after.
          let acknowledged = now + fill_latency in
          let written = record after {
            row = record (after.row) {
              filled_quantity = some decision.filled_quantity;
              avg_fill_price = decision.fill_price;
              first_ack_at = some acknowledged;
              filled_at = elim decision.outcome [
                | PaperFillOutcome.filled ↦ some acknowledged
                | PaperFillOutcome.partially_filled ↦ none
                | PaperFillOutcome.rejected ↦ none
              ];
            };
          } in
          write written
          >> audit around "paper_fill_simulated" none
          >> apply_fill_effects D upper around written.row decision
          >> return written

  abbrev pub conclude :
      PaperFillDecision Num → ℕ → PaperFillOutcome → PaperOrder Num → Method Num (PaperOrder Num)
  conclude decision now PaperFillOutcome.rejected order = reject_order order decision now
  conclude decision now PaperFillOutcome.filled order = fill_order order decision Known.filled now
  conclude decision now PaperFillOutcome.partially_filled order =
      fill_order order decision Known.partially_filled now

  -- From the making of the order to its end.
  unfoldable pub place_order :
      PaperOrderCreate Num
      → Option ℕ
      → Num
      → PaperFillDecision Num
      → ℕ
      → Method Num (PaperOrder Num)
  place_order body signal_id quantity decision now =
      gets (new_paper_order body signal_id quantity decision) >>= add_order >>= λ order.
      order_event "paper_order_created" none (some order.row.status)
      >> audit around "paper_order_created" none
      >> transition around order (known Known.submitted) "paper_order_submitted"
          "paper order accepted locally"
      >>= λ submitted.
          conclude decision now decision.outcome
            (record submitted { row = record (submitted.row) { submitted_at = some now } })

  -- The quantity that is asked for, before it is rounded down.
  abbrev pub quantity_of : PaperOrderCreate Num → Option Num → Option Num → Option Num
  quantity_of body (some quantity) notional = some quantity
  quantity_of body none (some notional) = some (div notional body.estimated_price)
  quantity_of body none none = none

  -- `PAPER_MAX_QUANTITY`
  abbrev max_quantity : Num
  max_quantity = literal 99_999_999_999_999_999_999 8

  unfoldable pub execute_quantity :
      PaperOrderCreate Num → Option ℕ → Num → Method Num (PaperOrder Num)
  execute_quantity body signal_id quantity =
      let decision =
        evaluate_paper_fill D fits body.side quantity body.estimated_price
          body.simulation_profile in
      if not (is_positive D quantity) || less max_quantity quantity
      then raise (paper_business_refusal "paper_quantity_range")
      else check_sell_quantity_available body quantity
        >> audit around "paper_signal_accepted" (some "PAPER_SIGNAL_ACCEPTED")
        >> run_risk_check body quantity (risk_price_of body decision)
        >> gets (λ s. s.now)
        >>= place_order body signal_id quantity decision

  abbrev pub execute_asked :
      PaperOrderCreate Num → Option ℕ → Option Num → Method Num (PaperOrder Num)
  execute_asked body signal_id none = raise (paper_execution_error 422)
  execute_asked body signal_id (some quantity) =
      execute_quantity body signal_id (quantize_down 8 quantity)

  -- `execute`, without the lock on the paper connection.
  unfoldable pub execute : PaperOrderCreate Num → Option ℕ → Method Num (PaperOrder Num)
  execute body signal_id =
      if not (str_eq around.app_mode "mock")
      then audit around "paper_signal_rejected" (some "PAPER_MODE_BLOCK")
        >> raise (paper_execution_error 403)
      else if not (is_supported_venue body.venue)
      then raise (paper_execution_error 422)
      else execute_asked body signal_id (quantity_of body body.quantity body.notional)
