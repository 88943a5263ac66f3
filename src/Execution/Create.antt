-- ===== src/Execution/Create.antt =====
-- apps/api/app/execution/engine.py: `create_order_intent` with `_admit_against_cash`.
use t212_cashguard.Common.{
  ℕ, Bool, not, ◌&&◌, Option, none, some, List, [], ◌∷◌, ◌++◌, str_eq, if◌then◌else◌,
}
use t212_cashguard.Common.Numeric.{Decimals}
use t212_cashguard.Store.{Order, RiskEvent}
use t212_cashguard.Lifecycle.{known, pending_intent}
use t212_cashguard.Cash.{reading_time_or_assumed, cash_promised_elsewhere}
use t212_cashguard.Risk.Limits.{first_nonzero}
use t212_cashguard.Execution.Intent.{
  Wanted, Meanwhile, Book, Intent, created, standing, cash_refused, account_block, account_of,
  environment_of, with_key, standing_order, cash_used,
}

module _ (D : Decimals) where
  open D use {Num, less, add}

  -- What an admission ends in: a standing order, leave to create one, or a refusal.
  pub data Admission : Type 0 where
    stands : Order Num × Bool → Admission
    admitted : Admission
    refuses : Admission

  abbrev pub cash_test : Wanted Num → ℕ → List (Order Num) → Num → Num → Admission
  cash_test w now orders available_cash cost =
      if less available_cash (
        add cost (
          cash_promised_elsewhere D (account_of w) (reading_time_or_assumed w.cash_read_at now)
            orders))
      then refuses
      else admitted

  abbrev pub stands_or : Option (Order Num × Bool) → Admission → Admission
  stands_or (some order) other = stands order
  stands_or none other = other

  abbrev pub admit_cost : Wanted Num → Meanwhile Num → ℕ → Num → Option Num → Admission
  admit_cost w meanwhile now available_cash none = refuses
  admit_cost w meanwhile now available_cash (some cost) =
      if meanwhile.turn_taken
      then stands_or (standing_order D w now meanwhile.at_turn)
          (cash_test w now meanwhile.at_turn available_cash cost)
      else refuses

  -- `_admit_against_cash`, less the risk event.
  unfoldable pub admit_against_cash : Wanted Num → Meanwhile Num → ℕ → Num → Admission
  unfolding standing_order cash_used cash_promised_elsewhere reading_time_or_assumed
  admit_against_cash w meanwhile now available_cash =
      admit_cost w meanwhile now available_cash (cash_used D w)

  abbrev pub admit_with : Wanted Num → Meanwhile Num → ℕ → Option Num → Admission
  admit_with w meanwhile now none = admitted
  admit_with w meanwhile now (some available_cash) =
      if str_eq w.side "buy" && not w.is_dry_run
      then admit_against_cash w meanwhile now available_cash
      else admitted

  -- The new row.
  unfoldable pub new_order : Wanted Num → ℕ → ℕ → Order Num
  unfolding cash_used
  new_order w id now = record {
    id = id;
    ticker = w.ticker;
    side = w.side;
    order_type = w.order_type;
    quantity = w.quantity;
    status = known pending_intent;
    broker_order_id = none;
    filled_quantity = none;
    execution_environment = some (environment_of w);
    broker_account_scope = w.account_scope;
    filled_at = none;
    cancelled_at = none;
    rejected_at = none;
    venue = w.venue;
    is_dry_run = w.is_dry_run;
    cash_used = cash_used D w;
    retry_count = 0;
    last_reconciled_at = none;
    created_at = now;
    updated_at = now;
    signal_id = w.signal_id;
    client_order_key = w.client_key;
    limit_price = w.limit_price;
    stop_price = w.stop_price;
    time_validity = w.time_validity;
    avg_fill_price = none;
    expected_fill_price =
        first_nonzero D w.estimated_price (first_nonzero D w.limit_price w.stop_price);
    available_cash_at_submission = w.available_cash;
    submitted_at = none;
    first_ack_at = none;
    error_message = none;
    version = 1;
  }

  -- The insertion, which the unique key refuses where an order has the key already.
  abbrev pub insert_or_existing :
      Wanted Num → ℕ → ℕ → Book Num → List (Order Num) → Option (Order Num) → Intent Num × Book Num
  insert_or_existing w id now book rows (some order) =
      (standing order, record book { orders = rows })
  insert_or_existing w id now book rows none = (
    created (new_order w id now),
    record book {
      orders = new_order w id now ∷ rows;
      events = book.events ++ ("intent_created", id) ∷ [];
    },
  )

  abbrev pub note_duplicate : Book Num → Order Num → Bool → Book Num
  note_duplicate book order is_look_alike =
      if is_look_alike
      then record book { events = book.events ++ ("duplicate_blocked", order.id) ∷ [] }
      else book

  abbrev pub finish_intent :
      Wanted Num → Meanwhile Num → ℕ → ℕ → Book Num → Admission → Intent Num × Book Num
  finish_intent w meanwhile id now book (stands (order, is_look_alike)) =
      (standing order, note_duplicate book order is_look_alike)
  finish_intent w meanwhile id now book refuses =
      let event : RiskEvent = record {
        event_type = "cash_reservation_block";
        ticker = some w.ticker;
        signal_id = w.signal_id;
      } in
      (cash_refused, record book { risk_events = book.risk_events ++ event ∷ [] })
  finish_intent w meanwhile id now book admitted =
      insert_or_existing w id now book meanwhile.at_insert
        (with_key w.client_key meanwhile.at_insert)

  -- `create_order_intent`; `id` is the fresh identifier.
  unfoldable pub create_order_intent :
      Wanted Num → Meanwhile Num → ℕ → ℕ → Book Num → Intent Num × Book Num
  unfolding standing_order admit_against_cash new_order with_key
  create_order_intent w meanwhile id now book =
      if str_eq w.app_mode "live" && not w.is_dry_run && not meanwhile.account_bound
      then (account_block, book)
      else finish_intent w meanwhile id now book (
          stands_or (standing_order D w now book.orders)
            (admit_with w meanwhile now w.available_cash))
