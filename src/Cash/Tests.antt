-- ===== src/Cash/Tests.antt =====
-- apps/api/app/execution/cash_reservation.py at inputs.
use t212_cashguard.Common.{◌≡◌, refl, true, false, some, none, [], ◌∷◌, arith}
use t212_cashguard.Common.FixedPoint.{ℤ, whole, fixed_point}
use t212_cashguard.Lifecycle.{known, accepted, filled, is_active_status}
use t212_cashguard.Store.{Order}
use t212_cashguard.Cash.{
  Account, ReadingTime, counts_against, same_account, same_environment, not_shown_in_a_reading_from,
  cash_promised_elsewhere, ended_still_counts,
}

abbrev account : Account
account = record { environment = some "demo"; venue = "t212"; account_scope = some "A1" }

-- An open order for 600, of no recorded account.
abbrev promised : Order ℤ
promised = record {
  id = 1;
  ticker = "AAPL_US_EQ";
  side = "buy";
  order_type = "market";
  quantity = whole 3;
  status = known accepted;
  broker_order_id = some "4711";
  filled_quantity = none;
  execution_environment = some "demo";
  broker_account_scope = none;
  filled_at = none;
  cancelled_at = none;
  rejected_at = none;
  venue = "t212";
  is_dry_run = false;
  cash_used = some (whole 600);
  retry_count = 0;
  last_reconciled_at = none;
  created_at = 0;
  updated_at = 0;
  signal_id = none;
  client_order_key = "key-1";
  limit_price = none;
  stop_price = none;
  time_validity = "DAY";
  avg_fill_price = none;
  expected_fill_price = some (whole 200);
  available_cash_at_submission = none;
  submitted_at = none;
  first_ack_at = none;
  error_message = none;
  version = 1;
}

promised_counts : counts_against account 2_000_000_000 promised ≡ true
unfolding counts_against same_account same_environment not_shown_in_a_reading_from is_active_status
promised_counts = refl

two_promised :
    cash_promised_elsewhere fixed_point account 2_000_000_000
      (promised ∷ record promised { side = "sell" } ∷ promised ∷ [])
    ≡ whole 1_200
unfolding cash_promised_elsewhere same_account same_environment not_shown_in_a_reading_from
    is_active_status
two_promised = refl

abbrev reading : ReadingTime
reading = record { has_zone = true; time = 2_050_000_000 }

ended_still_counts_example :
    counts_against account 2_100_000_000 (record promised {
      status = known filled;
      updated_at = 2_050_000_000;
      filled_at = some 2_040_000_000;
      cancelled_at = none;
      rejected_at = none;
    })
    ≡ true
ended_still_counts_example =
    ended_still_counts account 2_100_000_000 2_000_000_000 2_050_000_000 promised (known filled)
      (some 2_040_000_000) none none promised_counts (omega arith)
