-- ===== src/Reconcile/Tests.antt =====
-- apps/api/app/services/reconciliation_backoff.py and reconciliation_queue.py at inputs.
use t212_cashguard.Common.{◌≤◌, ◌+◌, min, ◌≡◌, ◌⊎◌, refl, true, false, some, none, arith}
use t212_cashguard.Common.FixedPoint.{ℤ, whole, fixed_floats, fixed_order}
use t212_cashguard.Lifecycle.{known, accepted, is_active_status}
use t212_cashguard.Store.{Order}
use t212_cashguard.Reconcile.Backoff.{
  RetryAfter, seconds, backoff_delay_seconds, usable_retry_after_seconds,
  level_after_unsettled_attempt, in_seconds, level_after_bounds,
}
use t212_cashguard.Reconcile.Queue.{awaiting_reconciliation, is_due, due_within}

-- Two minutes and a half wanted after the first attempt: the fourth level waits long enough.
raised_to_four : level_after_unsettled_attempt fixed_floats 0 (seconds (some (whole 150))) ≡ 4
unfolding level_after_unsettled_attempt backoff_delay_seconds
raised_to_four = refl

level_after_bounds_example :
    let after : RetryAfter ℤ = seconds (some (whole 150)) in
    let level = level_after_unsettled_attempt fixed_floats 0 after in
    (min (0 + 1) 6 ≤ level)
    × (level ≤ 6)
    × ((wanted : ℤ)
        → usable_retry_after_seconds fixed_floats after ≡ some wanted
        → fixed_floats.float_less (in_seconds fixed_floats (backoff_delay_seconds level)) wanted
          ≡ false)
level_after_bounds_example =
    level_after_bounds fixed_floats fixed_order 0 (seconds (some (whole 150)))

-- Asked about twice in vain, last at the time of 1,000 seconds.
abbrev waiting : Order ℤ
waiting = record {
  id = 1;
  ticker = "AAPL_US_EQ";
  side = "buy";
  order_type = "market";
  quantity = whole 3;
  status = known accepted;
  broker_order_id = some "4711";
  filled_quantity = none;
  execution_environment = some "demo";
  broker_account_scope = none;
  filled_at = none;
  cancelled_at = none;
  rejected_at = none;
  venue = "t212";
  is_dry_run = false;
  cash_used = none;
  retry_count = 2;
  last_reconciled_at = some 1_000_000_000;
  created_at = 0;
  updated_at = 0;
  signal_id = none;
  client_order_key = "key-1";
  limit_price = none;
  stop_price = none;
  time_validity = "DAY";
  avg_fill_price = none;
  expected_fill_price = some (whole 200);
  available_cash_at_submission = none;
  submitted_at = none;
  first_ack_at = none;
  error_message = none;
  version = 1;
}

waits_a_minute : is_due 1_059_000_000 waiting ≡ false
unfolding is_due backoff_delay_seconds
waits_a_minute = refl

then_due : is_due 1_060_000_000 waiting ≡ true
unfolding is_due backoff_delay_seconds
then_due = refl

is_awaited : awaiting_reconciliation waiting ≡ true
unfolding awaiting_reconciliation is_active_status
is_awaited = refl

due_within_example : (is_due 1_010_000_000 waiting ≡ true) ⊎ (is_due 1_970_000_000 waiting ≡ true)
due_within_example = due_within 1_010_000_000 1_970_000_000 waiting (omega arith)
