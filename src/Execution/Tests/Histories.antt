-- ===== src/Execution/Tests/Histories.antt =====
-- apps/api/app/execution/engine.py: `reconcile_unknown_submission` on orders and a page of the
-- history.
use mathlib.Core.List.{mem-cons_self}
use t212_cashguard.Common.{
  ℕ, ◌≡◌, ◌≢◌, refl, true, Option, none, some, String, [], ◌∷◌, str_eq, if◌then◌else◌,
}
use t212_cashguard.Common.FixedPoint.{ℤ, whole, fixed_point}
use t212_cashguard.Lifecycle.{
  known, submission_unknown, filled, is_active_status, can_transition_order_status,
}
use t212_cashguard.Lifecycle.Evidence.{status_eq, transition_order_status_with_evidence}
use t212_cashguard.Broker.{
  Json, null, boolean, integer, real, text, array, object, nil, item, end, field, Conversions,
  usable_order_id, finite_number,
}
use t212_cashguard.Broker.Record.{RecordConversions, at}
use t212_cashguard.Broker.Snapshot.{AnyDecimal, finite, nan, Parser, BrokerOrderSnapshot}
use t212_cashguard.Execution.{Session, failed, decimal_error}
use t212_cashguard.Execution.Asking.{Reads, no_such_order, page, page_failed}
use t212_cashguard.Execution.Claim.{claimed_record}
use t212_cashguard.Execution.Unknown.{Seen, claim_of, reconcile_unknown_submission}
use t212_cashguard.Execution.Claimed.{row_of, claim_of-Distinct}
use t212_cashguard.Execution.Tests.{intent, start, first_attempt}

-- The texts that the page has.
abbrev number_of : String → Option ℤ
number_of t =
    if str_eq t "3" then some (whole 3) else if str_eq t "200" then some (whole 200) else none

abbrev pub conversions : Conversions ℤ
conversions = record {
  Int = ℕ;
  str_of_int = λ n. "order";
  num_of_int = whole;
  num_of_text = number_of;
  strip = λ t. t;
  upper = λ t. t;
  lower = λ t. t;
}

abbrev written : Json ℤ ℕ → String
written (text t) = t
written null = ""
written (boolean _) = ""
written (integer _) = ""
written (real _) = ""
written (array _) = ""
written (object _) = ""

abbrev pub record_conversions : RecordConversions ℤ ℕ
record_conversions = record {
  str_of = written;
  str_or_empty = written;
  as_amount = λ x. some (fixed_point.absolute x);
  time_of = λ t. if str_eq t "then" then some 10 else none;
}

abbrev wrapped : Option ℤ → Option (AnyDecimal ℤ)
wrapped none = none
wrapped (some x) = some (finite x)

abbrev parse : Parser ℤ
parse t = if str_eq t "NaN" then some nan else wrapped (number_of t)

-- A filled order of three shares.
abbrev entry_with : String → String → String → Json ℤ ℕ
entry_with amount id ticker = object (
    field "order"
      (object (
        field "id" (text id) (
          field "ticker" (text ticker) (
            field "side" (text "buy") (
              field "status" (text "FILLED") (
                field "quantity" (text "3")
                  (field "filledQuantity" (text amount) (field "createdAt" (text "then") end))))))))
      (field "fill" (object (field "quantity" (text "3") (field "price" (text "200") end))) end))

abbrev filled_entry : String → String → Json ℤ ℕ
filled_entry = entry_with "3"

abbrev entry_snapshot : String → String → BrokerOrderSnapshot ℤ ℕ
entry_snapshot id ticker = record {
  broker = "trading212";
  environment = "demo";
  broker_order_id = id;
  ticker = some ticker;
  status = some "FILLED";
  side = some "buy";
  order_type = none;
  quantity = some (finite (whole 3));
  filled_quantity = some (finite (whole 3));
  average_fill_price = some (finite (whole 200));
  currency = none;
  created_at = some 10;
  filled_at = none;
  raw = filled_entry id ticker;
}

abbrev unresolved_order : ℕ → String → Session ℤ
unresolved_order id ticker = record start {
  order = record intent { id = id; ticker = ticker; status = known submission_unknown };
  attempts = first_attempt ∷ [];
  now = 200_000_000;
}

abbrev apple : Session ℤ
apple = unresolved_order 1 "AAPL_US_EQ"

abbrev microsoft : Session ℤ
microsoft = unresolved_order 2 "MSFT_US_EQ"

abbrev no_reads : Reads ℤ ℕ
no_reads = record {
  of_order = no_such_order;
  newest = page_failed "broker_read_failed";
  of_ticker = page_failed "broker_read_failed";
}

abbrev sees : Session ℤ → Json ℤ ℕ → Seen ℤ ℕ
sees other entry = record {
  environment = "demo";
  already_raised = true;
  history = page (object (field "items" (array (item entry nil)) end));
  rows = row_of fixed_point conversions record_conversions parse other ∷ [];
  reads = no_reads;
  database = none;
}

abbrev seen_by_apple : Seen ℤ ℕ
seen_by_apple = sees microsoft (filled_entry "4711" "AAPL_US_EQ")

abbrev seen_by_microsoft : Seen ℤ ℕ
seen_by_microsoft = sees apple (filled_entry "4712" "MSFT_US_EQ")

apple_claims :
    claim_of fixed_point conversions record_conversions parse seen_by_apple apple
    ≡ some (entry_snapshot "4711" "AAPL_US_EQ")
unfolding claimed_record at status_eq
apple_claims = refl

microsoft_claims :
    claim_of fixed_point conversions record_conversions parse seen_by_microsoft microsoft
    ≡ some (entry_snapshot "4712" "MSFT_US_EQ")
unfolding claimed_record at status_eq
microsoft_claims = refl

apple_filled :
    (reconcile_unknown_submission fixed_point conversions record_conversions parse seen_by_apple
      apple).1.order.status
    ≡ known filled
unfolding reconcile_unknown_submission transition_order_status_with_evidence status_eq
    is_active_status can_transition_order_status usable_order_id finite_number at
apple_filled = refl

-- A filled amount that is no number raises, instead of leaving the order unresolved.
nan_raises :
    (reconcile_unknown_submission fixed_point conversions record_conversions parse
      (sees microsoft (entry_with "NaN" "4711" "AAPL_US_EQ"))
      apple).0
    ≡ failed decimal_error
unfolding reconcile_unknown_submission transition_order_status_with_evidence status_eq
    is_active_status can_transition_order_status usable_order_id finite_number at
nan_raises = refl

claim_of-Distinct_example : entry_snapshot "4711" "AAPL_US_EQ" ≢ entry_snapshot "4712" "MSFT_US_EQ"
unfolding status_eq
claim_of-Distinct_example =
    claim_of-Distinct fixed_point conversions record_conversions parse seen_by_apple
      seen_by_microsoft apple microsoft (entry_snapshot "4711" "AAPL_US_EQ")
      (entry_snapshot "4712" "MSFT_US_EQ") mem-cons_self refl refl refl (λ e. e) apple_claims
      microsoft_claims
