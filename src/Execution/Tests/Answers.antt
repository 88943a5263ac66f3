-- ===== src/Execution/Tests/Answers.antt =====
-- apps/api/app/execution/engine.py: an answer that repeats the request of a sale.
use t212_cashguard.Common.{
  arith, ℕ, suc, ◌*◌, ◌/◌, ◌-◌, ◌≡◌, inl, refl, ap, Option, some, leb, if◌then◌else◌,
}
use t212_cashguard.Common.FixedPoint.{ℤ, pos, negsuc, whole, fixed_point, fixed_order}
use t212_cashguard.Store.{Order}
use t212_cashguard.Broker.{Fields, real, text, field, end, usable_order_id, finite_number}
use t212_cashguard.Broker.Record.{LocalOrder, fine, refuse}
use t212_cashguard.Broker.Record.Reading.{order_type_of, require_same_order}
use t212_cashguard.Execution.Submit.{Request, signed_quantity, build_broker_request}
use t212_cashguard.Execution.Posted.{posted}
use t212_cashguard.Execution.Answer.{as_local_order}
use t212_cashguard.Execution.Repeated.{
  ReadsPlainly, SurvivesFloat, repeated, require_same_order-repeated,
}
use t212_cashguard.Execution.Tests.{intent, buy_three}
use t212_cashguard.Execution.Tests.Histories.{conversions, record_conversions}

abbrev sale : Order ℤ
sale = record intent { side = "sell" }

abbrev sell_three : Request ℤ
sell_three = record buy_three { quantity = fixed_point.negate (whole 3) }

abbrev sale_facts : LocalOrder ℤ
sale_facts = record {
  broker_order_id = "4711";
  ticker = "AAPL_US_EQ";
  side = "sell";
  order_type = "market";
  quantity = whole 3;
}

size_back :
    (x : ℤ)
    → fixed_point.absolute (fixed_point.negate (fixed_point.absolute x)) ≡ fixed_point.absolute x
size_back (pos n) = ground arith
size_back (negsuc n) = ground arith

reads_plainly : ReadsPlainly fixed_point conversions record_conversions fixed_order
reads_plainly = record {
  str_of_text = λ t. refl;
  str_or_empty_of_text = λ t. refl;
  unsigned = λ x. ap some (size_back x);
}

sale_built : build_broker_request fixed_point sale ≡ some sell_three
unfolding build_broker_request
sale_built = refl

sale_read : as_local_order fixed_point conversions record_conversions sale "4711" ≡ some sale_facts
unfolding as_local_order
sale_read = refl

-- Like a float, this keeps 53 binary digits of a number, for whole numbers up to twice as large.
abbrev as_float : ℤ → Option ℤ
as_float (pos n) = some (pos (kept n))
  where
    kept : ℕ → ℕ
    kept n = if leb n 9_007_199_254_740_992 then n else n / 2 * 2
as_float (negsuc n) = some (negsuc (kept n))
  where
    kept : ℕ → ℕ
    kept n = if leb n 9_007_199_254_740_991 then n else suc n / 2 * 2 - 1

abbrev sale_body : Fields ℤ ℕ
sale_body =
    field "ticker" (text "AAPL_US_EQ")
      (field "quantity" (real (some (fixed_point.negate (whole 3)))) end)

sale_sent : posted as_float sell_three ≡ some sale_body
unfolding posted
sale_sent = refl

sale_float : SurvivesFloat fixed_point conversions record_conversions fixed_order as_float sale
unfolding signed_quantity
sale_float = record {
  read_back = fixed_point.negate (whole 3);
  is_number = refl;
  same_amount = refl;
  same_sign = refl;
}

-- A quantity that a float does not hold is not taken for the order's.
large_sale_differs :
    require_same_order fixed_point conversions record_conversions
      (repeated fixed_point conversions record_conversions fixed_order
        (field "ticker"
          (text "AAPL_US_EQ")
          (field "quantity" (real (as_float (negsuc 12_345_678_901_234_566))) end))
        "4711"
        "MARKET")
      (record sale_facts { quantity = pos 12_345_678_901_234_567 })
    ≡ refuse "quantity_differs"
unfolding require_same_order usable_order_id finite_number order_type_of
large_sale_differs = refl

require_same_order-repeated_example :
    require_same_order fixed_point conversions record_conversions
      (repeated fixed_point conversions record_conversions fixed_order sale_body "4711" "MARKET")
      sale_facts
    ≡ fine tt
unfolding order_type_of usable_order_id
require_same_order-repeated_example =
    require_same_order-repeated fixed_point conversions record_conversions fixed_order as_float sale
      sell_three sale_body sale_facts "4711" "MARKET" reads_plainly
      (record { ticker_is_stripped = refl; id_is_usable = refl; word_names_type = refl }) (inl refl)
      sale_float sale_built sale_sent sale_read
