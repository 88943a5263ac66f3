-- ===== src/Broker/Tests.antt =====
-- apps/api/app/execution/acknowledgement.py and broker_record.py: answers and records of the broker,
-- and the theorems at some of them.
use t212_cashguard.Common.{ℕ, ◌≡◌, refl, none, some, String, [], ◌∷◌}
use t212_cashguard.Common.FixedPoint.{ℤ, whole, fixed_point, fixed_order}
use t212_cashguard.Broker.{
  Json, array, item, nil, integer, real, text, object, Fields, end, field, Conversions, get,
  usable_order_id, finite_number,
}
use t212_cashguard.Broker.Acknowledgement.{
  Acknowledgement, trusted, untrusted, interpret_acknowledgement,
}
use t212_cashguard.Broker.Inversion.{RestsOn}
use t212_cashguard.Broker.Kept.{Keeps}
use t212_cashguard.Broker.Trust.{trusted-RestsOn}
use t212_cashguard.Broker.Record.{LocalOrder, Reported, RecordConversions, fine}
use t212_cashguard.Broker.Record.Reading.{read}
use t212_cashguard.Broker.Record.Verdict.{
  FinalRecord, Verdict, final_record, interpret_open_order_read,
}
use t212_cashguard.Broker.Record.History.{interpret_history}
use t212_cashguard.Broker.Record.Stated.{States}
use t212_cashguard.Broker.Record.Final.{RestsOn as RestsOnRecord, open_read-RestsOn}
use t212_cashguard.Broker.Record.Page.{Found, history-Found}
use t212_cashguard.Lifecycle.{known, filled}

-- Conversions that are enough to run an answer whose numbers are numbers.
abbrev conversions : Conversions ℤ
conversions = record {
  Int = ℕ;
  str_of_int = λ n. "order";
  num_of_int = whole;
  num_of_text = λ t. none;
  strip = λ t. t;
  upper = λ t. t;
  lower = λ t. t;
}

abbrev answer : Fields ℤ ℕ
answer = field "id" (integer 4711) (
    field "status" (text "FILLED")
      (field "filledQuantity" (integer 3) (field "filledPrice" (real (some (whole 200))) end)))

abbrev acknowledgement : Acknowledgement ℤ
acknowledgement = record {
  broker_order_id = "order";
  broker_status = "FILLED";
  order_status = known filled;
  transition_reason = "broker returned FILLED";
  filled_quantity = some (whole 3);
  fill_price = some (whole 200);
}

answer_trusted :
    interpret_acknowledgement fixed_point conversions (object answer) "buy" (whole 3)
    ≡ trusted acknowledgement
unfolding interpret_acknowledgement usable_order_id finite_number
answer_trusted = refl

-- The same answer for an order of four shares is not trusted.
answer_below :
    interpret_acknowledgement fixed_point conversions (object answer) "buy" (whole 4)
    ≡ untrusted "filled_quantity_below_order" (some "order")
unfolding interpret_acknowledgement usable_order_id finite_number
answer_below = refl

trusted-RestsOn_example :
    (id : String) × (usable_order_id conversions (get "id" answer) ≡ some id)
    × Keeps fixed_point conversions fixed_order acknowledgement id "FILLED"
    × RestsOn fixed_point conversions fixed_order answer (whole 3) acknowledgement
trusted-RestsOn_example =
    trusted-RestsOn fixed_point conversions fixed_order answer "buy" (whole 3) acknowledgement
      answer_trusted

abbrev record_conversions : RecordConversions ℤ ℕ
record_conversions = record {
  str_of = λ value. "";
  str_or_empty = λ value. "";
  as_amount = λ x. some (fixed_point.quantize 8 (fixed_point.absolute x));
  time_of = λ t. none;
}

abbrev sold : LocalOrder ℤ
sold = record {
  broker_order_id = "order";
  ticker = "AAPL_US_EQ";
  side = "sell";
  order_type = "market";
  quantity = whole 3;
}

-- One fill of the order, in the nested layout.
abbrev one_fill : ℕ → ℕ → Json ℤ ℕ
one_fill amount price = object (
    field "order"
      (object (
        field "id" (integer 4711)
          (field "status" (text "FILLED") (field "filledQuantity" (integer 3) end))))
      (field "fill" (object (field "quantity" (integer amount) (field "price" (integer price) end)))
        end))

abbrev page : Json ℤ ℕ
page = object (field "items" (array (item (one_fill 1 200) (item (one_fill 2 230) nil))) end)

-- One share at 200 and two at 230 are three at 220.
abbrev sale : FinalRecord ℤ
sale = record {
  broker_status = "FILLED";
  order_status = known filled;
  filled_quantity = whole 3;
  fill_price = some (whole 220);
  filled_at = none;
}

two_fills_add_up :
    interpret_history fixed_point conversions record_conversions page sold
    ≡ fine (some (sale, one_fill 1 200 ∷ one_fill 2 230 ∷ []))
unfolding interpret_history usable_order_id finite_number read
two_fills_add_up = refl

history-Found_example :
    Found fixed_point conversions record_conversions fixed_order sold sale
      (one_fill 1 200 ∷ one_fill 2 230 ∷ [])
history-Found_example =
    history-Found fixed_point conversions record_conversions fixed_order page sold sale
      (one_fill 1 200 ∷ one_fill 2 230 ∷ []) two_fills_add_up

abbrev flat : Json ℤ ℕ
flat = object answer

abbrev whole_fill : Verdict ℤ
whole_fill = final_record (record sale { fill_price = some (whole 200) })

flat_read :
    interpret_open_order_read fixed_point conversions record_conversions flat sold ≡ fine whole_fill
unfolding interpret_open_order_read usable_order_id finite_number
flat_read = refl

open_read-RestsOn_example :
    (part : Reported ℤ) × (read fixed_point conversions record_conversions flat sold ≡ fine part)
    × States fixed_point conversions record_conversions fixed_order flat sold part
    × RestsOnRecord fixed_point conversions record_conversions fixed_order
        (part ∷ [])
        sold
        whole_fill
open_read-RestsOn_example =
    open_read-RestsOn fixed_point conversions record_conversions fixed_order flat sold whole_fill
      flat_read
