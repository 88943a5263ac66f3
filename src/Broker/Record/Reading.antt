-- ===== src/Broker/Record/Reading.antt =====
-- apps/api/app/execution/broker_record.py: the checks that a record is about this order, and what
-- it then reports.
use t212_cashguard.Common.{
  ℕ, Bool, true, false, not, ◌&&◌, Option, none, some, String, List, [], ◌∷◌, str_eq, count, ◌==◌,
  if◌then◌else◌,
}
use t212_cashguard.Common.Numeric.{Decimals, zero_of}
use t212_cashguard.Broker.{
  Json, null, boolean, integer, real, text, array, object, Conversions, usable_order_id,
  finite_number,
}
use t212_cashguard.Broker.Record.{
  Checked, fine, ◌>>=◌, ◌>>◌, refuse, refuse_when, LocalOrder, Reported, RecordConversions, is_none,
  Place, at, first, stated,
}

-- The tables of places where a record may state a fact.
abbrev pub id_paths : List Place
id_paths = ("order" ∷ "id" ∷ []) ∷ ("id" ∷ []) ∷ ("orderId" ∷ []) ∷ []

abbrev pub status_paths : List Place
status_paths = ("order" ∷ "status" ∷ []) ∷ ("status" ∷ []) ∷ []

abbrev pub ticker_paths : List Place
ticker_paths =
    ("order" ∷ "ticker" ∷ []) ∷ ("ticker" ∷ []) ∷ ("order" ∷ "instrument" ∷ "ticker" ∷ []) ∷ []

abbrev pub side_paths : List Place
side_paths = ("order" ∷ "side" ∷ []) ∷ ("side" ∷ []) ∷ []

abbrev pub type_paths : List Place
type_paths = ("order" ∷ "type" ∷ []) ∷ ("type" ∷ []) ∷ []

abbrev pub quantity_paths : List Place
quantity_paths = ("order" ∷ "quantity" ∷ []) ∷ ("quantity" ∷ []) ∷ ("orderedQuantity" ∷ []) ∷ []

abbrev pub filled_paths : List Place
filled_paths = ("order" ∷ "filledQuantity" ∷ []) ∷ ("filledQuantity" ∷ []) ∷ []

abbrev pub one_fill_paths : List Place
one_fill_paths = ("fill" ∷ "quantity" ∷ []) ∷ []

abbrev pub price_paths : List Place
price_paths = ("fill" ∷ "price" ∷ []) ∷ ("filledPrice" ∷ []) ∷ ("fillPrice" ∷ []) ∷ []

abbrev pub filled_at_paths : List Place
filled_at_paths = ("fill" ∷ "filledAt" ∷ []) ∷ ("dateExecuted" ∷ []) ∷ []

-- `_ORDER_TYPES.get(word)`
unfoldable pub order_type_of : String → Option String
order_type_of word =
    if str_eq word "MARKET"
    then some "market"
    else if str_eq word "LIMIT"
    then some "limit"
    else if str_eq word "STOP"
    then some "stop"
    else if str_eq word "STOP_LIMIT"
    then some "stop_limit"
    else none

-- The three reasons of `_amount` for each `what`.
pub record AmountReasons : Type 0 where
  pub not_a_number : String
  pub sign_contradicts_side : String
  pub too_large : String

abbrev pub quantity_reasons : AmountReasons
quantity_reasons = record {
  not_a_number = "quantity_not_a_number";
  sign_contradicts_side = "quantity_sign_contradicts_side";
  too_large = "quantity_too_large";
}

abbrev pub filled_reasons : AmountReasons
filled_reasons = record {
  not_a_number = "filled_quantity_not_a_number";
  sign_contradicts_side = "filled_quantity_sign_contradicts_side";
  too_large = "filled_quantity_too_large";
}

-- `raw is not None and` a test of it.
abbrev pub said_and : {Num Int : Type 0} → Json Num Int → Bool → Bool
said_and raw test = not (is_none raw) && test

abbrev pub differs_from : String → Option String → Bool
differs_from s none = true
differs_from s (some t) = not (str_eq t s)

-- A word that is known, and not this one.
abbrev pub known_and_other : String → Option String → Bool
known_and_other s none = false
known_and_other s (some t) = not (str_eq t s)

module _ (D : Decimals) (C : Conversions (Decimals.Num D))
    (R : RecordConversions (Decimals.Num D) (Conversions.Int C)) where
  open D use {Num, less, literal}
  open C use {Int, strip, upper, lower}
  open R use {str_of, str_or_empty, as_amount, time_of}

  abbrev pub or_refuse : {A : Type 0} → Option A → String → Checked Num A
  or_refuse none reason = refuse reason
  or_refuse (some a) reason = fine a

  -- `_amount`
  unfoldable pub amount : Json Num Int → String → AmountReasons → Checked Num (Option Num)
  amount raw side what = if is_none raw then fine none else do
    signed ← or_refuse (finite_number C raw) what.not_a_number
    refuse_when (less signed (zero_of D) && not (str_eq side "sell")) what.sign_contradicts_side
    value ← or_refuse (as_amount signed) what.too_large
    fine (some value)

  abbrev other_quantity : Option Num → Num → Bool
  other_quantity none quantity = false
  other_quantity (some ordered) quantity =
      not (not (less ordered quantity) && not (less quantity ordered))

  -- `require_same_order`, of a mapping.
  unfoldable pub same_order_fields : Json Num Int → LocalOrder Num → Checked Num (Unit {0})
  unfolding first amount order_type_of stated
  same_order_fields payload order = do
    let raw_id = first payload id_paths
    refuse_when (said_and raw_id (differs_from order.broker_order_id (usable_order_id C raw_id)))
        "order_id_differs"
    ticker ← stated D C R payload ticker_paths false
    refuse_when
        (said_and ticker (not (str_eq (upper (strip (str_of ticker))) (upper order.ticker))))
        "ticker_differs"
    side ← stated D C R payload side_paths false
    refuse_when (said_and side (not (str_eq (lower (strip (str_of side))) order.side)))
        "side_differs"
    raw_type ← stated D C R payload type_paths false
    refuse_when
        (known_and_other order.order_type (order_type_of (upper (strip (str_or_empty raw_type)))))
        "order_type_differs"
    raw_quantity ← stated D C R payload quantity_paths true
    ordered ← amount raw_quantity order.side quantity_reasons
    refuse_when (other_quantity ordered order.quantity) "quantity_differs"

  abbrev pub is_mapping : Json Num Int → Bool
  is_mapping (object _) = true
  is_mapping null = false
  is_mapping (boolean _) = false
  is_mapping (integer _) = false
  is_mapping (real _) = false
  is_mapping (text _) = false
  is_mapping (array _) = false

  unfoldable pub require_same_order : Json Num Int → LocalOrder Num → Checked Num (Unit {0})
  unfolding same_order_fields
  require_same_order payload order = do
    refuse_when (not (is_mapping payload)) "not_an_object"
    same_order_fields payload order

  -- The price of `_read`.
  unfoldable pub read_price : Json Num Int → Checked Num (Option Num)
  read_price raw_price = if is_none raw_price then fine none else do
    price ← or_refuse (finite_number C raw_price) "fill_price_not_a_number"
    refuse_when (less price (zero_of D)) "fill_price_not_positive"
    refuse_when (not (less price (literal 1_000_000_000_000 0))) "fill_price_too_large"
    fine (some price)

  abbrev pub is_missing : Option Num → Bool
  is_missing none = true
  is_missing (some _) = false

  -- `status.strip().upper() if isinstance(status, str) else ""`
  abbrev pub status_word : Json Num Int → String
  status_word (text t) = upper (strip t)
  status_word null = ""
  status_word (boolean _) = ""
  status_word (integer _) = ""
  status_word (real _) = ""
  status_word (array _) = ""
  status_word (object _) = ""

  -- `_when`
  abbrev pub when : Json Num Int → Option ℕ
  when (text t) = if count (strip t) == 0 then none else time_of (strip t)
  when null = none
  when (boolean _) = none
  when (integer _) = none
  when (real _) = none
  when (array _) = none
  when (object _) = none

  -- `_read`
  unfoldable pub read : Json Num Int → LocalOrder Num → Checked Num (Reported Num)
  unfolding require_same_order read_price amount first at stated
  read payload order = do
    require_same_order payload order
    raw_price ← stated D C R payload price_paths true
    price ← read_price raw_price
    one_fill ← amount (first payload one_fill_paths) order.side filled_reasons
    refuse_when (is_missing one_fill && not (is_none (at payload ("fill" ∷ "price" ∷ []))))
        "fill_without_its_quantity"
    status ← stated D C R payload status_paths false
    raw_filled ← stated D C R payload filled_paths true
    filled ← amount raw_filled order.side filled_reasons
    fine (record {
      status = status_word status;
      filled = filled;
      one_fill = one_fill;
      price = price;
      filled_at = when (first payload filled_at_paths);
    })
