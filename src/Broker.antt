-- ===== src/Broker.antt =====
-- What the broker answers: parsed JSON, as Python holds it, and the conversions of the standard
-- library that apps/api/app/execution/acknowledgement.py and broker_record.py apply to it.
pub mod Acknowledgement
pub mod Inversion
pub mod Kept
pub mod Trust
pub mod Record
pub mod Snapshot
mod Tests
use t212_cashguard.Common.{
  ℕ, Bool, true, false, not, ◌&&◌, Option, none, some, String, List, [], ◌∷◌, count, leb, ◌==◌,
  str_eq, if◌then◌else◌,
}

mutual
  -- `Int` are Python's whole numbers. A `float` or `Decimal` that is not finite has no value.
  pub data Json (Num Int : Type 0) : Type 0 where
    null : Json Num Int
    boolean : Bool → Json Num Int
    integer : Int → Json Num Int
    real : Option Num → Json Num Int
    text : String → Json Num Int
    array : Items Num Int → Json Num Int
    object : Fields Num Int → Json Num Int

  pub data Items (Num Int : Type 0) : Type 0 where
    nil : Items Num Int
    item : Json Num Int → Items Num Int → Items Num Int

  pub data Fields (Num Int : Type 0) : Type 0 where
    end : Fields Num Int
    field : String → Json Num Int → Fields Num Int → Fields Num Int

-- Conversions of the standard library.
pub record Conversions (Num : Type 0) : Type 1 where
  pub Int : Type 0
  -- `str(n)` and `Decimal(str(n))` of a whole number.
  pub str_of_int : Int → String
  pub num_of_int : Int → Num
  -- `Decimal(text)`, if that is a finite number.
  pub num_of_text : String → Option Num
  pub strip : String → String
  pub upper : String → String
  pub lower : String → String

-- `payload.get(key)`
abbrev pub get : {Num Int : Type 0} → String → Fields Num Int → Json Num Int
get key end = null
get key (field k v rest) = if str_eq k key then v else get key rest

module _ {Num : Type 0} (C : Conversions Num) where
  open C use {Int, str_of_int, num_of_int, num_of_text, strip}

  abbrev id_of_text : String → Option String
  id_of_text stripped =
      if not (count stripped == 0) && leb (count stripped) 100 then some stripped else none

  unfoldable pub usable_order_id : Json Num Int → Option String
  usable_order_id (boolean _) = none
  usable_order_id (integer n) = some (str_of_int n)
  usable_order_id (text t) = id_of_text (strip t)
  usable_order_id null = none
  usable_order_id (real _) = none
  usable_order_id (array _) = none
  usable_order_id (object _) = none

  unfoldable pub finite_number : Json Num Int → Option Num
  finite_number (integer n) = some (num_of_int n)
  finite_number (real x) = x
  finite_number (text t) = num_of_text (strip t)
  finite_number (boolean _) = none
  finite_number null = none
  finite_number (array _) = none
  finite_number (object _) = none
