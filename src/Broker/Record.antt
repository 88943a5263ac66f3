-- ===== src/Broker/Record.antt =====
-- apps/api/app/execution/broker_record.py: what a broker's record of an order says, and the checks
-- that it is about this order. A refusal keeps its reason; the texts of exceptions are left out.
pub mod Reading
pub mod Fills
pub mod Verdict
pub mod History
pub mod Amounts
pub mod Stated
pub mod Prices
pub mod Final
pub mod Page
use t212_cashguard.Common.{
  ℕ, Bool, true, false, not, ◌&&◌, ◌||◌, Option, none, some, String, List, [], ◌∷◌, all, str_eq,
  if◌then◌else◌,
}
use t212_cashguard.Common.Numeric.{Decimals, zero_of}
use t212_cashguard.Broker.{
  Json, null, boolean, integer, real, text, array, object, Items, Fields, Conversions, get,
  usable_order_id, finite_number,
}

-- `UntrustedRecord`
pub record Refusal (Num : Type 0) : Type 0 where
  pub reason : String
  pub lacks_detail : Bool
  pub broker_status : Option String
  pub filled_quantity : Option Num

-- A value, or the exception.
pub data Checked (Num A : Type 0) : Type 0 where
  fine : A → Checked Num A
  refused : Refusal Num → Checked Num A

infixl 5 ◌>>=◌ ◌>>◌
abbrev pub ◌>>=◌ : {N A B : Type 0} → Checked N A → (A → Checked N B) → Checked N B
fine a >>= f = f a
refused e >>= f = refused e

abbrev pub ◌>>◌ : {N B : Type 0} → Checked N (Unit {0}) → Checked N B → Checked N B
m >> k = m >>= λ _. k

abbrev pub refuse : {N A : Type 0} → String → Checked N A
refuse reason =
    refused (record {
      reason = reason;
      lacks_detail = false;
      broker_status = none;
      filled_quantity = none;
    })

abbrev pub refuse_when : {N : Type 0} → Bool → String → Checked N (Unit {0})
refuse_when true reason = refuse reason
refuse_when false reason = fine tt

pub record LocalOrder (Num : Type 0) : Type 0 where
  pub broker_order_id : String
  pub ticker : String
  pub side : String
  pub order_type : String
  pub quantity : Num

-- `_Reported`
pub record Reported (Num : Type 0) : Type 0 where
  pub status : String
  pub filled : Option Num
  pub one_fill : Option Num
  pub price : Option Num
  pub filled_at : Option ℕ

-- What else this module takes from the standard library.
pub record RecordConversions (Num Int : Type 0) : Type 0 where
  -- `str(value)` and `str(value or "")`.
  pub str_of : Json Num Int → String
  pub str_or_empty : Json Num Int → String
  -- `as_amount(value.copy_abs())`; none where `quantize` raises `DecimalException`.
  pub as_amount : Num → Option Num
  -- `_when` of a text, in microseconds; none where `fromisoformat` raises.
  pub time_of : String → Option ℕ

abbrev pub Place : Type 0
Place = List String

module _ {Num Int : Type 0} where
  -- `value is None`
  abbrev pub is_none : Json Num Int → Bool
  is_none null = true
  is_none (boolean _) = false
  is_none (integer _) = false
  is_none (real _) = false
  is_none (text _) = false
  is_none (array _) = false
  is_none (object _) = false

  abbrev pub key_of : String → Json Num Int → Json Num Int
  key_of key (object fields) = get key fields
  key_of key null = null
  key_of key (boolean _) = null
  key_of key (integer _) = null
  key_of key (real _) = null
  key_of key (text _) = null
  key_of key (array _) = null

  -- `_at`
  unfoldable pub at : Json Num Int → Place → Json Num Int
  at payload [] = payload
  at payload (key ∷ path) = at (key_of key payload) path

  -- `_first`
  unfoldable pub first : Json Num Int → List Place → Json Num Int
  unfolding at
  first payload [] = null
  first payload (path ∷ paths) =
      let rest = first payload paths in if is_none (at payload path) then rest else at payload path

  -- The values of `_stated`.
  unfoldable pub values_at : Json Num Int → List Place → List (Json Num Int)
  unfolding at
  values_at payload [] = []
  values_at payload (path ∷ paths) =
      let rest = values_at payload paths in
      if is_none (at payload path) then rest else at payload path ∷ rest

abbrev pub some_or : {A : Type 0} → Option A → A → A
some_or none a = a
some_or (some x) a = x

-- What two statements of one fact are compared by.
pub data Key (Num : Type 0) : Type 0 where
  number_key : Num → Key Num
  text_key : String → Key Num

module _ (D : Decimals) (C : Conversions (Decimals.Num D))
    (R : RecordConversions (Decimals.Num D) (Conversions.Int C)) where
  open D use {Num, less, literal}
  open C use {Int, strip, upper, lower}
  open R use {str_of, str_or_empty, as_amount, time_of}

  abbrev pub num_eq : Num → Num → Bool
  num_eq x y = not (less x y) && not (less y x)

  abbrev pub key_eq : Key Num → Key Num → Bool
  key_eq (number_key x) (number_key y) = num_eq x y
  key_eq (text_key s) (text_key t) = str_eq s t
  key_eq (number_key _) (text_key _) = false
  key_eq (text_key _) (number_key _) = false

  abbrev number_or_text : Option Num → Json Num Int → Key Num
  number_or_text (some x) value = number_key x
  number_or_text none value = text_key (upper (strip (str_of value)))

  abbrev amount_or_none : Option Num → Option Num
  amount_or_none none = none
  amount_or_none (some x) = as_amount x

  -- What `_stated` adds to `seen`.
  unfoldable pub key_for : Bool → Json Num Int → Key Num
  key_for number value =
      number_or_text (if number then amount_or_none (finite_number C value) else none) value

  -- `_stated`
  unfoldable pub stated : Json Num Int → List Place → Bool → Checked Num (Json Num Int)
  unfolding key_for values_at
  stated payload paths number = pick (values_at payload paths)
    where
      pick : List (Json Num Int) → Checked Num (Json Num Int)
      pick [] = fine null
      pick (value ∷ rest) =
          if all (λ other. key_eq (key_for number value) (key_for number other)) rest
          then fine value
          else refuse "record_contradicts_itself"
