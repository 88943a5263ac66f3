-- ===== src/Broker/Acknowledgement.antt =====
-- apps/api/app/execution/acknowledgement.py: what a broker's immediate answer may be taken to mean.
use t212_cashguard.Common.{
  Bool, true, false, not, ◌&&◌, ◌||◌, Option, none, some, String, str_eq, if◌then◌else◌,
}
use t212_cashguard.Common.Numeric.{Decimals, zero_of}
use t212_cashguard.Lifecycle.{Status, known, filled, cancelled, rejected, accepted}
use t212_cashguard.Broker.{
  Json, null, boolean, integer, real, text, array, object, Fields, Conversions, get,
  usable_order_id, finite_number,
}

pub record Acknowledgement (Num : Type 0) : Type 0 where
  pub broker_order_id : String
  pub broker_status : String
  pub order_status : Status
  pub transition_reason : String
  pub filled_quantity : Option Num
  pub fill_price : Option Num

-- A value, or `UntrustedAcknowledgement` with its reason and the order id that it names.
pub data Trusted (A : Type 0) : Type 0 where
  trusted : A → Trusted A
  untrusted : String → Option String → Trusted A

infixl 5 ◌>>=◌
abbrev pub ◌>>=◌ : {A B : Type 0} → Trusted A → (A → Trusted B) → Trusted B
trusted a >>= f = f a
untrusted reason id >>= f = untrusted reason id

abbrev pub or_untrusted : {A : Type 0} → Option A → String → Option String → Trusted A
or_untrusted none reason id = untrusted reason id
or_untrusted (some a) reason id = trusted a

module _ (D : Decimals) (C : Conversions (Decimals.Num D)) where
  open D use {Num, literal, absolute, less}
  open C use {Int}

  -- `SMALLEST_STORED_PRICE`
  abbrev pub smallest_stored_price : Num
  smallest_stored_price = literal 1 8

  -- The sign check of `_reported_fill`.
  abbrev pub signed_fill : String → String → Num → Trusted (Option Num)
  signed_fill side id signed =
      if less signed (zero_of D) && not (str_eq side "sell")
      then untrusted "filled_quantity_sign_contradicts_side" (some id)
      else trusted (some (absolute signed))

  abbrev pub fill_of_number : String → String → Option Num → Trusted (Option Num)
  fill_of_number side id none = untrusted "filled_quantity_not_a_number" (some id)
  fill_of_number side id (some signed) = signed_fill side id signed

  abbrev pub is_null : Json Num Int → Bool
  is_null null = true
  is_null (boolean _) = false
  is_null (integer _) = false
  is_null (real _) = false
  is_null (text _) = false
  is_null (array _) = false
  is_null (object _) = false

  -- `_reported_fill`
  unfoldable pub reported_fill : Fields Num Int → String → String → Trusted (Option Num)
  reported_fill response side id =
      if is_null (get "filledQuantity" response)
      then trusted none
      else fill_of_number side id (finite_number C (get "filledQuantity" response))

  abbrev pub usable_price : String → Num → Trusted Num
  usable_price id price =
      if less price smallest_stored_price
      then untrusted "fill_price_not_positive" (some id)
      else trusted price

  -- `_fill_price`
  unfoldable pub fill_price : Fields Num Int → String → Trusted Num
  fill_price response id =
      if is_null (get "filledPrice" response)
      then untrusted "fill_price_missing" (some id)
      else or_untrusted (finite_number C (get "filledPrice" response)) "fill_price_not_a_number"
          (some id)
        >>= usable_price id

  -- The branch for a filled order.
  unfoldable pub filled_acknowledgement :
      Fields Num Int → String → Num → String → Option Num → Trusted (Acknowledgement Num)
  unfolding fill_price
  filled_acknowledgement response side quantity id none =
      untrusted "filled_quantity_missing" (some id)
  filled_acknowledgement response side quantity id (some filled_amount) =
      if not (less filled_amount (zero_of D)) && not (less (zero_of D) filled_amount)
      then untrusted "filled_without_a_fill" (some id)
      else if less quantity filled_amount
      then untrusted "filled_quantity_exceeds_order" (some id)
      else if less filled_amount quantity
      then untrusted "filled_quantity_below_order" (some id)
      else do
        price ← fill_price response id
        trusted (record {
          broker_order_id = id;
          broker_status = "FILLED";
          order_status = known filled;
          transition_reason = "broker returned FILLED";
          filled_quantity = some quantity;
          fill_price = some price;
        })

  abbrev without_fill : String → String → Status → String → Acknowledgement Num
  without_fill id broker_status order_status reason = record {
    broker_order_id = id;
    broker_status = broker_status;
    order_status = order_status;
    transition_reason = reason;
    filled_quantity = none;
    fill_price = none;
  }

  -- `filled is not None and filled != _ZERO`
  abbrev pub has_fill : Option Num → Bool
  has_fill none = false
  has_fill (some amount) = less amount (zero_of D) || less (zero_of D) amount

  -- The branch for a cancelled or rejected order.
  unfoldable pub ended_acknowledgement :
      String → String → Status → String → Option Num → Trusted (Acknowledgement Num)
  ended_acknowledgement id broker_status order_status reason amount =
      if has_fill amount
      then untrusted "final_status_reports_a_fill" (some id)
      else trusted (without_fill id broker_status order_status reason)

  -- `raw_status if isinstance(raw_status, str) else ""`
  abbrev pub text_or_empty : Json Num Int → String
  text_or_empty (text t) = t
  text_or_empty null = ""
  text_or_empty (boolean _) = ""
  text_or_empty (integer _) = ""
  text_or_empty (real _) = ""
  text_or_empty (array _) = ""
  text_or_empty (object _) = ""

  -- After the id has been read.
  unfoldable pub interpret_status :
      Fields Num Int → String → Num → String → String → Trusted (Acknowledgement Num)
  unfolding reported_fill filled_acknowledgement ended_acknowledgement
  interpret_status response side quantity id broker_status =
      if str_eq broker_status "FILLED"
      then reported_fill response side id >>= filled_acknowledgement response side quantity id
      else if str_eq broker_status "CANCELLED"
      then reported_fill response side id
        >>= ended_acknowledgement id "CANCELLED" (known cancelled) "broker returned CANCELLED"
      else if str_eq broker_status "REJECTED"
      then reported_fill response side id
        >>= ended_acknowledgement id "REJECTED" (known rejected) "broker returned REJECTED"
      else trusted (
          without_fill id broker_status (known accepted) (
            if str_eq broker_status "WORKING" || str_eq broker_status "PENDING"
            then "broker returned working status"
            else "broker status defaulted to accepted"))

  unfoldable pub interpret_fields : Fields Num Int → String → Num → Trusted (Acknowledgement Num)
  unfolding interpret_status
  interpret_fields response side quantity = do
    id ← or_untrusted (usable_order_id C (get "id" response)) "order_id_not_usable" none
    interpret_status response side quantity id (text_or_empty (get "status" response))

  unfoldable pub interpret_acknowledgement :
      Json Num Int → String → Num → Trusted (Acknowledgement Num)
  unfolding interpret_fields
  interpret_acknowledgement (object response) side quantity =
      interpret_fields response side quantity
  interpret_acknowledgement null side quantity = untrusted "not_an_object" none
  interpret_acknowledgement (boolean _) side quantity = untrusted "not_an_object" none
  interpret_acknowledgement (integer _) side quantity = untrusted "not_an_object" none
  interpret_acknowledgement (real _) side quantity = untrusted "not_an_object" none
  interpret_acknowledgement (text _) side quantity = untrusted "not_an_object" none
  interpret_acknowledgement (array _) side quantity = untrusted "not_an_object" none
