-- ===== src/Broker/Record/Verdict.antt =====
-- apps/api/app/execution/broker_record.py: what the records of one order amount to.
use t212_cashguard.Common.{
  ℕ, max, Bool, true, false, not, ◌&&◌, Option, none, some, String, List, [], ◌∷◌, all, str_eq,
  if◌then◌else◌,
}
use t212_cashguard.Common.Numeric.{Decimals, zero_of}
use t212_cashguard.Lifecycle.{Status, known, filled, cancelled, rejected}
use t212_cashguard.Broker.{Json, Conversions}
use t212_cashguard.Broker.Record.{
  Checked, fine, refused, ◌>>=◌, ◌>>◌, refuse, refuse_when, LocalOrder, Reported, RecordConversions,
  num_eq,
}
use t212_cashguard.Broker.Record.Reading.{read}
use t212_cashguard.Broker.Record.Fills.{smallest, fill}

pub record FinalRecord (Num : Type 0) : Type 0 where
  pub broker_status : String
  pub order_status : Status
  pub filled_quantity : Num
  pub fill_price : Option Num
  pub filled_at : Option ℕ

-- `FinalRecord | OpenRecord`
pub data Verdict (Num : Type 0) : Type 0 where
  final_record : FinalRecord Num → Verdict Num
  open_record : String → Verdict Num

-- `_FINAL_STATUSES.get(word)`
unfoldable pub final_status : String → Option Status
final_status word =
    if str_eq word "FILLED"
    then some (known filled)
    else if str_eq word "CANCELLED"
    then some (known cancelled)
    else if str_eq word "REJECTED"
    then some (known rejected)
    else none

abbrev pub is_filled : Status → Bool
is_filled (known filled) = true
is_filled _ = false

-- `max(times) if times else None` of the times that are given.
unfoldable pub latest : {Num : Type 0} → List (Reported Num) → Option ℕ
latest [] = none
latest (part ∷ parts) = later part.filled_at (latest parts)
  where
    later : Option ℕ → Option ℕ → Option ℕ
    later none t = t
    later (some s) none = some s
    later (some s) (some t) = some (max s t)

module _ (D : Decimals) (C : Conversions (Decimals.Num D))
    (R : RecordConversions (Decimals.Num D) (Conversions.Int C)) where
  open D use {Num, less, literal, add, mul, div, quantize}
  open C use {Int}

  abbrev pub exceeds : Option Num → Num → Bool
  exceeds none quantity = false
  exceeds (some filled_amount) quantity = less quantity filled_amount

  abbrev missing : {A : Type 0} → String → Bool → String → Option Num → Checked Num A
  missing reason may_be_completed broker_status filled_amount = refused (record {
    reason = reason;
    lacks_detail = may_be_completed;
    broker_status = some broker_status;
    filled_quantity = filled_amount;
  })

  -- The price that is recorded with an amount.
  unfoldable pub kept_price : Bool → String → Num → Option Num → Checked Num (Option Num)
  kept_price may_be_completed broker_status filled_amount none =
      if num_eq D C R filled_amount (zero_of D)
      then fine none
      else missing "fill_price_missing" may_be_completed broker_status (some filled_amount)
  kept_price may_be_completed broker_status filled_amount (some price) =
      if num_eq D C R filled_amount (zero_of D)
      then fine none
      else if less price (smallest D C R)
      then refuse "fill_price_not_positive"
      else fine (some price)

  -- `_judge` after `_fill` and the test against the ordered quantity.
  unfoldable pub settle :
      Bool
      → LocalOrder Num
      → String
      → Status
      → Option ℕ
      → Option Num × Option Num
      → Checked Num (Verdict Num)
  unfolding kept_price
  settle may_be_completed order broker_status order_status filled_at (none, price) =
      missing "filled_quantity_missing" may_be_completed broker_status none
  settle may_be_completed order broker_status order_status filled_at (some filled_amount, price) =
      do
        refuse_when (is_filled order_status && num_eq D C R filled_amount (zero_of D))
            "filled_without_a_fill"
        refuse_when (is_filled order_status && less filled_amount order.quantity)
            "filled_quantity_below_order"
        kept ← kept_price may_be_completed broker_status filled_amount price
        fine (
            final_record (record {
              broker_status = broker_status;
              order_status = order_status;
              filled_quantity = filled_amount;
              fill_price = kept;
              filled_at = filled_at;
            }))

  -- `_judge` where all parts have this status.
  unfoldable pub judge_status :
      List (Reported Num)
      → LocalOrder Num
      → Bool
      → String
      → Option Status
      → Checked Num (Verdict Num)
  unfolding fill settle latest
  judge_status parts order from_history broker_status none = fine (open_record broker_status)
  judge_status parts order from_history broker_status (some order_status) = do
    filled_and_price ← fill D C R parts
    refuse_when (exceeds filled_and_price.0 order.quantity) "filled_quantity_exceeds_order"
    settle (not from_history) order broker_status order_status (latest parts) filled_and_price

  -- `_judge`
  unfoldable pub judge : List (Reported Num) → LocalOrder Num → Bool → Checked Num (Verdict Num)
  unfolding judge_status final_status
  judge [] order from_history = refuse "records_disagree_on_status"
  judge (part ∷ parts) order from_history =
      if all (λ other. str_eq other.status part.status) parts
      then judge_status (part ∷ parts) order from_history part.status (final_status part.status)
      else refuse "records_disagree_on_status"

  unfoldable pub interpret_open_order_read :
      Json Num Int → LocalOrder Num → Checked Num (Verdict Num)
  unfolding read judge
  interpret_open_order_read payload order = do
    part ← read D C R payload order
    judge (part ∷ []) order false
