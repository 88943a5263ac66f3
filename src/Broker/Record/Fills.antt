-- ===== src/Broker/Record/Fills.antt =====
-- apps/api/app/execution/broker_record.py: the filled amount and its price, from one record or from
-- one record for each fill.
use t212_cashguard.Common.{
  Bool, false, not, ◌&&◌, Option, none, some, List, [], ◌∷◌, all, any, map, if◌then◌else◌,
}
use t212_cashguard.Common.Numeric.{Decimals, zero_of}
use t212_cashguard.Broker.{Conversions}
use t212_cashguard.Broker.Record.{
  Checked, fine, ◌>>=◌, ◌>>◌, refuse, refuse_when, Reported, RecordConversions, num_eq,
}

module _ (D : Decimals) (C : Conversions (Decimals.Num D))
    (R : RecordConversions (Decimals.Num D) (Conversions.Int C)) where
  open D use {Num, less, literal, add, mul, div, quantize}
  open C use {Int}

  abbrev pub with_amount : Option Num → List Num → List Num
  with_amount none rest = rest
  with_amount (some x) rest = x ∷ rest

  -- The amounts that the parts state.
  unfoldable pub totals : List (Reported Num) → List Num
  totals [] = []
  totals (part ∷ parts) = with_amount part.filled (totals parts)

  -- `next(iter(totals), None)`, where they are all equal.
  unfoldable pub one_total : List Num → Checked Num (Option Num)
  one_total [] = fine none
  one_total (x ∷ rest) =
      if all (num_eq D C R x) rest
      then fine (some x)
      else refuse "records_disagree_on_filled_quantity"

  abbrev other_fill : Option Num → Option Num → Bool
  other_fill (some total) (some one_fill) = not (num_eq D C R one_fill total)
  other_fill (some total) none = false
  other_fill none one_fill = false

  -- The fills of several records; none where one lacks its amount or its price.
  unfoldable pub known_fills : List (Reported Num) → Option (List (Num × Num))
  known_fills [] = some []
  known_fills (part ∷ parts) = with_fill part.one_fill part.price (known_fills parts)
    where
      with_fill : Option Num → Option Num → Option (List (Num × Num)) → Option (List (Num × Num))
      with_fill (some amount) (some price) (some rest) = some ((amount, price) ∷ rest)
      with_fill (some amount) (some price) none = none
      with_fill (some amount) none rest = none
      with_fill none price rest = none

  -- `sum(…, _ZERO)`
  unfoldable pub sum_from : Num → List Num → Num
  sum_from start [] = start
  sum_from start (x ∷ xs) = sum_from (add start x) xs

  abbrev pub smallest : Num
  smallest = literal 1 8

  unfoldable pub several_fills :
      Option Num → Option (List (Num × Num)) → Checked Num (Option Num × Option Num)
  unfolding sum_from
  several_fills none fills = refuse "several_records_without_their_fills"
  several_fills (some total) none = refuse "several_records_without_their_fills"
  several_fills (some total) (some fills) = do
    refuse_when (any (λ f. less (zero_of D) f.0 && less f.1 smallest) fills)
        "fill_price_not_positive"
    refuse_when (not (num_eq D C R (sum_from (zero_of D) (map (λ f. f.0) fills)) total))
        "fills_do_not_add_up"
    let paid = sum_from (zero_of D) (map (λ f. mul f.0 f.1) fills)
    fine (
        if num_eq D C R total (zero_of D)
        then (some total, none)
        else (some total, some (quantize 8 (div paid total))))

  -- `_fill` where the total is known.
  unfoldable pub fill_of : Option Num → List (Reported Num) → Checked Num (Option Num × Option Num)
  unfolding known_fills several_fills
  fill_of total (part ∷ []) = do
    refuse_when (other_fill total part.one_fill) "fill_does_not_cover_filled_quantity"
    fine (total, part.price)
  fill_of total [] = several_fills total (known_fills [])
  fill_of total (p ∷ q ∷ parts) = several_fills total (known_fills (p ∷ q ∷ parts))

  -- `_fill`
  unfoldable pub fill : List (Reported Num) → Checked Num (Option Num × Option Num)
  unfolding totals one_total fill_of
  fill parts = do total ← one_total (totals parts); fill_of total parts
