-- ===== src/Cash.antt =====
-- apps/api/app/execution/cash_reservation.py: the cash that other buy orders have been promised. A
-- query condition is a Boolean test of a row, and `side`, like every text, is compared as a whole.
mod Tests
use mathlib.Core.Option.{some-injective}
use t212_cashguard.Common.{
  ℕ, ◌+◌, ◌-◌, ◌*◌, ◌≤◌, ◌≡◌, Bool, true, false, not, ◌&&◌, ◌||◌, Option, none, some, String, List,
  [], ◌∷◌, leb, str_eq, arith, if◌then◌else◌, Bool-cases, inl, inr,
}
use t212_cashguard.Common.Numeric.{Decimals, zero_of}
use t212_cashguard.Lifecycle.{Status, is_active_status}
use t212_cashguard.Store.{Order}

-- `CLOCK_TOLERANCE` and `UNDATED_CASH_FIGURE_AGE`, in microseconds.
abbrev pub clock_tolerance : ℕ
clock_tolerance = 60_000_000

abbrev pub undated_cash_figure_age : ℕ
undated_cash_figure_age = 900_000_000

-- A time, and whether it names a time zone.
pub record ReadingTime : Type 0 where
  pub has_zone : Bool
  pub time : ℕ

unfoldable pub reading_time_or_assumed : Option ReadingTime → ℕ → ℕ
reading_time_or_assumed none present = present - undated_cash_figure_age
reading_time_or_assumed (some reading) present =
    if reading.has_zone && leb reading.time (present + clock_tolerance)
    then reading.time
    else present - undated_cash_figure_age

-- `column == value or column is None`, of a value that is known.
abbrev pub equals_or_missing : String → Option String → Bool
equals_or_missing value none = true
equals_or_missing value (some t) = str_eq t value

-- `column >= earliest`, which is not true of a missing time.
abbrev pub since : ℕ → Option ℕ → Bool
since earliest none = false
since earliest (some t) = leb earliest t

module _ {N : Type 0} where
  unfoldable pub same_account : Option String → Order N → Bool
  same_account none order = true
  same_account (some scope) order = equals_or_missing scope order.broker_account_scope

  unfoldable pub same_environment : Option String → Order N → Bool
  same_environment none order = true
  same_environment (some environment) order =
      equals_or_missing environment order.execution_environment

  unfoldable pub not_shown_in_a_reading_from : ℕ → Order N → Bool
  not_shown_in_a_reading_from cash_read_at order =
      let earliest = cash_read_at - clock_tolerance in
      is_active_status order.status
      || leb earliest order.updated_at
      || since earliest order.filled_at
      || since earliest order.cancelled_at
      || since earliest order.rejected_at

-- The arguments of `cash_promised_elsewhere`.
pub record Account : Type 0 where
  pub environment : Option String
  pub venue : String
  pub account_scope : Option String

abbrev has_cost : {N : Type 0} → Option N → Bool
has_cost none = false
has_cost (some _) = true

-- The filter of the query.
unfoldable pub counts_against : {N : Type 0} → Account → ℕ → Order N → Bool
counts_against account cash_read_at order =
    str_eq order.side "buy"
    && not order.is_dry_run
    && str_eq order.venue account.venue
    && has_cost order.cash_used
    && same_environment account.environment order
    && same_account account.account_scope order
    && not_shown_in_a_reading_from cash_read_at order

module _ (D : Decimals) where
  open D use {Num, add}

  abbrev cost_or_zero : Option Num → Num
  cost_or_zero none = zero_of D
  cost_or_zero (some cost) = cost

  unfoldable pub cash_promised_elsewhere : Account → ℕ → List (Order Num) → Num
  unfolding counts_against
  cash_promised_elsewhere account cash_read_at [] = zero_of D
  cash_promised_elsewhere account cash_read_at (order ∷ orders) =
      let rest = cash_promised_elsewhere account cash_read_at orders in
      if counts_against account cash_read_at order
      then add (cost_or_zero order.cash_used) rest
      else rest

-- The reading time that is counted from is never later than this clock allows for, and a time that
-- is given in a zone and not too late is kept.
pub reading_time_bounds :
    (reading : Option ReadingTime) (present : ℕ)
    → (reading_time_or_assumed reading present ≤ present + clock_tolerance)
      × ((t : ℕ)
          → reading ≡ some (record { has_zone = true; time = t })
          → t ≤ present + clock_tolerance
          → reading_time_or_assumed reading present ≡ t)
unfolding reading_time_or_assumed
reading_time_bounds none present = (omega arith, λ t e h. cc)
reading_time_bounds (some reading) present =
    (ground arith, λ t e h. rw (some-injective _ _ e) (ground (arith, h)))

since_earlier : (a b : ℕ) (x : Option ℕ) → a ≤ b → since b x ≡ true → since a x ≡ true
since_earlier a b none h k = cc
since_earlier a b (some t) h k = ground arith

module _ {N : Type 0} where
  not_shown_earlier :
      (r r' : ℕ) (order : Order N)
      → r ≤ r'
      → not_shown_in_a_reading_from r' order ≡ true
      → not_shown_in_a_reading_from r order ≡ true
  unfolding not_shown_in_a_reading_from
  not_shown_earlier r r' order h k =
      let step = λ (x : Option ℕ).
        since_earlier (r - clock_tolerance) (r' - clock_tolerance) x (omega (arith, h)) in
      ground (arith, k, step order.filled_at, step order.cancelled_at, step order.rejected_at)

  -- An older cash figure never misses an order that a newer one counts.
  pub earlier_counts_more :
      (account : Account) (r r' : ℕ) (order : Order N)
      → r ≤ r'
      → counts_against account r' order ≡ true
      → counts_against account r order ≡ true
  unfolding counts_against
  earlier_counts_more account r r' order h k = ground (arith, k, not_shown_earlier r r' order h)

  -- An order that is counted stays counted when it ends: whatever status it takes and whichever other
  -- times are stamped on it, a cash figure read up to a minute after its row was changed still has
  -- its cost taken off.
  pub ended_still_counts :
      (account : Account) (r r' t : ℕ) (order : Order N) (status : Status)
      (filled_at cancelled_at rejected_at : Option ℕ)
      → counts_against account r' order ≡ true
      → r ≤ t + clock_tolerance
      → counts_against account r (record order {
        status = status;
        updated_at = t;
        filled_at = filled_at;
        cancelled_at = cancelled_at;
        rejected_at = rejected_at;
      })
        ≡ true
  unfolding counts_against not_shown_in_a_reading_from same_account same_environment
  ended_still_counts account r r' t order status filled_at cancelled_at rejected_at k h =
      ground (arith, k, h)
