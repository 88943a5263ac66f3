-- ===== src/Execution/Claim.antt =====
-- apps/api/app/execution/engine.py: which record of the history an order whose submission has no
-- outcome may claim. Times are in microseconds.
use t212_cashguard.Common.{
  ℕ, ◌+◌, Bool, true, false, not, ◌&&◌, ◌||◌, Option, none, some, String, List, [], ◌∷◌, any,
  select, leb, ltb, length, str_eq, ◌==◌, if◌then◌else◌,
}
use t212_cashguard.Common.Numeric.{Decimals, zero_of}
use t212_cashguard.Store.{Order}
use t212_cashguard.Lifecycle.{known, submission_unknown}
use t212_cashguard.Lifecycle.Evidence.{status_eq}
use t212_cashguard.Broker.{
  Json, null, boolean, integer, real, text, array, object, Conversions, get,
}
use t212_cashguard.Broker.Record.{RecordConversions, num_eq, is_none, key_of, some_or}
use t212_cashguard.Broker.Record.History.{mappings}
use t212_cashguard.Broker.Snapshot.{
  AnyDecimal, finite, infinite, nan, Parser, BrokerOrderSnapshot,
  map_trading212_history_order_to_snapshot,
}
use t212_cashguard.Execution.Asking.{PageAnswer, page, page_failed}

-- `UNKNOWN_SUBMISSION_MATCH_BEFORE`, `UNKNOWN_SUBMISSION_MATCH_AFTER`,
-- `UNKNOWN_SUBMISSION_HISTORY_LIMIT` and `UNKNOWN_SUBMISSION_MIN_AGE`.
abbrev pub match_before : ℕ
match_before = 120_000_000

abbrev pub match_after : ℕ
match_after = 900_000_000

abbrev pub history_limit : ℕ
history_limit = 50

abbrev pub min_age : ℕ
min_age = 90_000_000

-- A row of the orders, joined with the time at which its request was dispatched.
pub record OrderRow (N : Type 0) : Type 0 where
  pub order : Order N
  pub dispatch_committed_at : Option ℕ

-- `a or b` of texts.
abbrev pub word_or : String → String → String
word_or a b = if str_eq a "" then b else a

abbrev pub either_time : Option ℕ → Option ℕ → Option ℕ
either_time none t = t
either_time (some s) t = some s

abbrev pub has_no_id : Option String → Bool
has_no_id none = true
has_no_id (some _) = false

abbrev pub carries : Option String → String → Bool
carries none id = false
carries (some other) id = str_eq other id

abbrev pub the_only : {A : Type 0} → List A → Option A
the_only [] = none
the_only (a ∷ []) = some a
the_only (_ ∷ _ ∷ _) = none

module _ (D : Decimals) (C : Conversions (Decimals.Num D))
    (R : RecordConversions (Decimals.Num D) (Conversions.Int C))
    (parse : Parser (Decimals.Num D)) where
  open D use {Num, less, absolute}
  open C use {Int, upper, lower}
  open R use {str_of}

  abbrev is_amount : Option (AnyDecimal Num) → Num → Bool
  is_amount none expected = false
  is_amount (some infinite) expected = false
  is_amount (some nan) expected = false
  is_amount (some (finite x)) expected = num_eq D C R x expected

  abbrev is_price : Json Num Int → Option Num → Bool
  is_price reported none = false
  is_price reported (some expected) = is_amount (parse (str_of reported)) expected

  -- One of the two prices: nothing is reported, or what the order has.
  abbrev agrees : BrokerOrderSnapshot Num Int → String → Option Num → Bool
  agrees snapshot field expected =
      is_none (key_of field snapshot.raw) || is_price (key_of field snapshot.raw) expected

  abbrev pub side_of : BrokerOrderSnapshot Num Int → Num → String
  side_of snapshot quantity =
      word_or (lower (some_or snapshot.side ""))
        (if less quantity (zero_of D) then "sell" else "buy")

  abbrev pub agrees_in_quantity :
      Order Num → BrokerOrderSnapshot Num Int → Option (AnyDecimal Num) → Bool
  agrees_in_quantity order snapshot none = false
  agrees_in_quantity order snapshot (some infinite) = false
  agrees_in_quantity order snapshot (some nan) = false
  agrees_in_quantity order snapshot (some (finite quantity)) =
      num_eq D C R (absolute quantity) order.quantity
      && str_eq (side_of snapshot quantity) order.side

  abbrev agrees_in_type : Order Num → Option String → Bool
  agrees_in_type order none = true
  agrees_in_type order (some word) = str_eq word "" || str_eq (lower word) order.order_type

  abbrev in_window : Option ℕ → ℕ → Bool
  in_window none dispatched_at = false
  in_window (some created_at) dispatched_at =
      leb dispatched_at (created_at + match_before) && leb created_at (dispatched_at + match_after)

  -- `_matches_unknown_submission`
  unfoldable pub matches_unknown_submission : Order Num → BrokerOrderSnapshot Num Int → ℕ → Bool
  matches_unknown_submission order snapshot dispatched_at =
      not (str_eq snapshot.broker_order_id "")
      && str_eq (upper (some_or snapshot.ticker "")) (upper order.ticker)
      && agrees_in_quantity order snapshot snapshot.quantity
      && agrees_in_type order snapshot.order_type
      && agrees snapshot "limitPrice" order.limit_price
      && agrees snapshot "stopPrice" order.stop_price
      && in_window snapshot.created_at dispatched_at

  abbrev matches_since : Order Num → BrokerOrderSnapshot Num Int → Option ℕ → Bool
  matches_since order snapshot none = false
  matches_since order snapshot (some reference) =
      matches_unknown_submission order snapshot reference

  -- The rows of the query.
  abbrev pub is_rival : Order Num → OrderRow Num → Bool
  is_rival order other =
      not (other.order.id == order.id)
      && status_eq other.order.status (known submission_unknown)
      && has_no_id other.order.broker_order_id
      && str_eq other.order.ticker order.ticker
      && str_eq other.order.side order.side

  abbrev pub could_own : BrokerOrderSnapshot Num Int → OrderRow Num → Bool
  could_own snapshot other =
      matches_since other.order snapshot
        (either_time other.dispatch_committed_at other.order.submitted_at)

  -- `_fits_another_unknown_submission`
  unfoldable pub fits_another_unknown_submission :
      List (OrderRow Num) → Order Num → BrokerOrderSnapshot Num Int → Bool
  unfolding matches_unknown_submission
  fits_another_unknown_submission others order snapshot =
      any (λ other. is_rival order other && could_own snapshot other) others

  abbrev listed_items : Json Num Int → List (Json Num Int)
  listed_items (array items) = mappings D C R items
  listed_items null = []
  listed_items (boolean _) = []
  listed_items (integer _) = []
  listed_items (real _) = []
  listed_items (text _) = []
  listed_items (object _) = []

  -- The entries of a page that are mappings; anything else has none.
  unfoldable pub page_items : Json Num Int → List (Json Num Int)
  unfolding mappings
  page_items (object fields) = listed_items (get "items" fields)
  page_items null = []
  page_items (boolean b) = []
  page_items (integer n) = []
  page_items (real x) = []
  page_items (text t) = []
  page_items (array items) = listed_items (array items)

  abbrev keep_snapshot :
      Option (BrokerOrderSnapshot Num Int)
      → List (BrokerOrderSnapshot Num Int)
      → List (BrokerOrderSnapshot Num Int)
  keep_snapshot none snapshots = snapshots
  keep_snapshot (some snapshot) snapshots = snapshot ∷ snapshots

  -- The entries that can be mapped.
  unfoldable pub snapshots_of : String → List (Json Num Int) → List (BrokerOrderSnapshot Num Int)
  unfolding map_trading212_history_order_to_snapshot
  snapshots_of environment [] = []
  snapshots_of environment (item ∷ items) =
      keep_snapshot (map_trading212_history_order_to_snapshot D C R parse environment item)
        (snapshots_of environment items)

  abbrev is_before_window : ℕ → Option ℕ → Bool
  is_before_window dispatched_at none = false
  is_before_window dispatched_at (some created_at) = ltb (created_at + match_before) dispatched_at

  -- A full page that does not reach back past the window may hide more records.
  abbrev pub hides_records : ℕ → List (Json Num Int) → List (BrokerOrderSnapshot Num Int) → Bool
  hides_records dispatched_at items snapshots =
      leb history_limit (length items)
      && not (any (λ snapshot. is_before_window dispatched_at snapshot.created_at) snapshots)

  -- `matches` after the history is read.
  unfoldable pub matching_records :
      String → Order Num → ℕ → Json Num Int → List (BrokerOrderSnapshot Num Int)
  unfolding page_items snapshots_of matches_unknown_submission
  matching_records environment order dispatched_at history =
      let items = page_items history in
      let snapshots = snapshots_of environment items in
      if hides_records dispatched_at items snapshots
      then []
      else select (λ snapshot. matches_unknown_submission order snapshot dispatched_at) snapshots

  abbrev pub is_linked : List (OrderRow Num) → Order Num → BrokerOrderSnapshot Num Int → Bool
  is_linked rows order snapshot =
      any
        (λ other.
          not (other.order.id == order.id)
          && carries other.order.broker_order_id snapshot.broker_order_id)
        rows

  abbrev pub unless_rivalled :
      List (OrderRow Num)
      → Order Num
      → Option (BrokerOrderSnapshot Num Int)
      → Option (BrokerOrderSnapshot Num Int)
  unless_rivalled rows order none = none
  unless_rivalled rows order (some snapshot) =
      if fits_another_unknown_submission rows order snapshot then none else some snapshot

  -- The record that the order claims, if exactly one matches, no order is linked to it, and it fits
  -- no other unresolved order.
  abbrev pub claim_among :
      List (OrderRow Num)
      → Order Num
      → List (BrokerOrderSnapshot Num Int)
      → Option (BrokerOrderSnapshot Num Int)
  claim_among rows order matches =
      unless_rivalled rows order
        (the_only (select (λ snapshot. not (is_linked rows order snapshot)) matches))

  abbrev claim_of_page :
      String
      → List (OrderRow Num)
      → Order Num
      → ℕ
      → PageAnswer Num Int
      → Option (BrokerOrderSnapshot Num Int)
  claim_of_page environment rows order dispatched_at (page_failed word) = none
  claim_of_page environment rows order dispatched_at (page history) =
      claim_among rows order (matching_records environment order dispatched_at history)

  unfoldable pub claimed_record :
      String
      → List (OrderRow Num)
      → Order Num
      → Option ℕ
      → PageAnswer Num Int
      → Option (BrokerOrderSnapshot Num Int)
  unfolding matching_records fits_another_unknown_submission
  claimed_record environment rows order none answer = none
  claimed_record environment rows order (some dispatched_at) answer =
      claim_of_page environment rows order dispatched_at answer
