-- ===== src/Execution/Intent.antt =====
-- apps/api/app/execution/engine.py: what `create_order_intent` is given, and the order that stands
-- already. The key that `_make_client_order_key` hashes is an argument. The
-- orders are read three times: at first, when the admission turn is held, and when the row is
-- inserted; other processes may have added some meanwhile.
use t212_cashguard.Common.{
  ℕ, ◌-◌, ◌*◌, Bool, true, false, not, ◌&&◌, ◌||◌, Option, none, some, String, List, [], ◌∷◌, leb,
  ◌==◌, str_eq, if◌then◌else◌,
}
use t212_cashguard.Common.Numeric.{Decimals, zero_of}
use t212_cashguard.Store.{Order, RiskEvent}
use t212_cashguard.Lifecycle.{known, submission_unknown, is_active_status}
use t212_cashguard.Lifecycle.Evidence.{status_eq}
use t212_cashguard.Cash.{Account, ReadingTime}

-- The arguments of `create_order_intent`, with the key, the environment and the broker's scope.
pub record Wanted (Num : Type 0) : Type 0 where
  pub ticker : String
  pub side : String
  pub order_type : String
  pub quantity : Num
  pub signal_id : Option ℕ
  pub limit_price : Option Num
  pub stop_price : Option Num
  pub time_validity : String
  pub is_dry_run : Bool
  pub available_cash : Option Num
  pub estimated_price : Option Num
  pub venue : String
  pub cash_read_at : Option ReadingTime
  pub has_operation_identity : Bool
  pub client_key : String
  pub app_mode : String
  pub account_scope : Option String

-- What other processes and the database do meanwhile: whether `capture_intent_context` finds the
-- account bound, whether the turn is taken in time, and the orders at the later reads.
pub record Meanwhile (Num : Type 0) : Type 0 where
  pub account_bound : Bool
  pub turn_taken : Bool
  pub at_turn : List (Order Num)
  pub at_insert : List (Order Num)

-- The rows that are left, newest order first; an event is its type and its order.
pub record Book (Num : Type 0) : Type 0 where
  pub orders : List (Order Num)
  pub events : List (String × ℕ)
  pub risk_events : List RiskEvent

-- What the call ends in: a new order, the order that stands already, `CashReservationRefused`, or
-- `SafetyPolicyViolation`.
pub data Intent (Num : Type 0) : Type 0 where
  created : Order Num → Intent Num
  standing : Order Num → Intent Num
  cash_refused : Intent Num
  account_block : Intent Num

abbrev pub same_id : Option ℕ → Option ℕ → Bool
same_id none none = true
same_id none (some _) = false
same_id (some _) none = false
same_id (some a) (some b) = a == b

-- `DUPLICATE_LOOKBACK_SECONDS`, in microseconds.
abbrev pub duplicate_lookback : ℕ
duplicate_lookback = 180 * 1_000_000

-- `execution_environment`
abbrev pub environment_of : {Num : Type 0} → Wanted Num → String
environment_of w = if w.is_dry_run then "dry_run" else w.app_mode

abbrev pub account_of : {Num : Type 0} → Wanted Num → Account
account_of w = record {
  environment = some (environment_of w);
  venue = w.venue;
  account_scope = w.account_scope;
}

-- The first order with this key.
unfoldable pub with_key : {Num : Type 0} → String → List (Order Num) → Option (Order Num)
with_key key [] = none
with_key key (order ∷ orders) =
    let rest = with_key key orders in if str_eq order.client_order_key key then some order else rest

module _ (D : Decimals) where
  open D use {Num, less, add, mul}

  abbrev pub same_price : Option Num → Option Num → Bool
  same_price none none = true
  same_price none (some _) = false
  same_price (some _) none = false
  same_price (some a) (some b) = not (less a b) && not (less b a)

  -- The conditions of the query and of the loop of `_find_recent_duplicate_intent`.
  unfoldable pub is_duplicate : Wanted Num → ℕ → Order Num → Bool
  is_duplicate w now order =
      str_eq order.ticker w.ticker
      && str_eq order.side w.side
      && str_eq order.order_type w.order_type
      && str_eq order.time_validity w.time_validity
      && ((order.is_dry_run && w.is_dry_run) || (not order.is_dry_run && not w.is_dry_run))
      && ((leb (now - duplicate_lookback) order.created_at && is_active_status order.status)
          || status_eq order.status (known submission_unknown))
      && same_id w.signal_id order.signal_id
      && same_price (some order.quantity) (some w.quantity)
      && same_price order.limit_price w.limit_price
      && same_price order.stop_price w.stop_price

  unfoldable pub find_recent_duplicate_intent :
      Wanted Num → ℕ → List (Order Num) → Option (Order Num)
  unfolding is_duplicate
  find_recent_duplicate_intent w now [] = none
  find_recent_duplicate_intent w now (order ∷ orders) =
      let rest = find_recent_duplicate_intent w now orders in
      if is_duplicate w now order then some order else rest

  abbrev pub look_alike : Option (Order Num) → Option (Order Num × Bool)
  look_alike none = none
  look_alike (some order) = some (order, true)

  abbrev pub existing_or :
      Option (Order Num) → Option (Order Num × Bool) → Option (Order Num × Bool)
  existing_or (some order) other = some (order, false)
  existing_or none other = other

  -- `standing_order`: the order, and whether it is a look-alike.
  unfoldable pub standing_order : Wanted Num → ℕ → List (Order Num) → Option (Order Num × Bool)
  unfolding with_key find_recent_duplicate_intent
  standing_order w now orders = existing_or (with_key w.client_key orders) (
      if w.has_operation_identity
      then none
      else look_alike (find_recent_duplicate_intent w now orders))

  abbrev pub is_nonzero : Option Num → Bool
  is_nonzero none = false
  is_nonzero (some x) = less x (zero_of D) || less (zero_of D) x

  abbrev pub times_price : Num → Option Num → Option Num
  times_price quantity none = none
  times_price quantity (some price) = some (mul quantity price)

  -- `cash_used`
  unfoldable pub cash_used : Wanted Num → Option Num
  cash_used w =
      if str_eq w.side "buy" && is_nonzero w.estimated_price && less (zero_of D) w.quantity
      then times_price w.quantity w.estimated_price
      else none
