-- ===== src/Execution/Posted.antt =====
-- apps/api/app/broker/trading212.py: the body of the request that `_send_to_broker` makes, which the
-- `place_…_order` methods post. A parsed number is the finite decimal that its float is read as; how a
-- decimal is converted by `float()`, written and read again is a parameter.
use t212_cashguard.Common.{Option, none, some, String, str_eq, if◌then◌else◌}
use t212_cashguard.Broker.{Json, real, text, Fields, end, field}
use t212_cashguard.Execution.Submit.{Request}

module _ {Num Int : Type 0} (as_float : Num → Option Num) where
  abbrev pub number : Num → Json Num Int
  number x = real (as_float x)

  -- `float(price)`, which raises where there is no price.
  abbrev pub with_price : String → Option Num → Option (Fields Num Int) → Option (Fields Num Int)
  with_price key none rest = none
  with_price key (some price) none = none
  with_price key (some price) (some rest) = some (field key (number price) rest)

  abbrev pub validity : Request Num → Option (Fields Num Int)
  validity request = some (field "timeValidity" (text request.time_validity) end)

  -- What follows the ticker and the quantity.
  unfoldable pub posted_rest : Request Num → Option (Fields Num Int)
  posted_rest request =
      if str_eq request.order_type "market"
      then some end
      else if str_eq request.order_type "limit"
      then with_price "limitPrice" request.limit_price (validity request)
      else if str_eq request.order_type "stop"
      then with_price "stopPrice" request.stop_price (validity request)
      else with_price "stopPrice" request.stop_price
          (with_price "limitPrice" request.limit_price (validity request))

  abbrev pub headed : Request Num → Option (Fields Num Int) → Option (Fields Num Int)
  headed request none = none
  headed request (some rest) =
      some (field "ticker" (text request.ticker) (field "quantity" (number request.quantity) rest))

  -- The body; none where a price is missing.
  unfoldable pub posted : Request Num → Option (Fields Num Int)
  unfolding posted_rest
  posted request = headed request (posted_rest request)
