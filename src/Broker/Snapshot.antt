-- ===== src/Broker/Snapshot.antt =====
-- apps/api/app/broker/trading212_mappers.py: a payload of the broker as a snapshot of an order
-- (apps/api/app/broker/snapshots.py). A signalling NaN is left out.
use t212_cashguard.Common.{
  ℕ, Bool, true, false, Option, none, some, String, List, [], ◌∷◌, count, ◌==◌, str_eq,
  if◌then◌else◌,
}
use t212_cashguard.Common.Numeric.{Decimals}
use t212_cashguard.Broker.{Json, null, boolean, integer, real, text, array, object, Conversions}
use t212_cashguard.Broker.Record.{RecordConversions, Place, at, is_none}
use t212_cashguard.Broker.Record.Reading.{when}

-- A `Decimal`, and `Decimal(text)`: none where that raises.
pub data AnyDecimal (Num : Type 0) : Type 0 where
  finite : Num → AnyDecimal Num
  infinite : AnyDecimal Num
  nan : AnyDecimal Num

abbrev pub Parser : Type 0 → Type 0
Parser Num = String → Option (AnyDecimal Num)

pub record BrokerOrderSnapshot (Num Int : Type 0) : Type 0 where
  pub broker : String
  pub environment : String
  pub broker_order_id : String
  pub ticker : Option String
  pub status : Option String
  pub side : Option String
  pub order_type : Option String
  pub quantity : Option (AnyDecimal Num)
  pub filled_quantity : Option (AnyDecimal Num)
  pub average_fill_price : Option (AnyDecimal Num)
  pub currency : Option String
  pub created_at : Option ℕ
  pub filled_at : Option ℕ
  pub raw : Json Num Int

-- The places where a payload may state each fact.
pub record Paths : Type 0 where
  pub ids : List Place
  pub tickers : List Place
  pub statuses : List Place
  pub sides : List Place
  pub order_types : List Place
  pub quantities : List Place
  pub filled_quantities : List Place
  pub average_fill_prices : List Place
  pub currencies : List Place
  pub creation_times : List Place
  pub fill_times : List Place

abbrev key : String → Place
key name = name ∷ []

abbrev inside : String → String → Place
inside outer name = outer ∷ name ∷ []

abbrev in_instrument : String → Place
in_instrument name = "order" ∷ "instrument" ∷ name ∷ []

-- The places in an entry of the history.
abbrev pub history_paths : Paths
history_paths = record {
  ids =
      inside "order" "id"
      ∷ key "id"
      ∷ key "orderId"
      ∷ key "order_id"
      ∷ key "brokerOrderId"
      ∷ key "broker_order_id"
      ∷ [];
  tickers =
      key "ticker"
      ∷ key "instrumentCode"
      ∷ key "shortName"
      ∷ inside "instrument" "ticker"
      ∷ inside "order" "ticker"
      ∷ in_instrument "ticker"
      ∷ [];
  statuses = key "status" ∷ key "orderStatus" ∷ key "state" ∷ inside "order" "status" ∷ [];
  sides = key "side" ∷ inside "order" "side" ∷ [];
  order_types =
      key "type" ∷ key "orderType" ∷ inside "order" "type" ∷ inside "order" "orderType" ∷ [];
  quantities = key "quantity" ∷ inside "fill" "quantity" ∷ inside "order" "quantity" ∷ [];
  filled_quantities =
      key "filledQuantity"
      ∷ key "filled_quantity"
      ∷ inside "order" "filledQuantity"
      ∷ inside "fill" "quantity"
      ∷ [];
  average_fill_prices =
      key "filledPrice"
      ∷ key "avgFillPrice"
      ∷ key "averagePrice"
      ∷ key "averageFillPrice"
      ∷ key "avg_fill_price"
      ∷ inside "fill" "price"
      ∷ [];
  currencies =
      key "currency"
      ∷ inside "instrument" "currency"
      ∷ inside "order" "currency"
      ∷ in_instrument "currency"
      ∷ [];
  creation_times = key "createdAt" ∷ key "created" ∷ inside "order" "createdAt" ∷ [];
  fill_times =
      key "filledAt"
      ∷ inside "fill" "filledAt"
      ∷ key "fillTime"
      ∷ key "cancelledAt"
      ∷ key "rejectedAt"
      ∷ key "dateExecuted"
      ∷ key "dateModified"
      ∷ key "dateCreated"
      ∷ key "created"
      ∷ key "createdAt"
      ∷ [];
}

abbrev or_else : {A : Type 0} → Option A → Option A → Option A
or_else none later = later
or_else (some a) later = some a

-- The first place whose value reads as something.
unfoldable pub first_reading :
    {Num Int A : Type 0} → (Json Num Int → Option A) → Json Num Int → List Place → Option A
unfolding at
first_reading read payload [] = none
first_reading read payload (path ∷ paths) =
    or_else (read (at payload path)) (first_reading read payload paths)

module _ (D : Decimals) (C : Conversions (Decimals.Num D))
    (R : RecordConversions (Decimals.Num D) (Conversions.Int C))
    (parse : Parser (Decimals.Num D)) where
  open D use {Num}
  open C use {Int, strip}
  open R use {str_of}

  -- `value is None or value == "" or isinstance(value, bool)`
  abbrev no_decimal : Json Num Int → Bool
  no_decimal null = true
  no_decimal (boolean _) = true
  no_decimal (text t) = str_eq t ""
  no_decimal (integer _) = false
  no_decimal (real _) = false
  no_decimal (array _) = false
  no_decimal (object _) = false

  -- `_to_decimal`
  unfoldable pub to_decimal : Json Num Int → Option (AnyDecimal Num)
  to_decimal value = if no_decimal value then none else parse (str_of value)

  abbrev unless_empty : String → Option String
  unless_empty t = if count t == 0 then none else some t

  abbrev pub text_of : Json Num Int → Option String
  text_of value = if is_none value then none else unless_empty (strip (str_of value))

  -- `_first_decimal`, `_first_text` and `_first_datetime`.
  unfoldable pub first_decimal : Json Num Int → List Place → Option (AnyDecimal Num)
  unfolding to_decimal first_reading
  first_decimal payload paths = first_reading to_decimal payload paths

  unfoldable pub first_text : Json Num Int → List Place → Option String
  unfolding first_reading
  first_text payload paths = first_reading text_of payload paths

  unfoldable pub first_datetime : Json Num Int → List Place → Option ℕ
  unfolding first_reading
  first_datetime payload paths = first_reading (when D C R) payload paths

  abbrev snapshot_with :
      Paths → String → Json Num Int → Option String → Option (BrokerOrderSnapshot Num Int)
  snapshot_with paths environment payload none = none
  snapshot_with paths environment payload (some id) = some (record {
    broker = "trading212";
    environment = environment;
    broker_order_id = id;
    ticker = first_text payload paths.tickers;
    status = first_text payload paths.statuses;
    side = first_text payload paths.sides;
    order_type = first_text payload paths.order_types;
    quantity = first_decimal payload paths.quantities;
    filled_quantity = first_decimal payload paths.filled_quantities;
    average_fill_price = first_decimal payload paths.average_fill_prices;
    currency = first_text payload paths.currencies;
    created_at = first_datetime payload paths.creation_times;
    filled_at = first_datetime payload paths.fill_times;
    raw = payload;
  })

  -- `_map_order_payload`; none where it raises `ValueError`.
  unfoldable pub map_order_payload :
      Paths → String → Json Num Int → Option (BrokerOrderSnapshot Num Int)
  unfolding first_text first_decimal first_datetime
  map_order_payload paths environment payload =
      snapshot_with paths environment payload (first_text payload paths.ids)

  unfoldable pub map_trading212_history_order_to_snapshot :
      String → Json Num Int → Option (BrokerOrderSnapshot Num Int)
  unfolding map_order_payload
  map_trading212_history_order_to_snapshot environment payload =
      map_order_payload history_paths environment payload
