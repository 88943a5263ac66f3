-- ===== src/Broker/Record/History.antt =====
-- apps/api/app/execution/broker_record.py: the pages of the order history.
use t212_cashguard.Common.{
  Bool, true, false, not, Option, none, some, String, List, [], ◌∷◌, select, if◌then◌else◌,
}
use t212_cashguard.Common.Numeric.{Decimals}
use t212_cashguard.Broker.{
  Json, null, boolean, integer, real, text, array, object, Items, nil, item, Conversions, get,
  usable_order_id,
}
use t212_cashguard.Broker.Record.{
  Refusal, Checked, fine, ◌>>=◌, ◌>>◌, refuse, refuse_when, LocalOrder, Reported, RecordConversions,
  num_eq, first,
}
use t212_cashguard.Broker.Record.Reading.{id_paths, differs_from, is_mapping, read}
use t212_cashguard.Broker.Record.Verdict.{FinalRecord, Verdict, final_record, open_record, judge}

module _ (D : Decimals) (C : Conversions (Decimals.Num D))
    (R : RecordConversions (Decimals.Num D) (Conversions.Int C)) where
  open D use {Num, less, literal, add, mul, div, quantize}
  open C use {Int}

  -- The entries of a list that are mappings.
  unfoldable pub mappings : Items Num Int → List (Json Num Int)
  mappings nil = []
  mappings (item entry rest) =
      let others = mappings rest in if is_mapping D C R entry then entry ∷ others else others

  abbrev items_of : Json Num Int → Checked Num (List (Json Num Int))
  items_of (array items) = fine (mappings items)
  items_of null = refuse "history_not_understood"
  items_of (boolean _) = refuse "history_not_understood"
  items_of (integer _) = refuse "history_not_understood"
  items_of (real _) = refuse "history_not_understood"
  items_of (text _) = refuse "history_not_understood"
  items_of (object _) = refuse "history_not_understood"

  unfoldable pub history_items : Json Num Int → Checked Num (List (Json Num Int))
  unfolding mappings
  history_items (object fields) = items_of (get "items" fields)
  history_items (array items) = fine (mappings items)
  history_items null = refuse "history_not_understood"
  history_items (boolean _) = refuse "history_not_understood"
  history_items (integer _) = refuse "history_not_understood"
  history_items (real _) = refuse "history_not_understood"
  history_items (text _) = refuse "history_not_understood"

  abbrev pub carries_id : String → Json Num Int → Bool
  carries_id id entry = not (differs_from id (usable_order_id C (first entry id_paths)))

  unfoldable pub records_of : Json Num Int → String → Checked Num (List (Json Num Int))
  unfolding history_items first
  records_of history id = do items ← history_items history; fine (select (carries_id id) items)

  -- `[_read(item, order) for item in found]`
  unfoldable pub read_all : List (Json Num Int) → LocalOrder Num → Checked Num (List (Reported Num))
  read_all [] order = fine []
  read_all (entry ∷ entries) order = do
    part ← read D C R entry order
    parts ← read_all entries order
    fine (part ∷ parts)

  abbrev pub only_final :
      List (Json Num Int)
      → Verdict Num
      → Checked Num (Option (FinalRecord Num × List (Json Num Int)))
  only_final found (final_record r) = fine (some (r, found))
  only_final found (open_record word) = refuse "history_record_not_final"

  abbrev pub of_found :
      List (Json Num Int)
      → LocalOrder Num
      → Checked Num (Option (FinalRecord Num × List (Json Num Int)))
  of_found [] order = fine none
  of_found (entry ∷ entries) order = do
    parts ← read_all (entry ∷ entries) order
    verdict ← judge D C R parts order true
    only_final (entry ∷ entries) verdict

  unfoldable pub interpret_history :
      Json Num Int → LocalOrder Num → Checked Num (Option (FinalRecord Num × List (Json Num Int)))
  unfolding records_of read_all judge
  interpret_history history order = do
    found ← records_of history order.broker_order_id
    of_found found order

  abbrev other_amount : Option Num → Num → Bool
  other_amount none amount = false
  other_amount (some stated) amount = not (num_eq D C R amount stated)

  unfoldable pub require_reads_agree : Refusal Num → FinalRecord Num → Checked Num (Unit {0})
  require_reads_agree incomplete r = do
    refuse_when (differs_from r.broker_status incomplete.broker_status) "reads_disagree"
    refuse_when (other_amount incomplete.filled_quantity r.filled_quantity) "reads_disagree"
