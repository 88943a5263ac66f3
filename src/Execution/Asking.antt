-- ===== src/Execution/Asking.antt =====
-- apps/api/app/execution/engine.py: `_read_broker_record`, with `has_older_records` of
-- broker_record.py. What the broker's three reads answer is an argument; the evidence kept with the
-- order is left out.
use t212_cashguard.Common.{
  ℕ, Bool, true, false, not, ◌||◌, Option, none, some, String, List, leb, length, count, ◌==◌,
  str_eq, if◌then◌else◌,
}
use t212_cashguard.Common.Numeric.{Decimals, zero_of}
use t212_cashguard.Store.{Order}
use t212_cashguard.Broker.{
  Json, null, boolean, integer, real, text, array, object, nil, item, Fields, end, field,
  Conversions, get,
}
use t212_cashguard.Broker.Record.{
  Checked, fine, refused, Refusal, LocalOrder, RecordConversions, num_eq,
}
use t212_cashguard.Broker.Record.Verdict.{
  FinalRecord, Verdict, final_record, interpret_open_order_read,
}
use t212_cashguard.Broker.Record.History.{history_items, interpret_history, require_reads_agree}
use t212_cashguard.Execution.Answer.{as_local_order}

-- The answer to "what is order <id>?", and a page of the history. An exception has the word that
-- `read_failure_reason` of cancellation.py gives for its type, or it has the HTTP status 404: there
-- is no such order.
pub data OpenAnswer (Num Int : Type 0) : Type 0 where
  listed : Json Num Int → OpenAnswer Num Int
  no_such_order : OpenAnswer Num Int
  read_failed : String → OpenAnswer Num Int

pub data PageAnswer (Num Int : Type 0) : Type 0 where
  page : Json Num Int → PageAnswer Num Int
  page_failed : String → PageAnswer Num Int

pub record Reads (Num Int : Type 0) : Type 0 where
  pub of_order : OpenAnswer Num Int
  pub newest : PageAnswer Num Int
  pub of_ticker : PageAnswer Num Int

-- What reading the order's record ends in: a verdict with its source, no record, `UntrustedRecord`,
-- or another exception.
pub data Reading (Num : Type 0) : Type 0 where
  found : Verdict Num → String → Reading Num
  no_record : Reading Num
  untrusted_record : Refusal Num → Reading Num
  unread : String → Reading Num

-- `"nextPagePath" in history`
abbrev has_key : {Num Int : Type 0} → String → Fields Num Int → Bool
has_key key end = false
has_key key (field k v rest) = str_eq k key || has_key key rest

module _ (D : Decimals) (C : Conversions (Decimals.Num D))
    (R : RecordConversions (Decimals.Num D) (Conversions.Int C)) where
  open D use {Num}
  open C use {Int, num_of_int}

  -- `bool(value)`
  unfoldable pub bool_of : Json Num Int → Bool
  bool_of null = false
  bool_of (boolean b) = b
  bool_of (integer n) = not (num_eq D C R (num_of_int n) (zero_of D))
  bool_of (real none) = true
  bool_of (real (some x)) = not (num_eq D C R x (zero_of D))
  bool_of (text t) = not (count t == 0)
  bool_of (array nil) = false
  bool_of (array (item _ _)) = true
  bool_of (object end) = false
  bool_of (object (field _ _ _)) = true

  abbrev as_long_as : ℕ → Checked Num (List (Json Num Int)) → Checked Num Bool
  as_long_as page_size (fine items) = fine (leb page_size (length items))
  as_long_as page_size (refused e) = refused e

  -- `has_older_records`
  unfoldable pub has_older_records : Json Num Int → ℕ → Checked Num Bool
  unfolding bool_of history_items
  has_older_records (object fields) page_size =
      if has_key "nextPagePath" fields
      then fine (bool_of (get "nextPagePath" fields))
      else as_long_as page_size (history_items D C R (object fields))
  has_older_records null page_size = as_long_as page_size (history_items D C R null)
  has_older_records (boolean b) page_size = as_long_as page_size (history_items D C R (boolean b))
  has_older_records (integer n) page_size = as_long_as page_size (history_items D C R (integer n))
  has_older_records (real x) page_size = as_long_as page_size (history_items D C R (real x))
  has_older_records (text t) page_size = as_long_as page_size (history_items D C R (text t))
  has_older_records (array items) page_size =
      as_long_as page_size (history_items D C R (array items))

  -- `HISTORY_PAGE_SIZE`
  abbrev history_page_size : ℕ
  history_page_size = 50

  -- After the searches.
  abbrev not_found : Option (Refusal Num) → Reading Num
  not_found none = no_record
  not_found (some e) = untrusted_record e

  abbrev agreed : FinalRecord Num → Checked Num (Unit {0}) → Reading Num
  agreed final (fine _) = found (final_record final) "order_history"
  agreed final (refused e) = untrusted_record e

  abbrev found_in_history : Option (Refusal Num) → FinalRecord Num → Reading Num
  found_in_history none final = found (final_record final) "order_history"
  found_in_history (some e) final = agreed final (require_reads_agree D C R e final)

  -- One search, and the reading that follows where older records may exist.
  abbrev after_page : Option (Refusal Num) → Checked Num Bool → Reading Num → Reading Num
  after_page incomplete (fine true) next = next
  after_page incomplete (fine false) next = not_found incomplete
  after_page incomplete (refused e) next = untrusted_record e

  abbrev judge_page :
      Option (Refusal Num)
      → Json Num Int
      → Checked Num (Option (FinalRecord Num × List (Json Num Int)))
      → Reading Num
      → Reading Num
  judge_page incomplete history (refused e) next = untrusted_record e
  judge_page incomplete history (fine (some (final, _))) next = found_in_history incomplete final
  judge_page incomplete history (fine none) next =
      after_page incomplete (has_older_records history history_page_size) next

  abbrev search :
      LocalOrder Num → Option (Refusal Num) → PageAnswer Num Int → Reading Num → Reading Num
  search facts incomplete (page_failed word) next = unread word
  search facts incomplete (page history) next =
      judge_page incomplete history (interpret_history D C R history facts) next

  unfoldable pub search_history :
      LocalOrder Num → Option (Refusal Num) → Reads Num Int → Reading Num
  unfolding has_older_records interpret_history require_reads_agree
  search_history facts incomplete reads =
      search facts incomplete reads.newest
        (search facts incomplete reads.of_ticker (not_found incomplete))

  abbrev judge_listed : LocalOrder Num → Reads Num Int → Checked Num (Verdict Num) → Reading Num
  judge_listed facts reads (fine verdict) = found verdict "open_orders"
  judge_listed facts reads (refused e) =
      if e.lacks_detail then search_history facts (some e) reads else untrusted_record e

  abbrev ask : LocalOrder Num → Reads Num Int → OpenAnswer Num Int → Reading Num
  ask facts reads (read_failed word) = unread word
  ask facts reads no_such_order = search_history facts none reads
  ask facts reads (listed answer) =
      judge_listed facts reads (interpret_open_order_read D C R answer facts)

  abbrev ask_about : Reads Num Int → Option (LocalOrder Num) → Reading Num
  ask_about reads none = unread "broker_read_failed"
  ask_about reads (some facts) = ask facts reads reads.of_order

  abbrev ask_by_id : Order Num → Reads Num Int → Option String → Reading Num
  ask_by_id order reads none = no_record
  ask_by_id order reads (some id) =
      if str_eq id "" then no_record else ask_about reads (as_local_order D C R order id)

  -- `_read_broker_record`
  unfoldable pub read_broker_record : Order Num → Reads Num Int → Reading Num
  unfolding search_history interpret_open_order_read as_local_order
  read_broker_record order reads = ask_by_id order reads order.broker_order_id
