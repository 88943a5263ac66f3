-- ===== src/Execution/Reconcile.antt =====
-- apps/api/app/execution/engine.py: `reconcile_order`. Latencies, execution quality and alerts are
-- left out, and so are the amounts in the payloads.
use Prim.Native.String.{◌++◌}
use t212_cashguard.Common.{
  ℕ, Bool, true, false, not, ◌&&◌, ◌||◌, Option, none, some, String, [], ◌∷◌, leb, str_eq,
  if◌then◌else◌,
}
use t212_cashguard.Common.Numeric.{Decimals, zero_of}
use t212_cashguard.Store.{Order}
use t212_cashguard.Lifecycle.{
  Status, known, accepted, submission_unknown, filled, cancelled, is_active_status,
}
use t212_cashguard.Lifecycle.Evidence.{status_eq}
use t212_cashguard.Broker.{Conversions}
use t212_cashguard.Broker.Record.{RecordConversions, some_or}
use t212_cashguard.Broker.Record.Verdict.{FinalRecord, final_record, open_record}
use t212_cashguard.Execution.{
  Session, Method, Result, done, failed, database_error, ◌>>◌, pass, assign, transition,
}
use t212_cashguard.Execution.Asking.{
  Reads, Reading, found, no_record, untrusted_record, unread, read_broker_record,
}

-- `a or b` of times.
abbrev pub time_or : Option ℕ → ℕ → Option ℕ
time_or none t = some t
time_or (some s) t = some s

abbrev pub is_working : String → Bool
is_working word = str_eq word "WORKING" || str_eq word "PENDING"

abbrev within : ℕ → ℕ → ℕ → Option ℕ
within sent_at reported now =
    if leb sent_at reported && leb reported now then some reported else none

-- `bool(order.broker_order_id)`
abbrev pub has_id : Option String → Bool
has_id none = false
has_id (some id) = not (str_eq id "")

module _ {N : Type 0} where
  abbrev pub accept_unknown : String → Method N (Unit {0})
  accept_unknown broker_status s =
      (do
        transition (known accepted) "unknown_submission_resolved"
            "broker reports the order as working"
            (("broker_status", some broker_status)
              ∷ ("broker_order_id", s.order.broker_order_id)
              ∷ [])
        assign λ now order. record order { error_message = none })
        s

  abbrev pub resolves_unknown : Order N → String → Bool
  resolves_unknown order broker_status =
      status_eq order.status (known submission_unknown) && is_working broker_status

  abbrev pub unless_unknown : Bool → String → Method N (Unit {0})
  unless_unknown true broker_status = accept_unknown broker_status
  unless_unknown false broker_status = pass

  -- `_record_still_open`
  unfoldable pub record_still_open : String → Method N (Unit {0})
  unfolding transition
  record_still_open broker_status s =
      (do
        unless_unknown (resolves_unknown s.order broker_status) broker_status
        assign λ now order. record order { last_reconciled_at = some now })
        s

  -- `_believable_fill_time`
  unfoldable pub believable_fill_time : Order N → Option ℕ → ℕ → ℕ
  believable_fill_time order none now = now
  believable_fill_time order (some reported) now =
      some_or (within (some_or order.submitted_at order.created_at) reported now) now

module _ (D : Decimals) (C : Conversions (Decimals.Num D))
    (R : RecordConversions (Decimals.Num D) (Conversions.Int C)) where
  open D use {Num, less}
  open C use {Int}

  abbrev pub known_fill : Order Num → Num
  known_fill order = some_or order.filled_quantity (zero_of D)

  -- The amount and the price that are kept.
  unfoldable pub kept_fill : Order Num → FinalRecord Num → Num × Option Num
  kept_fill order r =
      if status_eq r.order_status (known filled)
      then (order.quantity, r.fill_price)
      else if less r.filled_quantity (known_fill order)
      then (known_fill order, order.avg_fill_price)
      else (r.filled_quantity, r.fill_price)

  abbrev pub price_after : Num → Option Num → Option Num → Option Num
  price_after filled_amount none old = old
  price_after filled_amount (some price) old =
      if less (zero_of D) filled_amount then some price else old

  -- What is written after the transition.
  unfoldable pub write_final : FinalRecord Num → (Num × Option Num) → ℕ → Order Num → Order Num
  unfolding believable_fill_time
  write_final r (filled_amount, price) now order =
      let order' : Order Num = record order {
        filled_quantity = some filled_amount;
        avg_fill_price = price_after filled_amount price order.avg_fill_price;
        last_reconciled_at = some now;
      } in
      if status_eq order.status (known filled)
      then record order' {
        filled_at = time_or order.filled_at (believable_fill_time order r.filled_at now);
      }
      else if status_eq order.status (known cancelled)
      then record order' { cancelled_at = time_or order.cancelled_at now }
      else record order' { rejected_at = time_or order.rejected_at now }

  abbrev pub final_event : Status → String
  final_event status =
      if status_eq status (known filled) then "reconciled_fill" else "reconciled_status"

  -- `_record_final_state`
  unfoldable pub record_final_state : FinalRecord Num → String → Method Num (Unit {0})
  unfolding transition kept_fill write_final
  record_final_state r source s =
      (do
        transition r.order_status (final_event r.order_status)
            ("reconciliation returned " ++ r.broker_status)
            (("broker_status", some r.broker_status) ∷ ("source", some source) ∷ [])
        assign (write_final r (kept_fill s.order r)))
        s

  -- `except Exception` around the writing; a reason is kept for a refused record only.
  abbrev pub caught : Result (Unit {0}) × Session Num → Result (Option String) × Session Num
  caught (_, s) = (done none, s)

  abbrev pub act_on : Reading Num → Method Num (Option String)
  act_on (found (final_record r) source) s = caught (record_final_state r source s)
  act_on (found (open_record status) source) s = caught (record_still_open status s)
  act_on no_record s = (done (some "no_broker_record"), s)
  act_on (untrusted_record e) s = (done (some e.reason), s)
  act_on (unread word) s = (done none, s)

  abbrev pub may_reconcile : Order Num → Bool
  may_reconcile order =
      is_active_status order.status && has_id order.broker_order_id && not order.is_dry_run

  -- The flush at the end, which raises an exception of the database or does not.
  abbrev pub after_flush :
      Option String → Result (Option String) × Session Num → Result (Option String) × Session Num
  after_flush (some error_type) (done _, s) = (failed (database_error error_type), s)
  after_flush (some error_type) (failed e, s) = (failed e, s)
  after_flush none run = run

  -- `reconcile_order`, with `unsettled_reason` as its result. `database` is the type of what the
  -- flush raises.
  unfoldable pub reconcile_order : Reads Num Int → Option String → Method Num (Option String)
  unfolding read_broker_record record_final_state record_still_open
  reconcile_order reads database s =
      if may_reconcile s.order
      then after_flush database (act_on (read_broker_record D C R s.order reads) s)
      else (done none, s)
