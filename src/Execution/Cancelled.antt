-- ===== src/Execution/Cancelled.antt =====
-- apps/api/app/execution/engine.py: what `cancel_order` may make of an order.
use mathlib.Core.Path.{subst}
use t212_cashguard.Common.{
  ◌≡◌, ◌⊎◌, inl, inr, refl, ap, sym, Bool, true, false, Option, none, some, String, arith,
  Bool-cases, if◌then◌else◌,
}
use t212_cashguard.Common.Numeric.{Decimals, IsOrdered}
use t212_cashguard.Store.{Order}
use t212_cashguard.Lifecycle.{known, cancelled, is_active_status, is_terminal_status}
use t212_cashguard.Broker.{Conversions}
use t212_cashguard.Broker.Record.{RecordConversions}
use t212_cashguard.Broker.Record.Verdict.{FinalRecord, Verdict, final_record, open_record}
use t212_cashguard.Execution.{Session, Result, Raised, done, failed, continue}
use t212_cashguard.Execution.Asking.{
  Reads, Reading, found, no_record, untrusted_record, unread, read_broker_record,
}
use t212_cashguard.Execution.Reconciled.{Ended, WithinQuantity, final-Ended}
use t212_cashguard.Execution.Cancel.{
  CancelReads, AfterCancel, record_read, not_read, send_cancel, request_cancel, may_ask_again,
  unless_stopped, read_after_cancel, confirm_cancel, ask_again, Meets, first_read, second_read,
  resend, confirm, cancel_order,
}
use t212_cashguard.Execution.Requested.{
  Kept, SendEnds, send-Ends, LocallyCancelled, RequestEnds, request-Ends,
}

module _ (D : Decimals) (C : Conversions (Decimals.Num D))
    (R : RecordConversions (Decimals.Num D) (Conversions.Int C))
    (ordered : IsOrdered (Decimals.Num D) (Decimals.less D)) where
  open D use {Num}
  open C use {Int}

  -- A final record of the order that the broker's reads give.
  abbrev pub FinallyRead : Order Num → Order Num → Type 0
  FinallyRead before order =
      (reads : Reads Num Int) × (r : FinalRecord Num) × (source : String) × (read_broker_record D C
          R before reads
        ≡ found (final_record r) source)
      × Ended D C R ordered before r order

  -- The ways in which a cancellation ends.
  abbrev pub Cancels : Order Num → Result (Unit {0}) × Session Num → Type 0
  Cancels stored run =
      (((e : Raised) × (run.0 ≡ failed e)) × Kept stored run.1.order)
      ⊎ ((run.0 ≡ done tt)
          × (((is_active_status stored.status ≡ false) × (run.1.order ≡ stored))
              ⊎ LocallyCancelled stored run.1.order
              ⊎ FinallyRead stored run.1.order))

  -- What a read after the request gives is the broker's record, or no answer.
  read-Found :
      (limits : CancelReads) (answers : Reads Num Int) (order : Order Num) (verdict : Verdict Num)
      (source : String)
      → (read_after_cancel D C R limits answers order).0 ≡ record_read verdict source
      → read_broker_record D C R order answers ≡ found verdict source
  unfolding read_after_cancel
  read-Found limits answers order verdict source h =
      of_reading limits.stopped_because (read_broker_record D C R order answers) h
    where
      of_reading :
          (stopped : Option String) (reading : Reading Num)
          → (unless_stopped D C R limits stopped reading).0 ≡ record_read verdict source
          → reading ≡ found verdict source
      of_reading (some word) reading h = absurd (cc)
      of_reading none (found v t) h = ground arith
      of_reading none no_record h = absurd (ground arith)
      of_reading none (untrusted_record e) h = absurd (ground arith)
      of_reading none (unread word) h = absurd (ground arith)

  -- A confirmation either raises and leaves the order as it was, or ends it by a final record.
  abbrev pub Confirms : Order Num → Result (Unit {0}) × Session Num → Type 0
  Confirms order run =
      (((e : Raised) × (run.0 ≡ failed e)) × (run.1.order ≡ order))
      ⊎ ((run.0 ≡ done tt) × FinallyRead order run.1.order)

  confirmed-Confirms :
      (answers : Reads Num Int) (accepted : Bool) (s : Session Num) (read : AfterCancel Num)
      → WithinQuantity D C R ordered s.order
      → ((verdict : Verdict Num) (source : String)
          → read ≡ record_read verdict source
          → read_broker_record D C R s.order answers ≡ found verdict source)
      → Confirms s.order (confirm_cancel D C R accepted read s)
  unfolding confirm_cancel
  confirmed-Confirms answers accepted s (record_read (final_record r) source) h reads =
      elim (final-Ended D C R ordered r source s h) [
        | inl kept ↦ inl kept
        | inr (q, ended) ↦ inr (q, (answers, r, source, reads _ _ refl, ended))
      ]
  confirmed-Confirms answers accepted s (record_read (open_record word) source) h reads =
      inl ((_, refl), refl)
  confirmed-Confirms answers accepted s (not_read reason) h reads = inl ((_, refl), refl)

  pub read-Confirms :
      (limits : CancelReads) (answers : Reads Num Int) (accepted : Bool) (s : Session Num)
      → WithinQuantity D C R ordered s.order
      → Confirms s.order
          (confirm_cancel D C R accepted (read_after_cancel D C R limits answers s.order).0 s)
  read-Confirms limits answers accepted s h =
      confirmed-Confirms answers accepted s _ h (read-Found limits answers s.order)

  same-Kept : {order before : Order Num} → order ≡ before → Kept before order
  same-Kept e = (ap (λ o. o.status) e, ap (λ o. o.filled_quantity) e, ap (λ o. o.broker_order_id) e)

  Confirms-Cancels :
      (order : Order Num) (run : Result (Unit {0}) × Session Num)
      → Confirms order run
      → Cancels order run
  Confirms-Cancels order run (inl (x, same)) = inl (x, same-Kept same)
  Confirms-Cancels order run (inr (q, read)) = inr (q, inr (inr read))

  resent-Cancels :
      (meets : Meets D C R) (order : Order Num) (run : Result (Unit {0}) × Session Num)
      → WithinQuantity D C R ordered order
      → SendEnds order run
      → Cancels order
          (continue (λ _ s. confirm_cancel D C R true (second_read D C R meets s.order).0 s) run)
  unfolding SendEnds
  resent-Cancels meets order (done _, s) h (inl (_, same)) =
      subst (λ o. Cancels o (confirm_cancel D C R true (second_read D C R meets s.order).0 s)) same
        (Confirms-Cancels s.order (confirm_cancel D C R true (second_read D C R meets s.order).0 s)
          (read-Confirms _ meets.second_reads true s
            (subst (WithinQuantity D C R ordered) (sym same) h)))
  resent-Cancels meets order (done _, s) h (inr ((e, q), k)) = absurd (cc)
  resent-Cancels meets order (failed e, s) h (inl (q, same)) = absurd (cc)
  resent-Cancels meets order (failed e, s) h (inr (_, k)) = inl ((e, refl), k)

  again-Cancels :
      (meets : Meets D C R) (order : Order Num) (run : Result (Unit {0}) × Session Num)
      → WithinQuantity D C R ordered order
      → Confirms order run
      → Cancels order (ask_again D C R (resend D C R meets) run)
  again-Cancels meets order (done _, s) h c = Confirms-Cancels order (done tt, s) c
  again-Cancels meets order (failed e, s) h (inr (q, _)) = absurd (cc)
  again-Cancels meets order (failed e, s) h (inl (_, same)) = elim (Bool-cases (may_ask_again e)) [
    | inl again ↦ rw again (
        subst (λ o. Cancels o (resend D C R meets s)) same
          (resent-Cancels meets s.order (send_cancel meets.second_request s)
            (subst (WithinQuantity D C R ordered) (sym same) h) (send-Ends meets.second_request s)))
    | inr stop ↦ rw stop (inl ((e, refl), same-Kept same))
  ]

  confirm-Cancels :
      (meets : Meets D C R) (accepted : Bool) (s : Session Num)
      → WithinQuantity D C R ordered s.order
      → Cancels s.order (confirm D C R meets accepted s)
  confirm-Cancels meets accepted s h = elim (Bool-cases (is_active_status s.order.status)) [
    | inl a ↦ subst (Cancels s.order) (sym (ap run a)) (
        again-Cancels meets s.order
          (confirm_cancel D C R accepted (first_read D C R meets s.order).0 s) h
          (read-Confirms _ meets.first_reads accepted s h))
    | inr a ↦ subst (Cancels s.order) (sym (ap run a)) (inr (refl, inl (a, refl)))
  ]
    where
      run : Bool → Result (Unit {0}) × Session Num
      run active =
          if active
          then ask_again D C R (resend D C R meets)
              (confirm_cancel D C R accepted (first_read D C R meets s.order).0 s)
          else (done tt, s)

  local_end :
      (meets : Meets D C R) {stored : Order Num} (a : Bool) (s : Session Num)
      → is_active_status s.order.status ≡ false
      → LocallyCancelled stored s.order
      → Cancels stored (confirm D C R meets a s)
  local_end meets a s e l = rw e (inr (refl, inr (inl l)))

  requested-Cancels :
      (meets : Meets D C R) (stored : Order Num) (run : Result Bool × Session Num)
      → WithinQuantity D C R ordered stored
      → RequestEnds stored run
      → Cancels stored (continue (confirm D C R meets) run)
  unfolding RequestEnds is_active_status is_terminal_status
  requested-Cancels meets stored (failed e, s) h (inl (_, k)) = inl ((e, refl), k)
  requested-Cancels meets stored (failed e, s) h (inr (inl (_, q, _))) = absurd (cc)
  requested-Cancels meets stored (failed e, s) h (inr (inr (q, _))) = absurd (cc)
  requested-Cancels meets stored (done a, s) h (inl ((e, q), _)) = absurd (cc)
  requested-Cancels meets stored (done a, s) h (inr (inl (_, _, same))) =
      subst (λ o. Cancels o (confirm D C R meets a s)) same
        (confirm-Cancels meets a s (subst (WithinQuantity D C R ordered) (sym same) h))
  requested-Cancels meets stored (done a, s) h (inr (inr (_, l))) =
      local_end meets a s (ended l.2) l
    where
      ended : s.order.status ≡ known cancelled → is_active_status s.order.status ≡ false
      ended e = rw e refl

  -- Where no flush of the session fails, cancelling an order that is not filled beyond its quantity
  -- either raises, and then its status, what has been filled and its broker id are as stored; or it returns, and then the order had
  -- ended before and is as stored, or it never reached a broker, is no unknown submission and is
  -- cancelled, or a final record of it has been read and has given its status, with no less filled
  -- than was known.
  pub cancel_order-Cancels :
      (meets : Meets D C R) (stored : Order Num) (s : Session Num)
      → WithinQuantity D C R ordered stored
      → Cancels stored (cancel_order D C R meets stored s)
  unfolding cancel_order
  cancel_order-Cancels meets stored s h =
      requested-Cancels meets stored
        (request_cancel stored meets.accepted_before meets.first_request s) h
        (request-Ends stored meets.accepted_before meets.first_request s)
