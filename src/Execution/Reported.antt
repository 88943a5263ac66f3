-- ===== src/Execution/Reported.antt =====
-- apps/api/app/execution/engine.py: what `cancel_many` says of the orders it reports.
use mathlib.Core.Path.{subst}
use t212_cashguard.Common.{
  ◌≡◌, inl, inr, sym, ◌∙◌, ap, Bool, true, false, Option, none, String, List, [], ◌∷◌, All,
}
use t212_cashguard.Common.Numeric.{Decimals, IsOrdered}
use t212_cashguard.Store.{Order}
use t212_cashguard.Broker.{Conversions}
use t212_cashguard.Broker.Record.{RecordConversions}
use t212_cashguard.Execution.{
  Session, Result, Raised, done, failed, bad_value, bad_transition, outcome_rewritten,
  safety_violation, decimal_error, database_error, cancellation_failed, cancellation_unconfirmed,
}
use t212_cashguard.Execution.Cancel.{send_cancel}
use t212_cashguard.Execution.Reconciled.{WithinQuantity}
use t212_cashguard.Execution.Requested.{Kept, SendEnds, send-Ends}
use t212_cashguard.Execution.Cancelled.{FinallyRead, Confirms, read-Confirms}
use t212_cashguard.Execution.Batch.{
  Listed, Entry, CancelBatch, Requests, Confirmations, after_result, empty_batch, entry_of,
  request_all, unless_again, roll_back, after_confirm, after_resend, resend_one, resend_all,
  confirm_all, confirm_batch, cancel_many,
}
use t212_cashguard.Execution.Asked.{
  All-append, order_of, IsKept, IsOpen, IsOpenFor, IsTrue, put_ended-IsTrue, IsAsked, IsAskedOrNot,
  AreTrue, AreWithin, request_all-AreTrue,
}

module _ (D : Decimals) (C : Conversions (Decimals.Num D))
    (R : RecordConversions (Decimals.Num D) (Conversions.Int C))
    (ordered : IsOrdered (Decimals.Num D) (Decimals.less D)) where
  open D use {Num}
  open C use {Int}

  -- The same for the orders that the broker still lists as working.
  abbrev BothTrue : Confirmations Num Int → Type 0
  BothTrue (b, working) = IsTrue D C R ordered b × All (IsOpen D C R ordered) working

  same-IsKept :
      (l : Listed Num Int) (s : Session Num)
      → s.order ≡ l.locked
      → IsKept D C R ordered (entry_of l s)
  same-IsKept l s same =
      (ap (λ o. o.status) same, ap (λ o. o.filled_quantity) same, ap (λ o. o.broker_order_id) same)

  roll_back-BothTrue :
      (e : Entry Num Int) (batch : Confirmations Num Int)
      → IsAsked D C R ordered e
      → BothTrue batch
      → BothTrue (roll_back e batch)
  roll_back-BothTrue e (b, working) (same, active, _) ((c, f, u, x), w) =
      let kept = same-IsKept e.asked_for e.reached_session same in
      ((c, f, All-append (IsOpenFor D C R ordered) _ (e, "local_error") u (kept, active), x), w)

  unless_again-BothTrue :
      (again : Bool) (e : Entry Num Int) (reason : String) (batch : Confirmations Num Int)
      → IsOpen D C R ordered e
      → BothTrue batch
      → BothTrue (unless_again again e reason batch)
  unless_again-BothTrue true e reason (b, working) o (t, w) =
      (t, All-append (IsOpen D C R ordered) _ e w o)
  unless_again-BothTrue false e reason (b, working) o ((c, f, u, x), w) =
      ((c, f, All-append (IsOpenFor D C R ordered) _ (e, reason) u o, x), w)

  confirmed_same :
      (order : Order Num) (e : Raised) (s : Session Num)
      → Confirms D C R ordered order (failed e, s)
      → s.order ≡ order
  confirmed_same order e s (inl (_, same)) = same
  confirmed_same order e s (inr (q, _)) = absurd (cc)

  confirmed_end :
      (order : Order Num) (s : Session Num)
      → Confirms D C R ordered order (done tt, s)
      → FinallyRead D C R ordered order s.order
  confirmed_end order s (inl ((e, q), _)) = absurd (cc)
  confirmed_end order s (inr (_, read)) = read

  after_confirm-BothTrue :
      (e : Entry Num Int) (run : Result (Unit {0}) × Session Num) (batch : Confirmations Num Int)
      → IsAsked D C R ordered e
      → Confirms D C R ordered (order_of D C R ordered e) run
      → BothTrue batch
      → BothTrue (after_confirm e run batch)
  unfolding after_confirm
  after_confirm-BothTrue e (done _, s) (b, working) (same, _, _) ends (t, w) =
      let read =
        subst (λ o. FinallyRead D C R ordered o s.order) same
          (confirmed_end (order_of D C R ordered e) s ends) in
      (put_ended-IsTrue D C R ordered (entry_of e.asked_for s) b t (inr read), w)
  after_confirm-BothTrue e (failed (cancellation_unconfirmed reason status again), s) batch
        (same, active, _) ends h =
      unless_again-BothTrue again (entry_of e.asked_for s) reason batch
        (
          same-IsKept e.asked_for s (confirmed_same (order_of D C R ordered e) _ s ends ∙ same),
          active,
        )
        h
  after_confirm-BothTrue e (failed bad_value, s) batch a ends h = roll_back-BothTrue e batch a h
  after_confirm-BothTrue e (failed bad_transition, s) batch a ends h =
      roll_back-BothTrue e batch a h
  after_confirm-BothTrue e (failed outcome_rewritten, s) batch a ends h =
      roll_back-BothTrue e batch a h
  after_confirm-BothTrue e (failed (safety_violation code), s) batch a ends h =
      roll_back-BothTrue e batch a h
  after_confirm-BothTrue e (failed decimal_error, s) batch a ends h = roll_back-BothTrue e batch a h
  after_confirm-BothTrue e (failed (database_error error_type), s) batch a ends h =
      roll_back-BothTrue e batch a h
  after_confirm-BothTrue e (failed cancellation_failed, s) batch a ends h =
      roll_back-BothTrue e batch a h

  confirm_all-BothTrue :
      (asked : List (Entry Num Int × Bool)) (stopped : Option String)
      (batch : Confirmations Num Int)
      → All (IsAskedOrNot D C R ordered) asked
      → BothTrue batch
      → BothTrue (confirm_all D C R asked stopped batch).0
  unfolding confirm_all
  confirm_all-BothTrue [] stopped batch q h = h
  confirm_all-BothTrue ((e, accepted) ∷ rest) stopped batch (a, q) h =
      let (same, _, within) = a in
      let ends =
        read-Confirms D C R ordered
          (record { stopped_because = stopped; has_time = e.asked_for.time_left })
          e.asked_for.answers accepted e.reached_session
          (subst (WithinQuantity D C R ordered) (sym same) within) in
      confirm_all-BothTrue rest _ _ q (after_confirm-BothTrue e _ batch a ends h)

  still-Kept :
      (before order after_it : Order Num)
      → Kept before order
      → Kept order after_it
      → Kept before after_it
  still-Kept before order after_it (a, b, c) (x, y, z) = (x ∙ a, y ∙ b, z ∙ c)

  sent-Kept :
      (order : Order Num) (run : Result (Unit {0}) × Session Num)
      → SendEnds order run
      → Kept order run.1.order
  unfolding SendEnds
  sent-Kept order run (inl (_, same)) =
      (ap (λ o. o.status) same, ap (λ o. o.filled_quantity) same, ap (λ o. o.broker_order_id) same)
  sent-Kept order run (inr (_, k)) = k

  resent-IsTrue :
      (e : Entry Num Int) (run : Result (Unit {0}) × Session Num) (b : CancelBatch Num Int)
      → IsOpen D C R ordered e
      → SendEnds (order_of D C R ordered e) run
      → IsTrue D C R ordered b
      → IsTrue D C R ordered (after_resend e.asked_for run b).1
  resent-IsTrue e (done _, s) b (k, active) ends (c, f, u, x) =
      let kept =
        still-Kept e.asked_for.locked (order_of D C R ordered e) s.order k
          (sent-Kept (order_of D C R ordered e) _ ends) in
      (
        c,
        f,
        All-append (IsOpenFor D C R ordered) _ (entry_of e.asked_for s, "asked_again_still_working")
            u (kept, active),
        x,
      )
  resent-IsTrue e (failed _, s) b (k, active) ends (c, f, u, x) =
      let kept =
        still-Kept e.asked_for.locked (order_of D C R ordered e) s.order k
          (sent-Kept (order_of D C R ordered e) _ ends) in
      (c, f, u, All-append (IsKept D C R ordered) _ (entry_of e.asked_for s) x kept)

  resend_one-IsTrue :
      (stop : Bool) (e : Entry Num Int) (b : CancelBatch Num Int)
      → IsOpen D C R ordered e
      → IsTrue D C R ordered b
      → IsTrue D C R ordered (resend_one stop e b).1
  unfolding resend_one
  resend_one-IsTrue true e b o (c, f, u, x) =
      (c, f, All-append (IsOpenFor D C R ordered) _ (e, "still_open_at_broker") u o, x)
  resend_one-IsTrue false e b o t =
      resent-IsTrue e (send_cancel e.asked_for.second_request e.reached_session) b o
        (send-Ends e.asked_for.second_request e.reached_session) t

  resend_all-IsTrue :
      (es : List (Entry Num Int)) (stop : Bool) (b : CancelBatch Num Int)
      → All (IsOpen D C R ordered) es
      → IsTrue D C R ordered b
      → IsTrue D C R ordered (resend_all es (stop, b))
  unfolding resend_all
  resend_all-IsTrue [] stop b w t = t
  resend_all-IsTrue (e ∷ es) stop b (o, w) t =
      resend_all-IsTrue es (resend_one stop e b).0 (resend_one stop e b).1 w
        (resend_one-IsTrue stop e b o t)

  abbrev IsTrueIfDone : Result (CancelBatch Num Int) → Type 0
  IsTrueIfDone (done b) = IsTrue D C R ordered b
  IsTrueIfDone (failed e) = Unit

  confirmed-IsTrueIfDone :
      (r : Result (Requests Num Int))
      → AreTrue D C R ordered r
      → IsTrueIfDone (after_result r (λ requests. done (confirm_batch D C R requests)))
  confirmed-IsTrueIfDone (done (b, asked)) (t, q) =
      let (true_so_far, open_still) = confirm_all-BothTrue asked none (b, []) q (t, tt) in
      resend_all-IsTrue (confirm_all D C R asked none (b, [])).0.1 _ _ open_still true_so_far
  confirmed-IsTrueIfDone (failed e) h = tt

  -- What a batch of cancellations says is true of the orders, none of which is filled beyond its
  -- quantity: those it calls cancelled are cancelled; those it calls finished have ended, or a final
  -- record of them has been read; those it calls unconfirmed are open, with the status, the amount
  -- and the id as they were; and so are those, but for being open, whose request it says failed.
  pub cancel_many-IsTrue :
      (orders : List (Listed Num Int)) (batch : CancelBatch Num Int)
      → AreWithin D C R ordered orders
      → cancel_many D C R orders ≡ done batch
      → IsTrue D C R ordered batch
  unfolding cancel_many
  cancel_many-IsTrue orders batch h e = subst IsTrueIfDone e (
      confirmed-IsTrueIfDone (request_all orders (empty_batch, []))
        (request_all-AreTrue D C R ordered orders empty_batch [] h (tt, tt, tt, tt) tt))
