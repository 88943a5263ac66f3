-- ===== src/Execution/Batch.antt =====
-- apps/api/app/execution/engine.py: `cancel_many`, with the batch of cancellation.py. Each order of
-- the batch has a session of its own. What a batch that raises has staged is left out, and so is what
-- is later written into the payload of `cancel_request_accepted`.
use t212_cashguard.Common.{
  Bool, true, false, Option, none, some, String, List, [], ◌∷◌, ◌++◌, if◌then◌else◌,
}
use t212_cashguard.Common.Numeric.{Decimals}
use t212_cashguard.Store.{Order}
use t212_cashguard.Lifecycle.{known, cancelled, is_active_status, is_terminal_status}
use t212_cashguard.Lifecycle.Evidence.{status_eq}
use t212_cashguard.Broker.{Conversions}
use t212_cashguard.Broker.Record.{RecordConversions}
use t212_cashguard.Execution.{
  Session, Result, done, failed, bad_value, bad_transition, outcome_rewritten, safety_violation,
  decimal_error, database_error, cancellation_failed, cancellation_unconfirmed,
}
use t212_cashguard.Execution.Asking.{Reads}
use t212_cashguard.Execution.Cancel.{
  CancelReads, AfterCancel, send_cancel, request_cancel, read_after_cancel, confirm_cancel,
}

-- An order of the batch, with what its cancellation meets: its row under the lock, whether the broker
-- took a request before, what its requests end in, what its reads answer, and whether there is time
-- left for them.
pub record Listed (N Int : Type 0) : Type 0 where
  pub locked : Order N
  pub session : Session N
  pub accepted_before : Bool
  pub first_request : Option String
  pub answers : Reads N Int
  pub time_left : Bool
  pub second_request : Option String

-- The order in the session after what has been done with it.
pub record Entry (N Int : Type 0) : Type 0 where
  pub asked_for : Listed N Int
  pub reached_session : Session N

pub record CancelBatch (N Int : Type 0) : Type 0 where
  pub cancelled_entries : List (Entry N Int)
  pub finished : List (Entry N Int)
  pub unconfirmed : List (Entry N Int × String)
  pub failed_entries : List (Entry N Int)

abbrev pub after_result : {A B : Type 0} → Result A → (A → Result B) → Result B
after_result (done a) f = f a
after_result (failed e) f = failed e

abbrev pub is_stopped : Option String → Bool
is_stopped none = false
is_stopped (some _) = true

-- The batch, and the orders asked, each with whether the broker took its request now.
abbrev pub Requests : Type 0 → Type 0 → Type 0
Requests N Int = CancelBatch N Int × List (Entry N Int × Bool)

-- The batch, and the orders that the broker still lists as working.
abbrev pub Confirmations : Type 0 → Type 0 → Type 0
Confirmations N Int = CancelBatch N Int × List (Entry N Int)

module _ {N Int : Type 0} where
  abbrev pub empty_batch : CancelBatch N Int
  empty_batch = record {
    cancelled_entries = [];
    finished = [];
    unconfirmed = [];
    failed_entries = [];
  }

  abbrev pub put_cancelled : Entry N Int → CancelBatch N Int → CancelBatch N Int
  put_cancelled e b = record b { cancelled_entries = b.cancelled_entries ++ e ∷ [] }

  abbrev pub put_finished : Entry N Int → CancelBatch N Int → CancelBatch N Int
  put_finished e b = record b { finished = b.finished ++ e ∷ [] }

  abbrev pub put_unconfirmed : Entry N Int → String → CancelBatch N Int → CancelBatch N Int
  put_unconfirmed e reason b = record b { unconfirmed = b.unconfirmed ++ (e, reason) ∷ [] }

  abbrev pub put_failed : Entry N Int → CancelBatch N Int → CancelBatch N Int
  put_failed e b = record b { failed_entries = b.failed_entries ++ e ∷ [] }

  -- An order that has ended.
  unfoldable pub put_ended : Entry N Int → CancelBatch N Int → CancelBatch N Int
  put_ended e b =
      if status_eq e.reached_session.order.status (known cancelled)
      then put_cancelled e b
      else put_finished e b

  abbrev pub entry_of : Listed N Int → Session N → Entry N Int
  entry_of l s = record { asked_for = l; reached_session = s }

  unfoldable pub after_request :
      Listed N Int → Result Bool × Session N → Requests N Int → Result (Requests N Int)
  unfolding put_ended
  after_request l (done accepted, s) (b, asked) =
      if is_active_status s.order.status
      then done (b, asked ++ (entry_of l s, accepted) ∷ [])
      else done (put_ended (entry_of l s) b, asked)
  after_request l (failed cancellation_failed, s) (b, asked) =
      done (put_failed (entry_of l s) b, asked)
  after_request l (failed bad_transition, s) (b, asked) =
      if is_terminal_status s.order.status
      then done (put_finished (entry_of l s) b, asked)
      else failed bad_transition
  after_request l (failed bad_value, s) batch = failed bad_value
  after_request l (failed outcome_rewritten, s) batch = failed outcome_rewritten
  after_request l (failed (safety_violation code), s) batch = failed (safety_violation code)
  after_request l (failed decimal_error, s) batch = failed decimal_error
  after_request l (failed (database_error error_type), s) batch = failed (database_error error_type)
  after_request l (failed (cancellation_unconfirmed reason status again), s) batch =
      failed (cancellation_unconfirmed reason status again)

  unfoldable pub request_all : List (Listed N Int) → Requests N Int → Result (Requests N Int)
  unfolding after_request request_cancel
  request_all [] batch = done batch
  request_all (l ∷ ls) batch =
      after_result
        (after_request l (request_cancel l.locked l.accepted_before l.first_request l.session)
          batch)
        (request_all ls)

  abbrev pub unless_again : Bool → Entry N Int → String → Confirmations N Int → Confirmations N Int
  unless_again true e reason (b, working) = (b, working ++ e ∷ [])
  unless_again false e reason (b, working) = (put_unconfirmed e reason b, working)

  -- Another exception rolls the savepoint back.
  abbrev pub roll_back : Entry N Int → Confirmations N Int → Confirmations N Int
  roll_back e (b, working) = (put_unconfirmed e "local_error" b, working)

  unfoldable pub after_confirm :
      Entry N Int → Result (Unit {0}) × Session N → Confirmations N Int → Confirmations N Int
  unfolding put_ended
  after_confirm e (done _, s) (b, working) = (put_ended (entry_of e.asked_for s) b, working)
  after_confirm e (failed (cancellation_unconfirmed reason status again), s) batch =
      unless_again again (entry_of e.asked_for s) reason batch
  after_confirm e (failed bad_value, s) batch = roll_back e batch
  after_confirm e (failed bad_transition, s) batch = roll_back e batch
  after_confirm e (failed outcome_rewritten, s) batch = roll_back e batch
  after_confirm e (failed (safety_violation code), s) batch = roll_back e batch
  after_confirm e (failed decimal_error, s) batch = roll_back e batch
  after_confirm e (failed (database_error error_type), s) batch = roll_back e batch
  after_confirm e (failed cancellation_failed, s) batch = roll_back e batch

  -- The second request of an order; `_send_cancel` raises `OrderCancellationFailed` only.
  abbrev pub after_resend :
      Listed N Int → Result (Unit {0}) × Session N → CancelBatch N Int → Bool × CancelBatch N Int
  after_resend l (done _, s) b =
      (false, put_unconfirmed (entry_of l s) "asked_again_still_working" b)
  after_resend l (failed _, s) b = (true, put_failed (entry_of l s) b)

  unfoldable pub resend_one : Bool → Entry N Int → CancelBatch N Int → Bool × CancelBatch N Int
  unfolding send_cancel
  resend_one stop e b =
      if stop
      then (true, put_unconfirmed e "still_open_at_broker" b)
      else after_resend e.asked_for (send_cancel e.asked_for.second_request e.reached_session) b

  -- No order is asked again after a read that failed or a request that was refused.
  unfoldable pub resend_all : List (Entry N Int) → Bool × CancelBatch N Int → CancelBatch N Int
  unfolding resend_one
  resend_all [] (stop, b) = b
  resend_all (e ∷ es) (stop, b) = resend_all es (resend_one stop e b)

module _ (D : Decimals) (C : Conversions (Decimals.Num D))
    (R : RecordConversions (Decimals.Num D) (Conversions.Int C)) where
  open D use {Num}
  open C use {Int}

  abbrev pub read_entry : Option String → Entry Num Int → AfterCancel Num × CancelReads
  read_entry stopped e =
      read_after_cancel D C R
        (record { stopped_because = stopped; has_time = e.asked_for.time_left }) e.asked_for.answers
        e.reached_session.order

  -- The reads share one limit, and stop at the first that fails.
  unfoldable pub confirm_all :
      List (Entry Num Int × Bool)
      → Option String
      → Confirmations Num Int
      → Confirmations Num Int × Option String
  unfolding after_confirm confirm_cancel read_after_cancel
  confirm_all [] stopped batch = (batch, stopped)
  confirm_all ((e, accepted) ∷ rest) stopped batch =
      confirm_all rest (read_entry stopped e).1.stopped_because (
        after_confirm e (confirm_cancel D C R accepted (read_entry stopped e).0 e.reached_session)
          batch)

  abbrev pub finish_batch : Confirmations Num Int × Option String → CancelBatch Num Int
  finish_batch ((b, working), stopped) = resend_all working (is_stopped stopped, b)

  abbrev pub confirm_batch : Requests Num Int → CancelBatch Num Int
  confirm_batch (b, asked) = finish_batch (confirm_all asked none (b, []))

  -- `cancel_many`
  unfoldable pub cancel_many : List (Listed Num Int) → Result (CancelBatch Num Int)
  unfolding request_all confirm_all resend_all
  cancel_many orders =
      after_result (request_all orders (empty_batch, [])) λ requests. done (confirm_batch requests)
