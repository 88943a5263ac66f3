-- ===== src/Execution/Tallied.antt =====
-- apps/api/app/execution/engine.py: how often `cancel_many` reports an order.
use t212_cashguard.Common.{
  ◌≡◌, sym, ◌∙◌, ap, inl, inr, ℕ, ◌+◌, Bool, true, false, List, [], ◌∷◌, ◌++◌, arith, Bool-cases,
  Option, none, String, if◌then◌else◌,
}
use t212_cashguard.Common.Numeric.{Decimals}
use t212_cashguard.Lifecycle.{known, cancelled, is_active_status, is_terminal_status}
use t212_cashguard.Lifecycle.Evidence.{status_eq}
use t212_cashguard.Broker.{Conversions}
use t212_cashguard.Broker.Record.{RecordConversions}
use t212_cashguard.Execution.{
  Session, Result, done, failed, bad_value, bad_transition, outcome_rewritten, safety_violation,
  decimal_error, database_error, cancellation_failed, cancellation_unconfirmed,
}
use t212_cashguard.Execution.Cancel.{confirm_cancel}
use t212_cashguard.Execution.Batch.{
  Listed, Entry, CancelBatch, Requests, Confirmations, after_result, is_stopped, empty_batch,
  put_finished, put_unconfirmed, put_failed, put_ended, entry_of, after_request, request_all,
  unless_again, roll_back, after_confirm, after_resend, resend_one, resend_all, read_entry,
  confirm_all, confirm_batch, cancel_many,
}

abbrev pub hit : Bool → ℕ
hit b = if b then 1 else 0

abbrev pub count_by : {A : Type 0} → (A → Bool) → List A → ℕ
count_by p [] = 0
count_by p (x ∷ xs) = hit (p x) + count_by p xs

count_by-append :
    {A : Type 0} (p : A → Bool) (xs : List A) (x : A)
    → count_by p (xs ++ x ∷ []) ≡ count_by p xs + hit (p x)
count_by-append p [] x = omega arith
count_by-append p (y ∷ ys) x = omega (arith, count_by-append p ys x)

module _ {N Int : Type 0} (p : Listed N Int → Bool) where
  abbrev pub is_entry : Entry N Int → Bool
  is_entry e = p e.asked_for

  abbrev pub is_first : {B : Type 0} → Entry N Int × B → Bool
  is_first (e, _) = p e.asked_for

  -- How many reports of a batch are about orders that pass a test.
  abbrev pub tally : CancelBatch N Int → ℕ
  tally b =
      count_by is_entry b.cancelled_entries
      + count_by is_entry b.finished
      + count_by is_first b.unconfirmed
      + count_by is_entry b.failed_entries

  abbrev tally_of : Result (CancelBatch N Int) → ℕ
  tally_of (done b) = tally b
  tally_of (failed e) = 0

  put_ended-tally :
      (e : Entry N Int) (b : CancelBatch N Int)
      → tally (put_ended e b) ≡ tally b + hit (p e.asked_for)
  unfolding put_ended
  put_ended-tally e b =
      elim (Bool-cases (status_eq e.reached_session.order.status (known cancelled))) [
        | inl c ↦ rw c (omega (arith, count_by-append is_entry b.cancelled_entries e))
        | inr c ↦ rw c (omega (arith, count_by-append is_entry b.finished e))
      ]

  put_unconfirmed-tally :
      (e : Entry N Int) (reason : String) (b : CancelBatch N Int)
      → tally (put_unconfirmed e reason b) ≡ tally b + hit (p e.asked_for)
  put_unconfirmed-tally e reason b =
      omega (arith, count_by-append is_first b.unconfirmed (e, reason))

  put_failed-tally :
      (e : Entry N Int) (b : CancelBatch N Int)
      → tally (put_failed e b) ≡ tally b + hit (p e.asked_for)
  put_failed-tally e b = omega (arith, count_by-append is_entry b.failed_entries e)

  put_finished-tally :
      (e : Entry N Int) (b : CancelBatch N Int)
      → tally (put_finished e b) ≡ tally b + hit (p e.asked_for)
  put_finished-tally e b = omega (arith, count_by-append is_entry b.finished e)

  -- The requests, if they return, are about so many orders that pass the test.
  abbrev AreAbout : ℕ → Result (Requests N Int) → Type 0
  AreAbout n (done (b, asked)) = tally b + count_by is_first asked ≡ n
  AreAbout n (failed e) = Unit

  either_way :
      (n : ℕ) (c : Bool) (x y : Result (Requests N Int))
      → AreAbout n x
      → AreAbout n y
      → AreAbout n (if c then x else y)
  either_way n true x y h k = h
  either_way n false x y h k = k

  after_request-AreAbout :
      (l : Listed N Int) (run : Result Bool × Session N) (b : CancelBatch N Int)
      (asked : List (Entry N Int × Bool))
      → AreAbout (tally b + count_by is_first asked + hit (p l)) (after_request l run (b, asked))
  unfolding after_request
  after_request-AreAbout l (done accepted, s) b asked =
      either_way (tally b + count_by is_first asked + hit (p l)) (is_active_status s.order.status)
        (done (b, asked ++ (entry_of l s, accepted) ∷ []))
        (done (put_ended (entry_of l s) b, asked))
        (omega (arith, count_by-append is_first asked (entry_of l s, accepted)))
        (omega (arith, put_ended-tally (entry_of l s) b))
  after_request-AreAbout l (failed cancellation_failed, s) b asked =
      omega (arith, put_failed-tally (entry_of l s) b)
  after_request-AreAbout l (failed bad_transition, s) b asked =
      either_way (tally b + count_by is_first asked + hit (p l)) (is_terminal_status s.order.status)
        (done (put_finished (entry_of l s) b, asked)) (failed bad_transition)
        (omega (arith, put_finished-tally (entry_of l s) b)) tt
  after_request-AreAbout l (failed bad_value, s) b asked = tt
  after_request-AreAbout l (failed outcome_rewritten, s) b asked = tt
  after_request-AreAbout l (failed (safety_violation code), s) b asked = tt
  after_request-AreAbout l (failed decimal_error, s) b asked = tt
  after_request-AreAbout l (failed (database_error error_type), s) b asked = tt
  after_request-AreAbout l (failed (cancellation_unconfirmed reason status again), s) b asked = tt

  then-AreAbout :
      (m n : ℕ) (r : Result (Requests N Int)) (f : Requests N Int → Result (Requests N Int))
      → AreAbout m r
      → ((b : CancelBatch N Int) (asked : List (Entry N Int × Bool))
          → tally b + count_by is_first asked ≡ m
          → AreAbout n (f (b, asked)))
      → AreAbout n (after_result r f)
  then-AreAbout m n (done (b, asked)) f h k = k b asked h
  then-AreAbout m n (failed e) f h k = tt

  request_all-AreAbout :
      (n : ℕ) (orders : List (Listed N Int)) (b : CancelBatch N Int)
      (asked : List (Entry N Int × Bool))
      → tally b + count_by is_first asked + count_by p orders ≡ n
      → AreAbout n (request_all orders (b, asked))
  unfolding request_all
  request_all-AreAbout n [] b asked h = omega (arith, h)
  request_all-AreAbout n (l ∷ ls) b asked h =
      then-AreAbout _ n _ (request_all ls) (after_request-AreAbout l _ b asked)
        λ b' asked' k. request_all-AreAbout n ls b' asked' (omega (arith, h, k))

  -- The same for the orders that are read and those that are asked again.
  abbrev total : Confirmations N Int → ℕ
  total (b, working) = tally b + count_by is_entry working

  roll_back-total :
      (e : Entry N Int) (batch : Confirmations N Int)
      → total (roll_back e batch) ≡ total batch + hit (p e.asked_for)
  roll_back-total e (b, working) = omega (arith, put_unconfirmed-tally e "local_error" b)

  unless_again-total :
      (again : Bool) (e : Entry N Int) (reason : String) (batch : Confirmations N Int)
      → total (unless_again again e reason batch) ≡ total batch + hit (p e.asked_for)
  unless_again-total true e reason (b, working) = omega (arith, count_by-append is_entry working e)
  unless_again-total false e reason (b, working) = omega (arith, put_unconfirmed-tally e reason b)

  after_confirm-total :
      (e : Entry N Int) (run : Result (Unit {0}) × Session N) (batch : Confirmations N Int)
      → total (after_confirm e run batch) ≡ total batch + hit (p e.asked_for)
  unfolding after_confirm
  after_confirm-total e (done _, s) (b, working) =
      omega (arith, put_ended-tally (entry_of e.asked_for s) b)
  after_confirm-total e (failed (cancellation_unconfirmed reason status again), s) batch =
      unless_again-total again (entry_of e.asked_for s) reason batch
  after_confirm-total e (failed bad_value, s) batch = roll_back-total e batch
  after_confirm-total e (failed bad_transition, s) batch = roll_back-total e batch
  after_confirm-total e (failed outcome_rewritten, s) batch = roll_back-total e batch
  after_confirm-total e (failed (safety_violation code), s) batch = roll_back-total e batch
  after_confirm-total e (failed decimal_error, s) batch = roll_back-total e batch
  after_confirm-total e (failed (database_error error_type), s) batch = roll_back-total e batch
  after_confirm-total e (failed cancellation_failed, s) batch = roll_back-total e batch

  after_resend-tally :
      (l : Listed N Int) (run : Result (Unit {0}) × Session N) (b : CancelBatch N Int)
      → tally (after_resend l run b).1 ≡ tally b + hit (p l)
  after_resend-tally l (done _, s) b = put_unconfirmed-tally (entry_of l s) _ b
  after_resend-tally l (failed _, s) b = put_failed-tally (entry_of l s) b

  resend_one-tally :
      (stop : Bool) (e : Entry N Int) (b : CancelBatch N Int)
      → tally (resend_one stop e b).1 ≡ tally b + hit (p e.asked_for)
  unfolding resend_one
  resend_one-tally true e b = put_unconfirmed-tally e _ b
  resend_one-tally false e b = after_resend-tally e.asked_for _ b

  resend_all-tally :
      (es : List (Entry N Int)) (stop : Bool) (b : CancelBatch N Int)
      → tally (resend_all es (stop, b)) ≡ tally b + count_by is_entry es
  unfolding resend_all
  resend_all-tally [] stop b = omega arith
  resend_all-tally (e ∷ es) stop b = omega (
    arith,
    resend_one-tally stop e b,
    resend_all-tally es (resend_one stop e b).0 (resend_one stop e b).1,
  )

module _ (D : Decimals) (C : Conversions (Decimals.Num D))
    (R : RecordConversions (Decimals.Num D) (Conversions.Int C))
    (p : Listed (Decimals.Num D) (Conversions.Int C) → Bool) where
  open D use {Num}
  open C use {Int}

  confirm_all-total :
      (asked : List (Entry Num Int × Bool)) (stopped : Option String)
      (batch : Confirmations Num Int)
      → total p (confirm_all D C R asked stopped batch).0
        ≡ total p batch + count_by (is_first p) asked
  unfolding confirm_all
  confirm_all-total [] stopped batch = omega arith
  confirm_all-total ((e, accepted) ∷ rest) stopped batch =
      let run = confirm_cancel D C R accepted (read_entry D C R stopped e).0 e.reached_session in
      omega (
        arith,
        after_confirm-total p e run batch,
        confirm_all-total rest (read_entry D C R stopped e).1.stopped_because
            (after_confirm e run batch),
      )

  confirm_batch-tally :
      (b : CancelBatch Num Int) (asked : List (Entry Num Int × Bool))
      → tally p (confirm_batch D C R (b, asked)) ≡ tally p b + count_by (is_first p) asked
  confirm_batch-tally b asked =
      let ((b', working), stopped) = confirm_all D C R asked none (b, []) in
      omega (
        arith,
        confirm_all-total asked none (b, []),
        resend_all-tally p working (is_stopped stopped) b',
      )

  -- A batch of cancellations that returns reports every order that was listed, and none more often
  -- than it was listed, whichever orders are counted.
  pub cancel_many-tally :
      (orders : List (Listed Num Int)) (batch : CancelBatch Num Int)
      → cancel_many D C R orders ≡ done batch
      → tally p batch ≡ count_by p orders
  unfolding cancel_many
  cancel_many-tally orders batch h =
      go (request_all orders (empty_batch, []))
        (request_all-AreAbout p (count_by p orders) orders empty_batch [] (omega arith)) h
    where
      go :
          (r : Result (Requests Num Int))
          → AreAbout p (count_by p orders) r
          → after_result r (λ requests. done (confirm_batch D C R requests)) ≡ done batch
          → tally p batch ≡ count_by p orders
      go (done (b, asked)) k e = ap (tally_of p) (sym e) ∙ confirm_batch-tally b asked ∙ k
      go (failed x) k e = cc e
