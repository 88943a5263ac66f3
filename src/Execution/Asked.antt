-- ===== src/Execution/Asked.antt =====
-- apps/api/app/execution/engine.py: what `cancel_many` says after its requests.
use t212_cashguard.Common.{
  ◌≡◌, ◌⊎◌, inl, inr, refl, sym, ◌∙◌, ap, Bool, true, false, String, List, [], ◌∷◌, ◌++◌, All,
  Bool-cases, if◌then◌else◌,
}
use t212_cashguard.Common.Numeric.{Decimals, IsOrdered}
use t212_cashguard.Store.{Order}
use t212_cashguard.Lifecycle.{Status, known, other, cancelled, is_active_status, is_terminal_status}
use t212_cashguard.Lifecycle.Evidence.{status_eq}
use t212_cashguard.Lifecycle.Edges.{status_eq_of_same}
use t212_cashguard.Broker.{Conversions}
use t212_cashguard.Broker.Record.{RecordConversions}
use t212_cashguard.Execution.{
  Session, Result, Raised, done, failed, bad_value, bad_transition, outcome_rewritten,
  safety_violation, decimal_error, database_error, cancellation_failed, cancellation_unconfirmed,
}
use t212_cashguard.Execution.Cancel.{request_cancel}
use t212_cashguard.Execution.Reconciled.{WithinQuantity}
use t212_cashguard.Execution.Requested.{Kept, RequestEnds, request-Ends}
use t212_cashguard.Execution.Cancelled.{FinallyRead}
use t212_cashguard.Execution.Batch.{
  Listed, Entry, CancelBatch, Requests, after_result, put_ended, entry_of, after_request,
  request_all,
}

pub All-append :
    {A : Type 0} (P : A → Type 0) (xs : List A) (x : A) → All P xs → P x → All P (xs ++ x ∷ [])
All-append P [] x h k = (k, tt)
All-append P (y ∷ ys) x (h, hs) k = (h, All-append P ys x hs k)

by_case :
    {A : Type 0} (P : A → Type 0) (c : Bool) (x y : A)
    → (c ≡ true → P x)
    → (c ≡ false → P y)
    → P (if c then x else y)
by_case P true x y h k = h refl
by_case P false x y h k = k refl

module _ (D : Decimals) (C : Conversions (Decimals.Num D))
    (R : RecordConversions (Decimals.Num D) (Conversions.Int C))
    (ordered : IsOrdered (Decimals.Num D) (Decimals.less D)) where
  open D use {Num}
  open C use {Int}

  abbrev pub order_of : Entry Num Int → Order Num
  order_of e = e.reached_session.order

  abbrev pub IsCancelled : Entry Num Int → Type 0
  IsCancelled e = (order_of e).status ≡ known cancelled

  -- The order had ended, or a final record of it has been read.
  abbrev pub IsFinished : Entry Num Int → Type 0
  IsFinished e =
      (is_active_status (order_of e).status ≡ false)
      ⊎ FinallyRead D C R ordered e.asked_for.locked (order_of e)

  -- Its status, its amount and its id are as they were.
  abbrev pub IsKept : Entry Num Int → Type 0
  IsKept e = Kept e.asked_for.locked (order_of e)

  -- It is still open besides.
  abbrev pub IsOpen : Entry Num Int → Type 0
  IsOpen e = IsKept e × (is_active_status e.asked_for.locked.status ≡ true)

  abbrev pub IsOpenFor : Entry Num Int × String → Type 0
  IsOpenFor (e, reason) = IsOpen e

  abbrev pub IsTrue : CancelBatch Num Int → Type 0
  IsTrue b =
      All IsCancelled b.cancelled_entries
      × All IsFinished b.finished
      × All IsOpenFor b.unconfirmed
      × All IsKept b.failed_entries

  pub put_ended-IsTrue :
      (e : Entry Num Int) (b : CancelBatch Num Int)
      → IsTrue b
      → IsFinished e
      → IsTrue (put_ended e b)
  unfolding put_ended
  put_ended-IsTrue e b (c, f, u, x) h =
      elim (Bool-cases (status_eq (order_of e).status (known cancelled))) [
        | inl t ↦ rw t (All-append IsCancelled _ e c (status_eq_of_same _ _ t), f, u, x)
        | inr t ↦ rw t (c, All-append IsFinished _ e f h, u, x)
      ]

  -- An order that is asked is as it is stored, and open.
  abbrev pub IsAsked : Entry Num Int → Type 0
  IsAsked e =
      (order_of e ≡ e.asked_for.locked)
      × (is_active_status e.asked_for.locked.status ≡ true)
      × WithinQuantity D C R ordered e.asked_for.locked

  abbrev pub IsAskedOrNot : Entry Num Int × Bool → Type 0
  IsAskedOrNot (e, accepted) = IsAsked e

  abbrev pub AreTrue : Result (Requests Num Int) → Type 0
  AreTrue (done (b, asked)) = IsTrue b × All IsAskedOrNot asked
  AreTrue (failed e) = Unit

  IsAsked-now :
      (l : Listed Num Int) (accepted : Bool) (s : Session Num)
      → WithinQuantity D C R ordered l.locked
      → is_active_status s.order.status ≡ true
      → RequestEnds l.locked (done accepted, s)
      → IsAsked (entry_of l s)
  unfolding RequestEnds is_active_status is_terminal_status
  IsAsked-now l accepted s h a (inl ((e, q), _)) = absurd (cc)
  IsAsked-now l accepted s h a (inr (inl (_, _, same))) =
      (same, sym (ap (λ o. is_active_status o.status) same) ∙ a, h)
  IsAsked-now l accepted s h a (inr (inr (_, (_, _, ended, _)))) =
      let inactive : is_active_status s.order.status ≡ false = rw ended refl in cc (a, inactive)

  Kept-now :
      (stored : Order Num) (e : Raised) (s : Session Num)
      → RequestEnds stored (failed e, s)
      → Kept stored s.order
  unfolding RequestEnds
  Kept-now stored e s (inl (_, k)) = k
  Kept-now stored e s (inr (inl (_, q, _))) = absurd (cc)
  Kept-now stored e s (inr (inr (q, _))) = absurd (cc)

  terminal_inactive :
      (status : Status) → is_terminal_status status ≡ true → is_active_status status ≡ false
  unfolding is_active_status is_terminal_status
  terminal_inactive (known s) h = rw h refl
  terminal_inactive (other s) h = refl

  after_request-AreTrue :
      (l : Listed Num Int) (run : Result Bool × Session Num) (b : CancelBatch Num Int)
      (asked : List (Entry Num Int × Bool))
      → WithinQuantity D C R ordered l.locked
      → IsTrue b
      → All IsAskedOrNot asked
      → RequestEnds l.locked run
      → AreTrue (after_request l run (b, asked))
  unfolding after_request RequestEnds
  after_request-AreTrue l (done accepted, s) b asked h t q ends =
      by_case AreTrue (is_active_status s.order.status) _ _
        (λ a. (
          t,
          All-append IsAskedOrNot asked (entry_of l s, accepted) q
              (IsAsked-now l accepted s h a ends),
        ))
        (λ a. (put_ended-IsTrue (entry_of l s) b t (inl a), q))
  after_request-AreTrue l (failed cancellation_failed, s) b asked h (c, f, u, x) q ends =
      ((c, f, u, All-append IsKept _ (entry_of l s) x (Kept-now _ _ s ends)), q)
  after_request-AreTrue l (failed bad_transition, s) b asked h (c, f, u, x) q ends =
      by_case AreTrue (is_terminal_status s.order.status) _ _
        (λ t.
          ((c, All-append IsFinished _ (entry_of l s) f (inl (terminal_inactive _ t)), u, x), q))
        (λ _. tt)
  after_request-AreTrue l (failed bad_value, s) b asked h t q ends = tt
  after_request-AreTrue l (failed outcome_rewritten, s) b asked h t q ends = tt
  after_request-AreTrue l (failed (safety_violation code), s) b asked h t q ends = tt
  after_request-AreTrue l (failed decimal_error, s) b asked h t q ends = tt
  after_request-AreTrue l (failed (database_error error_type), s) b asked h t q ends = tt
  after_request-AreTrue l (failed (cancellation_unconfirmed reason status again), s) b asked h t q
        ends =
      tt

  then-AreTrue :
      (r : Result (Requests Num Int)) (f : Requests Num Int → Result (Requests Num Int))
      → AreTrue r
      → ((b : CancelBatch Num Int) (asked : List (Entry Num Int × Bool))
          → IsTrue b
          → All IsAskedOrNot asked
          → AreTrue (f (b, asked)))
      → AreTrue (after_result r f)
  then-AreTrue (done (b, asked)) f (t, q) k = k b asked t q
  then-AreTrue (failed e) f h k = tt

  abbrev pub AreWithin : List (Listed Num Int) → Type 0
  AreWithin = All (λ l. WithinQuantity D C R ordered l.locked)

  pub request_all-AreTrue :
      (orders : List (Listed Num Int)) (b : CancelBatch Num Int)
      (asked : List (Entry Num Int × Bool))
      → AreWithin orders
      → IsTrue b
      → All IsAskedOrNot asked
      → AreTrue (request_all orders (b, asked))
  unfolding request_all
  request_all-AreTrue [] b asked h t q = (t, q)
  request_all-AreTrue (l ∷ ls) b asked (h, hs) t q =
      then-AreTrue _ (request_all ls)
        (after_request-AreTrue l
          (request_cancel l.locked l.accepted_before l.first_request l.session) b asked h t q
          (request-Ends l.locked l.accepted_before l.first_request l.session))
        λ b' asked' t' q'. request_all-AreTrue ls b' asked' hs t' q'
