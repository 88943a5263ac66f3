-- ===== src/Execution/Outbox.antt =====
-- apps/api/app/execution/engine.py: the commit between a dispatch and its transmission, as the one
-- order, its attempts and the requests that processes are about to send or have sent. Of the
-- database this has the version check of `Order` and the unique order of an attempt, both declared
-- in apps/api/app/db/models/__init__.py.
use t212_cashguard.Common.{
  ◌≡◌, ℕ, ◌+◌, Bool, Option, none, some, List, [], ◌∷◌, ◌++◌, ◌==◌, any, map, if◌then◌else◌,
}
use t212_cashguard.Common.Numeric.{Decimals}
use t212_cashguard.Store.{Order, OrderSubmissionAttempt}
use t212_cashguard.Execution.{Session, done}
use t212_cashguard.Execution.Submit.{Surroundings, Request, dispatched, begin_submission}

-- What is durable, and what processes hold: requests to send after their commit, requests sent.
pub record World (N : Type 0) : Type 0 where
  pub stored : Order N
  pub attempts : List OrderSubmissionAttempt
  pub awaiting : List (Request N)
  pub sent : List (Request N)

abbrev pub order_ids : List OrderSubmissionAttempt → List ℕ
order_ids rows = map (λ a. a.order_id) rows

-- `unique=True` of `OrderSubmissionAttempt.order_id`: none where the database refuses the rows.
abbrev pub taken : ℕ → List OrderSubmissionAttempt → Bool
taken id rows = any (λ a. a.order_id == id) rows

unfoldable pub insert_attempts :
    List OrderSubmissionAttempt → List OrderSubmissionAttempt → Option (List OrderSubmissionAttempt)
insert_attempts rows [] = some rows
insert_attempts rows (a ∷ added) =
    let rest = insert_attempts (rows ++ a ∷ []) added in
    if taken a.order_id rows then none else rest

module _ {N : Type 0} where
  abbrev with_rows : World N → Session N → Option (List OrderSubmissionAttempt) → Option (World N)
  with_rows w s none = none
  with_rows w s (some rows) =
      some
        (record w { stored = record (s.order) { version = s.order.version + 1 }; attempts = rows })

  -- The commit of a session that has changed the order and added these attempts:
  -- `version_id_col` of `Order` refuses an order that has been changed since it was read.
  unfoldable pub commit_session : World N → Session N → Option (World N)
  unfolding insert_attempts
  commit_session w s =
      if s.order.version == w.stored.version
      then with_rows w s (insert_attempts w.attempts s.attempts)
      else none

-- What is promised of one order: it is recorded before it is transmitted, and transmitted once at
-- most; a recorded request may be lost.
pub data Phase : Type 0 where
  unsent recorded transmitted lost : Phase

pub data Moves : Phase → Phase → Type 0 where
  records : Moves unsent recorded
  transmits : Moves recorded transmitted
  loses : Moves recorded lost

module _ (D : Decimals) where
  open D use {Num}

  -- What may happen, in any order: a process takes any copy of the order, however old, through
  -- `begin_submission` and commits; it sends its request, or dies before; and other transactions
  -- change the order's row and the attempts' outcomes.
  pub data Steps : World Num → World Num → Type 0 where
    dispatches :
        (around : Surroundings) (s s' : Session Num) (request : Request Num)
        (attempt : OrderSubmissionAttempt) (w w' : World Num)
        → s.order.id ≡ w.stored.id
        → s.attempts ≡ []
        → begin_submission D around s ≡ (done (dispatched request attempt), s')
        → commit_session w s' ≡ some w'
        → Steps w (record w' { awaiting = request ∷ w.awaiting })
    sends :
        (request : Request Num) (rest : List (Request Num)) (w : World Num)
        → w.awaiting ≡ request ∷ rest
        → Steps w (record w { awaiting = rest; sent = request ∷ w.sent })
    dies :
        (request : Request Num) (rest : List (Request Num)) (w : World Num)
        → w.awaiting ≡ request ∷ rest
        → Steps w (record w { awaiting = rest })
    writes :
        (order : Order Num) (attempts : List OrderSubmissionAttempt) (w : World Num)
        → order.id ≡ w.stored.id
        → order_ids attempts ≡ order_ids w.attempts
        → Steps w (record w { stored = order; attempts = attempts })

  -- The world in which an order stands at a phase.
  abbrev pub Shows : World Num → Phase → Type 0
  Shows w unsent = (w.attempts ≡ []) × (w.awaiting ≡ []) × (w.sent ≡ [])
  Shows w recorded =
      (order_ids w.attempts ≡ w.stored.id ∷ [])
      × ((request : Request Num) × (w.awaiting ≡ request ∷ []))
      × (w.sent ≡ [])
  Shows w transmitted =
      (order_ids w.attempts ≡ w.stored.id ∷ [])
      × (w.awaiting ≡ [])
      × ((request : Request Num) × (w.sent ≡ request ∷ []))
  Shows w lost = (order_ids w.attempts ≡ w.stored.id ∷ []) × (w.awaiting ≡ []) × (w.sent ≡ [])
