-- ===== src/Lifecycle.antt =====
-- apps/api/app/execution/state_machine.py: the transition guard of an order's status.
pub mod Evidence
pub mod Edges
pub mod Trail
pub mod History
mod Tests
use t212_cashguard.Common.{
  ℕ, Bool, true, false, not, List, [], ◌∷◌, any, ◌==◌, String, if◌then◌else◌,
}

-- The statuses that the code knows, the keys of `ORDER_STATUS_TRANSITIONS`.
pub data Known : Type 0 where
  pending_intent submitted submission_unknown accepted partially_filled : Known
  filled cancelled rejected error : Known

-- A status column holds a text: one of the known words, or any other.
pub data Status : Type 0 where
  known : Known → Status
  other : String → Status

abbrev pub index : Known → ℕ
index pending_intent = 0
index submitted = 1
index submission_unknown = 2
index accepted = 3
index partially_filled = 4
index filled = 5
index cancelled = 6
index rejected = 7
index error = 8

-- `==` between two known words.
abbrev pub known_eq : Known → Known → Bool
known_eq a b = index a == index b

-- `ORDER_STATUS_TRANSITIONS`.
unfoldable pub order_status_transitions : Known → List Known
order_status_transitions pending_intent =
    submitted ∷ submission_unknown ∷ rejected ∷ cancelled ∷ error ∷ []
order_status_transitions submitted =
    accepted ∷ partially_filled ∷ filled ∷ rejected ∷ cancelled ∷ error ∷ []
order_status_transitions submission_unknown =
    accepted ∷ partially_filled ∷ filled ∷ rejected ∷ cancelled ∷ error ∷ []
order_status_transitions accepted = partially_filled ∷ filled ∷ rejected ∷ cancelled ∷ error ∷ []
order_status_transitions partially_filled = filled ∷ cancelled ∷ rejected ∷ error ∷ []
order_status_transitions filled = []
order_status_transitions cancelled = []
order_status_transitions rejected = []
order_status_transitions error = []

-- `TERMINAL_ORDER_STATUSES`.
unfoldable pub terminal_order_statuses : List Known
terminal_order_statuses = filled ∷ cancelled ∷ rejected ∷ error ∷ []

unfoldable pub is_terminal_status : Status → Bool
unfolding terminal_order_statuses
is_terminal_status (known s) = any (known_eq s) terminal_order_statuses
is_terminal_status (other _) = false

-- Membership in `ACTIVE_ORDER_STATUSES`, the known words less the terminal ones.
unfoldable pub is_active_status : Status → Bool
unfolding is_terminal_status
is_active_status (known s) = not (is_terminal_status (known s))
is_active_status (other _) = false

unfoldable pub can_transition_order_status : Status → Status → Bool
unfolding order_status_transitions
can_transition_order_status (other _) _ = false
can_transition_order_status (known _) (other _) = false
can_transition_order_status (known from_status) (known to_status) =
    if known_eq from_status to_status
    then true
    else any (known_eq to_status) (order_status_transitions from_status)
