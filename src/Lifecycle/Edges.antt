-- ===== src/Lifecycle/Edges.antt =====
-- apps/api/app/execution/state_machine.py: the shape of the transition table.
use t212_cashguard.Common.{
  ℕ, suc, ◌+◌, ◌≤◌, ◌<◌, ◌≡◌, ◌≢◌, ◌↔◌, ◌⊎◌, inl, inr, refl, true, false, List, [], ◌∷◌, arith, ap,
  refl, eq_iff, if◌then◌else◌, Bool-cases,
}
use t212_cashguard.Store.{Order}
use t212_cashguard.Lifecycle.{
  Known, Status, known, other, pending_intent, submitted, submission_unknown, accepted,
  partially_filled, filled, cancelled, rejected, error, is_terminal_status,
  can_transition_order_status,
}
use t212_cashguard.Lifecycle.Evidence.{transition_order_status, status_eq}

-- How far an order has come: a known status that is not final has a rank below 4.
abbrev pub rank : Status → ℕ
rank (known pending_intent) = 0
rank (known submitted) = 1
rank (known submission_unknown) = 1
rank (known accepted) = 2
rank (known partially_filled) = 3
rank (known filled) = 4
rank (known cancelled) = 4
rank (known rejected) = 4
rank (known error) = 4
rank (other _) = 0

pub rank_le : (s : Status) → rank s ≤ 4
rank_le s = ground arith

known_step :
    (s t : Known)
    → can_transition_order_status (known s) (known t) ≡ true
    → (known s ≡ known t) ⊎ (rank (known s) < rank (known t))
unfolding can_transition_order_status
known_step s t h = ground arith

pub step_cases :
    (s t : Status) → can_transition_order_status s t ≡ true → (s ≡ t) ⊎ (rank s < rank t)
unfolding can_transition_order_status
step_cases (known s) (known t) h = known_step s t h
step_cases (known s) (other t) h = ground arith
step_cases (other s) t h = ground arith

-- The table has no cycle: an allowed move to another status raises the rank, so no status that an
-- order has left is ever entered again.
pub transition_raises_rank :
    (s t : Status) → can_transition_order_status s t ≡ true → s ≢ t → rank s < rank t
transition_raises_rank s t h ne = elim (step_cases s t h) [ inl e ↦ absurd (ne e) | inr r ↦ r ]

-- A known status is one of the final ones exactly when the guard lets no order leave it for another
-- status.
pub terminal_iff_absorbing :
    (s : Known)
    → (is_terminal_status (known s) ≡ true)
      ↔ ((t : Status) → can_transition_order_status (known s) t ≡ true → t ≡ known s)
unfolding is_terminal_status can_transition_order_status
terminal_iff_absorbing s = (leaves s, stays s)
  where
    leaves :
        (s : Known)
        → is_terminal_status (known s) ≡ true
        → (t : Status) → can_transition_order_status (known s) t ≡ true
        → t ≡ known s
    leaves s h (known t) c = ground arith
    leaves s h (other t) c = ground arith

    stays :
        (s : Known)
        → ((t : Status) → can_transition_order_status (known s) t ≡ true → t ≡ known s)
        → is_terminal_status (known s) ≡ true
    stays s h = ground (arith, h (known error))

-- The guard compares the statuses of an order as texts.
pub status_eq_of_same : (s t : Status) → status_eq s t ≡ true → s ≡ t
unfolding status_eq
status_eq_of_same (known s) (known t) h = ground arith
status_eq_of_same (known s) (other t) h = ground arith
status_eq_of_same (other s) (known t) h = ground arith
status_eq_of_same (other s) (other t) h = ap other ((eq_iff s t).0 h)

pub status_eq_refl : (s : Status) → status_eq s s ≡ true
unfolding status_eq
status_eq_refl (known s) = ground arith
status_eq_refl (other s) = (eq_iff s s).1 refl

-- An order is tried against statuses in turn, as callers do; a refused one leaves it as it is.
module _ {N : Type 0} where
  pub after_transitions : Order N → List Status → Order N
  after_transitions order [] = order
  after_transitions order (t ∷ ts) = after_transitions (transition_order_status order t).1 ts

  -- How often the status changes on the way.
  pub count_changes : Order N → List Status → ℕ
  count_changes order [] = 0
  count_changes order (t ∷ ts) =
      let order' = (transition_order_status order t).1 in
      let rest = count_changes order' ts in
      if status_eq order.status order'.status then rest else suc rest

  transition-rank :
      (order : Order N) (t : Status)
      → let order' = (transition_order_status order t).1 in
        (rank order.status ≤ rank order'.status)
        × (status_eq order.status order'.status ≡ false → rank order.status < rank order'.status)
  unfolding transition_order_status
  transition-rank order t = elim (Bool-cases (can_transition_order_status order.status t)) [
    | inl allowed ↦ rw allowed (elim (step_cases order.status t allowed) [
      | inl e ↦ rw (← e) (omega arith, λ f. cc (status_eq_refl order.status))
      | inr r ↦ (omega arith, λ _. r)
    ])
    | inr refused ↦ rw refused (omega arith, λ f. cc (status_eq_refl order.status))
  ]

  changes_bound :
      (order : Order N) (ts : List Status)
      → count_changes order ts + rank order.status ≤ rank (after_transitions order ts).status
  unfolding count_changes after_transitions
  changes_bound order [] = omega arith
  changes_bound order (t ∷ ts) =
      ground (arith, transition-rank order t, changes_bound (transition_order_status order t).1 ts)

  -- Whatever statuses an order is asked to take, its status changes four times at most.
  pub count_changes_le_four : (order : Order N) (ts : List Status) → count_changes order ts ≤ 4
  count_changes_le_four order ts =
      omega (arith, changes_bound order ts, rank_le (after_transitions order ts).status)
