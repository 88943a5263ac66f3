-- ===== src/Broker/Trust.antt =====
-- apps/api/app/execution/acknowledgement.py: what a trusted acknowledgement rests on.
use mathlib.Core.Path.{subst}
use t212_cashguard.Common.{◌≡◌, refl, sym, inl, inr, true, some, String, arith, Option-cases}
use t212_cashguard.Common.Numeric.{Decimals, IsOrdered}
use t212_cashguard.Lifecycle.{
  Status, known, filled, cancelled, rejected, accepted, submission_unknown, submitted,
  can_transition_order_status,
}
use t212_cashguard.Broker.{
  Json, object, null, boolean, integer, real, text, array, Fields, Conversions, get,
  usable_order_id,
}
use t212_cashguard.Broker.Acknowledgement.{
  Acknowledgement, trusted, text_or_empty, interpret_acknowledgement,
}
use t212_cashguard.Broker.Inversion.{RestsOn, status_rests}
use t212_cashguard.Broker.Kept.{Keeps, status-Keeps}

-- A sent order, whether or not its outcome is known, may take this status.
abbrev pub CanTake : Status → Type 0
CanTake s =
    (can_transition_order_status (known submission_unknown) s ≡ true)
    × (can_transition_order_status (known submitted) s ≡ true)

module _ (D : Decimals) (C : Conversions (Decimals.Num D))
    (order : IsOrdered (Decimals.Num D) (Decimals.less D)) where
  open D use {Num, absolute, less}
  open C use {Int}

  -- What the engine acts on when it trusts a broker's immediate answer. The answer names a usable
  -- order id, which the acknowledgement keeps, with the answer's word for the status. A fill is
  -- recorded only if the answer calls the order filled, states as an amount exactly the quantity of the
  -- order and states the price that is recorded, which is not below the smallest stored one; cancelled
  -- or rejected, only if it says so and states no fill but zero; and any other word leaves the order
  -- open. Where no fill is recorded, neither an amount nor a price is.
  pub trusted-RestsOn :
      (response : Fields Num Int) (side : String) (quantity : Num) (ack : Acknowledgement Num)
      → interpret_acknowledgement D C (object response) side quantity ≡ trusted ack
      → (id : String) × (usable_order_id C (get "id" response) ≡ some id)
        × Keeps D C order ack id (text_or_empty D C (get "status" response))
        × RestsOn D C order response quantity ack
  unfolding interpret_acknowledgement
  trusted-RestsOn response side quantity ack h =
      elim (Option-cases (usable_order_id C (get "id" response))) [
        | inl e ↦ absurd (ground arith)
        | inr (id, e) ↦ (
          id,
          e,
          status-Keeps D C order response side quantity id ack _ (rw e at h),
          status_rests D C order response side quantity id ack
              (text_or_empty D C (get "status" response)) refl (rw e at h),
        )
      ]

  -- Whatever a trusted answer says, the order can take that status from where a sent order stands.
  pub trusted-can_transition :
      (response : Json Num Int) (side : String) (quantity : Num) (ack : Acknowledgement Num)
      → interpret_acknowledgement D C response side quantity ≡ trusted ack
      → CanTake ack.order_status
  unfolding interpret_acknowledgement can_transition_order_status
  trusted-can_transition (object response) side quantity ack h =
      let (id, _, _, rests) = trusted-RestsOn response side quantity ack h in
      elim rests [
        | inl f ↦ may_take (known filled) f.2 (refl, refl)
        | inr (inl c) ↦ may_take (known cancelled) c.2 (refl, refl)
        | inr (inr (inl r)) ↦ may_take (known rejected) r.2 (refl, refl)
        | inr (inr (inr o)) ↦ may_take (known accepted) o.3 (refl, refl)
      ]
    where
      may_take : (s : Status) → ack.order_status ≡ s → CanTake s → CanTake ack.order_status
      may_take s e c = subst CanTake (sym e) c
  trusted-can_transition null side quantity ack h = cc
  trusted-can_transition (boolean _) side quantity ack h = cc
  trusted-can_transition (integer _) side quantity ack h = cc
  trusted-can_transition (real _) side quantity ack h = cc
  trusted-can_transition (text _) side quantity ack h = cc
  trusted-can_transition (array _) side quantity ack h = cc
