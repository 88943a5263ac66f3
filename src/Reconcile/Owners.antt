-- ===== src/Reconcile/Owners.antt =====
-- apps/api/app/services/reconciliation_queue.py: which orders one account may be asked about.
use t212_cashguard.Common.{
  ◌≡◌, ◌↔◌, ◌⊎◌, inl, inr, refl, ap, Bool, true, false, not, ◌&&◌, ◌||◌, Option, none, some, String,
  str_eq, eq_iff, arith,
}
use t212_cashguard.Store.{Order}
use t212_cashguard.Reconcile.Queue.{missing}

-- `Order.broker_account_scope == account_scope`, where a scope is given.
abbrev pub has_scope : Option String → Option String → Bool
has_scope none scope = false
has_scope (some account_scope) none = false
has_scope (some account_scope) (some scope) = str_eq scope account_scope

-- `on_this_venue`, of `RECONCILED_VENUE`.
unfoldable pub on_this_venue : {N : Type 0} → Order N → Bool
on_this_venue order = str_eq order.venue "t212" && not order.is_dry_run

unfoldable pub owned_by : {N : Type 0} → Option String → Bool → Bool → Order N → Bool
owned_by account_scope unscoped_with_broker_id unscoped_unknown order =
    has_scope account_scope order.broker_account_scope
    || (unscoped_with_broker_id
        && missing order.broker_account_scope
        && not (missing order.broker_order_id))
    || (unscoped_unknown && missing order.broker_account_scope && missing order.broker_order_id)

-- The order's own scope, or no scope and the caller's leave.
abbrev pub MayAsk : Option String → Bool → Bool → Option String → Option String → Type 0
MayAsk account_scope with_id unknown scope id =
    ((s : String) × (scope ≡ some s) × (account_scope ≡ some s))
    ⊎ ((scope ≡ none) × (with_id ≡ true) × ((i : String) × (id ≡ some i)))
    ⊎ ((scope ≡ none) × (unknown ≡ true) × (id ≡ none))

abbrev owned_fields : Option String → Bool → Bool → Option String → Option String → Bool
owned_fields account_scope with_id unknown scope id =
    has_scope account_scope scope
    || (with_id && missing scope && not (missing id))
    || (unknown && missing scope && missing id)

fields-MayAsk :
    (account_scope : Option String) (a b : Bool) (scope id : Option String)
    → owned_fields account_scope a b scope id ≡ true
    → MayAsk account_scope a b scope id
fields-MayAsk none a b none none h = inr (inr (refl, ground arith, refl))
fields-MayAsk none a b none (some i) h = inr (inl (refl, ground arith, (i, refl)))
fields-MayAsk none a b (some s) id h = absurd (ground arith)
fields-MayAsk (some t) a b none none h = inr (inr (refl, ground arith, refl))
fields-MayAsk (some t) a b none (some i) h = inr (inl (refl, ground arith, (i, refl)))
fields-MayAsk (some t) a b (some s) id h =
    inl (s, refl, ap some ((eq_iff t s).0 (ground (arith, eq_iff s t, eq_iff t s))))

MayAsk-fields :
    (account_scope : Option String) (a b : Bool) (scope id : Option String)
    → MayAsk account_scope a b scope id
    → owned_fields account_scope a b scope id ≡ true
MayAsk-fields account_scope a b scope id (inl (s, e, f)) = rw (e, f, (eq_iff s s).1 refl) refl
MayAsk-fields none a b scope id (inr (inl (e, w, (i, f)))) = rw (e, w, f) refl
MayAsk-fields (some t) a b scope id (inr (inl (e, w, (i, f)))) = rw (e, w, f) refl
MayAsk-fields none a b scope id (inr (inr (e, w, f))) = ground arith
MayAsk-fields (some t) a b scope id (inr (inr (e, w, f))) = ground arith

-- An account may be asked about an order exactly if the order was recorded for it, or was recorded
-- for no account and the caller allows that for orders with, or without, a broker order id. So an
-- order recorded for one account is never asked about of another.
pub owned_by_iff :
    {N : Type 0} (account_scope : Option String) (with_id unknown : Bool) (order : Order N)
    → ((owned_by account_scope with_id unknown order ≡ true)
        ↔ MayAsk account_scope with_id unknown order.broker_account_scope order.broker_order_id)
      × ((s : String)
          → order.broker_account_scope ≡ some s
          → owned_by account_scope with_id unknown order ≡ true
          → account_scope ≡ some s)
unfolding owned_by
owned_by_iff account_scope with_id unknown order = (
  (
    fields-MayAsk account_scope with_id unknown order.broker_account_scope order.broker_order_id,
    MayAsk-fields account_scope with_id unknown order.broker_account_scope order.broker_order_id,
  ),
  λ s e h. only_scope s e (
      fields-MayAsk account_scope with_id unknown order.broker_account_scope order.broker_order_id
        h),
)
  where
    only_scope :
        (s : String)
        → order.broker_account_scope ≡ some s
        → MayAsk account_scope with_id unknown order.broker_account_scope order.broker_order_id
        → account_scope ≡ some s
    only_scope s e (inl (t, f, g)) = cc
    only_scope s e (inr (inl (f, _, _))) = absurd (cc)
    only_scope s e (inr (inr (f, _, _))) = absurd (cc)
