-- ===== src/Reconcile/Queue.antt =====
-- apps/api/app/services/reconciliation_queue.py: which orders the scheduled reconciler may take. A
-- query condition is a Boolean test of a row.
use t212_cashguard.Common.{
  ℕ, ap, ◌∙◌, Bool-cases, suc, zero, ◌+◌, ◌*◌, ◌≤◌, ◌≡◌, ◌↔◌, ◌⊎◌, inl, inr, refl, Bool, true,
  false, not, ◌&&◌, ◌||◌, Option, none, some, [], ◌∷◌, any, leb, ltb, ◌==◌, arith,
}
use t212_cashguard.Lifecycle.{known, submission_unknown, is_active_status}
use t212_cashguard.Lifecycle.Evidence.{status_eq}
use t212_cashguard.Store.{Order}
use t212_cashguard.Reconcile.Backoff.{
  backoff_delay_seconds, max_backoff_level, delay_le, delay_at_top,
}

-- A number of seconds in microseconds.
abbrev pub micros : ℕ → ℕ
micros n = n * 1_000_000

abbrev pub missing : {A : Type 0} → Option A → Bool
missing none = true
missing (some _) = false

-- `column <= now - timedelta(seconds=n)`, which is not true of a missing time.
abbrev pub waited_since : Option ℕ → ℕ → ℕ → Bool
waited_since none n now = false
waited_since (some t) n now = leb (t + micros n) now

-- `column > now + CLOCK_TOLERANCE`
abbrev pub is_from_the_future : Option ℕ → ℕ → Bool
is_from_the_future none now = false
is_from_the_future (some t) now = ltb (now + micros 60) t

-- The entry of `waited` for a step, of an order with this count and last attempt.
abbrev pub waited_at : ℕ → Option ℕ → ℕ → ℕ → Bool
waited_at count last now step = count == step && waited_since last (backoff_delay_seconds step) now

-- The clauses of `waited`.
unfoldable pub waited : ℕ → Option ℕ → ℕ → Bool
unfolding max_backoff_level
waited count last now =
    any (waited_at count last now) (1 ∷ 2 ∷ 3 ∷ 4 ∷ 5 ∷ [])
    || (leb max_backoff_level count && waited_since last 900 now)

module _ {N : Type 0} where
  unfoldable pub awaiting_reconciliation : Order N → Bool
  awaiting_reconciliation order =
      (is_active_status order.status && not (missing order.broker_order_id))
      || (status_eq order.status (known submission_unknown) && missing order.broker_order_id)

  unfoldable pub is_due : ℕ → Order N → Bool
  unfolding waited
  is_due now order =
      order.retry_count == 0
      || missing order.last_reconciled_at
      || is_from_the_future order.last_reconciled_at now
      || waited order.retry_count order.last_reconciled_at now

any_of :
    (n : ℕ) (a b c : Bool)
    → ((suc n == 0 || a || b || c) ≡ true) ↔ ((suc n ≡ 0) ⊎ (a ≡ true) ⊎ (b ≡ true) ⊎ (c ≡ true))
any_of n true b c = ((λ h. inr (inl refl)), (λ h. ground arith))
any_of n false true c = ((λ h. inr (inr (inl refl))), (λ h. ground arith))
any_of n false false c = ((λ h. inr (inr (inr (ground arith)))), (λ h. ground arith))

-- The clauses say, level by level, that the wait of the level has passed.
waited_lem :
    (count : ℕ) (last : Option ℕ) (now : ℕ)
    → waited (suc count) last now ≡ waited_since last (backoff_delay_seconds (suc count)) now
unfolding waited
waited_lem zero last now = ground arith
waited_lem (suc zero) last now = ground arith
waited_lem (suc (suc zero)) last now = ground arith
waited_lem (suc (suc (suc zero))) last now = ground arith
waited_lem (suc (suc (suc (suc zero)))) last now = ground arith
waited_lem (suc (suc (suc (suc (suc n))))) last now =
    let top = delay_at_top (suc (suc (suc (suc (suc (suc n)))))) (omega arith) in
    rw top (ground arith)

module _ {N : Type 0} where
  -- An order is due exactly when nothing has been tried in vain, or no last attempt is recorded, or
  -- its time is more than a minute ahead of the clock, or the wait of its level has passed since.
  pub due_iff :
      (now : ℕ) (order : Order N)
      → (is_due now order ≡ true) ↔ (
          (order.retry_count ≡ 0)
          ⊎ (missing order.last_reconciled_at ≡ true)
          ⊎ (is_from_the_future order.last_reconciled_at now ≡ true)
          ⊎ (waited_since order.last_reconciled_at (backoff_delay_seconds order.retry_count) now
              ≡ true))
  unfolding is_due
  due_iff now order = by_count order.retry_count order.last_reconciled_at
    where
      by_count :
          (count : ℕ) (last : Option ℕ)
          → ((count == 0 || missing last || is_from_the_future last now || waited count last now)
              ≡ true)
            ↔ ((count ≡ 0)
                ⊎ (missing last ≡ true)
                ⊎ (is_from_the_future last now ≡ true)
                ⊎ (waited_since last (backoff_delay_seconds count) now ≡ true))
      by_count zero last = ((λ h. inl refl), (λ h. refl))
      by_count (suc count) last = rw (waited_lem count last now) (any_of count (missing last) _ _)

  -- No order is put off for good: one that is not due now is due at every moment from sixteen minutes
  -- later on, if no attempt is recorded meanwhile.
  pub due_within :
      (now later : ℕ) (order : Order N)
      → now + micros 960 ≤ later
      → (is_due now order ≡ true) ⊎ (is_due later order ≡ true)
  due_within now later order h = by_last order.last_reconciled_at refl
    where
      by_last :
          (last : Option ℕ)
          → order.last_reconciled_at ≡ last
          → (is_due now order ≡ true) ⊎ (is_due later order ≡ true)
      by_last none e = inl ((due_iff now order).1 (inr (inl (ap missing e))))
      by_last (some t) e = elim (Bool-cases (ltb (now + micros 60) t)) [
        | inl ahead ↦
            inl (
              (due_iff now order).1
                (inr (inr (inl (ap (λ l. is_from_the_future l now) e ∙ ahead)))))
        | inr near ↦
            let delay = delay_le order.retry_count in
            let passed : leb (t + micros (backoff_delay_seconds order.retry_count)) later ≡ true =
              ground (arith, delay) in
            inr (
              (due_iff later order).1 (
                inr (
                  inr (
                    inr (
                      ap (λ l. waited_since l (backoff_delay_seconds order.retry_count) later) e
                      ∙ passed)))))
      ]
