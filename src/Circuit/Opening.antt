-- ===== src/Circuit/Opening.antt =====
-- apps/api/app/broker/circuit_breaker.py: when the circuit opens, and the kill switch with it.
use t212_cashguard.Common.{
  ℕ, suc, ◌+◌, ◌<◌, ◌≡◌, Bool, ◌&&◌, not, List, [], ◌∷◌, arith, leb, length, if◌then◌else◌,
}
use mathlib.Core.Path.{subst}
use t212_cashguard.Circuit.{CircuitBreaker, failure, new_breaker, is_open, admit, settle, reset}
use t212_cashguard.Circuit.Invariant.{Step, arrives, ends, resets}

-- Failures of admitted calls, one after another, at these times.
unfoldable pub after_failures : List ℕ → CircuitBreaker → CircuitBreaker
after_failures [] b = b
after_failures (now ∷ times) b = after_failures times (settle now failure b)

-- `n` failures in a row have been counted since the breaker was made.
record IsCounted (threshold : ℕ) (auto : Bool) (n : ℕ) (b : CircuitBreaker) : Type 0 where
  limit : b.failure_threshold ≡ threshold
  wants : b.auto_kill_switch ≡ auto
  counted : b.failure_count ≡ n
  opened : is_open b ≡ leb threshold n
  called : b.kill_switch_calls ≡ (if leb threshold n && auto then 1 else 0)

failure-IsCounted :
    (threshold : ℕ) (auto : Bool) (n now : ℕ) (b : CircuitBreaker)
    → IsCounted threshold auto n b
    → IsCounted threshold auto (suc n) (settle now failure b)
unfolding settle is_open
failure-IsCounted threshold auto n now b h = ground arith

new-IsCounted :
    (threshold timeout : ℕ) (auto : Bool)
    → 0 < threshold
    → IsCounted threshold auto 0 (new_breaker threshold timeout auto)
unfolding new_breaker is_open
new-IsCounted threshold timeout auto h = ground arith

after_failures-IsCounted :
    (threshold : ℕ) (auto : Bool) (times : List ℕ) (n : ℕ) (b : CircuitBreaker)
    → IsCounted threshold auto n b
    → IsCounted threshold auto (n + length times) (after_failures times b)
unfolding after_failures
after_failures-IsCounted threshold auto [] n b h =
    subst (λ k. IsCounted threshold auto k b) (omega arith) h
after_failures-IsCounted threshold auto (now ∷ times) n b h =
    let c = settle now failure b in
    let counted = failure-IsCounted threshold auto n now b h in
    subst (λ k. IsCounted threshold auto k (after_failures times c)) (omega arith)
      (after_failures-IsCounted threshold auto times (suc n) c counted)

-- A new breaker with a positive threshold, after any number of failures in a row and nothing else:
-- it is open exactly when there were as many as the threshold, and then the kill switch has been
-- activated once if the breaker is meant to, and else not at all.
pub failures_open :
    (threshold timeout : ℕ) (auto : Bool) (times : List ℕ)
    → 0 < threshold
    → let b = after_failures times (new_breaker threshold timeout auto) in
      (is_open b ≡ leb threshold (length times))
      × (b.kill_switch_calls ≡ (if leb threshold (length times) && auto then 1 else 0))
failures_open threshold timeout auto times h =
    let b = new_breaker threshold timeout auto in
    let k =
      after_failures-IsCounted threshold auto times 0 b (new-IsCounted threshold timeout auto h) in
    let e : 0 + length times ≡ length times = omega arith in
    let c = subst (λ n. IsCounted threshold auto n (after_failures times b)) e k in
    (c.opened, c.called)

-- Whether a step opens a circuit that was not open.
abbrev opens : CircuitBreaker → CircuitBreaker → Bool
opens b c = not (is_open b) && is_open c

-- The kill switch is activated by the steps that open a circuit which was not open, once by each, if
-- the breaker is meant to; by no other step.
pub kill_switch_when_opening :
    {b c : CircuitBreaker}
    → Step b c
    → c.kill_switch_calls ≡ b.kill_switch_calls + (if opens b c && b.auto_kill_switch then 1 else 0)
unfolding admit settle reset is_open
kill_switch_when_opening (arrives now) = ground arith
kill_switch_when_opening (ends now e) = ground arith
kill_switch_when_opening resets = ground arith
