-- ===== src/Circuit/Invariant.antt =====
-- apps/api/app/broker/circuit_breaker.py: what holds of a breaker under any interleaving of calls.
use t212_cashguard.Common.{ℕ, ◌≤◌, ◌<◌, ◌≡◌, Bool, arith}
use t212_cashguard.Circuit.{
  CircuitBreaker, closed, open_circuit, half_open, Ending, new_breaker, admit, settle, reset,
}

-- One step of the process: a call reaches the breaker, an admitted call ends, or an operator resets.
pub data Step (b : CircuitBreaker) : CircuitBreaker → Type 0 where
  arrives : (now : ℕ) → Step b (admit now b).0
  ends : (now : ℕ) (e : Ending) → Step b (settle now e b)
  resets : Step b (reset b)

pub data Reach (b : CircuitBreaker) : CircuitBreaker → Type 0 where
  here : Reach b b
  next : {c d : CircuitBreaker} → Reach b c → Step c d → Reach b d

-- The circuit is closed exactly while the failures in a row are below the threshold.
pub record IsSound (b : CircuitBreaker) : Type 0 where
  pub positive : 0 < b.failure_threshold
  pub closed_below : b.state ≡ closed → b.failure_count < b.failure_threshold
  pub open_above : b.state ≡ open_circuit → b.failure_threshold ≤ b.failure_count
  pub half_open_above : b.state ≡ half_open → b.failure_threshold ≤ b.failure_count

admit-IsSound : (now : ℕ) (b : CircuitBreaker) → IsSound b → IsSound (admit now b).0
unfolding admit
admit-IsSound now b h = ground arith

settle-IsSound : (now : ℕ) (e : Ending) (b : CircuitBreaker) → IsSound b → IsSound (settle now e b)
unfolding settle
settle-IsSound now e b h = ground arith

reset-IsSound : (b : CircuitBreaker) → IsSound b → IsSound (reset b)
unfolding reset
reset-IsSound b h = ground arith

Step-IsSound : {b c : CircuitBreaker} → Step b c → IsSound b → IsSound c
Step-IsSound {b} (arrives now) h = admit-IsSound now b h
Step-IsSound {b} (ends now e) h = settle-IsSound now e b h
Step-IsSound {b} resets h = reset-IsSound b h

Reach-IsSound : {b c : CircuitBreaker} → Reach b c → IsSound b → IsSound c
Reach-IsSound here h = h
Reach-IsSound (next r s) h = Step-IsSound s (Reach-IsSound r h)

-- A breaker with a positive threshold is closed exactly while its failures in a row are below the
-- threshold, whatever calls have arrived and ended since it was made, in whatever order.
pub reached-IsSound :
    (threshold timeout : ℕ) (auto : Bool) {b : CircuitBreaker}
    → 0 < threshold
    → Reach (new_breaker threshold timeout auto) b
    → IsSound b
unfolding new_breaker
reached-IsSound threshold timeout auto h r = Reach-IsSound r (ground arith)
