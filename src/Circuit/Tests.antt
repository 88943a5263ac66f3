-- ===== src/Circuit/Tests.antt =====
-- apps/api/app/broker/circuit_breaker.py: a run of the broker's breaker, and the theorems at inputs.
use t212_cashguard.Common.{
  ℕ, ◌≡◌, refl, arith, true, false, ◌&&◌, List, [], ◌∷◌, length, leb, if◌then◌else◌,
}
use t212_cashguard.Circuit.{
  CircuitBreaker, closed, open_circuit, half_open, success, failure, new_breaker, broker_circuit,
  is_open, admit, settle, call,
}
use t212_cashguard.Circuit.Invariant.{here, next, arrives, ends, IsSound, reached-IsSound}
use t212_cashguard.Circuit.Opening.{after_failures, failures_open}

abbrev tripped : CircuitBreaker
tripped = record {
  failure_threshold = 5;
  recovery_timeout = 60;
  auto_kill_switch = true;
  state = open_circuit;
  failure_count = 5;
  last_failure_time = 104;
  kill_switch_calls = 1;
}

abbrev testing : CircuitBreaker
testing = record tripped { state = half_open }

-- Five failures trip the broker's breaker, and a call 60 seconds after the last tests it.
broker_trips : after_failures (100 ∷ 101 ∷ 102 ∷ 103 ∷ 104 ∷ []) broker_circuit ≡ tripped
unfolding after_failures settle broker_circuit
broker_trips = refl

call_after_recovery : (call 164 165 success tripped).0.state ≡ closed
unfolding call
call_after_recovery = refl

call_refused : call 163 165 success tripped ≡ (tripped, false)
unfolding call
call_refused = refl

reached-IsSound_example : IsSound (settle 8 failure (admit 7 (new_breaker 3 120 false)).0)
reached-IsSound_example =
    reached-IsSound 3 120 false (omega arith) (next (next here (arrives 7)) (ends 8 failure))

-- The times of four failures.
abbrev failing : List ℕ
failing = 1 ∷ 2 ∷ 3 ∷ 4 ∷ []

failures_open_example :
    let b = after_failures failing (new_breaker 3 120 true) in
    (is_open b ≡ leb 3 (length failing))
    × (b.kill_switch_calls ≡ (if leb 3 (length failing) && true then 1 else 0))
failures_open_example = failures_open 3 120 true failing (omega arith)
