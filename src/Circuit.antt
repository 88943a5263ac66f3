-- ===== src/Circuit.antt =====
-- apps/api/app/broker/circuit_breaker.py: the breaker around the broker's API. Times are readings of
-- the monotonic clock in whole ticks. `CircuitBreaker._lock` makes each of the three state changes
-- below one step; between them other calls run, so a call is an admission and, later, a result.
pub mod Invariant
pub mod Admission
pub mod Opening
mod Tests
use t212_cashguard.Common.{ℕ, suc, ◌+◌, ◌-◌, Bool, true, false, ◌&&◌, not, leb, if◌then◌else◌}

pub data CircuitState : Type 0 where
  closed open_circuit half_open : CircuitState

pub record CircuitBreaker : Type 0 where
  pub failure_threshold : ℕ
  pub recovery_timeout : ℕ
  pub auto_kill_switch : Bool
  pub state : CircuitState
  pub failure_count : ℕ
  pub last_failure_time : ℕ
  -- How often `_activate_kill_switch` has been called.
  pub kill_switch_calls : ℕ

unfoldable pub new_breaker : ℕ → ℕ → Bool → CircuitBreaker
new_breaker failure_threshold recovery_timeout auto_kill_switch = record {
  failure_threshold = failure_threshold;
  recovery_timeout = recovery_timeout;
  auto_kill_switch = auto_kill_switch;
  state = closed;
  failure_count = 0;
  last_failure_time = 0;
  kill_switch_calls = 0;
}

abbrev pub is_open_state : CircuitState → Bool
is_open_state open_circuit = true
is_open_state _ = false

-- The property `is_open`.
unfoldable pub is_open : CircuitBreaker → Bool
is_open b = is_open_state b.state

-- `_check_state` at the time `now`.
unfoldable pub check_state : ℕ → CircuitBreaker → CircuitBreaker
check_state now b =
    if is_open_state b.state && leb b.recovery_timeout (now - b.last_failure_time)
    then record b { state = half_open }
    else b

-- The states that `_record_success` closes, and the one that it leaves.
abbrev pub success_state : CircuitState → CircuitState
success_state half_open = closed
success_state open_circuit = closed
success_state closed = closed

-- `_record_success`: whatever the state was, it is closed afterwards.
unfoldable pub record_success : CircuitBreaker → CircuitBreaker
record_success b = record b { failure_count = 0; state = success_state b.state }

-- `_activate_kill_switch`; what it does to the database is `Risk.Switch.activate_kill_switch`.
unfoldable pub activate : CircuitBreaker → CircuitBreaker
activate b = record b { kill_switch_calls = suc b.kill_switch_calls }

-- The body of `_record_failure` below the threshold test.
unfoldable pub trip : CircuitBreaker → CircuitBreaker
unfolding activate
trip b =
    let opened = record b { state = open_circuit } in
    if not (is_open_state b.state) && b.auto_kill_switch then activate opened else opened

-- `_record_failure` at the time `now`.
unfoldable pub record_failure : ℕ → CircuitBreaker → CircuitBreaker
unfolding trip
record_failure now b =
    let counted = record b { failure_count = b.failure_count + 1; last_failure_time = now } in
    if leb counted.failure_threshold counted.failure_count then trip counted else counted

-- The part of `call` before `func`: the state is checked, and an open circuit refuses.
unfoldable pub admit : ℕ → CircuitBreaker → CircuitBreaker × Bool
unfolding check_state
admit now b = let b' = check_state now b in (b', not (is_open_state b'.state))

-- How `func` ends: with a result, with an exception, or with the error of another breaker.
pub data Ending : Type 0 where
  success failure breaker_error : Ending

-- The part of `call` after `func`.
unfoldable pub settle : ℕ → Ending → CircuitBreaker → CircuitBreaker
unfolding record_success record_failure
settle now success b = record_success b
settle now failure b = record_failure now b
settle now breaker_error b = b

-- `call` with nothing in between: whether it was admitted, and the breaker after it.
unfoldable pub call : ℕ → ℕ → Ending → CircuitBreaker → CircuitBreaker × Bool
unfolding admit settle
call now later ending b =
    let (b', admitted) = admit now b in (if admitted then settle later ending b' else b', admitted)

unfoldable pub reset : CircuitBreaker → CircuitBreaker
reset b = record b { state = closed; failure_count = 0 }

-- The two breakers of the process; a tick is a second.
unfoldable pub broker_circuit : CircuitBreaker
unfolding new_breaker
broker_circuit = new_breaker 5 60 true

unfoldable pub market_data_circuit : CircuitBreaker
unfolding new_breaker
market_data_circuit = new_breaker 3 120 false
