-- ===== src/Soroban/Breaker.antt =====
-- `CircuitBreaker` of src/services/soroban/client.ts. Each call is given `Date.now()`; the
-- state-change hook and the logger are left out.
pub mod States
use veritasor_backend.Prelude.{ℕ, ◌+◌, Bool, true, false, ◌&&◌, ltb, leb, if◌then◌else◌}

pub data BreakerState : Type 0 where
  closed half_open : BreakerState
  opened : BreakerState

pub record CircuitBreaker : Type 0 where
  pub state : BreakerState
  pub failure_count : ℕ
  pub last_failure_time : ℕ
  pub threshold : ℕ
  pub reset_timeout_ms : ℕ

unfoldable pub new_breaker : ℕ → ℕ → CircuitBreaker
new_breaker threshold reset_timeout_ms = record {
  state = closed;
  failure_count = 0;
  last_failure_time = 0;
  threshold = threshold;
  reset_timeout_ms = reset_timeout_ms;
}

abbrev pub transition_to : BreakerState → CircuitBreaker → CircuitBreaker
transition_to new_state b = record b { state = new_state }

abbrev pub is_half_open : BreakerState → Bool
is_half_open closed = false
is_half_open opened = false
is_half_open half_open = true

abbrev pub is_closed : BreakerState → Bool
is_closed closed = true
is_closed opened = false
is_closed half_open = false

unfoldable pub record_success : CircuitBreaker → CircuitBreaker
record_success b =
    let moved = if is_half_open b.state then transition_to closed b else b in
    record moved { failure_count = 0 }

unfoldable pub record_failure : ℕ → CircuitBreaker → CircuitBreaker
record_failure now b =
    let counted = record b { failure_count = b.failure_count + 1; last_failure_time = now } in
    if is_closed counted.state && leb counted.threshold counted.failure_count
    then transition_to opened counted
    else if is_half_open counted.state
    then transition_to opened counted
    else counted

-- `Date.now() - lastFailureTime >= resetTimeoutMs`, with the subtraction on the other side.
abbrev pub proceed_in : ℕ → CircuitBreaker → BreakerState → CircuitBreaker × Bool
proceed_in now b closed = (b, true)
proceed_in now b half_open = (b, true)
proceed_in now b opened =
    if leb (b.last_failure_time + b.reset_timeout_ms) now
    then (transition_to half_open b, true)
    else (b, false)

unfoldable pub can_proceed : ℕ → CircuitBreaker → CircuitBreaker × Bool
can_proceed now b = proceed_in now b b.state
