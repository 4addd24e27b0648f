-- ===== src/Soroban/Tests.antt =====
-- The theorems about src/services/soroban at concrete inputs.
use veritasor_backend.Prelude.{
  ℕ, ◌+◌, ◌*◌, ◌/◌, ◌≤◌, refl, Bool, true, List, [], ◌∷◌, arith, ltb, if◌then◌else◌, ◌==◌,
}
use veritasor_backend.Soroban.Budget.{RetryBudget}
use veritasor_backend.Soroban.Budget.Window.{
  Call, retry, count, run as run_budget, fresh, in_window, window_bound,
}
use veritasor_backend.Soroban.Breaker.{CircuitBreaker, closed, opened, can_proceed}
use veritasor_backend.Soroban.Breaker.States.{Event, succeeded, failed, asked}
use veritasor_backend.Soroban.Request.{
  RetryPolicy, Outcome, returned, Shared, Run, execute_soroban_request,
}
use veritasor_backend.Soroban.Request.Results.{Explained, request-Explained}

abbrev calls : List (ℕ × Call)
calls = (0, retry) ∷ (10, retry) ∷ (20, retry) ∷ (60_005, count) ∷ (60_006, retry) ∷ []

window_bound_example : in_window 5 (run_budget (fresh 2) calls).granted ≤ 2
window_bound_example = window_bound 2 calls (omega arith) 5

abbrev some_budget : RetryBudget
some_budget = record { max_retries = 2; attempts = 0 ∷ 10 ∷ 70_000 ∷ [] }

abbrev history : List Event
history = failed 1 ∷ asked 2 ∷ succeeded ∷ failed 3 ∷ []

abbrev tripped : CircuitBreaker
tripped = record {
  state = opened;
  failure_count = 5;
  last_failure_time = 100;
  threshold = 5;
  reset_timeout_ms = 1000;
}

abbrev failing : CircuitBreaker
failing = record tripped { state = closed; failure_count = 3 }

abbrev while_open : List Event
while_open = asked 1000 ∷ failed 1050 ∷ asked 2000 ∷ []

abbrev policy : RetryPolicy
policy = record { max_retries = 2; retry_base_delay_ms = 200; retry_max_delay_ms = 1500 }

abbrev draw : ℕ → ℕ → ℕ
draw n k = k / 2

abbrev clock : ℕ → ℕ
clock n = 1000 * n + 5

-- Every error is transient; the third attempt succeeds.
abbrev outcome : ℕ → Outcome ℕ ℕ
outcome n = if ltb n 3 then Outcome.failed n else returned 77

abbrev transient : ℕ → Bool
transient e = true

abbrev try_again_later : ℕ → Bool
try_again_later v = v == 5

abbrev shared : CircuitBreaker → Shared
shared b = record { breaker = b; budget = some_budget }

abbrev run_request : Shared → Run ℕ ℕ
run_request = execute_soroban_request policy draw clock transient try_again_later outcome

request-Explained_example :
    Explained policy draw clock transient try_again_later outcome (run_request (shared failing))
unfolding can_proceed
request-Explained_example =
    request-Explained policy draw clock transient try_again_later outcome (shared failing) refl
