-- ===== src/Soroban/Request.antt =====
-- `executeSorobanRequest` of src/services/soroban/client.ts: the retry loop over a circuit breaker
-- and the shared retry budget. What the RPC does is a parameter: `outcome n` is how attempt `n`
-- settles (a timeout among the failures), `clock n` the time when it does, `draw n k` the random
-- number of its delay. Hooks, tracing and logging are left out.
pub mod Bounds
pub mod Results
use veritasor_backend.Prelude.{
  ℕ, zero, suc, ◌+◌, ◌-◌, ◌/◌, ◌%◌, Bool, true, false, ◌&&◌, ◌||◌, List, [], ◌∷◌, Option, none,
  some, leb, ◌==◌, if◌then◌else◌,
}
use veritasor_backend.Soroban.Breaker.{
  CircuitBreaker, BreakerState, record_success, record_failure, can_proceed,
}
use veritasor_backend.Soroban.Budget.{
  RetryBudget, can_retry, record_retry, get_retry_count, full_jitter,
}

pub record RetryPolicy : Type 0 where
  pub max_retries : ℕ
  pub retry_base_delay_ms : ℕ
  pub retry_max_delay_ms : ℕ

pub data Outcome (T E : Type 0) : Type 0 where
  returned : T → Outcome T E
  failed : E → Outcome T E

pub data Failure (E : Type 0) : Type 0 where
  transport : E → Failure E
  -- `SorobanRetryBudgetExceededError`: the count and the limit of its message.
  budget_exceeded : ℕ → ℕ → Failure E
  circuit_breaker : BreakerState → Failure E
  range_error unexpected : Failure E

pub data Result (T E : Type 0) : Type 0 where
  value : T → Result T E
  threw : Failure E → Result T E

-- The breaker and the budget are shared with other requests.
pub record Shared : Type 0 where
  pub breaker : CircuitBreaker
  pub budget : RetryBudget

pub record Run (T E : Type 0) : Type 0 where
  pub shared : Shared
  pub calls : ℕ
  pub sleeps : List ℕ
  pub result : Result T E

pub data Step (T E : Type 0) : Type 0 where
  done : Shared → Result T E → Step T E
  again : Shared → ℕ → Step T E

-- "503", "504" or "429" in the decimal digits of a number, which needs no more rounds than digits.
pub mentions_code : ℕ → ℕ → Bool
mentions_code zero n = false
mentions_code (suc digits) n =
    n % 1000 == 503 || n % 1000 == 504 || n % 1000 == 429 || mentions_code digits (n / 10)

-- `isRetryableSorobanError`, where the message of a transport error is judged by a parameter; the
-- message of an exhausted budget holds two numbers, and retryable status codes are looked for there.
pub is_retryable : {E : Type 0} → (E → Bool) → Failure E → Bool
unfolding mentions_code
is_retryable retryable_transport (transport e) = retryable_transport e
is_retryable retryable_transport (budget_exceeded count limit) =
    mentions_code 20 count || mentions_code 20 limit
is_retryable retryable_transport (circuit_breaker state) = false
is_retryable retryable_transport range_error = false
is_retryable retryable_transport unexpected = false

module _ {T E : Type 0} (policy : RetryPolicy) (draw : ℕ → ℕ → ℕ) (clock : ℕ → ℕ) where
  -- `canRetry`, `recordRetry` and `calculateRetryDelay`, which the loop does in two places.
  pub plan_retry : ℕ → Shared → Step T E
  plan_retry attempt s =
      let (checked, allowed) = can_retry (clock attempt) s.budget in
      if allowed
      then elim (full_jitter (draw attempt) (attempt - 1) policy.retry_base_delay_ms
          policy.retry_max_delay_ms) [
            | none ↦
                done (record s { budget = record_retry (clock attempt) checked })
                  (threw range_error)
            | some delay ↦ again (record s { budget = record_retry (clock attempt) checked }) delay
          ]
      else (let (counted, current) = get_retry_count (clock attempt) checked in
          done (record s { budget = counted })
            (threw (budget_exceeded current counted.max_retries)))

  module _ (retryable_transport : E → Bool) (should_retry_result : T → Bool)
      (outcome : ℕ → Outcome T E) where
    -- The `catch` block.
    pub caught : ℕ → Shared → Failure E → Step T E
    caught attempt s error =
        if is_retryable retryable_transport error && leb attempt policy.max_retries
        then plan_retry attempt s
        else done (record s { breaker = record_failure (clock attempt) s.breaker }) (threw error)

    -- An error that the `try` block throws after a call goes to the `catch` block.
    abbrev pub thrown_in_try : ℕ → Step T E → Step T E
    thrown_in_try attempt (again s delay) = again s delay
    thrown_in_try attempt (done s (value v)) = done s (value v)
    thrown_in_try attempt (done s (threw error)) = caught attempt s error

    abbrev pub settle : ℕ → Shared → Outcome T E → Step T E
    settle attempt s (failed e) = caught attempt s (transport e)
    settle attempt s (returned v) =
        let succeeded = record s { breaker = record_success s.breaker } in
        if should_retry_result v && leb attempt policy.max_retries
        then thrown_in_try attempt (plan_retry attempt succeeded)
        else done succeeded (value v)

    pub attempt_once : ℕ → Shared → Step T E
    attempt_once attempt s = settle attempt s (outcome attempt)

    -- The `for` loop, by the rounds that are left.
    pub attempt_loop : ℕ → ℕ → Shared → Run T E
    attempt_loop zero attempt s = record {
      shared = s;
      calls = 0;
      sleeps = [];
      result = threw unexpected;
    }
    attempt_loop (suc rounds) attempt s = elim (attempt_once attempt s) [
      | done s' r ↦ record { shared = s'; calls = 1; sleeps = []; result = r }
      | again s' delay ↦
          let rest = attempt_loop rounds (attempt + 1) s' in
          record rest { calls = rest.calls + 1; sleeps = delay ∷ rest.sleeps }
    ]

    pub execute_soroban_request : Shared → Run T E
    execute_soroban_request s =
        let (b, proceed) = can_proceed (clock 0) s.breaker in
        if proceed
        then attempt_loop (policy.max_retries + 1) 1 (record s { breaker = b })
        else record {
          shared = record s { breaker = b };
          calls = 0;
          sleeps = [];
          result = threw (circuit_breaker b.state);
        }
