-- ===== src/Soroban/Request/Bounds.antt =====
-- How often `executeSorobanRequest` of src/services/soroban/client.ts calls, sleeps and counts.
use veritasor_backend.Prelude.{
  ℕ, ◌+◌, ◌-◌, ◌≤◌, ◌<◌, ◌≡◌, ◌⊎◌, refl, inl, inr, Bool, false, ◌&&◌, arith, ltb, leb, length,
  Bool-cases, Option-cases,
}
use veritasor_backend.Soroban.Breaker.{CircuitBreaker, record_success, record_failure}
use veritasor_backend.Soroban.Budget.{
  prune_from, can_retry, record_retry, get_retry_count, full_jitter,
}
use veritasor_backend.Soroban.Budget.Window.{prune_again, full_jitter-none}
use veritasor_backend.Soroban.Request.{
  RetryPolicy, Outcome, returned, failed, Failure, transport, budget_exceeded, circuit_breaker,
  range_error, unexpected, Result, value, threw, Shared, Step, done, again, is_retryable,
  plan_retry, caught, settle, thrown_in_try, attempt_once,
}

module _ {T E : Type 0} (policy : RetryPolicy) (draw : ℕ → ℕ → ℕ) (clock : ℕ → ℕ)
    (retryable_transport : E → Bool) (should_retry_result : T → Bool) where
  -- Why an attempt that settled as `o` ended the request with a result.
  abbrev pub Justified : ℕ → Outcome T E → Result T E → Type 0
  Justified attempt o (value v) =
      (o ≡ returned v) × ((should_retry_result v ≡ false) ⊎ (policy.max_retries < attempt))
  Justified attempt o (threw (transport e)) =
      (o ≡ failed e) × ((retryable_transport e ≡ false) ⊎ (policy.max_retries < attempt))
  Justified attempt o (threw (budget_exceeded count limit)) = limit ≤ count
  Justified attempt o (threw range_error) =
      (policy.retry_base_delay_ms ≡ 0) ⊎ (policy.retry_max_delay_ms ≡ 0)
  Justified attempt o (threw (circuit_breaker state)) = ⊥
  Justified attempt o (threw unexpected) = ⊥

  -- One attempt adds at most one failure, and is repeated only below the limit.
  abbrev pub StepPost : ℕ → Shared → Outcome T E → Step T E → Type 0
  StepPost attempt s o (done s' r) =
      (s'.breaker.failure_count ≤ s.breaker.failure_count + 1) × Justified attempt o r
  StepPost attempt s o (again s' delay) =
      (s'.breaker.failure_count ≤ s.breaker.failure_count) × (attempt ≤ policy.max_retries)

  abbrev PlanPost : Shared → Step T E → Type 0
  PlanPost s (done s' r) =
      (s'.breaker ≡ s.breaker) × ((o : Outcome T E) (attempt : ℕ) → Justified attempt o r)
  PlanPost s (again s' delay) = s'.breaker ≡ s.breaker

  plan_retry-PlanPost :
      (attempt : ℕ) (s : Shared)
      → PlanPost s (plan_retry {T = T} {E = E} policy draw clock attempt s)
  unfolding plan_retry can_retry record_retry get_retry_count
  plan_retry-PlanPost attempt s =
      elim (Bool-cases
        (ltb (length (prune_from (clock attempt) s.budget.attempts)) s.budget.max_retries)) [
          | inl room ↦
              rw room
                (elim (Option-cases (
                  full_jitter (draw attempt) (attempt - 1) policy.retry_base_delay_ms
                    policy.retry_max_delay_ms)) [
                      | inl bad ↦
                          rw bad
                            (refl, λ o n. full_jitter-none (draw attempt) (attempt - 1) _ _ bad)
                      | inr (delay, good) ↦ rw good refl
                    ])
          | inr full ↦
              rw full (refl, λ o n. ground (arith, prune_again (clock attempt) s.budget.attempts))
        ]

  planned :
      (attempt : ℕ) (s : Shared) (o : Outcome T E) (step : Step T E)
      → attempt ≤ policy.max_retries
      → PlanPost s step
      → StepPost attempt s o step
  planned attempt s o (done s' r) h (same, just) = (ground (arith, same), just o attempt)
  planned attempt s o (again s' delay) h same = (ground (arith, same), h)

  record_failure_count :
      (now : ℕ) (b : CircuitBreaker) → (record_failure now b).failure_count ≡ b.failure_count + 1
  unfolding record_failure
  record_failure_count now b = ground arith

  record_success_count : (b : CircuitBreaker) → (record_success b).failure_count ≡ 0
  unfolding record_success
  record_success_count b = refl

  module _ (outcome : ℕ → Outcome T E) where
    abbrev catching : ℕ → Shared → Failure E → Step T E
    catching = caught policy draw clock retryable_transport should_retry_result outcome

    caught-StepPost :
        (attempt : ℕ) (s : Shared) (error : Failure E) (o : Outcome T E)
        → ((is_retryable retryable_transport error && leb attempt policy.max_retries) ≡ false
            → Justified attempt o (threw error))
        → StepPost attempt s o (catching attempt s error)
    unfolding caught
    caught-StepPost attempt s error o just =
        elim (Bool-cases
          (is_retryable retryable_transport error && leb attempt policy.max_retries)) [
            | inl retry ↦ rw retry (
                planned attempt s o (plan_retry policy draw clock attempt s) (ground arith)
                  (plan_retry-PlanPost attempt s))
            | inr stop ↦
                rw stop (omega (arith, record_failure_count (clock attempt) s.breaker), just stop)
          ]

    thrown-StepPost :
        (attempt : ℕ) (s before : Shared) (o : Outcome T E) (step : Step T E)
        → attempt ≤ policy.max_retries
        → s.breaker.failure_count ≤ before.breaker.failure_count
        → PlanPost s step
        → StepPost attempt before o (
            thrown_in_try policy draw clock retryable_transport should_retry_result outcome attempt
              step)
    thrown-StepPost attempt s before o (again s' delay) h k same = (ground (arith, same), h)
    thrown-StepPost attempt s before o (done s' (value v)) h k (same, just) =
        (ground (arith, same), just o attempt)
    thrown-StepPost attempt s before o (done s' (threw error)) h k (same, just) =
        weaken (catching attempt s' error)
          (caught-StepPost attempt s' error o (λ _. just o attempt))
      where
        weaken : (step : Step T E) → StepPost attempt s' o step → StepPost attempt before o step
        weaken (done u r) (a, b) = (ground (arith, same), b)
        weaken (again u d) (a, b) = (ground (arith, same), b)

    settle-StepPost :
        (attempt : ℕ) (s : Shared) (o : Outcome T E)
        → StepPost attempt s o
            (settle policy draw clock retryable_transport should_retry_result outcome attempt s o)
    unfolding is_retryable
    settle-StepPost attempt s (failed e) =
        caught-StepPost attempt s (transport e) (failed e) (λ stop. (refl, ground arith))
    settle-StepPost attempt s (returned v) =
        elim (Bool-cases (should_retry_result v && leb attempt policy.max_retries)) [
          | inl retry ↦ rw retry (
              thrown-StepPost attempt (record s { breaker = record_success s.breaker }) s
                (returned v)
                (plan_retry policy draw clock attempt
                  (record s { breaker = record_success s.breaker }))
                (ground arith) (omega (arith, record_success_count s.breaker))
                (plan_retry-PlanPost attempt (record s { breaker = record_success s.breaker })))
          | inr stop ↦ rw stop (omega (arith, record_success_count s.breaker), (refl, ground arith))
        ]

    pub attempt_once-StepPost :
        (attempt : ℕ) (s : Shared)
        → StepPost attempt s (outcome attempt) (
            attempt_once policy draw clock retryable_transport should_retry_result outcome attempt
              s)
    unfolding attempt_once
    attempt_once-StepPost attempt s = settle-StepPost attempt s (outcome attempt)
