-- ===== src/Soroban/Request/Results.antt =====
-- How `executeSorobanRequest` of src/services/soroban/client.ts ends.
use veritasor_backend.Prelude.{
  ℕ, zero, suc, ◌+◌, ◌≤◌, ◌≡◌, ◌⊎◌, refl, inl, inr, Bool, true, false, [], arith, length,
  Bool-cases,
}
use native.Mathlib.Numerals.{add-one}
use veritasor_backend.Soroban.Breaker.{
  CircuitBreaker, BreakerState, closed, half_open, opened, can_proceed, proceed_in,
}
use veritasor_backend.Soroban.Request.{
  RetryPolicy, Outcome, Result, threw, circuit_breaker, Shared, Run, Step, done, again,
  attempt_once, attempt_loop, execute_soroban_request,
}
use veritasor_backend.Soroban.Request.Bounds.{Justified, StepPost, attempt_once-StepPost}

module _ {T E : Type 0} (policy : RetryPolicy) (draw : ℕ → ℕ → ℕ) (clock : ℕ → ℕ)
    (retryable_transport : E → Bool) (should_retry_result : T → Bool)
    (outcome : ℕ → Outcome T E) where
  abbrev loop : ℕ → ℕ → Shared → Run T E
  loop = attempt_loop policy draw clock retryable_transport should_retry_result outcome

  abbrev execute : Shared → Run T E
  execute =
      execute_soroban_request policy draw clock retryable_transport should_retry_result outcome

  -- The result is explained by the attempt that ended the request.
  abbrev pub Explained : Run T E → Type 0
  Explained r =
      (n : ℕ) × (1 ≤ n)
      × (n ≤ policy.max_retries + 1)
      × Justified policy draw clock retryable_transport should_retry_result n (outcome n) r.result

  record Report (rounds : ℕ) (s : Shared) (r : Run T E) : Type 0 where
    called : r.calls ≤ rounds
    slept : length r.sleeps + 1 ≡ r.calls
    counted : r.shared.breaker.failure_count ≤ s.breaker.failure_count + 1
    explained : Explained r

  abbrev once : ℕ → Shared → Step T E
  once = attempt_once policy draw clock retryable_transport should_retry_result outcome

  Step-cases :
      (st : Step T E)
      → ((s : Shared) × (r : Result T E) × (st ≡ done s r))
        ⊎ ((s : Shared) × (d : ℕ) × (st ≡ again s d))
  Step-cases (done s r) = inl (s, r, refl)
  Step-cases (again s d) = inr (s, d, refl)

  post :
      (attempt : ℕ) (s : Shared)
      → StepPost policy draw clock retryable_transport should_retry_result attempt s
          (outcome attempt)
          (once attempt s)
  post = attempt_once-StepPost policy draw clock retryable_transport should_retry_result outcome

  loop_done :
      (rounds attempt : ℕ) (s s' : Shared) (r : Result T E)
      → 1 ≤ attempt
      → attempt + rounds ≡ policy.max_retries + 1
      → once attempt s ≡ done s' r
      → Report (suc rounds) s (loop (suc rounds) attempt s)
  unfolding attempt_loop
  loop_done rounds attempt s s' r h e is_done =
      let (few, just) = rw is_done at (post attempt s) in
      rw (is_done, attempt_loop)
        (record {
          called = omega arith;
          slept = omega arith;
          counted = few;
          explained = (attempt, h, omega arith, just);
        })

  loop_again :
      (rounds attempt : ℕ) (s s' : Shared) (delay : ℕ)
      → once attempt s ≡ again s' delay
      → Report rounds s' (loop rounds (attempt + 1) s')
      → Report (suc rounds) s (loop (suc rounds) attempt s)
  unfolding attempt_loop
  loop_again rounds attempt s s' delay is_again rest =
      let (few, _) = rw is_again at (post attempt s) in
      rw (is_again, attempt_loop)
        (record {
          called = omega (arith, rest.called);
          slept = omega (arith, rest.slept);
          counted = omega (arith, rest.counted);
          explained = rest.explained;
        })

  loop-Report :
      (rounds attempt : ℕ) (s : Shared)
      → 1 ≤ attempt
      → attempt + rounds ≡ policy.max_retries + 1
      → Report (suc rounds) s (loop (suc rounds) attempt s)
  loop-Report zero attempt s h e = elim (Step-cases (once attempt s)) [
    | inl (s', r, is_done) ↦ loop_done zero attempt s s' r h e is_done
    | inr (s', delay, is_again) ↦ absurd (omega (arith, (rw is_again at (post attempt s)).1))
  ]
  loop-Report (suc rounds) attempt s h e = elim (Step-cases (once attempt s)) [
    | inl (s', r, is_done) ↦ loop_done (suc rounds) attempt s s' r h e is_done
    | inr (s', delay, is_again) ↦
        loop_again (suc rounds) attempt s s' delay is_again
          (loop-Report rounds (attempt + 1) s' (omega arith) (omega arith))
  ]

  can_proceed_count :
      (now : ℕ) (b : CircuitBreaker) → (can_proceed now b).0.failure_count ≡ b.failure_count
  unfolding can_proceed
  can_proceed_count now b = ground arith

  execute-Report :
      (s : Shared)
      → (can_proceed (clock 0) s.breaker).1 ≡ true
      → Report
          (policy.max_retries + 1)
          (record s { breaker = (can_proceed (clock 0) s.breaker).0 })
          (execute s)
  unfolding execute_soroban_request
  execute-Report s yes_proceed = rw yes_proceed (
      rw (add-one policy.max_retries)
        (loop-Report policy.max_retries 1 _ (omega arith) (omega arith)))

  -- A request makes at most `maxRetries + 1` calls and sleeps once between two of them, and however
  -- many of its attempts fail, it counts at most one failure of the circuit breaker.
  pub request_bounds :
      (s : Shared)
      → ((execute s).calls ≤ policy.max_retries + 1)
        × (length (execute s).sleeps ≤ policy.max_retries)
        × ((execute s).shared.breaker.failure_count ≤ s.breaker.failure_count + 1)
  unfolding execute_soroban_request
  request_bounds s = elim (Bool-cases (can_proceed (clock 0) s.breaker).1) [
    | inl go ↦
        let report = execute-Report s go in
        omega (
          arith,
          report.called,
          report.slept,
          report.counted,
          can_proceed_count (clock 0) s.breaker,
        )
    | inr stop ↦ rw stop (omega (arith, can_proceed_count (clock 0) s.breaker))
  ]

  -- A request that the breaker lets through ends with a result that one of its attempts explains: a
  -- value that the last attempt returned and that needs no retry or could not get one, an error
  -- that it threw and that was not retryable or came last, or a budget with no retry left. The loop
  -- never runs off its end.
  pub request-Explained :
      (s : Shared) → (can_proceed (clock 0) s.breaker).1 ≡ true → Explained (execute s)
  request-Explained s go = (execute-Report s go).explained

  proceed_refused :
      (now : ℕ) (b : CircuitBreaker) (st : BreakerState)
      → b.state ≡ st
      → (proceed_in now b st).1 ≡ false
      → ((proceed_in now b st).0 ≡ b) × (b.state ≡ opened)
  proceed_refused now b closed e h = cc
  proceed_refused now b half_open e h = cc
  proceed_refused now b opened e h = ground arith

  -- A request that the breaker refuses makes no call and changes neither breaker nor budget.
  pub request_refused :
      (s : Shared)
      → (can_proceed (clock 0) s.breaker).1 ≡ false
      → execute s
        ≡ record { shared = s; calls = 0; sleeps = []; result = threw (circuit_breaker opened) }
  unfolding execute_soroban_request can_proceed
  request_refused s stop =
      let (same, open_state) = proceed_refused (clock 0) s.breaker s.breaker.state refl stop in
      ground arith
