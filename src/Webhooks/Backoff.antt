-- ===== src/Webhooks/Backoff.antt =====
-- src/utils/backoff.ts: a call that is tried again after a delay.
use veritasor_backend.Prelude.{
  ℕ, zero, suc, ◌-◌, ◌*◌, ◌^◌, min, max, ◌==◌, Option, none, some, if◌then◌else◌, leb,
}

pub record BackoffOptions : Type 0 where
  pub base_delay_ms : ℕ
  pub max_delay_ms : ℕ
  pub max_attempts : ℕ

abbrev pub default_backoff_options : BackoffOptions
default_backoff_options = record { base_delay_ms = 200; max_delay_ms = 10000; max_attempts = 3 }

-- What one call ends with.
pub data Attempt (A E : Type 0) : Type 0 where
  returns : A → Attempt A E
  throws : E → Attempt A E

-- What is thrown: the call's own error, or a `BackoffError` with its count and cause.
pub data Failure (E : Type 0) : Type 0 where
  own_error : E → Failure E
  backoff_error : ℕ → Option E → Failure E

-- `draw attempt n` stands for `Math.round(random() * n)` after that attempt.
unfoldable pub calculate_backoff_delay : (ℕ → ℕ → ℕ) → ℕ → BackoffOptions → ℕ
calculate_backoff_delay draw attempt o =
    max 1 (draw attempt (min o.max_delay_ms (o.base_delay_ms * 2 ^ attempt)))

-- The error after the last attempt.
abbrev pub exhausted : {E : Type 0} → ℕ → E → Failure E
exhausted max_attempts e =
    if leb max_attempts 1 then own_error e else backoff_error max_attempts (some e)

-- `sleep d` is all that happens to the world in the delay `d`, other calls included.
module _ {W A E : Type 0} (sleep : ℕ → W → W) (draw : ℕ → ℕ → ℕ) (o : BackoffOptions)
    (fn : ℕ → W → Attempt A E × W) where
  abbrev pub last_attempt : Attempt A E × W → Attempt A (Failure E) × W
  last_attempt (returns a, w) = (returns a, w)
  last_attempt (throws e, w) = (throws (exhausted o.max_attempts e), w)

  abbrev pub or_again :
      (W → Attempt A (Failure E) × W) → ℕ → Attempt A E × W → Attempt A (Failure E) × W
  or_again again attempt (returns a, w) = (returns a, w)
  or_again again attempt (throws e, w) = again (sleep (calculate_backoff_delay draw attempt o) w)

  -- The loop from an attempt, with the number of those that are left after it.
  unfoldable pub attempts_from : ℕ → ℕ → W → Attempt A (Failure E) × W
  attempts_from zero attempt w = last_attempt (fn attempt w)
  attempts_from (suc left) attempt w =
      or_again (attempts_from left (suc attempt)) attempt (fn attempt w)

  unfoldable pub with_backoff : W → Attempt A (Failure E) × W
  with_backoff w =
      if o.max_attempts == 0
      then (throws (backoff_error 0 none), w)
      else attempts_from (o.max_attempts - 1) 1 w
