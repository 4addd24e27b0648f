-- ===== src/Soroban/Budget.antt =====
-- src/services/soroban/retry-budget.ts. Times are milliseconds; each call is given `Date.now()`.
-- The counters of the metrics registry are left out.
pub mod Window
use veritasor_backend.Prelude.{
  ℕ, ◌+◌, ◌*◌, ◌^◌, min, Bool, true, false, ◌||◌, List, [], ◌∷◌, ◌++◌, Option, none, some, ltb,
  ◌==◌, if◌then◌else◌, length,
}

-- `windowMs`
abbrev pub window_ms : ℕ
window_ms = 60_000

pub record RetryBudget : Type 0 where
  pub max_retries : ℕ
  -- Oldest first.
  pub attempts : List ℕ

-- The argument of the constructor, which refuses a negative number.
pub data MaxRetries : Type 0 where
  nonnegative : ℕ → MaxRetries
  negative : MaxRetries

pub new_budget : MaxRetries → Option RetryBudget
new_budget negative = none
new_budget (nonnegative n) = some (record { max_retries = n; attempts = [] })

-- `attempts[0] < now - windowMs`, with the subtraction on the other side.
pub prune_from : ℕ → List ℕ → List ℕ
prune_from now [] = []
prune_from now (t ∷ ts) = if ltb (t + window_ms) now then prune_from now ts else t ∷ ts

pub prune_expired_attempts : ℕ → RetryBudget → RetryBudget
unfolding prune_from
prune_expired_attempts now b = record b { attempts = prune_from now b.attempts }

unfoldable pub can_retry : ℕ → RetryBudget → RetryBudget × Bool
unfolding prune_expired_attempts
can_retry now b =
    let pruned = prune_expired_attempts now b in
    (pruned, ltb (length pruned.attempts) pruned.max_retries)

unfoldable pub record_retry : ℕ → RetryBudget → RetryBudget
unfolding prune_expired_attempts
record_retry now b =
    let pruned = prune_expired_attempts now b in
    record pruned { attempts = pruned.attempts ++ now ∷ [] }

unfoldable pub get_retry_count : ℕ → RetryBudget → RetryBudget × ℕ
unfolding prune_expired_attempts
get_retry_count now b =
    let pruned = prune_expired_attempts now b in (pruned, length pruned.attempts)

pub reset : RetryBudget → RetryBudget
reset b = record b { attempts = [] }

-- `fullJitter`, with `draw n` for `Math.floor(random() * n)`; `none` is a RangeError.
unfoldable pub full_jitter : (ℕ → ℕ) → ℕ → ℕ → ℕ → Option ℕ
full_jitter draw attempt base_ms cap_ms =
    if base_ms == 0 || cap_ms == 0 then none else some (draw (min (base_ms * 2 ^ attempt) cap_ms))
