-- ===== src/Soroban/Budget/Window.antt =====
-- The sliding window of src/services/soroban/retry-budget.ts.
use veritasor_backend.Prelude.{
  ℕ, zero, suc, ◌==◌, ◌||◌, ◌+◌, ◌*◌, ◌^◌, ◌≤◌, ◌<◌, ◌≡◌, ◌⊎◌, min, refl, inl, inr, Bool, true,
  false, ◌&&◌, List, [], ◌∷◌, ◌++◌, none, some, arith, ltb, leb, if◌then◌else◌, length, Bool-cases,
}
use native.Mathlib.Nat.{pow-suc}
use veritasor_backend.Soroban.Budget.{
  RetryBudget, window_ms, prune_from, can_retry, record_retry, get_retry_count, full_jitter,
}

-- What callers do at one moment: ask for a retry and record it if it is allowed, or read the count.
pub data Call : Type 0 where
  retry count : Call

-- `canRetry()` followed by `recordRetry()`, as the request loop calls them, with no wait between.
pub try_retry : ℕ → RetryBudget → RetryBudget × Bool
try_retry now b =
    let (checked, allowed) = can_retry now b in
    if allowed then (record_retry now checked, true) else (checked, false)

pub record Trace : Type 0 where
  pub budget : RetryBudget
  -- The times of all retries that were allowed, newest first.
  pub granted : List ℕ

note : ℕ → List ℕ → RetryBudget × Bool → Trace
note now g (b, allowed) = record { budget = b; granted = if allowed then now ∷ g else g }

pub call : Trace → ℕ → Call → Trace
unfolding try_retry note
call s now retry = note now s.granted (try_retry now s.budget)
call s now count = record s { budget = (get_retry_count now s.budget).0 }

pub run : Trace → List (ℕ × Call) → Trace
run s [] = s
run s ((now, c) ∷ cs) = run (call s now c) cs

-- The clock does not go back.
abbrev pub Ordered : ℕ → List (ℕ × Call) → Type 0
Ordered clock [] = Unit {0}
Ordered clock ((now, c) ∷ cs) = (clock ≤ now) × Ordered now cs

-- The times in the window of 60 seconds that begins at `w`.
abbrev pub in_window : ℕ → List ℕ → ℕ
in_window w [] = 0
in_window w (t ∷ ts) = (if leb w t && leb t (w + window_ms) then 1 else 0) + in_window w ts

in_window-le-length : (w : ℕ) (ts : List ℕ) → in_window w ts ≤ length ts
in_window-le-length w [] = omega arith
in_window-le-length w (t ∷ ts) = ground (arith, in_window-le-length w ts)

in_window-append :
    (w : ℕ) (xs ys : List ℕ) → in_window w (xs ++ ys) ≡ in_window w xs + in_window w ys
in_window-append w [] ys = omega arith
in_window-append w (x ∷ xs) ys = omega (arith, in_window-append w xs ys)

-- What is pruned has left every window that is still open.
in_window-prune :
    (now w : ℕ) (ts : List ℕ)
    → now ≤ w + window_ms
    → in_window w (prune_from now ts) ≡ in_window w ts
unfolding prune_from
in_window-prune now w [] h = refl
in_window-prune now w (t ∷ ts) h = ground (arith, in_window-prune now w ts h)

record Inv (s : Trace) (clock max : ℕ) : Type 0 where
  limit : s.budget.max_retries ≡ max
  kept : (w : ℕ) → clock ≤ w + window_ms → in_window w s.granted ≤ in_window w s.budget.attempts
  bounded : (w : ℕ) → in_window w s.granted ≤ max

module _ (s : Trace) (clock now max : ℕ) (inv : Inv s clock max) (later : clock ≤ now) where
  abbrev pruned : List ℕ
  pruned = prune_from now s.budget.attempts

  pruned_kept : (w : ℕ) → now ≤ w + window_ms → in_window w s.granted ≤ in_window w pruned
  pruned_kept w h =
      let old = inv.kept w (omega arith) in
      omega (arith, in_window-prune now w s.budget.attempts h, old)

  Inv-checked :
      Inv (record { budget = record s.budget { attempts = pruned }; granted = s.granted }) now max
  Inv-checked = record { limit = inv.limit; kept = pruned_kept; bounded = inv.bounded }

  granted_kept :
      (w : ℕ)
      → now ≤ w + window_ms
      → in_window w (now ∷ s.granted) ≤ in_window w (prune_from now pruned ++ now ∷ [])
  granted_kept w h =
      let old = pruned_kept w h in
      omega (
        arith,
        in_window-append w (prune_from now pruned) (now ∷ []),
        in_window-prune now w pruned h,
        old,
      )

  granted_bounded : length pruned < max → (w : ℕ) → in_window w (now ∷ s.granted) ≤ max
  granted_bounded room w = elim (Bool-cases (leb now (w + window_ms))) [
    | inl open_window ↦
        ground (arith, pruned_kept w (ground arith), in_window-le-length w pruned, inv.bounded w)
    | inr closed ↦ ground (arith, inv.bounded w)
  ]

  Inv-granted :
      length pruned < max
      → Inv
          (record {
            budget = record s.budget { attempts = prune_from now pruned ++ now ∷ [] };
            granted = now ∷ s.granted;
          })
          now
          max
  Inv-granted room = record {
    limit = inv.limit;
    kept = granted_kept;
    bounded = granted_bounded room;
  }

Inv-call :
    (s : Trace) (clock now max : ℕ) (c : Call)
    → Inv s clock max
    → clock ≤ now
    → Inv (call s now c) now max
unfolding call can_retry record_retry get_retry_count
Inv-call s clock now max retry inv later =
    elim (Bool-cases (ltb (length (prune_from now s.budget.attempts)) s.budget.max_retries)) [
      | inl room ↦ rw room (Inv-granted s clock now max inv later (ground (arith, inv.limit)))
      | inr full ↦ rw full (Inv-checked s clock now max inv later)
    ]
Inv-call s clock now max count inv later = Inv-checked s clock now max inv later

Inv-run :
    (s : Trace) (clock max : ℕ) (cs : List (ℕ × Call))
    → Inv s clock max
    → Ordered clock cs
    → (w : ℕ) → in_window w (run s cs).granted ≤ max
unfolding run
Inv-run s clock max [] inv later = inv.bounded
Inv-run s clock max ((now, c) ∷ cs) inv later =
    Inv-run (call s now c) now max cs (Inv-call s clock now max c inv later.0) later.1

abbrev pub fresh : ℕ → Trace
fresh max = record { budget = record { max_retries = max; attempts = [] }; granted = [] }

-- However the callers of one budget interleave, and at whatever times, never more than `maxRetries`
-- of the retries that it allowed lie in any window of 60 seconds.
pub window_bound :
    (max : ℕ) (cs : List (ℕ × Call))
    → Ordered 0 cs
    → (w : ℕ) → in_window w (run (fresh max) cs).granted ≤ max
window_bound max cs later =
    Inv-run (fresh max) 0 max cs
      (record { limit = refl; kept = (λ w h. omega arith); bounded = (λ w. omega arith) }) later

abbrev pub Sorted : List ℕ → Type 0
Sorted [] = Unit {0}
Sorted (t ∷ []) = Unit {0}
Sorted (t ∷ u ∷ ts) = (t ≤ u) × Sorted (u ∷ ts)

-- The times at most 60 seconds old.
abbrev pub recent : ℕ → List ℕ → ℕ
recent now [] = 0
recent now (t ∷ ts) = (if leb now (t + window_ms) then 1 else 0) + recent now ts

length-prune : (now : ℕ) (ts : List ℕ) → Sorted ts → length (prune_from now ts) ≡ recent now ts
unfolding prune_from
length-prune now [] h = refl
length-prune now (t ∷ []) h = ground arith
length-prune now (t ∷ u ∷ ts) h = ground (arith, length-prune now (u ∷ ts) h.1)

-- With the recorded times in order, a retry is allowed exactly if fewer than `maxRetries` of them
-- are at most 60 seconds old: the loop over the oldest entries drops neither more nor less.
pub can_retry_exact :
    (now : ℕ) (b : RetryBudget)
    → Sorted b.attempts
    → (can_retry now b).1 ≡ ltb (recent now b.attempts) b.max_retries
unfolding can_retry
can_retry_exact now b h = rw (length-prune now b.attempts h)

pow_pos : (n : ℕ) → 0 < 2 ^ n
pow_pos zero = omega arith
pow_pos (suc n) = omega (arith, pow-suc 2 n, pow_pos n)

mul_pos : (a b : ℕ) → 0 < a → 0 < b → 0 < a * b
mul_pos a b h k = grind arith

-- The delay is below the cap and below the exponential, whatever the random draw is, as long as it
-- is a draw from [0, n) for a positive n.
pub full_jitter_lt :
    (draw : ℕ → ℕ) (attempt base_ms cap_ms delay : ℕ)
    → ((n : ℕ) → 0 < n → draw n < n)
    → full_jitter draw attempt base_ms cap_ms ≡ some delay
    → (delay < cap_ms) × (delay < base_ms * 2 ^ attempt)
unfolding full_jitter
full_jitter_lt draw attempt base_ms cap_ms delay below h =
    elim (Bool-cases (base_ms == 0 || cap_ms == 0)) [
      | inl bad ↦ cc (rw (bad, full_jitter) at h)
      | inr good ↦
          let positive = mul_pos base_ms (2 ^ attempt) (ground arith) (pow_pos attempt) in
          let small = below (min (base_ms * 2 ^ attempt) cap_ms) (ground arith) in
          let same : delay ≡ draw (min (base_ms * 2 ^ attempt) cap_ms) =
            cc (rw (good, full_jitter) at h) in
          (omega arith, omega arith)
    ]

pub prune_again : (now : ℕ) (ts : List ℕ) → prune_from now (prune_from now ts) ≡ prune_from now ts
unfolding prune_from
prune_again now [] = refl
prune_again now (t ∷ ts) = ground (arith, prune_again now ts)

pub full_jitter-none :
    (draw : ℕ → ℕ) (attempt base_ms cap_ms : ℕ)
    → full_jitter draw attempt base_ms cap_ms ≡ none
    → (base_ms ≡ 0) ⊎ (cap_ms ≡ 0)
unfolding full_jitter
full_jitter-none draw attempt base_ms cap_ms h = ground arith
