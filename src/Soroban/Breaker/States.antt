-- ===== src/Soroban/Breaker/States.antt =====
-- The state machine of `CircuitBreaker` in src/services/soroban/client.ts.
use veritasor_backend.Prelude.{
  ℕ, suc, ◌+◌, ◌≤◌, ◌<◌, ◌≡◌, refl, ap, ◌∙◌, true, false, List, [], ◌∷◌, arith, leb, if◌then◌else◌,
}
use veritasor_backend.Soroban.Breaker.{
  CircuitBreaker, closed, opened, new_breaker, record_success, record_failure, can_proceed,
}

-- The calls that clients make, each at a time.
pub data Event : Type 0 where
  succeeded : Event
  failed asked : ℕ → Event

unfoldable pub step : CircuitBreaker → Event → CircuitBreaker
step b succeeded = record_success b
step b (failed now) = record_failure now b
step b (asked now) = (can_proceed now b).0

unfoldable pub run : CircuitBreaker → List Event → CircuitBreaker
run b [] = b
run b (e ∷ es) = run (step b e) es

-- A closed breaker has counted fewer failures than its threshold.
pub record Inv (b : CircuitBreaker) : Type 0 where
  pub below : b.state ≡ closed → b.failure_count < b.threshold

step-Inv :
    (b : CircuitBreaker) (e : Event)
    → 0 < b.threshold
    → Inv b
    → Inv (step b e) × ((step b e).threshold ≡ b.threshold)
unfolding step record_success record_failure can_proceed
step-Inv b succeeded h inv = ground (arith, inv.below)
step-Inv b (failed now) h inv = ground (arith, inv.below)
step-Inv b (asked now) h inv = ground (arith, inv.below)

-- The failures of a run of events that come after its last success.
abbrev pub failures_since : ℕ → List Event → ℕ
failures_since n [] = n
failures_since n (succeeded ∷ es) = failures_since 0 es
failures_since n (failed now ∷ es) = failures_since (n + 1) es
failures_since n (asked now ∷ es) = failures_since n es

step-count :
    (b : CircuitBreaker) (e : Event)
    → (step b e).failure_count ≡ failures_since b.failure_count (e ∷ [])
unfolding step record_success record_failure can_proceed
step-count b succeeded = ground arith
step-count b (failed now) = ground arith
step-count b (asked now) = ground arith

run-count :
    (b : CircuitBreaker) (es : List Event)
    → (run b es).failure_count ≡ failures_since b.failure_count es
unfolding run
run-count b [] = refl
run-count b (succeeded ∷ es) =
    run-count (step b succeeded) es ∙ ap (λ n. failures_since n es) (step-count b succeeded)
run-count b (failed now ∷ es) =
    run-count (step b (failed now)) es ∙ ap (λ n. failures_since n es) (step-count b (failed now))
run-count b (asked now ∷ es) =
    run-count (step b (asked now)) es ∙ ap (λ n. failures_since n es) (step-count b (asked now))

run-Inv :
    (b : CircuitBreaker) (es : List Event)
    → 0 < b.threshold
    → Inv b
    → Inv (run b es) × ((run b es).threshold ≡ b.threshold)
unfolding run
run-Inv b [] h inv = (inv, refl)
run-Inv b (e ∷ es) h inv =
    let (inv', same) = step-Inv b e h inv in
    let (last, same') = run-Inv (step b e) es (omega arith) inv' in (last, same' ∙ same)

fresh-Inv : (threshold reset_ms : ℕ) → 0 < threshold → Inv (new_breaker threshold reset_ms)
unfolding new_breaker
fresh-Inv threshold reset_ms h = record { below = λ e. h }

-- A breaker with a positive threshold that is closed has seen fewer failures since the last success
-- than its threshold, whatever happened before.
pub run_closed :
    (threshold reset_ms : ℕ) (es : List Event)
    → 0 < threshold
    → (run (new_breaker threshold reset_ms) es).state ≡ closed
    → failures_since 0 es < threshold
unfolding new_breaker
run_closed threshold reset_ms es h e =
    let b = new_breaker threshold reset_ms in
    let (inv, same) = run-Inv b es h (fresh-Inv threshold reset_ms h) in
    let count = run-count b es in let low = inv.below e in omega arith

abbrev pub failures : List ℕ → List Event
failures [] = []
failures (t ∷ ts) = failed t ∷ failures ts

abbrev pub count : List ℕ → ℕ
count [] = 0
count (t ∷ ts) = suc (count ts)

stays_open :
    (b : CircuitBreaker) (ts : List ℕ) → b.state ≡ opened → (run b (failures ts)).state ≡ opened
unfolding run step record_failure
stays_open b [] h = h
stays_open b (t ∷ ts) h = stays_open (record_failure t b) ts (ground arith)

-- A closed breaker opens exactly when consecutive failures bring the count to its threshold.
pub trips :
    (b : CircuitBreaker) (t : ℕ) (ts : List ℕ)
    → b.state ≡ closed
    → (run b (failures (t ∷ ts))).state
      ≡ (if leb b.threshold (b.failure_count + count (t ∷ ts)) then opened else closed)
unfolding run step record_failure
trips b t [] h = ground arith
trips b t (u ∷ ts) h =
    let c = record_failure t b in ground (arith, trips c u ts, stays_open c (u ∷ ts))

-- Calls that come before the reset timeout has run out since the latest failure.
abbrev pub Early : ℕ → ℕ → List Event → Type 0
Early last reset_ms [] = Unit {0}
Early last reset_ms (succeeded ∷ es) = Early last reset_ms es
Early last reset_ms (failed now ∷ es) = Early now reset_ms es
Early last reset_ms (asked now ∷ es) = (now < last + reset_ms) × Early last reset_ms es

-- Every question is answered with no.
abbrev pub AllRefused : CircuitBreaker → List Event → Type 0
AllRefused b [] = Unit {0}
AllRefused b (succeeded ∷ es) = AllRefused (step b succeeded) es
AllRefused b (failed now ∷ es) = AllRefused (step b (failed now)) es
AllRefused b (asked now ∷ es) = ((can_proceed now b).1 ≡ false) × AllRefused (step b (asked now)) es

-- An open breaker refuses every request until the reset timeout has passed since the latest
-- failure, even if requests that were under way succeed or fail meanwhile, and stays open.
pub open_refuses :
    (b : CircuitBreaker) (es : List Event)
    → b.state ≡ opened
    → Early b.last_failure_time b.reset_timeout_ms es
    → AllRefused b es × ((run b es).state ≡ opened)
unfolding run step record_success record_failure can_proceed
open_refuses b [] h early = (tt, h)
open_refuses b (succeeded ∷ es) h early =
    open_refuses (record_success b) es (ground arith) (ground arith)
open_refuses b (failed now ∷ es) h early =
    open_refuses (record_failure now b) es (ground arith) (ground arith)
open_refuses b (asked now ∷ es) h early =
    let (rest, last) = open_refuses (can_proceed now b).0 es (ground arith) (ground arith) in
    ((ground arith, rest), last)

-- Once the timeout has passed, one question half-opens an open breaker and is answered with yes;
-- the next success then closes it with no failure counted, and the next failure opens it again for
-- a full timeout.
pub recovery :
    (b : CircuitBreaker) (now later : ℕ)
    → b.state ≡ opened
    → b.last_failure_time + b.reset_timeout_ms ≤ now
    → let probed = can_proceed now b in
      (probed.1 ≡ true)
      × ((record_success probed.0).state ≡ closed)
      × ((record_success probed.0).failure_count ≡ 0)
      × ((record_failure later probed.0).state ≡ opened)
      × ((record_failure later probed.0).last_failure_time ≡ later)
unfolding record_success record_failure can_proceed
recovery b now later h k = ground arith
