-- ===== src/Webhooks/Razorpay/Once.antt =====
-- The processing of an event of src/services/webhooks/razorpayHandler.ts among all others, over the
-- store of src/services/webhooks/idempotency.ts. Each call between two waits is a step.
use veritasor_backend.Prelude.{
  ℕ, ◌+◌, ◌*◌, ◌≤◌, ◌<◌, ◌≡◌, refl, sym, ap, ◌∙◌, Bool, true, false, Option, none, some, List, [],
  ◌∷◌, ◌⊎◌, inl, inr, arith, length, ◌==◌, if◌then◌else◌, suc_is_not_zero, Bool-cases,
}
use veritasor_backend.Prelude.Text.{Text, text_eq, text_eq→≡, text_eq_refl, includes}
use veritasor_backend.Prelude.Maps.{get, remove, get-put, get-remove}
use veritasor_backend.Webhooks.Backoff.{Attempt, returns, throws}
use veritasor_backend.Webhooks.Razorpay.Events.{RazorpayEvent, RazorpayWebhookError}
use veritasor_backend.Webhooks.Razorpay.{
  default_max_age_ms, IdempotencyEntry, Processed, expired, sweep, is_event_processed, found_entry,
  mark_event_processed, Answer, already_processed, duplicate, Tolerance, valid, too_old,
  too_far_in_future, if_valid, Processing, captured, payment_failed, order_paid, ignored,
  check_timestamp_tolerance, unless_processed, reset_processed_razorpay_events,
  process_razorpay_event,
}

-- The store after an event that is processed, or refused, at some time.
pub data Step (now : ℕ) (s : Processed) : ℕ → Processed → Type 0 where
  processes :
      (later : ℕ) (e : RazorpayEvent)
      → now ≤ later
      → Step now s later (process_razorpay_event later e s).1
  sweeps :
      (later : ℕ)
      → now ≤ later
      → Step now s later
          (record { processed_events = s.processed_events; store = sweep later s.store })
  resets : (later : ℕ) → now ≤ later → Step now s later (reset_processed_razorpay_events s)

pub data Run (now : ℕ) (s : Processed) : ℕ → Processed → Type 0 where
  here : Run now s now s
  next :
      {later last : ℕ} {t u : Processed}
      → Run now s later t
      → Step later t last u
      → Run now s last u

-- The event was dispatched: the answer is neither that it was processed before nor an error.
abbrev pub is_processed : Attempt Answer RazorpayWebhookError → Bool
is_processed (throws e) = false
is_processed (returns (already_processed i)) = false
is_processed (returns (duplicate i)) = false
is_processed (returns (captured p)) = true
is_processed (returns (payment_failed p)) = true
is_processed (returns (order_paid p)) = true
is_processed (returns (ignored t)) = true

-- An entry that lasts until an event of that time is too old.
abbrev Lasts : ℕ → Option IdempotencyEntry → Type 0
Lasts c none = ⊥
Lasts c (some e) = c * 1000 + default_max_age_ms ≤ e.expires_at

abbrev Settled : ℕ → Text → ℕ → List (Text × IdempotencyEntry) → Type 0
Settled c id now m =
    (c * 1000 ≤ now + default_max_age_ms)
    × ((c * 1000 + default_max_age_ms < now) ⊎ Lasts c (get m id))

sweep-Lasts :
    (c now : ℕ) (id : Text) (m : List (Text × IdempotencyEntry))
    → Lasts c (get m id)
    → (c * 1000 + default_max_age_ms < now) ⊎ Lasts c (get (sweep now m) id)
unfolding get sweep
sweep-Lasts c now id [] h = inr h
sweep-Lasts c now id ((k, e) ∷ m) h = elim (Bool-cases (text_eq k id)) [
  | inl same ↦ elim (Bool-cases (expired now e)) [
    | inl old ↦ inl (ground arith)
    | inr fresh ↦ inr (rw (fresh, same) (ground arith))
  ]
  | inr other ↦ elim (Bool-cases (expired now e)) [
    | inl old ↦ rw (old) (sweep-Lasts c now id m (ground arith))
    | inr fresh ↦ rw (fresh, other) (sweep-Lasts c now id m (ground arith))
  ]
]

removed-Lasts :
    (c now : ℕ) (k id : Text) (m : List (Text × IdempotencyEntry)) (x : IdempotencyEntry)
    → Lasts c (get m id)
    → get m k ≡ some x
    → expired now x ≡ true
    → (c * 1000 + default_max_age_ms < now) ⊎ Lasts c (get (remove m k) id)
removed-Lasts c now k id m x h eq old = elim (Bool-cases (text_eq k id)) [
  | inl same ↦ inl (ground (arith, text_eq→≡ k id same))
  | inr other ↦ inr (rw (get-remove m k id, other) h)
]

found_entry-Lasts :
    (c now : ℕ) (k id : Text) (m : List (Text × IdempotencyEntry)) (o : Option IdempotencyEntry)
    → Lasts c (get m id)
    → get m k ≡ o
    → (c * 1000 + default_max_age_ms < now) ⊎ Lasts c (get (found_entry now k o m).1 id)
found_entry-Lasts c now k id m none h eq = inr h
found_entry-Lasts c now k id m (some x) h eq = elim (Bool-cases (expired now x)) [
  | inl old ↦ rw old (removed-Lasts c now k id m x h eq old)
  | inr fresh ↦ inr (rw fresh h)
]

-- A look-up removes an entry only when it is of no more use.
is_event_processed-Lasts :
    (c now : ℕ) (k id : Text) (m : List (Text × IdempotencyEntry))
    → Lasts c (get m id)
    → (c * 1000 + default_max_age_ms < now) ⊎ Lasts c (get (is_event_processed now k m).1 id)
unfolding is_event_processed
is_event_processed-Lasts c now k id m h = elim (Bool-cases (length k == 0)) [
  | inl e ↦ inr (rw e h)
  | inr e ↦ rw e (found_entry-Lasts c now k id m (get m k) h refl)
]

unless_processed-Lasts :
    (c now : ℕ) (id : Text) (e : RazorpayEvent) (ids : List Text)
    (p : Bool × List (Text × IdempotencyEntry))
    → c * 1000 ≤ now + default_max_age_ms
    → Lasts c (get p.1 id)
    → Lasts c (get (unless_processed now e ids p).1.store id)
unfolding mark_event_processed
unless_processed-Lasts c now id e ids (true, m) t h = h
unless_processed-Lasts c now id e ids (false, m) t h = elim (Bool-cases (text_eq e.id id)) [
  | inl same ↦ rw (get-put m e.id id _, same) (omega arith)
  | inr other ↦ rw (get-put m e.id id _, other) h
]

-- Too late for an event of that time, or an entry that lasts.
abbrev Barred : ℕ → ℕ → Text → List (Text × IdempotencyEntry) → Type 0
Barred c now id m = (c * 1000 + default_max_age_ms < now) ⊎ Lasts c (get m id)

if_valid-Barred :
    (c now : ℕ) (id : Text) (s : Processed) (v : Tolerance) (rest : Processing)
    → Lasts c (get s.store id)
    → Barred c now id rest.1.store
    → Barred c now id (if_valid v s rest).1.store
if_valid-Barred c now id s valid rest h k = k
if_valid-Barred c now id s too_old rest h k = inr h
if_valid-Barred c now id s too_far_in_future rest h k = inr h

process-Barred :
    (c now : ℕ) (id : Text) (e : RazorpayEvent) (s : Processed)
    → c * 1000 ≤ now + default_max_age_ms
    → Lasts c (get s.store id)
    → Barred c now id (process_razorpay_event now e s).1.store
unfolding process_razorpay_event
process-Barred c now id e s t h = elim (Bool-cases (includes s.processed_events e.id)) [
  | inl was ↦ inr (rw was h)
  | inr not_was ↦ rw not_was (
      if_valid-Barred c now id s (check_timestamp_tolerance now e.created_at) _ h
        (elim (is_event_processed-Lasts c now e.id id s.store h) [
          | inl old ↦ inl old
          | inr lasts ↦ inr (unless_processed-Lasts c now id e s.processed_events _ t lasts)
        ]))
]

step-Settled :
    (c : ℕ) (id : Text) {now later : ℕ} {s t : Processed}
    → Settled c id now s.store
    → Step now s later t
    → Settled c id later t.store
unfolding reset_processed_razorpay_events
step-Settled c id (k, inl old) (processes later e le) = (omega arith, inl (omega arith))
step-Settled c id (k, inl old) (sweeps later le) = (omega arith, inl (omega arith))
step-Settled c id (k, inl old) (resets later le) = (omega arith, inl (omega arith))
step-Settled c id {s = s} (k, inr lasts) (processes later e le) =
    (omega arith, process-Barred c later id e s (omega arith) lasts)
step-Settled c id {s = s} (k, inr lasts) (sweeps later le) =
    (omega arith, sweep-Lasts c later id s.store lasts)
step-Settled c id (k, inr lasts) (resets later le) = (omega arith, inr lasts)

run-Settled :
    (c : ℕ) (id : Text) {now : ℕ} {s : Processed} {later : ℕ} {t : Processed}
    → Settled c id now s.store
    → Run now s later t
    → Settled c id later t.store
run-Settled c id h here = h
run-Settled c id h (next r st) = step-Settled c id (run-Settled c id h r) st

checked_time :
    (c now : ℕ)
    → check_timestamp_tolerance now (some c) ≡ valid
    → c * 1000 ≤ now + default_max_age_ms
unfolding check_timestamp_tolerance
checked_time c now h = ground arith

-- One of the answers of an event, from its tests.
abbrev tested :
    ℕ
    → RazorpayEvent
    → Processed
    → Bool
    → Tolerance
    → Bool × List (Text × IdempotencyEntry)
    → Processing
tested now e s was v p =
    if was
    then (returns (already_processed e.id), s)
    else if_valid v s (unless_processed now e s.processed_events p)

tested-Settled :
    (c now : ℕ) (e : RazorpayEvent) (s : Processed) (was : Bool) (v : Tolerance)
    (p : Bool × List (Text × IdempotencyEntry))
    → (v ≡ valid → c * 1000 ≤ now + default_max_age_ms)
    → is_processed (tested now e s was v p).0 ≡ true
    → Settled c e.id now (tested now e s was v p).1.store
unfolding mark_event_processed
tested-Settled c now e s true v p t h = ground arith
tested-Settled c now e s false too_old p t h = ground arith
tested-Settled c now e s false too_far_in_future p t h = ground arith
tested-Settled c now e s false valid (true, m) t h = ground arith
tested-Settled c now e s false valid (false, m) t h =
    (t refl, inr (rw (get-put m e.id e.id _, text_eq_refl e.id) (omega (arith, t refl))))

-- The time of an event that is processed, and the entry that it leaves.
processed-Settled :
    (c now : ℕ) (e : RazorpayEvent) (s : Processed)
    → e.created_at ≡ some c
    → is_processed (process_razorpay_event now e s).0 ≡ true
    → Settled c e.id now (process_razorpay_event now e s).1.store
unfolding process_razorpay_event
processed-Settled c now e s at h =
    tested-Settled c now e s _ _ _
      (λ eq. checked_time c now (sym (ap (check_timestamp_tolerance now) at) ∙ eq)) h

-- A settled event is refused, or known.
tested_refused :
    (now : ℕ) (e : RazorpayEvent) (s : Processed) (was : Bool) (v : Tolerance)
    (p : Bool × List (Text × IdempotencyEntry))
    → (v ≡ valid → p.0 ≡ true)
    → is_processed (tested now e s was v p).0 ≡ false
tested_refused now e s true v p t = refl
tested_refused now e s false too_old p t = refl
tested_refused now e s false too_far_in_future p t = refl
tested_refused now e s false valid (true, m) t = refl
tested_refused now e s false valid (false, m) t = absurd (cc (t refl))

known_entry :
    (c now : ℕ) (id : Text) (m : List (Text × IdempotencyEntry)) (o : Option IdempotencyEntry)
    → Lasts c o
    → check_timestamp_tolerance now (some c) ≡ valid
    → (found_entry now id o m).0 ≡ true
unfolding check_timestamp_tolerance
known_entry c now id m none h v = absurd h
known_entry c now id m (some x) h v = ground arith

known :
    (c now : ℕ) (id : Text) (m : List (Text × IdempotencyEntry))
    → ¬ (id ≡ [])
    → Settled c id now m
    → check_timestamp_tolerance now (some c) ≡ valid
    → (is_event_processed now id m).0 ≡ true
unfolding check_timestamp_tolerance is_event_processed
known c now [] m h k v = absurd (h refl)
known c now (i ∷ id) m h (t, inl old) v = ground arith
known c now (i ∷ id) m h (t, inr lasts) v =
    rw (suc_is_not_zero (length id)) (known_entry c now (i ∷ id) m (get m (i ∷ id)) lasts v)

Settled-refused :
    (c now : ℕ) (e : RazorpayEvent) (s : Processed)
    → e.created_at ≡ some c
    → ¬ (e.id ≡ [])
    → Settled c e.id now s.store
    → is_processed (process_razorpay_event now e s).0 ≡ false
unfolding process_razorpay_event
Settled-refused c now e s at h k =
    tested_refused now e s _ _ _
      (λ eq. known c now e.id s.store h k (sym (ap (check_timestamp_tolerance now) at) ∙ eq))

-- An event with an id and a time that has been dispatched is never dispatched again, whatever other
-- events come and however often the store is swept or the set reset in between, as long as the clock
-- is not set back.
pub processed_once :
    (c now : ℕ) (e : RazorpayEvent) (s : Processed)
    → e.created_at ≡ some c
    → ¬ (e.id ≡ [])
    → is_processed (process_razorpay_event now e s).0 ≡ true
    → {later : ℕ} {t : Processed} → Run now (process_razorpay_event now e s).1 later t
    → is_processed (process_razorpay_event later e t).0 ≡ false
processed_once c now e s at h p {later = later} {t = t} r =
    Settled-refused c later e t at h (run-Settled c e.id (processed-Settled c now e s at p) r)
