-- ===== src/RateLimit/Sliding.antt =====
-- That the sliding window of src/middleware/rateLimiter.ts counts the requests of the last window.
use veritasor_backend.Prelude.{
  ℕ, ◌+◌, ◌≤◌, ◌≡◌, ◌⊎◌, inl, inr, refl, ap, ◌∙◌, true, false, List, [], ◌∷◌, ◌++◌, ltb,
  if◌then◌else◌, length, length-append, arith, Bool-cases,
}
use veritasor_backend.Prelude.Text.{Text, text_eq, text_eq→≡}
use veritasor_backend.Prelude.Maps.{get, get-put_same, get-put_other}
use veritasor_backend.RateLimit.{
  keep_recent, sliding_increment, cleanup_sliding_store, or_no_times, is_let_through,
}
use veritasor_backend.RateLimit.Cleanup.{
  Distinct, log_of, Distinct-put, Distinct-cleanup, log_of-cleanup,
}

-- A request of a key with the window of its limiter, or the cleanup with its own window.
pub data LimiterEvent : Type 0 where
  hit : ℕ → Text → ℕ → LimiterEvent
  cleaned : ℕ → ℕ → LimiterEvent

abbrev pub run : List LimiterEvent → List (Text × List ℕ) → List (Text × List ℕ)
run [] store = store
run (hit now key w ∷ es) store = run es (sliding_increment now key w store).1
run (cleaned now w ∷ es) store = run es (cleanup_sliding_store now w store)

-- How many of the times are less than `w` before `now`.
abbrev pub recent : ℕ → ℕ → List ℕ → ℕ
recent now w [] = 0
recent now w (t ∷ ts) = (if ltb now (t + w) then 1 else 0) + recent now w ts

-- The times of the requests of a key.
abbrev pub times_of : Text → List LimiterEvent → List ℕ
times_of key [] = []
times_of key (hit now k w ∷ es) = if text_eq k key then now ∷ times_of key es else times_of key es
times_of key (cleaned now w ∷ es) = times_of key es

-- Nothing happens after `now`; the requests of the key have window `w`, and no cleanup has a
-- shorter one.
abbrev pub Uniform : ℕ → Text → ℕ → List LimiterEvent → Type 0
Uniform now key w [] = Unit {0}
Uniform now key w (hit t k v ∷ es) =
    (t ≤ now) × ((text_eq k key ≡ false) ⊎ (v ≡ w)) × Uniform now key w es
Uniform now key w (cleaned t v ∷ es) = (t ≤ now) × (w ≤ v) × Uniform now key w es

recent-append :
    (now w : ℕ) (xs ys : List ℕ) → recent now w (xs ++ ys) ≡ recent now w xs + recent now w ys
recent-append now w [] ys = omega arith
recent-append now w (x ∷ xs) ys = omega (arith, recent-append now w xs ys)

length-keep_recent : (now w : ℕ) (ts : List ℕ) → length (keep_recent now w ts) ≡ recent now w ts
unfolding keep_recent
length-keep_recent now w [] = refl
length-keep_recent now w (t ∷ ts) = ground (arith, length-keep_recent now w ts)

-- Pruning at an earlier time with a window that is no shorter takes nothing recent away.
recent-keep_recent :
    (now t w v : ℕ) (ts : List ℕ)
    → t ≤ now
    → w ≤ v
    → recent now w (keep_recent t v ts) ≡ recent now w ts
unfolding keep_recent
recent-keep_recent now t w v [] early long = refl
recent-keep_recent now t w v (x ∷ ts) early long =
    ground (arith, recent-keep_recent now t w v ts early long)

log_of-hit_other :
    (t v : ℕ) (k key : Text) (store : List (Text × List ℕ))
    → text_eq k key ≡ false
    → log_of key (sliding_increment t k v store).1 ≡ log_of key store
unfolding sliding_increment
log_of-hit_other t v k key store other = ap or_no_times (get-put_other store k key _ other)

log_of-hit_same :
    (t w : ℕ) (key : Text) (store : List (Text × List ℕ))
    → log_of key (sliding_increment t key w store).1 ≡ keep_recent t w (log_of key store) ++ t ∷ []
unfolding sliding_increment
log_of-hit_same t w key store = ap or_no_times (get-put_same store key _)

Distinct-hit :
    (t v : ℕ) (k : Text) (store : List (Text × List ℕ))
    → Distinct store
    → Distinct (sliding_increment t k v store).1
unfolding sliding_increment
Distinct-hit t v k store h = Distinct-put store k _ h

-- A request adds itself to what is recent for its key.
recent-hit :
    (t v now w : ℕ) (k key : Text) (store : List (Text × List ℕ))
    → t ≤ now
    → text_eq k key ≡ true
    → (text_eq k key ≡ false) ⊎ (v ≡ w)
    → recent now w (log_of key (sliding_increment t k v store).1)
      ≡ recent now w (log_of key store) + recent now w (t ∷ [])
recent-hit t v now w k key store early same (inl other) = cc (same, other)
recent-hit t v now w k key store early same (inr window) =
    rw (text_eq→≡ k key same, window, log_of-hit_same t w key store)
      (recent-append now w (keep_recent t w (log_of key store)) (t ∷ [])
        ∙ ap (λ n. n + recent now w (t ∷ []))
            (recent-keep_recent now t w w (log_of key store) early (omega arith)))

recent-run :
    (es : List LimiterEvent) (now : ℕ) (key : Text) (w : ℕ) (store : List (Text × List ℕ))
    → Distinct store
    → Uniform now key w es
    → recent now w (log_of key (run es store))
      ≡ recent now w (log_of key store) + recent now w (times_of key es)
recent-run [] now key w store d h = omega arith
recent-run (cleaned t v ∷ es) now key w store d h =
    let rest =
      recent-run es now key w (cleanup_sliding_store t v store) (Distinct-cleanup t v store d)
        h.2 in
    rest
    ∙ ap (λ n. n + recent now w (times_of key es))
        (ap (recent now w) (log_of-cleanup t v store key d)
          ∙ recent-keep_recent now t w v (log_of key store) h.0 h.1)
recent-run (hit t k v ∷ es) now key w store d h =
    let next = (sliding_increment t k v store).1 in
    let rest = recent-run es now key w next (Distinct-hit t v k store d) h.2 in
    elim (Bool-cases (text_eq k key)) [
      | inr other ↦ rw other (
          rest
          ∙ ap (λ l. recent now w l + recent now w (times_of key es))
              (log_of-hit_other t v k key store other))
      | inl same ↦ rw same (omega (arith, rest, recent-hit t v now w k key store h.0 same h.1))
    ]

-- A request is let through exactly if fewer than `max` requests of its key came in the last window,
-- whatever other keys do, if no cleanup has a shorter window.
pub is_let_through_iff :
    (es : List LimiterEvent) (now : ℕ) (key : Text) (w max_requests : ℕ)
    → Uniform now key w es
    → is_let_through max_requests (sliding_increment now key w (run es [])).0
      ≡ ltb (recent now w (times_of key es)) max_requests
unfolding is_let_through sliding_increment get
is_let_through_iff es now key w max_requests h =
    let stored = recent-run es now key w [] tt h in
    let counted = length-keep_recent now w (log_of key (run es [])) in
    let last = length-append (keep_recent now w (log_of key (run es []))) (now ∷ []) in
    ground (arith, stored, counted, last)
