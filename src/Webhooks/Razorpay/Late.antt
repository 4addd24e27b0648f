-- ===== src/Webhooks/Razorpay/Late.antt =====
-- A request of src/routes/webhooks-razorpay.ts whose event is too old for the handler of
-- src/services/webhooks/razorpayHandler.ts, through the attempts of src/utils/backoff.ts.
use veritasor_backend.Prelude.{
  ℕ, zero, suc, ◌+◌, ◌*◌, ◌≤◌, ◌<◌, ◌≡◌, refl, Option, some, [], arith, length, ◌==◌, lt→ltb,
  Bool-cases, inl, inr,
}
use veritasor_backend.Prelude.Text.{Text, includes}
use veritasor_backend.Webhooks.Backoff.{
  Attempt, returns, throws, Failure, backoff_error, BackoffOptions, default_backoff_options,
  exhausted, or_again, last_attempt, attempts_from, with_backoff, calculate_backoff_delay,
}
use veritasor_backend.Webhooks.Razorpay.Events.{Json, invalid_timestamp, RazorpayEvent}
use veritasor_backend.Webhooks.Razorpay.{
  default_max_age_ms, check_timestamp_tolerance, process_razorpay_event, db_client, World, Handling,
  process_in, on_failure, save_dead_letter, handle_razorpay_event,
}
use veritasor_backend.Webhooks.Razorpay.Route.{
  Bytes, Loaded, Request, internal_server_error, admit_request, post,
}

-- Attempts that fail alike as long as an invariant holds, which a delay keeps.
module _ {W A E : Type 0} (sleep : ℕ → W → W) (draw : ℕ → ℕ → ℕ) (o : BackoffOptions)
    (fn : ℕ → W → Attempt A E × W) (err : E) (Fails : W → Type 0)
    (fails : (k : ℕ) (w : W) → Fails w → ((fn k w).0 ≡ throws err) × Fails (fn k w).1)
    (stays : (d : ℕ) (w : W) → Fails w → Fails (sleep d w)) where
  or_again-throws :
      (again : W → Attempt A (Failure E) × W) (k : ℕ) (p : Attempt A E × W)
      → p.0 ≡ throws err
      → or_again sleep draw o fn again k p ≡ again (sleep (calculate_backoff_delay draw k o) p.1)
  or_again-throws again k (returns a, w) h = ground arith
  or_again-throws again k (throws e, w) h = refl

  last_attempt-throws :
      (p : Attempt A E × W)
      → p.0 ≡ throws err
      → (last_attempt sleep draw o fn p).0 ≡ throws (exhausted o.max_attempts err)
  last_attempt-throws (returns a, w) h = ground arith
  last_attempt-throws (throws e, w) h = ground arith

  attempts_from-throws :
      (left k : ℕ) (w : W)
      → Fails w
      → (attempts_from sleep draw o fn left k w).0 ≡ throws (exhausted o.max_attempts err)
  unfolding attempts_from
  attempts_from-throws zero k w h = last_attempt-throws (fn k w) (fails k w h).0
  attempts_from-throws (suc left) k w h =
      rw (or_again-throws (attempts_from sleep draw o fn left (suc k)) k (fn k w) (fails k w h).0)
        (attempts_from-throws left (suc k) _ (stays _ _ (fails k w h).1))

-- The clock is past the time that the event is accepted, and the handler's set is empty.
abbrev pub Late : ℕ → World → Type 0
Late c w = (c * 1000 + default_max_age_ms < w.now) × (w.processed.processed_events ≡ [])

Late-throws :
    (c : ℕ) (e : RazorpayEvent) (w : World)
    → e.created_at ≡ some c
    → Late c w
    → process_razorpay_event w.now e w.processed ≡ (throws invalid_timestamp, w.processed)
unfolding process_razorpay_event check_timestamp_tolerance includes
Late-throws c e w at (late, none_yet) = rw (none_yet, at, lt→ltb _ _ late) refl

throws_injective : {A E : Type 0} {a b : E} → ◌≡◌ {A = Attempt A E} (throws a) (throws b) → a ≡ b
throws_injective h = ground arith

-- The saving of the dead letter fails, and the world stays as it is.
on_failure-not_saved :
    (payload_hash : RazorpayEvent → Text) (e : RazorpayEvent) (p : Handling)
    → p.0 ≡ throws (backoff_error 3 (some invalid_timestamp))
    → on_failure payload_hash db_client e p
      ≡ (throws (backoff_error 3 (some invalid_timestamp)), p.1)
unfolding save_dead_letter
on_failure-not_saved payload_hash e (returns a, w) eq = ground arith
on_failure-not_saved payload_hash e (throws f, w) eq = elim (Bool-cases (length e.id == 0)) [
  | inl none_given ↦ rw (throws_injective eq, none_given) refl
  | inr given ↦ rw (throws_injective eq, given) refl
]

module _ (sleep : ℕ → World → World) (draw : ℕ → ℕ → ℕ)
    (time_passes : (d : ℕ) (w : World) → w.now ≤ (sleep d w).now)
    (none_is_added : (d : ℕ) (w : World)
      → w.processed.processed_events ≡ []
      → (sleep d w).processed.processed_events ≡ []) where
  with_backoff-Late :
      (c : ℕ) (e : RazorpayEvent) (w : World)
      → e.created_at ≡ some c
      → Late c w
      → (with_backoff sleep draw default_backoff_options (process_in e) w).0
        ≡ throws (backoff_error 3 (some invalid_timestamp))
  unfolding with_backoff
  with_backoff-Late c e w at late =
      attempts_from-throws sleep draw default_backoff_options (process_in e) invalid_timestamp
        (Late c) (λ k v h. rw (Late-throws c e v at h) (refl, h))
        (λ d v h. (omega (arith, time_passes d v), none_is_added d v h.1)) 2 1 w late

  module _ (hmac : Text → Bytes → Bytes) (json_parse : Bytes → Option Json)
      (webhook_secret next_secret : Loaded) (payload_hash : RazorpayEvent → Text) where
    -- A request that passes every check of the route, with an event that is more than five minutes
    -- old, is answered with status 500 and no code, after the three attempts, and no dead letter is
    -- saved: what the handler leaves is the world after its waits. The clock is not set back while it
    -- waits, and its set of processed events, to which no code adds, is empty and stays so.
    pub post-Late :
        (c : ℕ) (e : RazorpayEvent) (r : Request) (w : World)
        → admit_request hmac json_parse webhook_secret next_secret w.now r.signature r.body
          ≡ returns e
        → e.created_at ≡ some c
        → Late c w
        → post hmac json_parse webhook_secret next_secret payload_hash db_client sleep draw r w ≡ (
          internal_server_error,
          (with_backoff sleep draw default_backoff_options (process_in e) w).1,
        )
    unfolding post handle_razorpay_event
    post-Late c e r w admitted at late =
        let waited = with_backoff sleep draw default_backoff_options (process_in e) w in
        rw (admitted, on_failure-not_saved payload_hash e waited (with_backoff-Late c e w at late))
          refl
