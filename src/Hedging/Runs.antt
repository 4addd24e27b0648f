-- ===== src/Hedging/Runs.antt =====
-- What holds in every order of events of `hedgedRequest` of src/utils/hedged-request.ts.
use veritasor_backend.Prelude.{
  ℕ, ◌-◌, ◌≤◌, ◌≡◌, ◌⊎◌, inl, inr, refl, ◌∙◌, arith, Bool, true, false, not, ◌&&◌, ◌||◌, leb,
  if◌then◌else◌, Bool-cases,
}
use veritasor_backend.Hedging.{
  HedgedRequest, Promise, resolved, rejected, Event, primary_ok, hedge_ok, primary_fails,
  hedge_fails, timer_fires, aborted, elsewhere, start, is_settled, on_settle, react, can_happen,
  Reaches, here, next, abort_error,
}

not_both : {b : Bool} → not b ≡ true → b ≡ true → ⊥
not_both {b = true} h e = ground arith
not_both {b = false} h e = ground arith

both : {b : Bool} → b ≡ true → b ≡ false → ⊥
both h e = cc

module _ {T E : Type 0} (cap : ℕ) where
  on_settle-settled :
      (p : Promise T E) (s : HedgedRequest T E)
      → is_settled s.promise ≡ true
      → (on_settle p s).promise ≡ s.promise
  unfolding on_settle
  on_settle-settled p s h = rw h refl

  react-settled :
      (e : Event T E) (s : HedgedRequest T E)
      → is_settled s.promise ≡ true
      → (react cap e s).promise ≡ s.promise
  unfolding react on_settle
  react-settled (primary_ok v) s h =
      on_settle-settled (resolved v) (record s { primary_done = true }) h
  react-settled (primary_fails e) s h = elim (Bool-cases s.hedge_started) [
    | inl started ↦ rw started refl
    | inr before ↦ rw (before, h) refl
  ]
  react-settled timer_fires s h = rw h refl
  react-settled (hedge_ok v) s h =
      on_settle-settled (resolved v)
        (record s { concurrent_hedges = s.concurrent_hedges - 1; in_flight = false }) h
  react-settled hedge_fails s h = elim (Bool-cases s.primary_done) [
    | inl done ↦ rw (done, on_settle, h) refl
    | inr running ↦ rw running refl
  ]
  react-settled aborted s h = on_settle-settled _ s h
  react-settled (elsewhere n) s h = refl

  -- A promise that is settled stays as it is, whatever happens later.
  settled_stays :
      (s t : HedgedRequest T E)
      → Reaches cap s t
      → is_settled s.promise ≡ true
      → t.promise ≡ s.promise
  settled_stays s t here h = refl
  settled_stays s t (next e can rest) h =
      settled_stays (react cap e s) t rest (rw (react-settled e s h) h) ∙ react-settled e s h

  -- The counter holds the hedge in flight, and no more than the cap.
  abbrev pub IsCounted : HedgedRequest T E → Type 0
  IsCounted s = ((if s.in_flight then 1 else 0) ≤ s.concurrent_hedges) × (s.concurrent_hedges ≤ cap)

  react-IsCounted :
      (e : Event T E) (s : HedgedRequest T E)
      → can_happen cap e s ≡ true
      → IsCounted s
      → IsCounted (react cap e s)
  unfolding react can_happen on_settle
  react-IsCounted (primary_ok v) s can h = ground arith
  react-IsCounted (primary_fails e) s can h = ground arith
  react-IsCounted timer_fires s can h = ground arith
  react-IsCounted (hedge_ok v) s can h = ground arith
  react-IsCounted hedge_fails s can h = ground arith
  react-IsCounted aborted s can h = ground arith
  react-IsCounted (elsewhere n) s can h = ground arith

  -- The promise is settled, or neither call has decided it, or the hedge runs, or it has failed before
  -- the primary.
  abbrev pub IsAttended : HedgedRequest T E → Type 0
  IsAttended s =
      (is_settled s.promise
        || not s.primary_done && not s.hedge_started
        || s.in_flight
        || s.hedge_failed)
      ≡ true

  react-IsAttended :
      (e : Event T E) (s : HedgedRequest T E)
      → can_happen cap e s ≡ true
      → IsAttended s
      → IsAttended (react cap e s)
  unfolding react can_happen on_settle
  react-IsAttended (primary_ok v) s can h = ground arith
  react-IsAttended (primary_fails e) s can h = ground arith
  react-IsAttended timer_fires s can h = ground arith
  react-IsAttended (hedge_ok v) s can h = ground arith
  react-IsAttended hedge_fails s can h = ground arith
  react-IsAttended aborted s can h = ground arith
  react-IsAttended (elsewhere n) s can h = ground arith

  Reaches-IsCounted : (s t : HedgedRequest T E) → Reaches cap s t → IsCounted s → IsCounted t
  Reaches-IsCounted s t here h = h
  Reaches-IsCounted s t (next e can rest) h =
      Reaches-IsCounted (react cap e s) t rest (react-IsCounted e s can h)

  Reaches-IsAttended : (s t : HedgedRequest T E) → Reaches cap s t → IsAttended s → IsAttended t
  Reaches-IsAttended s t here h = h
  Reaches-IsAttended s t (next e can rest) h =
      Reaches-IsAttended (react cap e s) t rest (react-IsAttended e s can h)

  -- In every order of events the counter of running hedges stays within the cap.
  pub start-IsCounted :
      (n : ℕ) (t : HedgedRequest T E) → n ≤ cap → Reaches cap (start n) t → IsCounted t
  unfolding start
  start-IsCounted n t h r = Reaches-IsCounted (start n) t r (omega arith, h)

  attended_settled :
      (t : HedgedRequest T E)
      → IsAttended t
      → t.primary_done ≡ true
      → t.in_flight ≡ false
      → t.hedge_failed ≡ false
      → is_settled t.promise ≡ true
  attended_settled t h done ended fine = ground arith

  -- Once the primary has settled and no hedge runs, the promise is settled, unless the hedge has
  -- failed before the primary.
  pub start-settles :
      (n : ℕ) (t : HedgedRequest T E)
      → Reaches cap (start n) t
      → t.primary_done ≡ true
      → t.in_flight ≡ false
      → t.hedge_failed ≡ false
      → is_settled t.promise ≡ true
  unfolding start
  start-settles n t r = attended_settled t (Reaches-IsAttended (start n) t r refl)

  -- Nothing is left that could settle the promise but an abort.
  record Hangs (s : HedgedRequest T E) : Type 0 where
    open_ended : is_settled s.promise ≡ false
    done : s.primary_done ≡ true
    ended : s.in_flight ≡ false
    cleared : s.armed ≡ false

  abbrev IsUnanswered : HedgedRequest T E → Type 0
  IsUnanswered t = (is_settled t.promise ≡ false) ⊎ (t.promise ≡ rejected abort_error)

  abort_rejects :
      (s : HedgedRequest T E)
      → is_settled s.promise ≡ false
      → (react cap aborted s).promise ≡ rejected abort_error
  unfolding react on_settle
  abort_rejects s h = rw h refl

  aborted_settled :
      (s : HedgedRequest T E) → s.promise ≡ rejected abort_error → is_settled s.promise ≡ true
  aborted_settled s h = rw h refl

  Hangs-elsewhere : (n : ℕ) (s : HedgedRequest T E) → Hangs s → Hangs (react cap (elsewhere n) s)
  unfolding react
  Hangs-elsewhere n s h = record {
    open_ended = h.open_ended;
    done = h.done;
    ended = h.ended;
    cleared = h.cleared;
  }

  Hangs-Reaches : (s t : HedgedRequest T E) → Reaches cap s t → Hangs s → IsUnanswered t
  unfolding can_happen
  Hangs-Reaches s t here h = inl h.open_ended
  Hangs-Reaches s t (next (primary_ok v) can rest) h = absurd (not_both can h.done)
  Hangs-Reaches s t (next (primary_fails e) can rest) h = absurd (not_both can h.done)
  Hangs-Reaches s t (next timer_fires can rest) h = absurd (both can h.cleared)
  Hangs-Reaches s t (next (hedge_ok v) can rest) h = absurd (both can h.ended)
  Hangs-Reaches s t (next hedge_fails can rest) h = absurd (both can h.ended)
  Hangs-Reaches s t (next aborted can rest) h =
      let rejects = abort_rejects s h.open_ended in
      inr (
        settled_stays (react cap aborted s) t rest (aborted_settled (react cap aborted s) rejects)
        ∙ rejects)
  Hangs-Reaches s t (next (elsewhere n) can rest) h =
      Hangs-Reaches (react cap (elsewhere n) s) t rest (Hangs-elsewhere n s h)

  both_failed :
      (n : ℕ) (e : E)
      → leb cap n ≡ false
      → Hangs
          (react cap (primary_fails e) (react cap hedge_fails (react cap timer_fires (start n))))
  unfolding react on_settle start
  both_failed n e free =
      rw free (record { open_ended = refl; done = refl; ended = refl; cleared = refl })

  -- If the hedge fails and then the primary, the promise is never settled, but by an abort.
  pub hedge_fails-primary_fails :
      (n : ℕ) (e : E) (t : HedgedRequest T E)
      → leb cap n ≡ false
      → Reaches cap
          (react cap (primary_fails e) (react cap hedge_fails (react cap timer_fires (start n))))
          t
      → IsUnanswered t
  hedge_fails-primary_fails n e t free r = Hangs-Reaches _ t r (both_failed n e free)
