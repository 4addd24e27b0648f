-- ===== src/Submission/Confirm/Polls.antt =====
-- What `waitForConfirmation` and `validateConfirmedResult` of
-- src/services/soroban/submitAttestation.ts guarantee.
use mathlib.Core.Path.{subst}
use veritasor_backend.Prelude.{
  ◌↔◌, ◌≢◌, length, Option, ℕ, zero, suc, ◌+◌, ◌-◌, ◌*◌, ◌≤◌, ◌<◌, ◌≡◌, ◌⊎◌, inl, inr, refl, ap,
  sym, ◌∙◌, [], ◌∷◌, none, some, arith, ltb, if◌then◌else◌, Bool-cases,
}
use veritasor_backend.Prelude.Text.{Text, text_eq, text_eq→≡, text_eq_refl}
use veritasor_backend.Submission.{Code, Call, ok, fail, returned, raised, LibraryError}
use veritasor_backend.Submission.Code.{confirmation_timeout}
use veritasor_backend.Submission.Confirm.{
  TxResponse, Success, success, failed, not_found, Decoded, TimeField, object, root, finite,
  undecodable, no_object, no_root, no_time, not_finite, after_poll, Waited, poll_rounds,
  wait_for_confirmation, validate_confirmed_result, checked_root, with_time,
}

times_suc : (n i : ℕ) → suc n * i ≡ n * i + i
times_suc n i = grind arith

fail_not_ok : {A : Type 0} (c : Code) (a : A) → fail c ≡ ok a → ⊥
fail_not_ok c a h = cc

ok_injective : {A : Type 0} (a b : A) → ok a ≡ ok b → a ≡ b
ok_injective a b h = cc

abbrev expired : Waited
expired = record { polls = 0; slept_ms = 0; outcome = fail confirmation_timeout }

poll_cases :
    (c : Call TxResponse)
    → ((tx : Success) × (c ≡ returned (success tx)))
      ⊎ ((c ≡ returned not_found) ⊎ ((c ≡ returned failed) ⊎ ((e : LibraryError) × (c ≡ raised e))))
poll_cases (returned (success tx)) = inl (tx, refl)
poll_cases (returned not_found) = inr (inl refl)
poll_cases (returned failed) = inr (inr (inl refl))
poll_cases (raised e) = inr (inr (inr (e, refl)))

after_poll_polls :
    (c : Call TxResponse) (slept : ℕ) (rest : Waited)
    → (after_poll c slept rest).polls ≤ suc rest.polls
after_poll_polls (returned (success tx)) slept rest = omega arith
after_poll_polls (returned not_found) slept rest = omega arith
after_poll_polls (returned failed) slept rest = omega arith
after_poll_polls (raised e) slept rest = omega arith

after_poll_slept :
    (c : Call TxResponse) (slept : ℕ) (rest : Waited)
    → (after_poll c slept rest).slept_ms ≤ slept + rest.slept_ms
after_poll_slept (returned (success tx)) slept rest = omega arith
after_poll_slept (returned not_found) slept rest = omega arith
after_poll_slept (returned failed) slept rest = omega arith
after_poll_slept (raised e) slept rest = omega arith

module _ (get_transaction : ℕ → Call TxResponse) (interval max_attempts : ℕ) where
  pause : ℕ → ℕ
  pause attempt = if ltb attempt (max_attempts - 1) then interval else 0

  rounds : ℕ → ℕ → Waited
  rounds left attempt = poll_rounds get_transaction interval max_attempts left attempt

  rounds_suc :
      (left attempt : ℕ)
      → rounds (suc left) attempt
        ≡ after_poll (get_transaction attempt) (pause attempt) (rounds left (suc attempt))
  unfolding rounds poll_rounds pause
  rounds_suc left attempt = refl

  rounds_zero : (attempt : ℕ) → rounds zero attempt ≡ expired
  unfolding rounds poll_rounds
  rounds_zero attempt = refl

  rounds_polls : (left attempt : ℕ) → (rounds left attempt).polls ≤ left
  rounds_polls zero attempt = rw (rounds_zero attempt) (omega arith)
  rounds_polls (suc left) attempt = rw (rounds_suc left attempt) (
      omega (
        arith,
        after_poll_polls (get_transaction attempt) (pause attempt) (rounds left (suc attempt)),
        rounds_polls left (suc attempt),
      ))

  last_pause : (attempt : ℕ) → attempt + 1 ≡ max_attempts → pause attempt ≡ 0
  unfolding pause
  last_pause attempt h = ground arith

  pause_bound : (attempt : ℕ) → pause attempt ≤ interval
  unfolding pause
  pause_bound attempt = ground arith

  further_slept :
      (further attempt : ℕ)
      → attempt + suc further ≡ max_attempts
      → (rounds (suc further) attempt).slept_ms ≤ further * interval
  further_slept zero attempt h = rw (rounds_suc zero attempt) (
      omega (
        arith,
        after_poll_slept (get_transaction attempt) (pause attempt) (rounds zero (suc attempt)),
        last_pause attempt (omega arith),
        ap (λ r. r.slept_ms) (rounds_zero (suc attempt)),
      ))
  further_slept (suc further) attempt h = rw (rounds_suc (suc further) attempt) (
      omega (
        arith,
        after_poll_slept (get_transaction attempt) (pause attempt)
            (rounds (suc further) (suc attempt)),
        pause_bound attempt,
        further_slept further (suc attempt) (omega arith),
        times_suc further interval,
      ))

  rounds_slept :
      (left attempt : ℕ)
      → attempt + left ≡ max_attempts
      → (rounds left attempt).slept_ms ≤ (left - 1) * interval
  rounds_slept zero attempt h = rw (rounds_zero attempt) (omega arith)
  rounds_slept (suc further) attempt h =
      subst (λ k. (rounds (suc further) attempt).slept_ms ≤ k * interval) (omega arith)
        (further_slept further attempt h)

  expired_not_ok : (tx : Success) → expired.outcome ≡ ok tx → ⊥
  expired_not_ok tx h = cc

  rounds_ok :
      (left attempt : ℕ) (tx : Success)
      → (rounds left attempt).outcome ≡ ok tx
      → (n : ℕ) × (n < attempt + left) × (get_transaction n ≡ returned (success tx))
  rounds_ok zero attempt tx h = absurd (expired_not_ok tx (rw (rounds_zero attempt) at h))
  rounds_ok (suc left) attempt tx h =
      let seen = rw (rounds_suc left attempt) at h in
      elim (poll_cases (get_transaction attempt)) [
        | inl (found, e) ↦ (
          attempt,
          omega arith,
          e ∙ ap (λ x. returned (success x)) (ok_injective found tx (rw e at seen)),
        )
        | inr (inl e) ↦
            let (n, bound, eq) = rounds_ok left (suc attempt) tx (rw e at seen) in
            (n, omega arith, eq)
        | inr (inr (inl e)) ↦ cc (rw e at seen)
        | inr (inr (inr (x, e))) ↦ cc (rw e at seen)
      ]

  from_round :
      (left attempt : ℕ)
      → get_transaction attempt ≡ returned not_found
      → ((n : ℕ) → n < left → get_transaction (suc attempt + n) ≡ returned not_found)
      → (n : ℕ) → n < suc left
      → get_transaction (attempt + n) ≡ returned not_found
  from_round left attempt e later zero bound =
      subst (λ k. get_transaction k ≡ returned not_found) (omega arith) e
  from_round left attempt e later (suc n) bound =
      subst (λ k. get_transaction k ≡ returned not_found) (omega arith) (later n (omega arith))

  rounds_timeout :
      (left attempt : ℕ)
      → (rounds left attempt).outcome ≡ fail confirmation_timeout
      → (n : ℕ) → n < left
      → get_transaction (attempt + n) ≡ returned not_found
  rounds_timeout zero attempt h n bound = ground arith
  rounds_timeout (suc left) attempt h n bound =
      let seen = rw (rounds_suc left attempt) at h in
      elim (poll_cases (get_transaction attempt)) [
        | inl (found, e) ↦ cc (rw e at seen)
        | inr (inl e) ↦
            from_round left attempt e (rounds_timeout left (suc attempt) (rw e at seen)) n bound
        | inr (inr (inl e)) ↦ cc (rw e at seen)
        | inr (inr (inr (x, e))) ↦ cc (rw e at seen)
      ]

with_time_ok :
    (t : Text) (field : TimeField) (r : Text) (time : ℕ)
    → with_time t field ≡ ok (r, time)
    → (t ≡ r) × (field ≡ finite time)
with_time_ok t no_time r time h = cc
with_time_ok t not_finite r time h = cc
with_time_ok t (finite n) r time h = (cc, cc)

checked_root_ok :
    (found submitted : Text) (field : TimeField) (r : Text) (time : ℕ)
    → checked_root found submitted field ≡ ok (r, time)
    → (found ≡ submitted) × (r ≡ submitted) × (field ≡ finite time)
checked_root_ok [] submitted field r time h = cc
checked_root_ok (c ∷ cs) submitted field r time h = elim (Bool-cases (text_eq (c ∷ cs) submitted)) [
  | inl e ↦
      let (same, timed) = with_time_ok (c ∷ cs) field r time (rw (checked_root, e) at h) in
      (text_eq→≡ (c ∷ cs) submitted e, sym same ∙ text_eq→≡ (c ∷ cs) submitted e, timed)
  | inr e ↦ cc (rw (checked_root, e) at h)
]

-- The wait ends after 15 polls at most, of which none is followed by more than one pause, and none
-- by a pause at the end.
pub wait_for_confirmation_bounds :
    (get_transaction : ℕ → Call TxResponse) (interval attempts : ℕ)
    → ((wait_for_confirmation get_transaction interval attempts).polls ≤ attempts)
      × ((wait_for_confirmation get_transaction interval attempts).slept_ms
          ≤ (attempts - 1) * interval)
unfolding wait_for_confirmation rounds
wait_for_confirmation_bounds get_transaction interval attempts = (
  rounds_polls get_transaction interval attempts attempts 0,
  rounds_slept get_transaction interval attempts attempts 0 (omega arith),
)

-- A wait that returns a transaction has seen it in one of its polls.
pub wait_for_confirmation-ok :
    (get_transaction : ℕ → Call TxResponse) (interval attempts : ℕ) (tx : Success)
    → (wait_for_confirmation get_transaction interval attempts).outcome ≡ ok tx
    → (n : ℕ) × (n < attempts) × (get_transaction n ≡ returned (success tx))
unfolding wait_for_confirmation rounds
wait_for_confirmation-ok get_transaction interval attempts tx h =
    let (n, bound, e) = rounds_ok get_transaction interval attempts attempts 0 tx h in
    (n, omega arith, e)

-- A wait gives up as timed out only if no poll has found the transaction.
pub wait_for_confirmation_timeout :
    (get_transaction : ℕ → Call TxResponse) (interval attempts : ℕ)
    → (wait_for_confirmation get_transaction interval attempts).outcome ≡ fail confirmation_timeout
    → (n : ℕ) → n < attempts
    → get_transaction n ≡ returned not_found
unfolding wait_for_confirmation rounds
wait_for_confirmation_timeout get_transaction interval attempts h n bound =
    subst (λ k. get_transaction k ≡ returned not_found) (omega arith)
      (rounds_timeout get_transaction interval attempts attempts 0 h n bound)

abbrev Holds : Option Decoded → Text → Text → ℕ → Type 0
Holds value submitted r time =
    (length submitted ≢ 0)
    × (r ≡ submitted)
    × (value ≡ some (object (root submitted) (finite time)))

object_parts :
    (a b : Text) (f g : TimeField)
    → some (object (root a) f) ≡ some (object (root b) g)
    → (a ≡ b) × (f ≡ g)
object_parts a b f g h = (cc, cc)

decoded_iff :
    (value : Option Decoded) (ledger : ℕ) (submitted r : Text) (time : ℕ)
    → (validate_confirmed_result (record { ledger = ledger; return_value = value }) submitted
        ≡ ok (r, time))
      ↔ Holds value submitted r time
unfolding validate_confirmed_result
decoded_iff none ledger submitted r time = (λ h. absurd (fail_not_ok _ _ h), λ h. cc)
decoded_iff (some undecodable) ledger submitted r time = (λ h. absurd (fail_not_ok _ _ h), λ h. cc)
decoded_iff (some no_object) ledger submitted r time = (λ h. absurd (fail_not_ok _ _ h), λ h. cc)
decoded_iff (some (object no_root field)) ledger submitted r time =
    (λ h. absurd (fail_not_ok _ _ h), λ h. cc)
decoded_iff (some (object (root []) field)) ledger submitted r time = (
  λ h. absurd (fail_not_ok _ _ h),
  λ h. absurd (h.0 (ap length (sym (object_parts [] submitted field (finite time) h.2).0))),
)
decoded_iff (some (object (root (c ∷ cs)) field)) ledger submitted r time = (
  λ h.
      let (same, reported, timed) = checked_root_ok (c ∷ cs) submitted field r time h in
      (rw (sym same) (λ e. ground arith), reported, cc),
  λ h.
      let (same, timed) = object_parts (c ∷ cs) submitted field (finite time) h.2 in
      rw (timed, h.1, sym same, text_eq_refl (c ∷ cs)) refl,
)

-- A result is valid exactly if it holds the submitted root and a finite time.
pub validate_confirmed_result_iff :
    (tx : Success) (submitted r : Text) (time : ℕ)
    → (validate_confirmed_result tx submitted ≡ ok (r, time)) ↔ (
        (length submitted ≢ 0)
        × (r ≡ submitted)
        × (tx.return_value ≡ some (object (root submitted) (finite time))))
unfolding validate_confirmed_result
validate_confirmed_result_iff tx submitted r time =
    decoded_iff tx.return_value tx.ledger submitted r time
