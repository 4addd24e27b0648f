-- ===== src/Submission/Submit/Costs.antt =====
-- How `submitAttestation` of src/services/soroban/submitAttestation.ts fails, and how often it polls.
use mathlib.Core.Path.{subst}
use veritasor_backend.Prelude.{
  ℕ, ◌+◌, ◌≤◌, inl, inr, refl, sym, arith, Bool, true, false, not, Option,
}
use veritasor_backend.Prelude.Text.{Text}
use veritasor_backend.Submission.{
  Code, submission, library, breaker_error, other_error, Outcome, ok, throws, Params,
}
use veritasor_backend.Submission.Dedupe.{RedisClient, Printer}
use veritasor_backend.Submission.Confirm.{confirmation_max_attempts, confirmation_poll_interval_ms}
use veritasor_backend.Submission.Confirm.Polls.{wait_for_confirmation_bounds}
use veritasor_backend.Submission.Submit.{
  M, World, Stellar, submit_attestation, build_and_send, sign_and_send, send_signed, confirm, wait,
  send, mark_as_submitted, assert_not_duplicate, require, catching, as_submission_error,
  pending_on_timeout, deliver_if, check_if, should_submit, is_duplicate, ◌>>◌,
}
use veritasor_backend.Submission.Submit.Effects.{
  bind_cases, Keeps, Keeps-bind, Grows, Grows-bind, Keeps→Grows, Keeps-required, Keeps-require,
  Keeps-lift, Grows-then,
}

-- A value, or a `SorobanSubmissionError`.
abbrev pub IsSubmissionOutcome : {A : Type 0} → Outcome A → Type 0
IsSubmissionOutcome (ok a) = Unit {0}
IsSubmissionOutcome (throws (submission code)) = Unit {0}
IsSubmissionOutcome (throws (library e)) = ⊥

as_submission_error-is : {A : Type 0} (o : Outcome A) → IsSubmissionOutcome (as_submission_error o)
unfolding as_submission_error
as_submission_error-is (ok a) = tt
as_submission_error-is (throws (submission code)) = tt
as_submission_error-is (throws (library breaker_error)) = tt
as_submission_error-is (throws (library other_error)) = tt

module _ {Redis Account Prepared : Type 0} (client : Option (RedisClient Redis)) (lib : Printer)
    (ttl_ms : ℕ) (sdk : Stellar Account Prepared) (env_secret : Option Text) where
  polls_of : World Redis Prepared → ℕ
  polls_of w = w.polls

  wait-Grows :
      (hash : Text)
      → Grows polls_of confirmation_max_attempts (wait client lib ttl_ms sdk env_secret hash)
  unfolding wait polls_of
  wait-Grows hash = record {
    grown = λ w. omega (
      arith,
      (wait_for_confirmation_bounds (sdk.get_transaction hash) confirmation_poll_interval_ms
          confirmation_max_attempts).0,
    );
  }

  confirm-Grows :
      (p : Params) (hash : Text)
      → Grows polls_of confirmation_max_attempts (confirm client lib ttl_ms sdk env_secret p hash)
  unfolding confirm
  confirm-Grows p hash = Grows-bind _ _ polls_of 15 0 15 refl (wait-Grows hash) λ tx.
      Keeps→Grows polls_of _
        (Keeps-bind _ _ polls_of (Keeps-lift polls_of _) λ v. Keeps-lift polls_of (ok _))

  catching-Grows :
      {A B : Type 0} (g : Outcome A → Outcome B) (m : M (World Redis Prepared) A) (k : ℕ)
      → Grows polls_of k m
      → Grows polls_of k (catching g m)
  catching-Grows g m k h = record { grown = h.grown }

  send-Keeps : (tx : Prepared) → Keeps polls_of (send client lib ttl_ms sdk env_secret tx)
  unfolding send polls_of
  send-Keeps tx = record { kept = λ w. refl }

  mark-Keeps :
      (p : Params) (hash : Text)
      → Keeps polls_of (mark_as_submitted client lib ttl_ms sdk env_secret p hash)
  unfolding mark_as_submitted polls_of
  mark-Keeps p hash = record { kept = λ w. refl }

  quiet : {A : Type 0} {m : M (World Redis Prepared) A} → Keeps polls_of m → Grows polls_of 0 m
  quiet k = Keeps→Grows polls_of _ k

  signed-Grows :
      (p : Params) (tx : Prepared)
      → Grows polls_of confirmation_max_attempts (send_signed client lib ttl_ms sdk env_secret p tx)
  unfolding send_signed
  signed-Grows p tx = Grows-bind _ _ polls_of 0 15 15 refl (quiet (send-Keeps tx)) λ r.
      Grows-bind _ _ polls_of 0 15 15 refl (quiet (Keeps-lift polls_of _)) λ accepted.
        Grows-then _ _ polls_of 15 (quiet (Keeps-require polls_of _ _)) (
          Grows-then _ _ polls_of 15 (quiet (mark-Keeps p accepted.0))
            (catching-Grows (pending_on_timeout accepted.0) _ 15 (confirm-Grows p accepted.0)))

  sign-Grows :
      (p : Params) (tx : Prepared)
      → Grows polls_of confirmation_max_attempts
          (sign_and_send client lib ttl_ms sdk env_secret p tx)
  unfolding sign_and_send
  sign-Grows p tx =
      Grows-bind _ _ polls_of 0 15 15 refl (quiet (Keeps-required polls_of _ _)) λ secret.
        Grows-bind _ _ polls_of 0 15 15 refl (quiet (Keeps-lift polls_of _)) λ key.
          Grows-then _ _ polls_of 15 (quiet (Keeps-require polls_of _ _))
            (signed-Grows p (sdk.sign tx secret))

  deliver-Grows :
      (go : Bool) (p : Params) (tx : Prepared)
      → Grows polls_of confirmation_max_attempts
          (deliver_if client lib ttl_ms sdk env_secret go p tx)
  deliver-Grows true p tx = sign-Grows p tx
  deliver-Grows false p tx = record { grown = λ w. omega arith }

  build-Grows :
      (p : Params)
      → Grows polls_of confirmation_max_attempts (build_and_send client lib ttl_ms sdk env_secret p)
  unfolding build_and_send
  build-Grows p = Grows-bind _ _ polls_of 0 15 15 refl (quiet (Keeps-lift polls_of _)) λ account.
      Grows-bind _ _ polls_of 0 15 15 refl (quiet (Keeps-lift polls_of _)) λ time.
        Grows-bind _ _ polls_of 0 15 15 refl (quiet (Keeps-lift polls_of _))
          λ tx. deliver-Grows (should_submit p.submit) p tx

  check-Keeps :
      (go : Bool) (p : Params) → Keeps polls_of (check_if client lib ttl_ms sdk env_secret go p)
  unfolding assert_not_duplicate
  check-Keeps true p = record {
    kept = λ w.
        (Keeps-require polls_of _
            (not (is_duplicate client lib ttl_ms sdk env_secret client p w.redis))).kept
          w;
  }
  check-Keeps false p = record { kept = λ w. refl }

  -- A submission asks for the transaction 15 times at most, however it ends.
  pub submit_attestation-polls :
      (p : Params) (w : World Redis Prepared)
      → (submit_attestation client lib ttl_ms sdk env_secret p w).1.polls ≤ w.polls + 15
  unfolding submit_attestation polls_of
  submit_attestation-polls p =
      (Grows-then _ _ polls_of 15 (quiet (Keeps-require polls_of _ _)) (
        Grows-then _ _ polls_of 15 (quiet (check-Keeps (should_submit p.submit) p))
          (catching-Grows as_submission_error _ 15 (build-Grows p)))).grown

  Proper-then :
      {B : Type 0} (m : M (World Redis Prepared) (Unit {0})) (next : M (World Redis Prepared) B)
      → ((w : World Redis Prepared) → IsSubmissionOutcome (m w).0)
      → ((w : World Redis Prepared) → IsSubmissionOutcome (next w).0)
      → (w : World Redis Prepared) → IsSubmissionOutcome ((m >> next) w).0
  unfolding ◌>>◌
  Proper-then {B = B} m next first rest w = elim (bind_cases m (λ u. next) w) [
    | inl (u, w1, e, step) ↦ subst (λ x. IsSubmissionOutcome x.0) (sym step) (rest w1)
    | inr (submission code, w1, e, step) ↦ subst (λ x. IsSubmissionOutcome x.0) (sym step) tt
    | inr (library x, w1, e, step) ↦ absurd (subst (λ x. IsSubmissionOutcome x.0) e (first w))
  ]

  require-Proper :
      (code : Code) (b : Bool) (w : World Redis Prepared) → IsSubmissionOutcome (require code b w).0
  unfolding require
  require-Proper code true w = tt
  require-Proper code false w = tt

  check-Proper :
      (go : Bool) (p : Params) (w : World Redis Prepared)
      → IsSubmissionOutcome (check_if client lib ttl_ms sdk env_secret go p w).0
  unfolding assert_not_duplicate
  check-Proper true p w = require-Proper _ _ w
  check-Proper false p w = tt

  -- Whatever the libraries throw, a submission throws nothing but a SorobanSubmissionError.
  pub submit_attestation-errors :
      (p : Params) (w : World Redis Prepared)
      → IsSubmissionOutcome (submit_attestation client lib ttl_ms sdk env_secret p w).0
  unfolding submit_attestation
  submit_attestation-errors p = Proper-then _ _ (require-Proper _ _) (
      Proper-then _ _ (check-Proper (should_submit p.submit) p)
        λ w. as_submission_error-is (build_and_send client lib ttl_ms sdk env_secret p w).0)
