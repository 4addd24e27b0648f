-- ===== src/Submission/Submit/Repeat.antt =====
-- A second submission of the same attestation in src/services/soroban/submitAttestation.ts.
use mathlib.Core.Path.{subst}
use veritasor_backend.Prelude.{
  ℕ, ◌≡◌, ◌⊎◌, inl, inr, refl, sym, ◌∙◌, ap, Bool, true, false, Option, none, some, Bool-cases,
}
use veritasor_backend.Prelude.Text.{Text}
use veritasor_backend.Submission.{
  Code, Thrown, submission, library, Outcome, ok, throws, fail, Call, returned, raised, settled,
  Params, SubmitResult, breaker_error, other_error, bigint, number, out_of_range, Timestamp,
}
use veritasor_backend.Submission.Code.{
  deduped, validation_error, confirmation_failed, result_validation_failed, result_mismatch,
  missing_signer, signer_mismatch, submit_failed,
}
use veritasor_backend.Submission.Dedupe.{
  RedisClient, Printer, replied, check_attestation_dedupe, mark_attestation_submitted, dedupe_entry,
}
use veritasor_backend.Submission.Confirm
use veritasor_backend.Submission.Confirm.{
  SendResponse, not_an_object, validate_send_transaction_response, validate_confirmed_result,
  tx_hash_re, is_valid_status, is_rejection,
}
use veritasor_backend.Submission.Submit.{
  M, World, Stellar, submit_attestation, build_and_send, sign_and_send, send_signed, confirm, wait,
  send, mark_as_submitted, assert_not_duplicate, require, required, lift, catching,
  as_submission_error, pending_on_timeout, check_if, should_submit, normalize_timestamp, ◌>>=◌,
  ◌>>◌,
}
use veritasor_backend.Submission.Submit.Effects.{bind_cases, Keeps, Keeps-bind, Keeps-lift}

-- An error that a submission ends with before the server has accepted its transaction, or one of the
-- network.
abbrev pub FailsBy : Thrown → Type 0
FailsBy (submission confirmation_failed) = ⊥
FailsBy (submission result_validation_failed) = ⊥
FailsBy (submission result_mismatch) = ⊥
FailsBy e = Unit {0}

abbrev pub Fails : {A : Type 0} → Outcome A → Type 0
Fails (ok a) = ⊥
Fails (throws e) = FailsBy e

abbrev Passes : {A : Type 0} → Outcome A → Type 0
Passes (ok a) = Unit {0}
Passes (throws e) = FailsBy e

settled-Passes : {A : Type 0} (c : Call A) → Passes (settled c)
settled-Passes (returned a) = tt
settled-Passes (raised e) = tt

normalize-Passes : (t : Timestamp) → Passes (normalize_timestamp t)
unfolding normalize_timestamp
normalize-Passes (bigint z) = tt
normalize-Passes (number n r) = tt
normalize-Passes (out_of_range n) = tt

validate-Passes : (r : SendResponse) → Passes (validate_send_transaction_response r)
unfolding validate_send_transaction_response
validate-Passes not_an_object = tt
validate-Passes (Confirm.response none status) = tt
validate-Passes (Confirm.response (some hash) status) = elim (Bool-cases (tx_hash_re hash)) [
  | inl e ↦ elim (Bool-cases (is_valid_status status)) [
    | inl v ↦ rw (e, v) tt
    | inr v ↦ rw (e, v) tt
  ]
  | inr e ↦ rw e tt
]

Fails-as_submission_error : {A : Type 0} (o : Outcome A) → Fails o → Fails (as_submission_error o)
unfolding as_submission_error
Fails-as_submission_error (ok a) f = f
Fails-as_submission_error (throws (submission code)) f = f
Fails-as_submission_error (throws (library breaker_error)) f = tt
Fails-as_submission_error (throws (library other_error)) f = tt

module _ {Redis Account Prepared : Type 0} (c : RedisClient Redis) (lib : Printer) (ttl_ms : ℕ)
    (sdk : Stellar Account Prepared) (env_secret : Option Text) (p : Params) where
  -- A stage before the mark.
  record Quiet {A : Type 0} (m : M (World Redis Prepared) A) : Type 0 where
    kept : (w : World Redis Prepared) → (m w).1.redis ≡ w.redis
    passes : (w : World Redis Prepared) → Passes (m w).0

  abbrev IsMarked : Redis → Redis → Type 0
  IsMarked before now =
      (hash : Text) × (now ≡ mark_attestation_submitted c lib before p hash ttl_ms)

  -- The attestation is marked in Redis, or the submission has failed.
  record Marks {A : Type 0} (m : M (World Redis Prepared) A) : Type 0 where
    marks : (w : World Redis Prepared) → IsMarked w.redis (m w).1.redis ⊎ Fails (m w).0

  Marks-bind :
      {A B : Type 0} (m : M (World Redis Prepared) A) (f : A → M (World Redis Prepared) B)
      → Quiet m
      → ((a : A) → Marks (f a))
      → Marks (m >>= f)
  Marks-bind {B = B} m f first next = record {
    marks = λ w. elim (bind_cases m f w) [
      | inl (a, w1, e, step) ↦
          subst (λ r. IsMarked w.redis r.1.redis ⊎ Fails r.0) (sym step)
            (subst (λ redis. IsMarked redis (f a w1).1.redis ⊎ Fails (f a w1).0)
              (ap (λ r. r.1.redis) (sym e) ∙ first.kept w) ((next a).marks w1))
      | inr (x, w1, e, step) ↦
          subst (λ r. IsMarked w.redis r.1.redis ⊎ Fails r.0) (sym step)
            (inr (subst (λ r. Passes r.0) e (first.passes w)))
    ];
  }

  Marks-then :
      {B : Type 0} (m : M (World Redis Prepared) (Unit {0})) (next : M (World Redis Prepared) B)
      → Quiet m
      → Marks next
      → Marks (m >> next)
  unfolding ◌>>◌
  Marks-then m next first rest = Marks-bind m (λ u. next) first (λ u. rest)

  lift-Quiet : {A : Type 0} (o : Outcome A) → Passes o → Quiet (lift o)
  lift-Quiet o h = record { kept = λ w. refl; passes = λ w. h }

  require-Quiet : (code : Code) (b : Bool) → FailsBy (submission code) → Quiet (require code b)
  unfolding require
  require-Quiet code true h = record { kept = λ w. refl; passes = λ w. tt }
  require-Quiet code false h = record { kept = λ w. refl; passes = λ w. h }

  required-Quiet :
      {A : Type 0} (code : Code) (o : Option A)
      → FailsBy (submission code)
      → Quiet (required code o)
  unfolding required
  required-Quiet code none h = record { kept = λ w. refl; passes = λ w. h }
  required-Quiet code (some a) h = record { kept = λ w. refl; passes = λ w. tt }

  send-Quiet : (tx : Prepared) → Quiet (send (some c) lib ttl_ms sdk env_secret tx)
  unfolding send
  send-Quiet tx = record {
    kept = λ w. refl;
    passes = λ w. settled-Passes (sdk.send_transaction tx);
  }

  redis_of : World Redis Prepared → Redis
  redis_of w = w.redis

  confirm-Keeps : (hash : Text) → Keeps redis_of (confirm (some c) lib ttl_ms sdk env_secret p hash)
  unfolding confirm wait redis_of
  confirm-Keeps hash =
      Keeps-bind _ _ redis_of (record { kept = λ w. refl })
        λ tx. Keeps-bind _ _ redis_of (Keeps-lift redis_of _) λ v. Keeps-lift redis_of (ok _)

  mark-Marks :
      {B : Type 0} (hash : Text) (g : Outcome SubmitResult → Outcome B)
      → Marks (
          mark_as_submitted (some c) lib ttl_ms sdk env_secret p hash
          >> catching g (confirm (some c) lib ttl_ms sdk env_secret p hash))
  unfolding ◌>>◌ ◌>>=◌ mark_as_submitted redis_of
  mark-Marks hash g = record { marks = λ w. inl (hash, (confirm-Keeps hash).kept _) }

  signed-Marks : (tx : Prepared) → Marks (send_signed (some c) lib ttl_ms sdk env_secret p tx)
  unfolding send_signed
  signed-Marks tx = Marks-bind _ _ (send-Quiet tx) λ r.
      Marks-bind _ _ (lift-Quiet (validate_send_transaction_response r) (validate-Passes r))
        λ accepted.
          Marks-then _ _ (require-Quiet submit_failed _ tt)
            (mark-Marks accepted.0 (pending_on_timeout accepted.0))

  sign-Marks : (tx : Prepared) → Marks (sign_and_send (some c) lib ttl_ms sdk env_secret p tx)
  unfolding sign_and_send
  sign-Marks tx = Marks-bind _ _ (required-Quiet missing_signer _ tt) λ secret.
      Marks-bind _ _ (lift-Quiet (settled (sdk.public_key_of secret)) (settled-Passes _)) λ key.
        Marks-then _ _ (require-Quiet signer_mismatch _ tt) (signed-Marks (sdk.sign tx secret))

  build-Marks :
      should_submit p.submit ≡ true → Marks (build_and_send (some c) lib ttl_ms sdk env_secret p)
  unfolding build_and_send
  build-Marks go =
      Marks-bind _ _ (lift-Quiet (settled (sdk.get_account p.source_public_key)) (settled-Passes _))
        λ account.
          Marks-bind _ _ (lift-Quiet (normalize_timestamp p.timestamp) (normalize-Passes _)) λ time.
            Marks-bind _ _ (lift-Quiet (settled (sdk.prepare account p time)) (settled-Passes _))
              λ tx. rw go (sign-Marks tx)

  check-Quiet : (go : Bool) → Quiet (check_if (some c) lib ttl_ms sdk env_secret go p)
  unfolding assert_not_duplicate
  check-Quiet true = record {
    kept = λ w. (require-Quiet deduped _ tt).kept w;
    passes = λ w. (require-Quiet deduped _ tt).passes w;
  }
  check-Quiet false = record { kept = λ w. refl; passes = λ w. tt }

  IsMarked-as_submission_error :
      (w : World Redis Prepared)
      → IsMarked w.redis (build_and_send (some c) lib ttl_ms sdk env_secret p w).1.redis
        ⊎ Fails (build_and_send (some c) lib ttl_ms sdk env_secret p w).0
      → IsMarked w.redis (build_and_send (some c) lib ttl_ms sdk env_secret p w).1.redis
        ⊎ Fails (as_submission_error (build_and_send (some c) lib ttl_ms sdk env_secret p w).0)
  IsMarked-as_submission_error w (inl m) = inl m
  IsMarked-as_submission_error w (inr f) = inr (Fails-as_submission_error _ f)

  submit-Marks :
      should_submit p.submit ≡ true
      → Marks (submit_attestation (some c) lib ttl_ms sdk env_secret p)
  unfolding submit_attestation
  submit-Marks go = Marks-then _ _ (require-Quiet validation_error _ tt) (
      Marks-then _ _ (check-Quiet (should_submit p.submit))
        (record { marks = λ w. IsMarked-as_submission_error w ((build-Marks go).marks w) }))

  -- Redis holds what it was given, as it does until the entry expires.
  abbrev pub Remembers : Type 0
  Remembers =
      (redis : Redis) (key value : Text) (ms : ℕ)
      → c.get (c.set redis key value ms) key ≡ replied (some value)

  mark_is_hit :
      Remembers
      → (before now later : Redis) (q : Params) → IsMarked before now
      → dedupe_entry lib q ≡ dedupe_entry lib p
      → c.get later (dedupe_entry lib p) ≡ c.get now (dedupe_entry lib p)
      → check_attestation_dedupe c lib later q ≡ true
  unfolding check_attestation_dedupe mark_attestation_submitted
  mark_is_hit remembers before now later q (hash, e) same stays =
      rw (same, stays, e, remembers before (dedupe_entry lib p) hash ttl_ms) refl

  refused_as_duplicate :
      (q : Params) (later : World Redis Prepared)
      → sdk.is_valid_public_key q.source_public_key ≡ true
      → should_submit q.submit ≡ true
      → check_attestation_dedupe c lib later.redis q ≡ true
      → submit_attestation (some c) lib ttl_ms sdk env_secret q later ≡ (fail deduped, later)
  unfolding submit_attestation ◌>>◌ ◌>>=◌ require assert_not_duplicate
  refused_as_duplicate q later valid go hit = rw (valid, go, hit) refl

  -- Once a submission has ended with a result, or with an error of its confirmation or of the
  -- validation of what is confirmed, each later one with the same dedupe key and a valid source key,
  -- whatever its signer, is refused as a duplicate, sends nothing and changes nothing, as long as Redis
  -- gives the same answer for the key: also if the transaction has failed.
  pub submit_attestation_repeat :
      Remembers
      → should_submit p.submit ≡ true
      → (q : Params) (w later : World Redis Prepared)
      → (Fails (submit_attestation (some c) lib ttl_ms sdk env_secret p w).0 → ⊥)
      → dedupe_entry lib q ≡ dedupe_entry lib p
      → sdk.is_valid_public_key q.source_public_key ≡ true
      → should_submit q.submit ≡ true
      → c.get later.redis (dedupe_entry lib p)
        ≡ c.get
            (submit_attestation (some c) lib ttl_ms sdk env_secret p w).1.redis
            (dedupe_entry lib p)
      → submit_attestation (some c) lib ttl_ms sdk env_secret q later ≡ (fail deduped, later)
  submit_attestation_repeat remembers go q w later landed same valid go' stays =
      elim ((submit-Marks go).marks w) [
        | inr failed ↦ absurd (landed failed)
        | inl m ↦
            refused_as_duplicate q later valid go'
              (mark_is_hit remembers w.redis _ later.redis q m same stays)
      ]
