-- ===== src/Submission/Submit/Results.antt =====
-- What `submitAttestation` of src/services/soroban/submitAttestation.ts reports: what a confirmed
-- result stands for.
use mathlib.Core.Path.{subst}
use veritasor_backend.Prelude.{
  ℕ, ◌<◌, ◌≡◌, ◌⊎◌, inl, inr, refl, sym, ◌∙◌, ap, Bool, true, false, Option, none, some, Bool-cases,
}
use veritasor_backend.Prelude.Text.{Text}
use veritasor_backend.Submission.{
  Code, submission, library, breaker_error, other_error, Outcome, ok, throws, fail, returned,
  settled, Params, SubmitResult, confirmed, pending, unsigned,
}
use veritasor_backend.Submission.Code.{
  confirmation_timeout, deduped, validation_error, invalid_response, confirmation_failed,
  result_validation_failed, result_mismatch, missing_signer, signer_mismatch, submit_failed,
  circuit_breaker_open, network_error,
}
use veritasor_backend.Submission.Dedupe.{RedisClient, Printer}
use veritasor_backend.Submission.Confirm
use veritasor_backend.Submission.Confirm.{
  TxResponse, Success, success, object, root, finite, validate_confirmed_result, SendResponse,
  not_an_object, is_valid_status, SendStatus, tx_hash_re, validate_send_transaction_response,
  confirmation_max_attempts, confirmation_poll_interval_ms, is_rejection,
}
use veritasor_backend.Submission.Confirm.Polls.{
  wait_for_confirmation-ok, validate_confirmed_result_iff,
}
use veritasor_backend.Submission.Submit.{
  World, Stellar, submit_attestation, build_and_send, sign_and_send, send_signed, confirm, wait,
  send, mark_as_submitted, require, required, lift, as_submission_error, pending_on_timeout,
  confirmed_result, deliver_if, check_if, should_submit, normalize_timestamp,
}
use veritasor_backend.Submission.Submit.Effects.{from_bind, from_then}

fails_not_ok : {A : Type 0} {c : Code} {a : A} → fail c ≡ ok a → ⊥
fails_not_ok h = cc

result_of : {A : Type 0} {a b : A} → ok a ≡ ok b → a ≡ b
result_of h = cc

pending_cases :
    (hash : Text) (o : Outcome SubmitResult) (r : SubmitResult)
    → pending_on_timeout hash o ≡ ok r
    → (o ≡ ok r) ⊎ (r.status ≡ pending)
pending_cases hash (ok a) r h = inl h
pending_cases hash (throws (library e)) r h = inl h
pending_cases hash (throws (submission confirmation_timeout)) r h =
    inr (ap (λ x. x.status) (sym (result_of h)))
pending_cases hash (throws (submission deduped)) r h = inl h
pending_cases hash (throws (submission validation_error)) r h = inl h
pending_cases hash (throws (submission invalid_response)) r h = inl h
pending_cases hash (throws (submission confirmation_failed)) r h = inl h
pending_cases hash (throws (submission result_validation_failed)) r h = inl h
pending_cases hash (throws (submission result_mismatch)) r h = inl h
pending_cases hash (throws (submission missing_signer)) r h = inl h
pending_cases hash (throws (submission signer_mismatch)) r h = inl h
pending_cases hash (throws (submission submit_failed)) r h = inl h
pending_cases hash (throws (submission circuit_breaker_open)) r h = inl h
pending_cases hash (throws (submission network_error)) r h = inl h

unsigned_not_confirmed : unsigned ≡ confirmed → ⊥
unsigned_not_confirmed h = cc

pending_not_confirmed : pending ≡ confirmed → ⊥
pending_not_confirmed h = cc

not_an_error : {A : Type 0} (o : Outcome A) (a : A) → as_submission_error o ≡ ok a → o ≡ ok a
unfolding as_submission_error
not_an_error (ok b) a h = h
not_an_error (throws (submission code)) a h = h
not_an_error (throws (library breaker_error)) a h = absurd (fails_not_ok h)
not_an_error (throws (library other_error)) a h = absurd (fails_not_ok h)

validated_hash :
    (response : SendResponse) (accepted : Text × SendStatus)
    → validate_send_transaction_response response ≡ ok accepted
    → tx_hash_re accepted.0 ≡ true
unfolding validate_send_transaction_response
validated_hash not_an_object accepted h = absurd (fails_not_ok h)
validated_hash (Confirm.response none status) accepted h = absurd (fails_not_ok h)
validated_hash (Confirm.response (some hash) status) accepted h =
    elim (Bool-cases (tx_hash_re hash)) [
      | inl e ↦ elim (Bool-cases (is_valid_status status)) [
        | inl v ↦ ap tx_hash_re (ap (λ x. x.0) (sym (result_of (rw (e, v) at h)))) ∙ e
        | inr v ↦ absurd (fails_not_ok (rw (e, v) at h))
      ]
      | inr e ↦ absurd (fails_not_ok (rw e at h))
    ]

module _ {Redis Account Prepared : Type 0} (client : Option (RedisClient Redis)) (lib : Printer)
    (ttl_ms : ℕ) (sdk : Stellar Account Prepared) (env_secret : Option Text) where
  -- What a result with the status confirmed stands for: one of 15 polls has found the transaction in
  -- a ledger, and the contract has returned the submitted root.
  pub record Confirmed (p : Params) (r : SubmitResult) : Type 0 where
    pub attempt : ℕ
    pub tx : Success
    pub time : ℕ
    pub in_time : attempt < 15
    pub found : sdk.get_transaction r.tx_hash attempt ≡ returned (success tx)
    pub on_chain : tx.return_value ≡ some (object (root p.merkle_root) (finite time))
    pub same_root : r.result_merkle_root ≡ some p.merkle_root
    pub same_ledger : r.ledger ≡ some tx.ledger
    pub is_hash : tx_hash_re r.tx_hash ≡ true

  confirm-ok :
      (p : Params) (hash : Text) (w w' : World Redis Prepared) (r : SubmitResult)
      → tx_hash_re hash ≡ true
      → confirm client lib ttl_ms sdk env_secret p hash w ≡ (ok r, w')
      → Confirmed p r
  unfolding confirm wait
  confirm-ok p hash w w' r fine h =
      from_bind (wait client lib ttl_ms sdk env_secret hash) _ w w' r h λ tx w1 waiting h1.
        from_bind (lift (validate_confirmed_result tx p.merkle_root)) _ w1 w' r h1
          λ v w2 checking h2.
            let (n, bound, seen) =
              wait_for_confirmation-ok (sdk.get_transaction hash) confirmation_poll_interval_ms
                confirmation_max_attempts tx (ap (λ x. x.0) waiting) in
            let (long, same, field) =
              (validate_confirmed_result_iff tx p.merkle_root v.0 v.1).0 (ap (λ x. x.0) checking) in
            let is_r : confirmed_result hash tx v ≡ r = result_of (ap (λ x. x.0) h2) in
            subst (Confirmed p) is_r (record {
              attempt = n;
              tx = tx;
              time = v.1;
              in_time = bound;
              found = seen;
              on_chain = field;
              same_root = ap some same;
              same_ledger = refl;
              is_hash = fine;
            })

  accepted-ok :
      (p : Params) (tx : Prepared) (w w' : World Redis Prepared) (r : SubmitResult)
      → send_signed client lib ttl_ms sdk env_secret p tx w ≡ (ok r, w')
      → Confirmed p r ⊎ (r.status ≡ pending)
  unfolding send_signed
  accepted-ok p tx w w' r h =
      from_bind (send client lib ttl_ms sdk env_secret tx) _ w w' r h λ response w1 _ h1.
        from_bind (lift (validate_send_transaction_response response)) _ w1 w' r h1
          λ accepted w2 valid h2. from_then (require _ _) _ w2 w' r h2 λ _ w3 _ h3.
            from_then (mark_as_submitted client lib ttl_ms sdk env_secret p accepted.0) _ w3 w' r h3
              λ _ w4 _ h4.
                elim (pending_cases accepted.0
                  (confirm client lib ttl_ms sdk env_secret p accepted.0 w4).0 r
                  (ap (λ x. x.0) h4)) [
                    | inl e ↦ inl (
                        confirm-ok p accepted.0 w4 _ r
                          (validated_hash response accepted (ap (λ x. x.0) valid))
                          (ap
                            (λ o. (o, (confirm client lib ttl_ms sdk env_secret p accepted.0 w4).1))
                            e))
                    | inr e ↦ inr e
                  ]

  sign-ok :
      (p : Params) (tx : Prepared) (w w' : World Redis Prepared) (r : SubmitResult)
      → sign_and_send client lib ttl_ms sdk env_secret p tx w ≡ (ok r, w')
      → Confirmed p r ⊎ (r.status ≡ pending)
  unfolding sign_and_send
  sign-ok p tx w w' r h = from_bind (required missing_signer _) _ w w' r h λ secret w1 _ h1.
      from_bind (lift (settled (sdk.public_key_of secret))) _ w1 w' r h1 λ key w2 _ h2.
        from_then (require signer_mismatch _) _ w2 w' r h2
          λ _ w3 _ h3. accepted-ok p (sdk.sign tx secret) w3 w' r h3

  deliver-ok :
      (go : Bool) (p : Params) (tx : Prepared) (w w' : World Redis Prepared) (r : SubmitResult)
      → deliver_if client lib ttl_ms sdk env_secret go p tx w ≡ (ok r, w')
      → r.status ≡ confirmed
      → Confirmed p r
  deliver-ok false p tx w w' r h c =
      absurd (unsigned_not_confirmed (ap (λ x. x.status) (result_of (ap (λ x. x.0) h)) ∙ c))
  deliver-ok true p tx w w' r h c = elim (sign-ok p tx w w' r h) [
    | inl done ↦ done
    | inr e ↦ absurd (pending_not_confirmed (sym e ∙ c))
  ]

  build-ok :
      (p : Params) (w w' : World Redis Prepared) (r : SubmitResult)
      → build_and_send client lib ttl_ms sdk env_secret p w ≡ (ok r, w')
      → r.status ≡ confirmed
      → Confirmed p r
  unfolding build_and_send
  build-ok p w w' r h c =
      from_bind (lift (settled (sdk.get_account p.source_public_key))) _ w w' r h λ account w1 _ h1.
        from_bind (lift (normalize_timestamp p.timestamp)) _ w1 w' r h1 λ time w2 _ h2.
          from_bind (lift (settled (sdk.prepare account p time))) _ w2 w' r h2
            λ tx w3 _ h3. deliver-ok (should_submit p.submit) p tx w3 w' r h3 c

  -- A submission that reports its attestation as confirmed has seen its transaction in a ledger, with
  -- the submitted root as what the contract returned.
  pub submit_attestation-confirmed :
      (p : Params) (w w' : World Redis Prepared) (r : SubmitResult)
      → submit_attestation client lib ttl_ms sdk env_secret p w ≡ (ok r, w')
      → r.status ≡ confirmed
      → Confirmed p r
  unfolding submit_attestation
  submit_attestation-confirmed p w w' r h c =
      from_then (require validation_error _) _ w w' r h λ _ w1 _ h1.
        from_then (check_if client lib ttl_ms sdk env_secret (should_submit p.submit) p) _ w1 w' r
          h1
          λ _ w2 _ h2.
            build-ok p w2 _ r
              (ap (λ o. (o, (build_and_send client lib ttl_ms sdk env_secret p w2).1))
                (not_an_error _ r (ap (λ x. x.0) h2)))
              c
