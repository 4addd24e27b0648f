-- ===== src/Submission/Submit.antt =====
-- `submitAttestation` of src/services/soroban/submitAttestation.ts, as a monad over what a submission
-- changes: Redis, the transactions sent and the polls made. The mark in Redis, which the source does
-- not wait for, is written when it is started.
pub mod Effects
pub mod Costs
pub mod Results
pub mod Repeat
use veritasor_backend.Prelude.{
  ℕ, ◌+◌, Bool, true, false, not, ◌&&◌, ◌||◌, List, [], ◌∷◌, ◌++◌, Option, none, some,
  if◌then◌else◌,
}
use veritasor_backend.Prelude.Text.{Text, text_eq}
use veritasor_backend.Submission.{
  Code, LibraryError, breaker_error, other_error, Thrown, submission, library, Outcome, ok, throws,
  fail, Call, settled, Params, Timestamp, bigint, number, out_of_range, ℤ, pos, SubmitResult,
  pending, confirmed, unsigned,
}
use veritasor_backend.Submission.Code.{
  deduped, validation_error, confirmation_timeout, missing_signer, signer_mismatch, submit_failed,
  circuit_breaker_open, network_error,
}
use veritasor_backend.Submission.Dedupe.{
  RedisClient, Printer, check_attestation_dedupe, mark_attestation_submitted,
}
use veritasor_backend.Submission.Confirm.{
  SendResponse, SendStatus, TxResponse, Success, Waited, is_rejection,
  validate_send_transaction_response, wait_for_confirmation, validate_confirmed_result,
  confirmation_poll_interval_ms, confirmation_max_attempts,
}

-- The Stellar SDK and the RPC server, as far as a submission calls them. `prepare` builds the
-- operation and the transaction and has the server prepare it; `get_transaction hash n` is the
-- call in round `n` of the polling.
pub record Stellar (Account Prepared : Type 0) : Type 0 where
  pub is_valid_public_key : Text → Bool
  pub public_key_of : Text → Call Text
  pub get_account : Text → Call Account
  pub prepare : Account → Params → ℤ → Call Prepared
  pub hash_hex : Prepared → Text
  pub to_xdr : Prepared → Text
  pub sign : Prepared → Text → Prepared
  pub send_transaction : Prepared → Call SendResponse
  pub get_transaction : Text → ℕ → Call TxResponse

pub record World (Redis Prepared : Type 0) : Type 0 where
  pub redis : Redis
  pub sent : List Prepared
  pub polls : ℕ

unfoldable pub normalize_timestamp : Timestamp → Outcome ℤ
normalize_timestamp (bigint z) = ok z
normalize_timestamp (number floor rest) = ok (pos floor)
normalize_timestamp (out_of_range n) = fail validation_error

-- `params.submit ?? true`
abbrev pub should_submit : Option Bool → Bool
should_submit none = true
should_submit (some b) = b

-- `params.signerSecret ?? process.env.SOROBAN_SOURCE_SECRET`, of which the empty text is missing.
abbrev pub usable_secret : Option Text → Option Text → Option Text
usable_secret none none = none
usable_secret none (some []) = none
usable_secret none (some (c ∷ cs)) = some (c ∷ cs)
usable_secret (some []) env = none
usable_secret (some (c ∷ cs)) env = some (c ∷ cs)

-- The outer `catch` block.
unfoldable pub as_submission_error : {A : Type 0} → Outcome A → Outcome A
as_submission_error (ok a) = ok a
as_submission_error (throws (submission code)) = fail code
as_submission_error (throws (library breaker_error)) = fail circuit_breaker_open
as_submission_error (throws (library other_error)) = fail network_error

-- The inner `catch` block: `pending` in place of a time-out.
abbrev pub pending_on_timeout : Text → Outcome SubmitResult → Outcome SubmitResult
pending_on_timeout hash (throws (submission confirmation_timeout)) = ok (record {
  tx_hash = hash;
  status = pending;
  unsigned_xdr = none;
  ledger = none;
  result_merkle_root = none;
  result_timestamp = none;
})
pending_on_timeout hash o = o

abbrev pub unsigned_result : Text → Text → SubmitResult
unsigned_result hash xdr = record {
  tx_hash = hash;
  status = unsigned;
  unsigned_xdr = some xdr;
  ledger = none;
  result_merkle_root = none;
  result_timestamp = none;
}

abbrev pub confirmed_result : Text → Success → (Text × ℕ) → SubmitResult
confirmed_result hash tx (root, time) = record {
  tx_hash = hash;
  status = confirmed;
  unsigned_xdr = none;
  ledger = some tx.ledger;
  result_merkle_root = some root;
  result_timestamp = some time;
}

abbrev pub M : Type 0 → Type 0 → Type 0
M W A = W → Outcome A × W

module _ {W : Type 0} where
  abbrev pub pure : {A : Type 0} → A → M W A
  pure a w = (ok a, w)

  abbrev pub lift : {A : Type 0} → Outcome A → M W A
  lift o w = (o, w)

  abbrev pub after : {A B : Type 0} → Outcome A × W → (A → M W B) → Outcome B × W
  after (ok a, w) f = f a w
  after (throws e, w) f = (throws e, w)

  infixl 5 ◌>>=◌ ◌>>◌
  unfoldable pub ◌>>=◌ : {A B : Type 0} → M W A → (A → M W B) → M W B
  ◌>>=◌ m f w = after (m w) f

  unfoldable pub ◌>>◌ : {B : Type 0} → M W (Unit {0}) → M W B → M W B
  unfolding ◌>>=◌
  m >> k = m >>= λ _. k

  abbrev pub mapped : {A B : Type 0} → (Outcome A → Outcome B) → Outcome A × W → Outcome B × W
  mapped g (o, w) = (g o, w)

  -- What a `catch` block makes of how the `try` block ends.
  abbrev pub catching : {A B : Type 0} → (Outcome A → Outcome B) → M W A → M W B
  catching g m w = mapped g (m w)

  -- `if (!test) throw …`
  unfoldable pub require : Code → Bool → M W (Unit {0})
  require code true w = (ok tt, w)
  require code false w = (fail code, w)

  unfoldable pub required : {A : Type 0} → Code → Option A → M W A
  required code none w = (fail code, w)
  required code (some a) w = (ok a, w)

module _ {Redis Account Prepared : Type 0} (client : Option (RedisClient Redis)) (lib : Printer)
    (ttl_ms : ℕ) (sdk : Stellar Account Prepared) (env_secret : Option Text) where
  abbrev pub is_duplicate : Option (RedisClient Redis) → Params → Redis → Bool
  is_duplicate none p redis = false
  is_duplicate (some c) p redis = check_attestation_dedupe c lib redis p

  unfoldable pub assert_not_duplicate : Params → M (World Redis Prepared) (Unit {0})
  assert_not_duplicate p w = require deduped (not (is_duplicate client p w.redis)) w

  abbrev pub marked : Option (RedisClient Redis) → Params → Text → Redis → Redis
  marked none p hash redis = redis
  marked (some c) p hash redis = mark_attestation_submitted c lib redis p hash ttl_ms

  unfoldable pub mark_as_submitted : Params → Text → M (World Redis Prepared) (Unit {0})
  mark_as_submitted p hash w = (ok tt, record w { redis = marked client p hash w.redis })

  unfoldable pub send : Prepared → M (World Redis Prepared) SendResponse
  send tx w = (settled (sdk.send_transaction tx), record w { sent = w.sent ++ tx ∷ [] })

  abbrev pub waited : Text → Waited
  waited hash =
      wait_for_confirmation (sdk.get_transaction hash) confirmation_poll_interval_ms
        confirmation_max_attempts

  unfoldable pub wait : Text → M (World Redis Prepared) Success
  wait hash w = ((waited hash).outcome, record w { polls = w.polls + (waited hash).polls })

  unfoldable pub confirm : Params → Text → M (World Redis Prepared) SubmitResult
  confirm p hash = do
    tx ← wait hash
    validated ← lift (validate_confirmed_result tx p.merkle_root)
    pure (confirmed_result hash tx validated)

  unfoldable pub send_signed : Params → Prepared → M (World Redis Prepared) SubmitResult
  send_signed p tx = do
    response ← send tx
    accepted ← lift (validate_send_transaction_response response)
    require submit_failed (not (is_rejection accepted.1))
    mark_as_submitted p accepted.0
    catching (pending_on_timeout accepted.0) (confirm p accepted.0)

  unfoldable pub sign_and_send : Params → Prepared → M (World Redis Prepared) SubmitResult
  sign_and_send p tx = do
    secret ← required missing_signer (usable_secret p.signer_secret env_secret)
    public_key ← lift (settled (sdk.public_key_of secret))
    require signer_mismatch (text_eq public_key p.source_public_key)
    send_signed p (sdk.sign tx secret)

  -- `if (!shouldSubmit) return …`
  abbrev pub deliver_if : Bool → Params → Prepared → M (World Redis Prepared) SubmitResult
  deliver_if true p tx = sign_and_send p tx
  deliver_if false p tx = pure (unsigned_result (sdk.hash_hex tx) (sdk.to_xdr tx))

  unfoldable pub build_and_send : Params → M (World Redis Prepared) SubmitResult
  build_and_send p = do
    account ← lift (settled (sdk.get_account p.source_public_key))
    timestamp ← lift (normalize_timestamp p.timestamp)
    tx ← lift (settled (sdk.prepare account p timestamp))
    deliver_if (should_submit p.submit) p tx

  -- `if (shouldSubmit) …`
  abbrev pub check_if : Bool → Params → M (World Redis Prepared) (Unit {0})
  check_if true p = assert_not_duplicate p
  check_if false p = pure tt

  unfoldable pub submit_attestation : Params → M (World Redis Prepared) SubmitResult
  submit_attestation p = do
    require validation_error (sdk.is_valid_public_key p.source_public_key)
    check_if (should_submit p.submit) p
    catching as_submission_error (build_and_send p)
