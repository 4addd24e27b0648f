-- ===== src/Submission.antt =====
-- The submission of an attestation to Soroban: src/services/soroban/submitAttestation.ts.
-- The Stellar SDK, the RPC server, Redis, SHA-256 and the printing of numbers are parameters.
-- Error messages and causes, logs and metrics are left out, and so is the feature flag of a user,
-- which is only logged.
pub mod Dedupe
pub mod Confirm
pub mod Submit
pub mod Queue
mod Tests
use veritasor_backend.Prelude.{ℕ, List, []}
use veritasor_backend.Prelude.Text.{Text}
use veritasor_backend.Prelude.{Bool, Option}

-- The codes of `SorobanSubmissionError`.
pub data Code : Type 0 where
  deduped validation_error invalid_response confirmation_failed confirmation_timeout : Code
  result_validation_failed result_mismatch missing_signer signer_mismatch submit_failed : Code
  circuit_breaker_open network_error : Code

-- What a call of a library throws: the error of an open circuit breaker, or any other.
pub data LibraryError : Type 0 where
  breaker_error other_error : LibraryError

pub data Thrown : Type 0 where
  submission : Code → Thrown
  library : LibraryError → Thrown

pub data Outcome (A : Type 0) : Type 0 where
  ok : A → Outcome A
  throws : Thrown → Outcome A

-- How a call of a library settles.
pub data Call (A : Type 0) : Type 0 where
  returned : A → Call A
  raised : LibraryError → Call A

abbrev pub settled : {A : Type 0} → Call A → Outcome A
settled (returned a) = ok a
settled (raised e) = throws (library e)

abbrev pub fail : {A : Type 0} → Code → Outcome A
fail code = throws (submission code)

pub data ℤ : Type 0 where
  pos negsuc : ℕ → ℤ

-- A bigint; a finite number that is not negative, by its floor and a rest that tells it from others
-- with that floor; a number that is negative or not finite.
pub data Timestamp : Type 0 where
  bigint : ℤ → Timestamp
  number : ℕ → ℕ → Timestamp
  out_of_range : ℕ → Timestamp

-- `userId` is left out with the feature flag.
pub record Params : Type 0 where
  pub business : Text
  pub period : Text
  pub merkle_root : Text
  pub timestamp : Timestamp
  pub version : Text
  pub source_public_key : Text
  pub signer_secret : Option Text
  pub submit : Option Bool

pub data Status : Type 0 where
  pending confirmed unsigned queued : Status

pub record SubmitResult : Type 0 where
  pub tx_hash : Text
  pub status : Status
  pub unsigned_xdr : Option Text
  pub ledger : Option ℕ
  pub result_merkle_root : Option Text
  pub result_timestamp : Option ℕ
