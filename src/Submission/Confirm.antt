-- ===== src/Submission/Confirm.antt =====
-- The responses of the RPC server in src/services/soroban/submitAttestation.ts: what is made of an
-- accepted transaction, the polling for its confirmation and the check of the result on the chain.
pub mod Polls
use veritasor_backend.Prelude.{
  ℕ, zero, suc, ◌+◌, ◌-◌, Bool, true, false, ◌&&◌, ◌||◌, List, [], ◌∷◌, Option, none, some, ltb,
  leb, ◌==◌, if◌then◌else◌, length,
}
use veritasor_backend.Prelude.Text.{Text, text_eq}
use veritasor_backend.Submission.{Code, Outcome, Call, ok, throws, library, fail, returned, raised}
use veritasor_backend.Submission.Code.{
  invalid_response, confirmation_failed, confirmation_timeout, result_validation_failed,
  result_mismatch,
}

abbrev pub confirmation_poll_interval_ms : ℕ
confirmation_poll_interval_ms = 2000

abbrev pub confirmation_max_attempts : ℕ
confirmation_max_attempts = 15

unfoldable pub all_tx_hash_digits : Text → Bool
all_tx_hash_digits [] = true
all_tx_hash_digits (c ∷ cs) =
    (leb b'0' c && leb c b'9' || leb b'a' c && leb c b'f') && all_tx_hash_digits cs

-- TX_HASH_RE: 64 lowercase hexadecimal digits.
unfoldable pub tx_hash_re : Text → Bool
tx_hash_re t = length t == 64 && all_tx_hash_digits t

pub data SendStatus : Type 0 where
  sent_pending sent_duplicate sent_error try_again_later unexpected : SendStatus

-- A response that is no object, or an object with its hash, if that is a string, and its status.
pub data SendResponse : Type 0 where
  not_an_object : SendResponse
  response : Option Text → SendStatus → SendResponse

abbrev pub is_valid_status : SendStatus → Bool
is_valid_status sent_pending = true
is_valid_status sent_duplicate = true
is_valid_status sent_error = true
is_valid_status try_again_later = true
is_valid_status unexpected = false

abbrev pub is_rejection : SendStatus → Bool
is_rejection sent_pending = false
is_rejection sent_duplicate = false
is_rejection sent_error = true
is_rejection try_again_later = true
is_rejection unexpected = false

-- The source returns nothing; here the hash and the status that it then reads.
unfoldable pub validate_send_transaction_response : SendResponse → Outcome (Text × SendStatus)
validate_send_transaction_response not_an_object = fail invalid_response
validate_send_transaction_response (response none status) = fail invalid_response
validate_send_transaction_response (response (some hash) status) =
    if tx_hash_re hash
    then (if is_valid_status status then ok (hash, status) else fail invalid_response)
    else fail invalid_response

-- `native.merkle_root`: null or undefined, or what it is as a string.
pub data RootField : Type 0 where
  no_root : RootField
  root : Text → RootField

pub data TimeField : Type 0 where
  no_time not_finite : TimeField
  finite : ℕ → TimeField

-- `scValToNative` of the return value.
pub data Decoded : Type 0 where
  undecodable no_object : Decoded
  object : RootField → TimeField → Decoded

pub record Success : Type 0 where
  pub ledger : ℕ
  pub return_value : Option Decoded

pub data TxResponse : Type 0 where
  success : Success → TxResponse
  failed not_found : TxResponse

-- What a wait has cost and how it ends.
pub record Waited : Type 0 where
  pub polls : ℕ
  pub slept_ms : ℕ
  pub outcome : Outcome Success

abbrev pub ended : Outcome Success → Waited
ended o = record { polls = 1; slept_ms = 0; outcome = o }

-- One round: `rest` are the rounds after it, `slept` the pause before them.
abbrev pub after_poll : Call TxResponse → ℕ → Waited → Waited
after_poll (raised e) slept rest = ended (throws (library e))
after_poll (returned (success tx)) slept rest = ended (ok tx)
after_poll (returned failed) slept rest = ended (fail confirmation_failed)
after_poll (returned not_found) slept rest = record rest {
  polls = suc rest.polls;
  slept_ms = slept + rest.slept_ms;
}

-- `get_transaction n` is how the call of round `n` settles.
module _ (get_transaction : ℕ → Call TxResponse) (poll_interval_ms max_attempts : ℕ) where
  unfoldable pub poll_rounds : ℕ → ℕ → Waited
  poll_rounds zero attempt = record { polls = 0; slept_ms = 0; outcome = fail confirmation_timeout }
  poll_rounds (suc left) attempt =
      after_poll (get_transaction attempt)
        (if ltb attempt (max_attempts - 1) then poll_interval_ms else 0)
        (poll_rounds left (suc attempt))

  unfoldable pub wait_for_confirmation : Waited
  wait_for_confirmation = poll_rounds max_attempts 0

abbrev pub on_chain_root : RootField → Text
on_chain_root no_root = []
on_chain_root (root t) = t

abbrev pub with_time : Text → TimeField → Outcome (Text × ℕ)
with_time t no_time = fail result_validation_failed
with_time t not_finite = fail result_validation_failed
with_time t (finite n) = ok (t, n)

abbrev pub checked_root : Text → Text → TimeField → Outcome (Text × ℕ)
checked_root [] submitted time = fail result_validation_failed
checked_root (c ∷ cs) submitted time =
    if text_eq (c ∷ cs) submitted then with_time (c ∷ cs) time else fail result_mismatch

unfoldable pub validate_confirmed_result : Success → Text → Outcome (Text × ℕ)
validate_confirmed_result tx submitted = elim tx.return_value [
  | none ↦ fail result_validation_failed
  | some undecodable ↦ fail result_validation_failed
  | some no_object ↦ fail result_validation_failed
  | some (object field time) ↦ checked_root (on_chain_root field) submitted time
]
