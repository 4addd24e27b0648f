-- ===== src/Submission/Tests.antt =====
-- Concrete submissions: the code of src/services/soroban/submitAttestation.ts on small inputs.
use veritasor_backend.Prelude.{
  ◌⊎◌, ℕ, suc, ◌≡◌, refl, Bool, true, false, List, [], ◌∷◌, Option, none, some, replicate, arith,
  ◌+◌, if◌then◌else◌, map,
}
use veritasor_backend.Prelude.Text.{Text, codes, text_eq, text_eq_refl}
use veritasor_backend.Submission.{
  Params, Timestamp, bigint, pos, number, out_of_range, Outcome, ok, fail, Call, returned, raised,
  breaker_error, SubmitResult, negsuc,
}
use veritasor_backend.Submission.Code.{deduped, network_error}
use veritasor_backend.Submission.Dedupe.{
  RedisClient, Printer, replied, dedupe_entry, check_attestation_dedupe, mark_attestation_submitted,
  compute_attestation_dedupe_key,
}
use veritasor_backend.Submission.Confirm.{
  SendResponse, TxResponse, Success, success, failed, not_found, object, root, finite, sent_pending,
  wait_for_confirmation, poll_rounds, validate_confirmed_result, tx_hash_re, all_tx_hash_digits,
  validate_send_transaction_response,
}
use veritasor_backend.Submission.Confirm
use veritasor_backend.Submission.Submit.{World, Stellar, submit_attestation, confirmed_result}
use veritasor_backend.Submission.Submit
use veritasor_backend.Submission.Submit.Results.{Confirmed, submit_attestation-confirmed}
use veritasor_backend.Submission.Submit.Repeat.{Fails, Remembers, submit_attestation_repeat}
use veritasor_backend.Submission.Dedupe.Keys.{IsPlainParams}
use veritasor_backend.Submission.Queue.{
  QueueItem, queued, holds_key, drain_queued_attestations, bounded_limit, due, sort_by_queued_at,
  insert_by_queued_at, admit, replace_item, latest, drain_loop, drain_item, find_index,
}
use veritasor_backend.Submission.Queue.Keys.{
  Unique, IsValid, admit-IsValid, enqueues, drains, run_queue, run_queue-IsValid,
}
use veritasor_backend.Submission.Queue.Drained.{finished, arrive, drain-holds_key}

abbrev time_text : Timestamp → Text
time_text (bigint (pos n)) = replicate n b'1'
time_text (bigint (negsuc n)) = b'-' ∷ replicate n b'1'
time_text (number n r) = replicate n b'1'
time_text (out_of_range n) = codes "NaN"

abbrev lib : Printer
lib = record { sha256 = λ t. t; print_timestamp = time_text }

-- A server with one cell.
abbrev Cell : Type 0
Cell = Option (Text × Text)

abbrev some_if : Bool → Text → Option Text
some_if true v = some v
some_if false v = none

abbrev cell_get : Cell → Text → Option Text
cell_get none key = none
cell_get (some (k, v)) key = some_if (text_eq k key) v

abbrev client : RedisClient Cell
client = record {
  get = λ cell key. replied (cell_get cell key);
  set = λ cell key value ms. some (key, value);
}

abbrev hash : Text
hash = replicate 64 b'a'

abbrev root_text : Text
root_text = codes "r7"

abbrev request : Params
request = record {
  business = codes "b1";
  period = codes "2026-01";
  merkle_root = root_text;
  timestamp = bigint (pos 3);
  version = codes "1.0.0";
  source_public_key = codes "G1";
  signer_secret = some (codes "S1");
  submit = none;
}

abbrev tx : Success
tx = record { ledger = 9; return_value = some (object (root root_text) (finite 3)) }

-- The first poll finds nothing.
abbrev found_later : ℕ → Call TxResponse
found_later ℕ.zero = returned not_found
found_later (suc n) = returned (success tx)

abbrev sdk_with : (ℕ → Call TxResponse) → Stellar ℕ ℕ
sdk_with polls = record {
  is_valid_public_key = λ key. true;
  public_key_of = λ secret. returned (codes "G1");
  get_account = λ key. returned 1;
  prepare = λ account p time. returned 2;
  hash_hex = λ tx. hash;
  to_xdr = λ tx. codes "xdr";
  sign = λ tx secret. suc tx;
  send_transaction = λ tx. returned (Confirm.response (some hash) sent_pending);
  get_transaction = λ h n. polls n;
}

abbrev fresh : World Cell ℕ
fresh = record { redis = none; sent = []; polls = 0 }

abbrev after_found : World Cell ℕ
after_found = record { redis = some (dedupe_entry lib request, hash); sent = 3 ∷ []; polls = 2 }

found_result :
    submit_attestation (some client) lib 300000 (sdk_with found_later) none request fresh
    ≡ (ok (confirmed_result hash tx (root_text, 3)), after_found)
unfolding submit_attestation Submit.◌>>=◌ Submit.◌>>◌ Submit.require Submit.required
    Submit.assert_not_duplicate Submit.build_and_send Submit.sign_and_send Submit.send_signed
    Submit.send Submit.confirm Submit.wait Submit.mark_as_submitted Submit.normalize_timestamp
    Submit.as_submission_error wait_for_confirmation poll_rounds validate_confirmed_result
    tx_hash_re all_tx_hash_digits validate_send_transaction_response check_attestation_dedupe
    mark_attestation_submitted compute_attestation_dedupe_key text_eq
found_result = refl

submit_attestation-confirmed_example :
    Confirmed
      (some client)
      lib
      300000
      (sdk_with found_later)
      none
      request
      (confirmed_result hash tx (root_text, 3))
submit_attestation-confirmed_example =
    submit_attestation-confirmed (some client) lib 300000 (sdk_with found_later) none request fresh
      after_found (confirmed_result hash tx (root_text, 3)) found_result refl

-- A server that breaks down.
abbrev broken : Stellar ℕ ℕ
broken = record (sdk_with found_later) { get_account = λ key. raised breaker_error }

remembers : Remembers client lib 300000 (sdk_with (λ n. returned failed)) none request
remembers redis key value ms = rw (text_eq_refl key) refl

failed_landed :
    Fails
      (submit_attestation
        (some client)
        lib
        300000
        (sdk_with (λ n. returned failed))
        none
        request
        fresh).0
    → ⊥
unfolding submit_attestation Submit.◌>>=◌ Submit.◌>>◌ Submit.require Submit.required
    Submit.assert_not_duplicate Submit.build_and_send Submit.sign_and_send Submit.send_signed
    Submit.send Submit.confirm Submit.wait Submit.mark_as_submitted Submit.normalize_timestamp
    Submit.as_submission_error wait_for_confirmation poll_rounds validate_confirmed_result
    tx_hash_re all_tx_hash_digits validate_send_transaction_response check_attestation_dedupe
    mark_attestation_submitted compute_attestation_dedupe_key text_eq
failed_landed f = f

abbrev after_failed : World Cell ℕ
after_failed =
    (submit_attestation (some client) lib 300000 (sdk_with (λ n. returned failed)) none request
      fresh).1

-- Another signer's request for the same attestation.
abbrev other_signer : Params
other_signer = record request { source_public_key = codes "G2"; signer_secret = some (codes "S2") }

same_entry : dedupe_entry lib other_signer ≡ dedupe_entry lib request
unfolding compute_attestation_dedupe_key
same_entry = refl

-- The transaction has failed, and the attestation is refused as a duplicate.
submit_attestation_repeat_example :
    submit_attestation
      (some client)
      lib
      300000
      (sdk_with (λ n. returned failed))
      none
      other_signer
      after_failed
    ≡ (fail deduped, after_failed)
submit_attestation_repeat_example =
    submit_attestation_repeat client lib 300000 (sdk_with (λ n. returned failed)) none request
      remembers refl other_signer fresh after_failed failed_landed same_entry refl refl refl

request-IsPlain : IsPlainParams lib request
request-IsPlain = record {
  business = (refl, (refl, tt));
  period = (refl, (refl, (refl, (refl, (refl, (refl, (refl, tt)))))));
  merkle_root = (refl, (refl, tt));
  timestamp = (refl, (refl, (refl, tt)));
}

same_key :
    compute_attestation_dedupe_key lib request
    ≡ compute_attestation_dedupe_key lib (record request { source_public_key = codes "G2" })
unfolding compute_attestation_dedupe_key
same_key = refl

-- Submissions that end as duplicates for one business, and in a network error for the others.
abbrev fake_submit : Params → ℕ → Outcome SubmitResult × ℕ
fake_submit p now =
    (if text_eq p.business (codes "b1") then fail deduped else fail network_error, now + 1)

abbrev item : Text → QueueItem
item b = record {
  params = record request { business = b };
  idempotency_key = b;
  queued_at = 1;
  next_attempt_at = 1;
  attempts = 0;
  status = queued;
}

abbrev two : List QueueItem
two = item (codes "b1") ∷ item (codes "b2") ∷ []

two-Unique : Unique two
unfolding holds_key text_eq
two-Unique = (refl, (refl, tt))

-- While a submission is awaited, an item comes.
abbrev comes : ℕ → List QueueItem → List QueueItem
comes s q = item (codes "b9") ∷ []

drain-holds_key_example :
    (holds_key
        (drain_queued_attestations fake_submit
          (λ s. s)
          (arrive fake_submit (λ s. s) comes)
          none
          two
          5).store
        (codes "b2")
      ≡ true)
    ⊎ (finished
          (drain_queued_attestations fake_submit
            (λ s. s)
            (arrive fake_submit (λ s. s) comes)
            none
            two
            5).results
          (codes "b2")
        ≡ true)
unfolding holds_key text_eq
drain-holds_key_example = drain-holds_key fake_submit (λ s. s) comes none two 5 (codes "b2") refl

-- Another call puts an item at the end, if it may.
abbrev enqueue_item : ℕ → List QueueItem → List QueueItem
enqueue_item s q = (admit true 3 (item (codes "b9")) q).1

run_queue-IsValid_example :
    IsValid 3
      (run_queue fake_submit
        (λ s. s)
        enqueue_item
        true
        3
        lib
        (enqueues 4 (record request { business = codes "b3" }) none ∷ drains (some 2) ∷ [])
        (two, 5)).0
run_queue-IsValid_example =
    run_queue-IsValid fake_submit (λ s. s) enqueue_item true 3 lib
      (λ s q v. admit-IsValid true 3 (item (codes "b9")) q v)
      (enqueues 4 (record request { business = codes "b3" }) none ∷ drains (some 2) ∷ []) (two, 5)
      (record { unique = two-Unique; bounded = omega arith })

drained_keys :
    map
      (λ x. x.idempotency_key)
      (drain_queued_attestations fake_submit (λ s. s) (λ s q. q) none two 5).store
    ≡ codes "b2" ∷ []
unfolding drain_queued_attestations bounded_limit due sort_by_queued_at insert_by_queued_at
    drain_loop drain_item find_index replace_item latest text_eq
drained_keys = refl
