-- ===== src/Submission/Queue.antt =====
-- The queue for attestations that cannot be submitted while the breaker is open, of
-- src/services/soroban/submitAttestation.ts: `enqueueQueuedAttestation` and
-- `drainQueuedAttestations`. Submitting is a parameter with a state of its own, and time is read from
-- that state. The field txHash, which no code sets, is left out.
pub mod Keys
pub mod Drained
use veritasor_backend.Prelude.{
  ℕ, zero, suc, ◌+◌, ◌-◌, ◌*◌, ◌^◌, min, max, Bool, true, false, not, ◌&&◌, ◌||◌, List, [], ◌∷◌,
  ◌++◌, map, Option, none, some, leb, if◌then◌else◌, length, take, get_elem?, set,
}
use veritasor_backend.Prelude.Text.{Text, text_eq, includes, trim}
use veritasor_backend.Submission.{
  Code, Params, Outcome, ok, throws, Thrown, submission, library, SubmitResult,
}
use veritasor_backend.Submission.Code.{deduped, validation_error}
use veritasor_backend.Submission.Dedupe.{Printer, compute_attestation_dedupe_key}

pub data QueueStatus : Type 0 where
  queued processing failed : QueueStatus

pub record QueueItem : Type 0 where
  pub params : Params
  pub idempotency_key : Text
  pub queued_at : ℕ
  pub next_attempt_at : ℕ
  pub attempts : ℕ
  pub status : QueueStatus

pub data Refusal : Type 0 where
  disabled invalid duplicate queue_full : Refusal

pub data Queued : Type 0 where
  accepted : QueueItem → Queued
  refused : Refusal → Queued

abbrev pub default_degraded_queue_max_items : ℕ
default_degraded_queue_max_items = 1000

abbrev pub default_degraded_queue_backoff_ms : ℕ
default_degraded_queue_backoff_ms = 5000

abbrev pub max_degraded_queue_backoff_ms : ℕ
max_degraded_queue_backoff_ms = 60_000

-- What `Number.parseInt` makes of the environment's value.
pub data RawQueueLimit : Type 0 where
  unset not_a_number negative : RawQueueLimit
  integer : ℕ → RawQueueLimit

unfoldable pub resolve_queued_attestation_queue_limit : RawQueueLimit → ℕ
resolve_queued_attestation_queue_limit unset = default_degraded_queue_max_items
resolve_queued_attestation_queue_limit not_a_number = default_degraded_queue_max_items
resolve_queued_attestation_queue_limit negative = default_degraded_queue_max_items
resolve_queued_attestation_queue_limit (integer zero) = default_degraded_queue_max_items
resolve_queued_attestation_queue_limit (integer (suc n)) = suc n

unfoldable pub get_queued_attestation_backoff_ms : ℕ → ℕ
get_queued_attestation_backoff_ms attempts =
    min max_degraded_queue_backoff_ms (default_degraded_queue_backoff_ms * 2 ^ (attempts - 1))

abbrev pub normalized : Params → Params
normalized p = record p {
  business = trim p.business;
  period = trim p.period;
  merkle_root = trim p.merkle_root;
  version = trim p.version;
}

abbrev pub is_blank : Text → Bool
is_blank [] = true
is_blank (c ∷ cs) = false

abbrev pub or_computed : Option Text → Text → Text
or_computed none computed = computed
or_computed (some key) computed = key

-- `store.some((item) => item.idempotencyKey === key)`
unfoldable pub holds_key : List QueueItem → Text → Bool
holds_key [] key = false
holds_key (x ∷ xs) key = text_eq x.idempotency_key key || holds_key xs key

abbrev pub new_item : Printer → ℕ → Params → Option Text → QueueItem
new_item lib now raw option = record {
  params = normalized raw;
  idempotency_key = or_computed option (compute_attestation_dedupe_key lib (normalized raw));
  queued_at = now;
  next_attempt_at = now;
  attempts = 0;
  status = queued;
}

abbrev pub lacks_field : Params → Bool
lacks_field p = is_blank p.business || is_blank p.period || is_blank p.merkle_root

module _ (enabled : Bool) (max_items : ℕ) where
  -- The guards, in their order, and the push.
  unfoldable pub admit : QueueItem → List QueueItem → Queued × List QueueItem
  admit item store =
      if not enabled
      then (refused disabled, store)
      else if lacks_field item.params
      then (refused invalid, store)
      else if holds_key store item.idempotency_key
      then (refused duplicate, store)
      else if leb max_items (length store)
      then (refused queue_full, store)
      else (accepted item, store ++ item ∷ [])

  unfoldable pub enqueue_queued_attestation :
      Printer → ℕ → Params → Option Text → List QueueItem → Queued × List QueueItem
  enqueue_queued_attestation lib now raw option store = admit (new_item lib now raw option) store

-- `Number.isFinite(limit) ? Math.max(1, Math.min(100, limit)) : 10`
unfoldable pub bounded_limit : Option ℕ → ℕ
bounded_limit none = 10
bounded_limit (some limit) = max 1 (min 100 limit)

unfoldable pub due : ℕ → List QueueItem → List QueueItem
due now [] = []
due now (x ∷ xs) = if leb x.next_attempt_at now then x ∷ due now xs else due now xs

unfoldable pub insert_by_queued_at : QueueItem → List QueueItem → List QueueItem
insert_by_queued_at x [] = x ∷ []
insert_by_queued_at x (y ∷ ys) =
    if leb x.queued_at y.queued_at then x ∷ y ∷ ys else y ∷ insert_by_queued_at x ys

-- `sort((a, b) => a.queuedAt - b.queuedAt)`, which is stable.
unfoldable pub sort_by_queued_at : List QueueItem → List QueueItem
sort_by_queued_at [] = []
sort_by_queued_at (x ∷ xs) = insert_by_queued_at x (sort_by_queued_at xs)

abbrev next_index : Option ℕ → Option ℕ
next_index none = none
next_index (some i) = some (suc i)

-- `store.findIndex((candidate) => candidate.idempotencyKey === key)`
unfoldable pub find_index : List QueueItem → Text → Option ℕ
find_index [] key = none
find_index (x ∷ xs) key =
    if text_eq x.idempotency_key key then some 0 else next_index (find_index xs key)

-- `store.splice(index, 1)`
abbrev pub splice : List QueueItem → ℕ → List QueueItem
splice [] i = []
splice (x ∷ xs) zero = xs
splice (x ∷ xs) (suc i) = x ∷ splice xs i

abbrev pub is_final_code : Code → Bool
is_final_code deduped = true
is_final_code validation_error = true
is_final_code code = false

-- `error instanceof SorobanSubmissionError && [...].includes(error.code)`
abbrev pub is_final : Thrown → Bool
is_final (submission code) = is_final_code code
is_final (library e) = false

abbrev pub failed_item : QueueItem → ℕ → QueueItem
failed_item x now = record x {
  attempts = x.attempts + 1;
  next_attempt_at = now + get_queued_attestation_backoff_ms (x.attempts + 1);
  status = failed;
}

pub record DrainResult : Type 0 where
  pub item : QueueItem
  pub outcome : Outcome SubmitResult

-- The queue, what submissions change, and the results so far.
pub record Drain (S : Type 0) : Type 0 where
  pub store : List QueueItem
  pub state : S
  pub results : List DrainResult

-- An item is an object, which is known by its key: what it is now, and the write of its fields. Out of
-- the queue, it is as it was.
unfoldable pub latest : List QueueItem → QueueItem → QueueItem
latest [] x = x
latest (y ∷ ys) x =
    let rest = latest ys x in if text_eq y.idempotency_key x.idempotency_key then y else rest

unfoldable pub replace_item : List QueueItem → QueueItem → List QueueItem
replace_item [] x = []
replace_item (y ∷ ys) x =
    let rest = replace_item ys x in
    if text_eq y.idempotency_key x.idempotency_key then x ∷ ys else y ∷ rest

-- `meanwhile s` is what other calls do to the queue while a submission is awaited, other drains
-- included; `s` is the state when it settles.
module _ {S : Type 0} (submit : Params → S → Outcome SubmitResult × S) (clock : S → ℕ)
    (meanwhile : S → List QueueItem → List QueueItem) where
  -- What is done when the submission has settled, with the index from before the wait.
  abbrev pub settle_attempt : Drain S → ℕ → QueueItem → Outcome SubmitResult × S → Drain S
  settle_attempt d i current (ok result, s) =
      let store = meanwhile s d.store in
      record {
        store = splice store i;
        state = s;
        results = d.results ++ record { item = latest store current; outcome = ok result } ∷ [];
      }
  settle_attempt d i current (throws e, s) =
      let store = meanwhile s d.store in
      let retried = failed_item (latest store current) (clock s) in
      let written = replace_item store retried in
      record {
        store = if is_final e then splice written i else written;
        state = s;
        results = d.results ++ record { item = retried; outcome = throws e } ∷ [];
      }

  abbrev pub attempt_at : Drain S → ℕ → Option QueueItem → Drain S
  attempt_at d i none = d
  attempt_at d i (some x) =
      let current = record x { status = processing } in
      settle_attempt (record d { store = set d.store i current }) i current
        (submit (record x.params { submit = some true }) d.state)

  abbrev pub attempt_found : Drain S → Option ℕ → Drain S
  attempt_found d none = d
  attempt_found d (some i) = attempt_at d i (get_elem? d.store i)

  unfoldable pub drain_item : Drain S → QueueItem → Drain S
  drain_item d x = attempt_found d (find_index d.store x.idempotency_key)

  unfoldable pub drain_loop : List QueueItem → Drain S → Drain S
  drain_loop [] d = d
  drain_loop (x ∷ xs) d = drain_loop xs (drain_item d x)

  unfoldable pub drain_queued_attestations : Option ℕ → List QueueItem → S → Drain S
  drain_queued_attestations limit store s =
      drain_loop (take (bounded_limit limit) (sort_by_queued_at (due (clock s) store)))
        (record { store = store; state = s; results = [] })
