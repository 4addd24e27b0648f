-- ===== src/Webhooks/Razorpay.antt =====
-- The webhooks of Razorpay: src/services/webhooks/razorpayHandler.ts and idempotency.ts,
-- `saveDeadLetter` of deadLetterQueue.ts and src/routes/webhooks-razorpay.ts. One clock reading serves
-- for code that does not wait. Log records and metrics are left out, and the texts of messages.
pub mod Events
pub mod Route
pub mod Once
pub mod Late
pub mod Signed
mod Tests
use veritasor_backend.Prelude.{
  ℕ, ◌+◌, ◌*◌, Bool, true, false, Option, none, some, List, [], ◌∷◌, ltb, length, ◌==◌,
  if◌then◌else◌,
}
use veritasor_backend.Prelude.Text.{Text, text_eq, codes, includes}
use veritasor_backend.Prelude.Maps.{get, put, remove}
use veritasor_backend.Webhooks.Backoff.{
  Attempt, returns, throws, Failure, own_error, backoff_error, BackoffOptions, with_backoff,
}
use veritasor_backend.Webhooks.Razorpay.Events.{
  RazorpayWebhookError, missing_signature, invalid_signature, invalid_payload, invalid_event,
  invalid_timestamp, secret_not_configured, PaymentEntity, RazorpayEvent,
}

abbrev pub default_ttl_ms : ℕ
default_ttl_ms = 24 * 60 * 60 * 1000

abbrev pub default_max_age_ms : ℕ
default_max_age_ms = 5 * 60 * 1000

abbrev pub default_skew_ms : ℕ
default_skew_ms = 5 * 60 * 1000

pub record IdempotencyEntry : Type 0 where
  pub processed_at : ℕ
  pub expires_at : ℕ

-- The handler's set of ids, and the store of idempotency.ts.
pub record Processed : Type 0 where
  pub processed_events : List Text
  pub store : List (Text × IdempotencyEntry)

unfoldable pub reset_processed_razorpay_events : Processed → Processed
reset_processed_razorpay_events s = record { processed_events = []; store = s.store }

abbrev pub expired : ℕ → IdempotencyEntry → Bool
expired now e = ltb e.expires_at now

-- The interval's callback.
unfoldable pub sweep : ℕ → List (Text × IdempotencyEntry) → List (Text × IdempotencyEntry)
sweep now [] = []
sweep now ((k, e) ∷ m) = if expired now e then sweep now m else (k, e) ∷ sweep now m

abbrev pub found_entry :
    ℕ
    → Text
    → Option IdempotencyEntry
    → List (Text × IdempotencyEntry)
    → Bool × List (Text × IdempotencyEntry)
found_entry now id none m = (false, m)
found_entry now id (some e) m = if expired now e then (false, remove m id) else (true, m)

unfoldable pub is_event_processed :
    ℕ → Text → List (Text × IdempotencyEntry) → Bool × List (Text × IdempotencyEntry)
is_event_processed now id m = if length id == 0 then (false, m) else found_entry now id (get m id) m

unfoldable pub mark_event_processed :
    ℕ → Text → List (Text × IdempotencyEntry) → List (Text × IdempotencyEntry)
mark_event_processed now id m =
    put m id (record { processed_at = now; expires_at = now + default_ttl_ms })

pub data Tolerance : Type 0 where
  valid too_old too_far_in_future : Tolerance

unfoldable pub check_timestamp_tolerance : ℕ → Option ℕ → Tolerance
check_timestamp_tolerance now none = valid
check_timestamp_tolerance now (some created_at) =
    if ltb (created_at * 1000 + default_max_age_ms) now
    then too_old
    else (if ltb (now + default_skew_ms) (created_at * 1000) then too_far_in_future else valid)

-- The answers, with what their messages name.
pub data Answer : Type 0 where
  already_processed duplicate : Text → Answer
  captured payment_failed order_paid : Option Text → Answer
  ignored : Text → Answer

abbrev pub payment_id : Option PaymentEntity → Option Text
payment_id none = none
payment_id (some p) = some p.id

abbrev pub payment_order : Option PaymentEntity → Option Text
payment_order none = none
payment_order (some p) = some p.order_id

-- The `switch` on the type of the event.
unfoldable pub dispatch : RazorpayEvent → Answer
dispatch e =
    if text_eq e.event (codes "payment.captured")
    then captured (payment_id e.payment)
    else (if text_eq e.event (codes "payment.failed")
        then payment_failed (payment_id e.payment)
        else (if text_eq e.event (codes "order.paid")
            then order_paid (payment_order e.payment)
            else ignored e.event))

abbrev pub Processing : Type 0
Processing = Attempt Answer RazorpayWebhookError × Processed

abbrev pub unless_processed :
    ℕ → RazorpayEvent → List Text → Bool × List (Text × IdempotencyEntry) → Processing
unless_processed now e ids (true, m) =
    (returns (duplicate e.id), record { processed_events = ids; store = m })
unless_processed now e ids (false, m) = (
  returns (dispatch e),
  record { processed_events = ids; store = mark_event_processed now e.id m },
)

abbrev pub if_valid : Tolerance → Processed → Processing → Processing
if_valid valid s rest = rest
if_valid too_old s rest = (throws invalid_timestamp, s)
if_valid too_far_in_future s rest = (throws invalid_timestamp, s)

unfoldable pub process_razorpay_event : ℕ → RazorpayEvent → Processed → Processing
process_razorpay_event now e s =
    if includes s.processed_events e.id
    then (returns (already_processed e.id), s)
    else if_valid (check_timestamp_tolerance now e.created_at) s
        (unless_processed now e s.processed_events (is_event_processed now e.id s.store))

pub record DeadLetter : Type 0 where
  pub payload_hash : Text
  pub error_code : Text
  pub attempt_count : ℕ

-- The clock, the memory of the process, and the dead letters of the provider by event.
pub record World : Type 0 where
  pub now : ℕ
  pub processed : Processed
  pub dead_letters : List (Text × DeadLetter)

abbrev pub code_of : RazorpayWebhookError → Text
code_of missing_signature = codes "missing_signature"
code_of invalid_signature = codes "invalid_signature"
code_of invalid_payload = codes "invalid_payload"
code_of invalid_event = codes "invalid_event"
code_of invalid_timestamp = codes "invalid_timestamp"
code_of secret_not_configured = codes "secret_not_configured"

abbrev pub error_code : Option RazorpayWebhookError → Text
error_code none = codes "unknown"
error_code (some e) = code_of e

-- What the call `db(table)` does: it throws, or gives a query, which succeeds or not.
pub data Db : Type 0 where
  not_callable : Db
  query : Bool → Db

-- The `db` that is imported is a Proxy around an empty object, which cannot be called.
abbrev pub db_client : Db
db_client = not_callable

pub data SaveError : Type 0 where
  type_error query_error : SaveError

-- `payload_hash` is the digest of the event as JSON.
unfoldable pub save_dead_letter :
    (RazorpayEvent → Text)
    → Db
    → RazorpayEvent
    → Option RazorpayWebhookError
    → ℕ
    → World
    → Attempt (Unit {0}) SaveError × World
save_dead_letter payload_hash not_callable e cause attempts w = (throws type_error, w)
save_dead_letter payload_hash (query false) e cause attempts w = (throws query_error, w)
save_dead_letter payload_hash (query true) e cause attempts w = (
  returns tt,
  record {
    now = w.now;
    processed = w.processed;
    dead_letters = put w.dead_letters e.id (record {
      payload_hash = payload_hash e;
      error_code = error_code cause;
      attempt_count = attempts;
    });
  },
)

abbrev pub Handling : Type 0
Handling = Attempt Answer (Failure RazorpayWebhookError) × World

abbrev pub processed_in : World → Processing → Attempt Answer RazorpayWebhookError × World
processed_in w (r, s) = (r, record { now = w.now; processed = s; dead_letters = w.dead_letters })

abbrev pub process_in : RazorpayEvent → ℕ → World → Attempt Answer RazorpayWebhookError × World
process_in e attempt w = processed_in w (process_razorpay_event w.now e w.processed)

module _ (payload_hash : RazorpayEvent → Text) (db : Db) where
  -- An error of the saving is only logged.
  abbrev pub dead_letter : RazorpayEvent → Failure RazorpayWebhookError → World → World
  dead_letter e (own_error err) w = (save_dead_letter payload_hash db e (some err) 1 w).1
  dead_letter e (backoff_error n cause) w = (save_dead_letter payload_hash db e cause n w).1

  abbrev pub on_failure : RazorpayEvent → Handling → Handling
  on_failure e (returns a, w) = (returns a, w)
  on_failure e (throws f, w) = (throws f, if length e.id == 0 then w else dead_letter e f w)

  unfoldable pub handle_razorpay_event :
      (ℕ → World → World) → (ℕ → ℕ → ℕ) → BackoffOptions → RazorpayEvent → World → Handling
  handle_razorpay_event sleep draw o e w = on_failure e (with_backoff sleep draw o (process_in e) w)
