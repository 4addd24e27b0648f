-- ===== src/Webhooks/Razorpay/Events.antt =====
-- The events of src/services/webhooks/razorpayHandler.ts: the schema and `parseRazorpayEvent`. The
-- parsing of the text is a parameter of what uses it; fields that the handler never reads are left out.
use veritasor_backend.Prelude.{
  ℕ, ◌+◌, ◌*◌, Bool, true, false, Option, none, some, List, [], ◌∷◌, ltb, ◌==◌, if◌then◌else◌,
}
use veritasor_backend.Prelude.Text.{Text, text_eq, codes, includes}
use veritasor_backend.Webhooks.Backoff.{Attempt, returns, throws}

-- A value that `JSON.parse` gives. `other_number` is negative or has a fraction.
mutual
  pub data Json : Type 0 where
    null array other_number : Json
    boolean : Bool → Json
    whole : ℕ → Json
    text : Text → Json
    object : Fields → Json

  pub data Fields : Type 0 where
    no_fields : Fields
    field : Text → Json → Fields → Fields

pub data RazorpayWebhookError : Type 0 where
  missing_signature invalid_signature invalid_payload invalid_event invalid_timestamp
        secret_not_configured :
      RazorpayWebhookError

abbrev pub http_status : RazorpayWebhookError → ℕ
http_status missing_signature = 400
http_status invalid_signature = 401
http_status invalid_payload = 400
http_status invalid_event = 400
http_status invalid_timestamp = 400
http_status secret_not_configured = 500

-- The fields of a payment that the handler reads.
pub record PaymentEntity : Type 0 where
  pub id : Text
  pub order_id : Text

pub record RazorpayEvent : Type 0 where
  pub id : Text
  pub event : Text
  pub created_at : Option ℕ
  pub payment : Option PaymentEntity

abbrev pub handled_event_types : List Text
handled_event_types = codes "payment.captured" ∷ codes "payment.failed" ∷ codes "order.paid" ∷ []

abbrev pub default_max_future_skew_ms : ℕ
default_max_future_skew_ms = 5 * 60 * 1000

unfoldable pub find_field : Text → Fields → Option Json
find_field k no_fields = none
find_field k (field l v rest) = if text_eq l k then some v else find_field k rest

-- `z.string().min(1)`
abbrev pub is_some_text : Option Json → Option Text
is_some_text none = none
is_some_text (some null) = none
is_some_text (some array) = none
is_some_text (some other_number) = none
is_some_text (some (boolean b)) = none
is_some_text (some (whole n)) = none
is_some_text (some (text [])) = none
is_some_text (some (text (c ∷ cs))) = some (c ∷ cs)
is_some_text (some (object f)) = none

-- `z.number()`
abbrev pub is_number : Option Json → Bool
is_number none = false
is_number (some null) = false
is_number (some array) = false
is_number (some other_number) = true
is_number (some (boolean b)) = false
is_number (some (whole n)) = true
is_number (some (text t)) = false
is_number (some (object f)) = false

-- `z.number().int().positive().optional()`; the outer option says whether the field is allowed.
abbrev pub optional_time : Option Json → Option (Option ℕ)
optional_time none = some none
optional_time (some null) = none
optional_time (some array) = none
optional_time (some other_number) = none
optional_time (some (boolean b)) = none
optional_time (some (whole n)) = if n == 0 then none else some (some n)
optional_time (some (text t)) = none
optional_time (some (object f)) = none

abbrev pub fields_of : Json → Option Fields
fields_of null = none
fields_of array = none
fields_of other_number = none
fields_of (boolean b) = none
fields_of (whole n) = none
fields_of (text t) = none
fields_of (object f) = some f

abbrev pub and_then : {A B : Type 0} → Option A → (A → Option B) → Option B
and_then none f = none
and_then (some a) f = f a

unfoldable pub payment_entity_schema : Json → Option PaymentEntity
payment_entity_schema json = and_then (fields_of json) λ f.
    and_then (is_some_text (find_field (codes "id") f)) λ id.
      and_then (is_some_text (find_field (codes "order_id") f)) λ order_id.
        and_then (is_some_text (find_field (codes "status") f)) λ status.
          and_then (is_some_text (find_field (codes "currency") f)) λ currency.
            if is_number (find_field (codes "amount") f)
            then some (record { id = id; order_id = order_id })
            else none

-- `payment: z.object({ entity }).optional()`
abbrev pub optional_payment : Option Json → Option (Option PaymentEntity)
optional_payment none = some none
optional_payment (some json) = and_then (fields_of json) λ f.
    and_then (find_field (codes "entity") f)
      λ entity. and_then (payment_entity_schema entity) λ p. some (some p)

-- `payload: z.object({ payment }).optional().default({})`
abbrev pub payload_schema : Option Json → Option (Option PaymentEntity)
payload_schema none = some none
payload_schema (some json) =
    and_then (fields_of json) λ f. optional_payment (find_field (codes "payment") f)

-- The refinement: a handled event has a payment.
abbrev pub refined : RazorpayEvent → Option PaymentEntity → Option RazorpayEvent
refined e (some p) = some e
refined e none = if includes handled_event_types e.event then none else some e

unfoldable pub razorpay_event_schema : Json → Option RazorpayEvent
razorpay_event_schema json = and_then (fields_of json) λ f.
    and_then (is_some_text (find_field (codes "id") f)) λ id.
      and_then (is_some_text (find_field (codes "event") f)) λ event.
        and_then (optional_time (find_field (codes "created_at") f)) λ created_at.
          and_then (payload_schema (find_field (codes "payload") f)) λ payment.
            refined (record { id = id; event = event; created_at = created_at; payment = payment })
              payment

abbrev pub is_in_future : ℕ → Option ℕ → Bool
is_in_future now none = false
is_in_future now (some created_at) = ltb (now + default_max_future_skew_ms) (created_at * 1000)

abbrev pub check_event : ℕ → Option RazorpayEvent → Attempt RazorpayEvent RazorpayWebhookError
check_event now none = throws invalid_event
check_event now (some e) =
    if is_in_future now e.created_at then throws invalid_timestamp else returns e

-- From what `JSON.parse` gave; `none` if it threw.
unfoldable pub parse_razorpay_event : ℕ → Option Json → Attempt RazorpayEvent RazorpayWebhookError
parse_razorpay_event now none = throws invalid_payload
parse_razorpay_event now (some json) = check_event now (razorpay_event_schema json)
