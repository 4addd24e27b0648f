-- ===== src/Webhooks/Razorpay/Route.antt =====
-- The signature of a request of Razorpay, in src/services/webhooks/razorpayHandler.ts, and the route of
-- src/routes/webhooks-razorpay.ts. The HMAC and the parsing of the body are parameters.
use veritasor_backend.Prelude.{
  ℕ, ◌+◌, ◌-◌, ◌*◌, Bool, not, ◌&&◌, Option, none, some, List, [], ◌∷◌, leb, length, ◌==◌,
  if◌then◌else◌,
}
use veritasor_backend.Prelude.Text.{Text, text_eq}
use veritasor_backend.Merkle.{all_hex}
use veritasor_backend.Webhooks.Backoff.{
  Attempt, returns, throws, Failure, own_error, backoff_error, default_backoff_options,
}
use veritasor_backend.Webhooks.Razorpay.Events.{
  Json, RazorpayWebhookError, missing_signature, invalid_signature, invalid_payload,
  secret_not_configured, http_status, RazorpayEvent, parse_razorpay_event,
}
use veritasor_backend.Webhooks.Razorpay.{Db, Answer, World, Handling, handle_razorpay_event}

abbrev pub Bytes : Type 0
Bytes = List ℕ

abbrev pub hex_value : ℕ → ℕ
hex_value c = if leb c b'9' then c - b'0' else (if leb c b'F' then c - b'A' + 10 else c - b'a' + 10)

-- `Buffer.from(signature, 'hex')` on pairs of digits.
unfoldable pub from_hex : Text → Bytes
from_hex [] = []
from_hex (a ∷ []) = []
from_hex (a ∷ b ∷ rest) = (hex_value a * 16 + hex_value b) ∷ from_hex rest

pub data KeyLabel : Type 0 where
  primary secondary : KeyLabel

-- What the loader does for the name of a secret.
pub data Loaded : Type 0 where
  found : Text → Loaded
  not_found fails : Loaded

-- The header's text, if there is one such header, and the body, if it is a buffer.
pub record Request : Type 0 where
  pub signature : Option Text
  pub body : Option Bytes

pub data Response : Type 0 where
  answered : Answer → Response
  rejected : RazorpayWebhookError → Response
  internal_server_error : Response

abbrev pub status : Response → ℕ
status (answered a) = 200
status (rejected e) = http_status e
status internal_server_error = 500

-- What the handler of the route catches.
pub data Caught : Type 0 where
  webhook_error : RazorpayWebhookError → Caught
  another : Caught

abbrev pub respond : Caught → Response
respond (webhook_error e) = rejected e
respond another = internal_server_error

-- `BackoffError` is no `RazorpayWebhookError`.
abbrev pub caught : Failure RazorpayWebhookError → Caught
caught (own_error e) = webhook_error e
caught (backoff_error n cause) = another

module _ (hmac : Text → Bytes → Bytes) where
  unfoldable pub verify_razorpay_signature : Bytes → Text → Text → Bool
  verify_razorpay_signature body sig secret =
      not (length secret == 0)
      && (length sig == 64)
      && all_hex sig
      && text_eq (hmac secret body) (from_hex sig)

  abbrev pub by_secondary : Bytes → Text → Option Text → Option KeyLabel
  by_secondary body sig none = none
  by_secondary body sig (some s) =
      if verify_razorpay_signature body sig s then some secondary else none

  -- The key that matched.
  unfoldable pub verify_razorpay_signature_with_rotation :
      Bytes → Text → Text → Option Text → Option KeyLabel
  verify_razorpay_signature_with_rotation body sig first next =
      if verify_razorpay_signature body sig first then some primary else by_secondary body sig next

  module _ (json_parse : Bytes → Option Json) (webhook_secret next_secret : Loaded) where
    abbrev pub parsed : Attempt RazorpayEvent RazorpayWebhookError → Attempt RazorpayEvent Caught
    parsed (returns e) = returns e
    parsed (throws err) = throws (webhook_error err)

    abbrev pub if_verified : ℕ → Bytes → Option KeyLabel → Attempt RazorpayEvent Caught
    if_verified now body none = throws (webhook_error invalid_signature)
    if_verified now body (some key) = parsed (parse_razorpay_event now (json_parse body))

    abbrev pub with_next : ℕ → Text → Text → Bytes → Loaded → Attempt RazorpayEvent Caught
    with_next now sig first body fails = throws another
    with_next now sig first body not_found =
        if_verified now body (verify_razorpay_signature_with_rotation body sig first none)
    with_next now sig first body (found s) = if_verified now body (
        verify_razorpay_signature_with_rotation body sig first
          (if length s == 0 then none else some s))

    abbrev pub with_body : ℕ → Text → Text → Option Bytes → Attempt RazorpayEvent Caught
    with_body now sig first none = throws (webhook_error invalid_payload)
    with_body now sig first (some []) = throws (webhook_error invalid_payload)
    with_body now sig first (some (b ∷ bs)) = with_next now sig first (b ∷ bs) next_secret

    abbrev pub with_primary : ℕ → Text → Option Bytes → Loaded → Attempt RazorpayEvent Caught
    with_primary now sig body fails = throws another
    with_primary now sig body not_found = throws (webhook_error secret_not_configured)
    with_primary now sig body (found s) = with_body now sig s body

    -- All that comes before the handling of the event.
    unfoldable pub admit_request : ℕ → Option Text → Option Bytes → Attempt RazorpayEvent Caught
    admit_request now none body = throws (webhook_error missing_signature)
    admit_request now (some []) body = throws (webhook_error missing_signature)
    admit_request now (some (c ∷ cs)) body = with_primary now (c ∷ cs) body webhook_secret

    module _ (payload_hash : RazorpayEvent → Text) (db : Db) (sleep : ℕ → World → World)
        (draw : ℕ → ℕ → ℕ) where
      abbrev pub answer : Handling → Response × World
      answer (returns a, w) = (answered a, w)
      answer (throws f, w) = (respond (caught f), w)

      abbrev pub handled : World → Attempt RazorpayEvent Caught → Response × World
      handled w (throws e) = (respond e, w)
      handled w (returns e) =
          answer (handle_razorpay_event payload_hash db sleep draw default_backoff_options e w)

      unfoldable pub post : Request → World → Response × World
      post r w = handled w (admit_request w.now r.signature r.body)
