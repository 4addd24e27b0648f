-- ===== src/Webhooks/Razorpay/Tests.antt =====
-- Concrete requests to src/routes/webhooks-razorpay.ts.
use veritasor_backend.Prelude.{
  ℕ, zero, suc, ◌+◌, ◌≡◌, refl, ◌⊎◌, true, false, Option, none, some, List, [], ◌∷◌, arith,
}
use veritasor_backend.Prelude.Text.{Text, text_eq, codes, includes}
use veritasor_backend.Prelude.Maps.{get}
use veritasor_backend.Merkle.{is_hex_digit, all_hex}
use veritasor_backend.Webhooks.Razorpay.Events.{
  Json, whole, text, object, Fields, no_fields, field, RazorpayEvent, find_field,
  payment_entity_schema, razorpay_event_schema, parse_razorpay_event,
}
use veritasor_backend.Webhooks.Backoff.{default_backoff_options, with_backoff}
use veritasor_backend.Webhooks.Razorpay.{
  db_client, process_in, Processed, World, sweep, is_event_processed, check_timestamp_tolerance,
  dispatch, process_razorpay_event,
}
use veritasor_backend.Webhooks.Razorpay.Once.{is_processed, here, next, sweeps, processed_once}
use veritasor_backend.Webhooks.Razorpay.Route.{
  Bytes, found, not_found, Request, internal_server_error, from_hex, verify_razorpay_signature,
  verify_razorpay_signature_with_rotation, admit_request, post,
}
use veritasor_backend.Webhooks.Razorpay.Late.{post-Late}
use veritasor_backend.Webhooks.Razorpay.Signed.{IsSigned, is_error, post-IsSigned}

abbrev paid : RazorpayEvent
paid = record {
  id = 1 ∷ [];
  event = codes "order.paid";
  created_at = some 1000;
  payment = some (record { id = 2 ∷ []; order_id = 3 ∷ [] });
}

abbrev nothing_yet : Processed
nothing_yet = record { processed_events = []; store = [] }

abbrev paid_entity : Json
paid_entity = object (
    field (codes "id") (text (2 ∷ [])) (
      field (codes "order_id") (text (3 ∷ [])) (
        field (codes "status") (text (4 ∷ []))
          (field (codes "amount") (whole 5) (field (codes "currency") (text (6 ∷ [])) no_fields)))))

abbrev paid_json : Fields → Json
paid_json payment = object (
    field (codes "id") (text (1 ∷ [])) (
      field (codes "event") (text (codes "order.paid")) (
        field (codes "created_at") (whole 1000)
          (field (codes "payload") (object payment) no_fields))))

schema_accepts :
    razorpay_event_schema (
      paid_json
        (field (codes "payment") (object (field (codes "entity") paid_entity no_fields)) no_fields))
    ≡ some paid
unfolding razorpay_event_schema payment_entity_schema find_field text_eq includes
schema_accepts = refl

schema_wants_payment : razorpay_event_schema (paid_json no_fields) ≡ none
unfolding razorpay_event_schema payment_entity_schema find_field text_eq includes
schema_wants_payment = refl

processed_once_example :
    is_processed
      (process_razorpay_event 2000000 paid (record {
        processed_events = (process_razorpay_event 1000000 paid nothing_yet).1.processed_events;
        store = sweep 2000000 (process_razorpay_event 1000000 paid nothing_yet).1.store;
      })).0
    ≡ false
unfolding process_razorpay_event includes check_timestamp_tolerance is_event_processed get dispatch
    text_eq
processed_once_example =
    processed_once 1000 1000000 paid nothing_yet refl (λ e. ground arith) refl
      (next here (sweeps 2000000 (omega arith)))

abbrev repeat : ℕ → ℕ → List ℕ
repeat zero c = []
repeat (suc n) c = c ∷ repeat n c

-- A digest that is the same for every secret and body, and the request that carries it.
abbrev zero_hmac : Text → Bytes → Bytes
zero_hmac secret body = repeat 32 0

abbrev signed : Request
signed = record { signature = some (repeat 64 b'0'); body = some (7 ∷ []) }

abbrev old_json : Bytes → Option Json
old_json body = some (
    object (
      field (codes "id") (text (1 ∷ []))
        (field (codes "event") (text (9 ∷ [])) (field (codes "created_at") (whole 1) no_fields))))

abbrev old_event : RazorpayEvent
old_event = record { id = 1 ∷ []; event = 9 ∷ []; created_at = some 1; payment = none }

abbrev sleep : ℕ → World → World
sleep d w = record { now = w.now + d; processed = w.processed; dead_letters = w.dead_letters }

abbrev world : World
world = record { now = 400000; processed = nothing_yet; dead_letters = [] }

post-Late_example :
    post zero_hmac old_json
      (found (8 ∷ []))
      not_found
      (λ e. e.id)
      db_client
      sleep
      (λ k n. n)
      signed
      world
    ≡ (
      internal_server_error,
      (with_backoff sleep (λ k n. n) default_backoff_options (process_in old_event) world).1,
    )
unfolding admit_request verify_razorpay_signature verify_razorpay_signature_with_rotation all_hex
    is_hex_digit from_hex text_eq parse_razorpay_event razorpay_event_schema find_field includes
post-Late_example =
    post-Late sleep (λ k n. n) (λ d w. omega arith) (λ d w h. h) zero_hmac old_json (found (8 ∷ []))
      not_found (λ e. e.id) 1 old_event signed world refl refl (omega arith, refl)

post-IsSigned_example :
    IsSigned zero_hmac (found (8 ∷ [])) not_found (some (repeat 64 b'1')) (some (7 ∷ []))
    ⊎ ((is_error
            (post zero_hmac old_json
              (found (8 ∷ []))
              not_found
              (λ e. e.id)
              db_client
              sleep
              (λ k n. n)
              (record { signature = some (repeat 64 b'1'); body = some (7 ∷ []) })
              world).0
          ≡ true)
        × ((post zero_hmac old_json
              (found (8 ∷ []))
              not_found
              (λ e. e.id)
              db_client
              sleep
              (λ k n. n)
              (record { signature = some (repeat 64 b'1'); body = some (7 ∷ []) })
              world).1
            ≡ world))
post-IsSigned_example =
    post-IsSigned zero_hmac old_json (found (8 ∷ [])) not_found (λ e. e.id) db_client sleep
      (λ k n. n) (record { signature = some (repeat 64 b'1'); body = some (7 ∷ []) }) world
