-- ===== src/Webhooks/Razorpay/Signed.antt =====
-- Who signed the body of a request of src/routes/webhooks-razorpay.ts, against the hexadecimal digest
-- that src/services/webhooks/razorpayHandler.ts compares as bytes.
use veritasor_backend.Prelude.{
  ℕ, zero, suc, ◌+◌, ◌-◌, ◌*◌, ◌/◌, ◌%◌, ◌<◌, ◌≡◌, refl, sym, ap, ◌∙◌, ◌⊎◌, inl, inr, Bool, true,
  false, ◌&&◌, Option, none, some, [], ◌∷◌, arith, ltb, leb, length, ◌==◌, if◌then◌else◌,
  suc_is_not_zero, Bool-cases,
}
use veritasor_backend.Prelude.Text.{Text, text_eq, text_eq→≡, lower}
use veritasor_backend.Merkle.{is_hex_digit, all_hex}
use veritasor_backend.Webhooks.Backoff.{Attempt, throws}
use veritasor_backend.Webhooks.Razorpay.Events.{
  Json, missing_signature, invalid_signature, invalid_payload, invalid_event, invalid_timestamp,
  secret_not_configured, RazorpayEvent,
}
use veritasor_backend.Webhooks.Razorpay.{Db, World}
use veritasor_backend.Webhooks.Razorpay.Route.{
  Bytes, Loaded, found, not_found, fails, Request, status, Caught, webhook_error, KeyLabel,
  if_verified, with_next, with_primary, Response, another, respond, hex_value, from_hex,
  verify_razorpay_signature, verify_razorpay_signature_with_rotation, admit_request, post,
}

abbrev pub hex_digit : ℕ → ℕ
hex_digit v = if ltb v 10 then b'0' + v else b'a' + (v - 10)

-- `digest('hex')`
abbrev pub to_hex : Bytes → Text
to_hex [] = []
to_hex (b ∷ bs) = hex_digit (b / 16) ∷ hex_digit (b % 16) ∷ to_hex bs

abbrev Paired : Text → Type 0
Paired [] = Unit {0}
Paired (a ∷ []) = ⊥
Paired (a ∷ b ∷ rest) = Paired rest

paired : (n : ℕ) (t : Text) → length t ≡ n * 2 → Paired t
paired zero [] h = tt
paired zero (a ∷ rest) h = ground arith
paired (suc n) [] h = ground arith
paired (suc n) (a ∷ []) h = ground arith
paired (suc n) (a ∷ b ∷ rest) h = paired n rest (omega arith)

abbrev lower_digit : ℕ → ℕ
lower_digit c = if leb b'A' c && leb c b'Z' then c + 32 else c

hex_digit-hex_value : (c : ℕ) → is_hex_digit c ≡ true → hex_digit (hex_value c) ≡ lower_digit c
unfolding is_hex_digit
hex_digit-hex_value c h = ground arith

hex_value_bound : (c : ℕ) → is_hex_digit c ≡ true → hex_value c < 16
unfolding is_hex_digit
hex_value_bound c h = ground arith

div_mod : (a b : ℕ) → b < 16 → (((a * 16 + b) / 16) ≡ a) × (((a * 16 + b) % 16) ≡ b)
div_mod a b h = (omega arith, omega arith)

both : (x y : Bool) → (x && y) ≡ true → (x ≡ true) × (y ≡ true)
both true true h = (refl, refl)
both true false h = ground arith
both false y h = ground arith

to_hex-from_hex : (t : Text) → all_hex t ≡ true → Paired t → to_hex (from_hex t) ≡ lower t
unfolding all_hex from_hex lower
to_hex-from_hex [] h p = refl
to_hex-from_hex (a ∷ []) h p = absurd p
to_hex-from_hex (a ∷ b ∷ rest) h p =
    let first = both (is_hex_digit a) (is_hex_digit b && all_hex rest) h in
    let second = both (is_hex_digit b) (all_hex rest) first.1 in
    let digits = div_mod (hex_value a) (hex_value b) (hex_value_bound b second.0) in
    rw
      (
        digits.0,
        digits.1,
        hex_digit-hex_value a first.0,
        hex_digit-hex_value b second.0,
        to_hex-from_hex rest second.1 p,
      )
      refl

-- The body carries the digest of one of the two secrets, which is not empty.
abbrev IsSignedBy : (Text → Bytes → Bytes) → Text → Bytes → Text → Type 0
IsSignedBy hmac secret body sig = ¬ (secret ≡ []) × (lower sig ≡ to_hex (hmac secret body))

verify_razorpay_signature-IsSignedBy :
    (hmac : Text → Bytes → Bytes) (body : Bytes) (sig secret : Text)
    → verify_razorpay_signature hmac body sig secret ≡ true
    → IsSignedBy hmac secret body sig
unfolding verify_razorpay_signature
verify_razorpay_signature-IsSignedBy hmac body sig [] h = ground arith
verify_razorpay_signature-IsSignedBy hmac body sig (c ∷ cs) h =
    let d = both _ (text_eq (hmac (c ∷ cs) body) (from_hex sig)) h in
    let b = both _ (all_hex sig) d.0 in
    let a = both _ (length sig == 64) b.0 in
    (
      λ e. ground arith,
      sym (to_hex-from_hex sig b.1 (paired 32 sig (ground (arith, a.1))))
          ∙ ap to_hex (sym (text_eq→≡ (hmac (c ∷ cs) body) (from_hex sig) d.1)),
    )

abbrev pub IsSigned : (Text → Bytes → Bytes) → Loaded → Loaded → Option Text → Option Bytes → Type 0
IsSigned hmac webhook_secret next_secret signature body =
    (secret : Text) × (sig : Text) × (b : Bytes) × (signature ≡ some sig)
    × (body ≡ some b)
    × ((webhook_secret ≡ found secret) ⊎ (next_secret ≡ found secret))
    × ¬ (secret ≡ [])
    × (lower sig ≡ to_hex (hmac secret b))

module _ (hmac : Text → Bytes → Bytes) (json_parse : Bytes → Option Json)
    (webhook_secret next_secret : Loaded) where
  -- The key that matches is one of the two.
  rotation-IsSigned :
      (body : Bytes) (sig first : Text) (next : Option Text) (k : KeyLabel)
      → verify_razorpay_signature_with_rotation hmac body sig first next ≡ some k
      → IsSignedBy hmac first body sig ⊎ ((s : Text) × (next ≡ some s) × IsSignedBy hmac s body sig)
  unfolding verify_razorpay_signature_with_rotation
  rotation-IsSigned body sig first none k h =
      elim (Bool-cases (verify_razorpay_signature hmac body sig first)) [
        | inl v ↦ inl (verify_razorpay_signature-IsSignedBy hmac body sig first v)
        | inr v ↦ ground arith
      ]
  rotation-IsSigned body sig first (some s) k h =
      elim (Bool-cases (verify_razorpay_signature hmac body sig first)) [
        | inl v ↦ inl (verify_razorpay_signature-IsSignedBy hmac body sig first v)
        | inr v ↦ elim (Bool-cases (verify_razorpay_signature hmac body sig s)) [
          | inl v' ↦ inr (s, refl, verify_razorpay_signature-IsSignedBy hmac body sig s v')
          | inr v' ↦ ground arith
        ]
      ]

  abbrev Refused : Attempt RazorpayEvent Caught → Type 0
  Refused p = (c : Caught) × (p ≡ throws c)

  if_verified-IsSigned :
      (now : ℕ) (body : Bytes) (sig first : Text) (next : Option Text) (o : Option KeyLabel)
      → verify_razorpay_signature_with_rotation hmac body sig first next ≡ o
      → Refused (if_verified hmac json_parse webhook_secret next_secret now body o)
        ⊎ (IsSignedBy hmac first body sig
            ⊎ ((s : Text) × (next ≡ some s) × IsSignedBy hmac s body sig))
  if_verified-IsSigned now body sig first next none h = inl (_, refl)
  if_verified-IsSigned now body sig first next (some k) h =
      inr (rotation-IsSigned body sig first next k h)

  with_next-IsSigned :
      (now : ℕ) (body : Bytes) (sig first : Text) (n : Loaded)
      → Refused (with_next hmac json_parse webhook_secret next_secret now sig first body n)
        ⊎ (IsSignedBy hmac first body sig
            ⊎ ((s : Text) × (n ≡ found s) × IsSignedBy hmac s body sig))
  with_next-IsSigned now body sig first fails = inl (_, refl)
  with_next-IsSigned now body sig first not_found =
      elim (if_verified-IsSigned now body sig first none _ refl) [
        | inl r ↦ inl r
        | inr (inl s) ↦ inr (inl s)
        | inr (inr (s, e, x)) ↦ ground arith
      ]
  with_next-IsSigned now body sig first (found []) =
      elim (if_verified-IsSigned now body sig first none _ refl) [
        | inl r ↦ inl r
        | inr (inl s) ↦ inr (inl s)
        | inr (inr (s, e, x)) ↦ ground arith
      ]
  with_next-IsSigned now body sig first (found (c ∷ cs)) =
      rw (suc_is_not_zero (length cs))
        (elim (if_verified-IsSigned now body sig first (some (c ∷ cs)) _ refl) [
          | inl r ↦ inl r
          | inr (inl s) ↦ inr (inl s)
          | inr (inr (s, e, x)) ↦ inr (inr (s, cc e, x))
        ])

  with_primary-IsSigned :
      (now : ℕ) (sig : Text) (body : Option Bytes) (p : Loaded)
      → webhook_secret ≡ p
      → Refused (with_primary hmac json_parse webhook_secret next_secret now sig body p)
        ⊎ IsSigned hmac webhook_secret next_secret (some sig) body
  with_primary-IsSigned now sig body fails h = inl (_, refl)
  with_primary-IsSigned now sig body not_found h = inl (_, refl)
  with_primary-IsSigned now sig none (found s) h = inl (_, refl)
  with_primary-IsSigned now sig (some []) (found s) h = inl (_, refl)
  with_primary-IsSigned now sig (some (b ∷ bs)) (found s) h =
      elim (with_next-IsSigned now (b ∷ bs) sig s next_secret) [
        | inl r ↦ inl r
        | inr (inl x) ↦ inr (s, sig, b ∷ bs, refl, refl, inl h, x.0, x.1)
        | inr (inr (t, e, x)) ↦ inr (t, sig, b ∷ bs, refl, refl, inr e, x.0, x.1)
      ]

  admit_request-IsSigned :
      (now : ℕ) (sig : Option Text) (body : Option Bytes)
      → Refused (admit_request hmac json_parse webhook_secret next_secret now sig body)
        ⊎ IsSigned hmac webhook_secret next_secret sig body
  unfolding admit_request
  admit_request-IsSigned now none body = inl (_, refl)
  admit_request-IsSigned now (some []) body = inl (_, refl)
  admit_request-IsSigned now (some (c ∷ cs)) body =
      with_primary-IsSigned now (c ∷ cs) body webhook_secret refl

abbrev pub is_error : Response → Bool
is_error r = leb 400 (status r)

respond-is_error : (c : Caught) → is_error (respond c) ≡ true
respond-is_error (webhook_error missing_signature) = refl
respond-is_error (webhook_error invalid_signature) = refl
respond-is_error (webhook_error invalid_payload) = refl
respond-is_error (webhook_error invalid_event) = refl
respond-is_error (webhook_error invalid_timestamp) = refl
respond-is_error (webhook_error secret_not_configured) = refl
respond-is_error another = refl

-- A request whose body does not carry, in hexadecimal of either case, the digest under one of the two
-- secrets that are loaded and not empty is answered with an error, and changes neither the memory of
-- the process nor the dead letters.
pub post-IsSigned :
    (hmac : Text → Bytes → Bytes) (json_parse : Bytes → Option Json)
    (webhook_secret next_secret : Loaded) (payload_hash : RazorpayEvent → Text) (db : Db)
    (sleep : ℕ → World → World) (draw : ℕ → ℕ → ℕ) (r : Request) (w : World)
    → IsSigned hmac webhook_secret next_secret r.signature r.body
      ⊎ ((is_error
              (post hmac json_parse webhook_secret next_secret payload_hash db sleep draw r w).0
            ≡ true)
          × ((post hmac json_parse webhook_secret next_secret payload_hash db sleep draw r w).1
              ≡ w))
unfolding post
post-IsSigned hmac json_parse webhook_secret next_secret payload_hash db sleep draw r w =
    elim (admit_request-IsSigned hmac json_parse webhook_secret next_secret w.now r.signature
      r.body) [ inl (c, e) ↦ inr (rw e (respond-is_error c, refl)) | inr s ↦ inl s ]
