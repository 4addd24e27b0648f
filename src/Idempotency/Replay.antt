-- ===== src/Idempotency/Replay.antt =====
-- What a second request meets in src/middleware/idempotency.ts.
use veritasor_backend.Prelude.{
  ℕ, ◌+◌, ◌≤◌, ◌<◌, ◌≡◌, inl, inr, refl, Bool, true, false, not, ◌&&◌, List, Option, none, some,
  ltb, leb, if◌then◌else◌, length, arith, Bool-cases, Option-cases,
}
use veritasor_backend.Prelude.Text.{Text, text_eq}
use veritasor_backend.Prelude.Maps.{get, get-put_same, get-remove_same}
use veritasor_backend.Idempotency.{
  Row, Store, read_row, store_get, store_set, max_memory_store_size, Request, Options,
  key_collision, replay, handle, judge_cached, present_key, arrive, respond, is_valid_key_format,
  generate_store_key, generate_request_hash,
}
use veritasor_backend.Idempotency.Store.{StoreEvent, store_run, AllSpare, get-store_run}

-- With a valid key, the request is judged by the row that the store has.
arrive_valid :
    (sha256 : Text → Text) (options : Options) (now : ℕ) (req : Request) (m : Store) (key : Text)
    → present_key req.key_value ≡ some key
    → is_valid_key_format key options.strict_key_format ≡ true
    → arrive sha256 options now req m
      ≡ judge_cached
          (generate_store_key options.scope req.user_key key)
          (generate_request_hash sha256 req.body)
          (store_get now (generate_store_key options.scope req.user_key key) m)
unfolding arrive
arrive_valid sha256 options now req m key present valid = rw (arrive, present, valid) refl

get-respond :
    (options : Options) (now : ℕ) (store_key hash : Text) (status : ℕ) (body : Text) (m : Store)
    → 200 ≤ status
    → status < 300
    → length m < max_memory_store_size
    → get (respond options now store_key hash status body m) store_key
      ≡ some (record {
        entry = record { status = status; body = body; request_hash = hash; created_at = now };
        expires_at = now + options.ttl_ms;
      })
unfolding respond store_set
get-respond options now store_key hash status body m low high room =
    let success : (leb 200 status && ltb status 300) ≡ true = ground (arith, low, high) in
    let free : leb max_memory_store_size (length m) ≡ false = ground (arith, room) in
    rw (success, free) (get-put_same m store_key _)

-- A successful response is replayed to every later request of the same user with the same key and
-- body until it expires, and one with another body hash is refused: whatever other keys are used
-- meanwhile, if the store had room for the response.
pub arrive-respond :
    (sha256 : Text → Text) (options : Options) (first again : Request) (key : Text) (m : Store)
    (answered now status : ℕ) (body : Text) (es : List StoreEvent)
    → present_key again.key_value ≡ some key
    → is_valid_key_format key options.strict_key_format ≡ true
    → 200 ≤ status
    → status < 300
    → length m < max_memory_store_size
    → AllSpare (answered + options.ttl_ms) (generate_store_key options.scope again.user_key key) es
    → now ≤ answered + options.ttl_ms
    → let store_key = generate_store_key options.scope again.user_key key in
      let hash = generate_request_hash sha256 first.body in
      (arrive sha256 options now again
        (store_run es (respond options answered store_key hash status body m))).0
      ≡ (if not (text_eq hash (generate_request_hash sha256 again.body))
          then key_collision
          else replay status body)
unfolding store_get
arrive-respond sha256 options first again key m answered now status body es present valid low high
      room spare live =
    let store_key = generate_store_key options.scope again.user_key key in
    let hash = generate_request_hash sha256 first.body in
    let after = store_run es (respond options answered store_key hash status body m) in
    let kept =
      get-store_run es _ store_key _
        (get-respond options answered store_key hash status body m low high room) spare in
    let fresh : ltb (answered + options.ttl_ms) now ≡ false = ground (arith, live) in
    rw (arrive_valid sha256 options now again after key present valid, kept, fresh) refl

cached_not_handle :
    (b : Bool) (status : ℕ) (body k h : Text)
    → ¬ ((if b then key_collision else replay status body) ≡ handle k h)
cached_not_handle true status body k h e = cc e
cached_not_handle false status body k h e = cc e

judge_handle :
    (store_key hash k h : Text) (now : ℕ) (o : Option Row) (m : Store)
    → get m store_key ≡ o
    → (judge_cached store_key hash (read_row now store_key o m)).0 ≡ handle k h
    → (later : ℕ)
    → (judge_cached store_key hash
        (store_get later store_key (judge_cached store_key hash (read_row now store_key o m)).1)).0
      ≡ handle k h
unfolding store_get
judge_handle store_key hash k h now none m found handled later = rw found handled
judge_handle store_key hash k h now (some row) m found handled later =
    elim (Bool-cases (ltb row.expires_at now)) [
      | inl e ↦ rw (e, get-remove_same m store_key) (rw e at handled)
      | inr e ↦ absurd (cached_not_handle _ _ _ _ _ (rw e at handled))
    ]

-- If a request goes to the handler, a second one that comes before the response goes there too.
pub arrive_twice :
    (sha256 : Text → Text) (options : Options) (req : Request) (m : Store) (now later : ℕ)
    (k h : Text)
    → (arrive sha256 options now req m).0 ≡ handle k h
    → (arrive sha256 options later req (arrive sha256 options now req m).1).0 ≡ handle k h
unfolding arrive store_get
arrive_twice sha256 options req m now later k h handled =
    elim (Option-cases (present_key req.key_value)) [
      | inl e ↦ cc (rw (arrive, e) at handled)
      | inr (key, e) ↦ elim (Bool-cases (is_valid_key_format key options.strict_key_format)) [
        | inr invalid ↦ cc (rw (arrive, e, invalid) at handled)
        | inl valid ↦
            let store_key = generate_store_key options.scope req.user_key key in
            rw
              (
                arrive_valid sha256 options later req (arrive sha256 options now req m).1 key e
                    valid,
                arrive_valid sha256 options now req m key e valid,
              )
              (judge_handle store_key (generate_request_hash sha256 req.body) k h now
                (get m store_key) m refl
                (rw (arrive_valid sha256 options now req m key e valid) at handled) later)
      ]
    ]
