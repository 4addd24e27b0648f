-- ===== src/Idempotency/Tests.antt =====
-- The theorems about src/middleware/idempotency.ts at concrete inputs.
use veritasor_backend.Prelude.{
  ◌≤◌, ◌≡◌, refl, false, not, List, [], ◌∷◌, some, if◌then◌else◌, length, arith,
}
use veritasor_backend.Prelude.Text.{Text, codes, text_eq}
use veritasor_backend.Idempotency.{
  IdempotencyEntry, Request, Options, key_collision, replay, arrive, respond, is_valid_key_format,
  all_tenant_chars, is_tenant, generate_store_key, generate_request_hash, max_memory_store_size,
  tenant_tag, default_ttl_ms,
}
use veritasor_backend.Idempotency.Store.{StoreEvent, read, save, swept, store_run, length-store_run}
use veritasor_backend.Idempotency.Replay.{arrive-respond}

abbrev options : Options
options = record {
  scope = codes "attestations";
  ttl_ms = default_ttl_ms;
  strict_key_format = false;
}

abbrev key : Text
key = codes "key-0001"

abbrev first : Request
first = record { key_value = some key; user_key = codes "u1"; body = some (codes "{}") }

abbrev changed : Request
changed = record first { body = some (codes "[]") }

abbrev identity_hash : Text → Text
identity_hash t = t

abbrev entry : IdempotencyEntry
entry = record { status = 201; body = codes "ok"; request_hash = codes "{}"; created_at = 5 }

abbrev other_key : Text
other_key = codes "idempotency:attestations:{u2}:key-0001"

abbrev events : List StoreEvent
events = read 10 other_key ∷ save 20 other_key entry 100 ∷ swept 30 ∷ []

length-store_run_example : length (store_run events []) ≤ max_memory_store_size
length-store_run_example = length-store_run events [] (omega arith)

arrive-respond_example :
    let store_key = generate_store_key (codes "attestations") (codes "u1") key in
    let hash = generate_request_hash identity_hash first.body in
    (arrive identity_hash options 40 changed
      (store_run events (respond options 5 store_key hash 201 (codes "ok") []))).0
    ≡ (if not (text_eq hash (generate_request_hash identity_hash changed.body))
        then key_collision
        else replay 201 (codes "ok"))
unfolding is_valid_key_format generate_store_key tenant_tag is_tenant all_tenant_chars text_eq
arrive-respond_example =
    arrive-respond identity_hash options first changed key [] 5 40 201 (codes "ok") events refl refl
      (omega arith) (omega arith) (omega arith)
      (omega arith, ((omega arith, refl), (omega arith, tt))) (omega arith)
