-- ===== src/Idempotency.antt =====
-- The idempotency middleware of src/middleware/idempotency.ts with its store in memory. A handler
-- runs between the check of a key and the caching of the response, so that these are two steps.
-- SHA-256 is a parameter; a body stands for its JSON text, a header for its trimmed value. The options
-- `skipIf` and `validateKey` have their defaults.
pub mod Store
pub mod Keys
pub mod Replay
mod Tests
use veritasor_backend.Prelude.{
  ℕ, zero, suc, ◌+◌, ◌*◌, Bool, true, false, not, ◌&&◌, ◌||◌, List, [], ◌∷◌, ◌++◌, Option, none,
  some, ltb, leb, ◌==◌, if◌then◌else◌, length,
}
use veritasor_backend.Prelude.Text.{Text, codes, text_eq}
use veritasor_backend.Prelude.Maps.{get, put, remove}

abbrev pub min_key_length : ℕ
min_key_length = 8

abbrev pub max_key_length : ℕ
max_key_length = 256

abbrev pub default_ttl_ms : ℕ
default_ttl_ms = 24 * 60 * 60 * 1000

abbrev pub max_memory_store_size : ℕ
max_memory_store_size = 10_000

pub record IdempotencyEntry : Type 0 where
  pub status : ℕ
  pub body : Text
  pub request_hash : Text
  pub created_at : ℕ

-- A row of `memoryStore`.
pub record Row : Type 0 where
  pub entry : IdempotencyEntry
  pub expires_at : ℕ

abbrev pub Store : Type 0
Store = List (Text × Row)

unfoldable pub prune_expired_memory_store : ℕ → Store → Store
prune_expired_memory_store now [] = []
prune_expired_memory_store now ((k, row) ∷ m) =
    if ltb row.expires_at now
    then prune_expired_memory_store now m
    else (k, row) ∷ prune_expired_memory_store now m

-- What `store.get` answers, and the store after it.
abbrev pub read_row : ℕ → Text → Option Row → Store → Option IdempotencyEntry × Store
read_row now key none m = (none, m)
read_row now key (some row) m =
    if ltb row.expires_at now then (none, remove m key) else (some row.entry, m)

unfoldable pub store_get : ℕ → Text → Store → Option IdempotencyEntry × Store
store_get now key m = read_row now key (get m key) m

-- At the limit expired rows are pruned first, and if that frees nothing the entry is dropped.
unfoldable pub store_set : ℕ → Text → IdempotencyEntry → ℕ → Store → Store
store_set now key entry ttl_ms m =
    let row : Row = record { entry = entry; expires_at = now + ttl_ms } in
    let pruned = prune_expired_memory_store now m in
    if leb max_memory_store_size (length m)
    then if leb max_memory_store_size (length pruned) then pruned else put pruned key row
    else put m key row

abbrev pub is_hex : ℕ → Bool
is_hex c = leb b'0' c && leb c b'9' || leb b'a' c && leb c b'f' || leb b'A' c && leb c b'F'

-- A text against a pattern, in which `x` is any hexadecimal digit.
unfoldable pub fits_pattern : Text → Text → Bool
fits_pattern [] [] = true
fits_pattern [] (c ∷ cs) = false
fits_pattern (p ∷ ps) [] = false
fits_pattern (p ∷ ps) (c ∷ cs) = (if p == b'x' then is_hex c else p == c) && fits_pattern ps cs

abbrev pub uuid_pattern : Text
uuid_pattern = codes "xxxxxxxx-xxxx-xxxx-xxxx-xxxxxxxxxxxx"

unfoldable pub is_valid_key_format : Text → Bool → Bool
is_valid_key_format key strict =
    if ltb (length key) min_key_length || ltb max_key_length (length key)
    then false
    else if strict && not (fits_pattern uuid_pattern key)
    then false
    else true

abbrev pub is_tenant_char : ℕ → Bool
is_tenant_char c =
    leb b'a' c && leb c b'z'
    || leb b'A' c && leb c b'Z'
    || leb b'0' c && leb c b'9'
    || c == b'-'
    || c == b'_'

unfoldable pub all_tenant_chars : Text → Bool
all_tenant_chars [] = true
all_tenant_chars (c ∷ cs) = is_tenant_char c && all_tenant_chars cs

-- `/^[a-zA-Z0-9\-_]{1,100}$/`
unfoldable pub is_tenant : Text → Bool
is_tenant u = leb 1 (length u) && leb (length u) 100 && all_tenant_chars u

abbrev pub colon : Text
colon = b':' ∷ []

unfoldable pub tenant_tag : Text → Text
tenant_tag u = if is_tenant u then b'{' ∷ u ++ b'}' ∷ [] else u

unfoldable pub generate_store_key : Text → Text → Text → Text
generate_store_key scope user_key key_value =
    (codes "idempotency:" ++ scope ++ colon) ++ (tenant_tag user_key ++ colon ++ key_value)

-- `body ? JSON.stringify(body) : ''`
abbrev pub content_of : Option Text → Text
content_of none = []
content_of (some t) = t

unfoldable pub generate_request_hash : (Text → Text) → Option Text → Text
generate_request_hash sha256 body = sha256 (content_of body)

-- What the middleware reads of a request.
pub record Request : Type 0 where
  pub key_value : Option Text
  pub user_key : Text
  pub body : Option Text

pub record Options : Type 0 where
  pub scope : Text
  pub ttl_ms : ℕ
  pub strict_key_format : Bool

-- How the middleware answers: by itself, or through the handler, whose response is to be cached
-- under the key with the hash.
pub data Verdict : Type 0 where
  key_required key_invalid key_collision : Verdict
  replay : ℕ → Text → Verdict
  handle : Text → Text → Verdict

abbrev pub judge_cached : Text → Text → Option IdempotencyEntry × Store → Verdict × Store
judge_cached store_key hash (none, m) = (handle store_key hash, m)
judge_cached store_key hash (some cached, m) = (
  if not (text_eq cached.request_hash hash)
      then key_collision
      else replay cached.status cached.body,
  m,
)

-- The empty string is no key.
abbrev pub present_key : Option Text → Option Text
present_key none = none
present_key (some []) = none
present_key (some (c ∷ cs)) = some (c ∷ cs)

unfoldable pub arrive : (Text → Text) → Options → ℕ → Request → Store → Verdict × Store
arrive sha256 options now req m = elim (present_key req.key_value) [
  | none ↦ (key_required, m)
  | some key ↦
      if not (is_valid_key_format key options.strict_key_format)
      then (key_invalid, m)
      else let store_key = generate_store_key options.scope req.user_key key in
        judge_cached store_key (generate_request_hash sha256 req.body) (store_get now store_key m)
]

-- The handler's `res.status(status).json(body)`.
unfoldable pub respond : Options → ℕ → Text → Text → ℕ → Text → Store → Store
respond options now store_key hash status body m =
    if leb 200 status && ltb status 300
    then store_set now store_key
        (record { status = status; body = body; request_hash = hash; created_at = now })
        options.ttl_ms m
    else m
