-- ===== src/Audit.antt =====
-- The tamper-evident audit log of src/repositories/auditLogRepository.ts: entries, the hash chain
-- and its verification. SHA-256, the keyed HMAC, the printing of dates and numbers, and
-- `computePayloadHash` are parameters. Metadata stands for its JSON text.
pub mod Created
pub mod Tampering
mod Tests
use veritasor_backend.Prelude.{
  ℕ, zero, suc, ◌+◌, Bool, true, false, List, [], ◌∷◌, ◌++◌, Option, none, some, leb, ◌==◌, ◌-◌,
  ◌*◌, ◌&&◌, if◌then◌else◌, length, replicate,
}
use veritasor_backend.Prelude.Text.{join, pipe, Text, text_eq}

pub record AuditLog : Type 0 where
  pub id : Text
  pub user_id : Text
  pub action : Text
  pub resource : Text
  pub resource_id : Option Text
  pub metadata : Option Text
  pub content_hash : Option Text
  pub timestamp : ℕ
  pub chain_hash : Text
  pub seq : ℕ

pub record AuditLogInput : Type 0 where
  pub user_id : Text
  pub action : Text
  pub resource : Text
  pub resource_id : Option Text
  pub metadata : Option Text
  pub content_hash : Option Text

pub record ChainVerificationResult : Type 0 where
  pub valid : Bool
  pub checked_count : ℕ
  pub broken_at_index : Option ℕ
  pub broken_at_id : Option Text
  pub chain_root : Option Text

-- What the source takes from its libraries.
pub record Platform : Type 0 where
  pub hmac : Text → Text
  pub sha256 : Text → Text
  pub to_iso : ℕ → Text
  pub decimal : ℕ → Text
  pub payload_hash : Text → Text

-- `?? ''`
abbrev pub or_empty : Option Text → Text
or_empty none = []
or_empty (some t) = t

-- The sentinel of 64 zeros.
abbrev pub genesis_sentinel : Text
genesis_sentinel = replicate 64 b'0'

abbrev pub hex_value : ℕ → Option ℕ
hex_value c =
    if leb b'0' c && leb c b'9'
    then some (c - b'0')
    else if leb b'a' c && leb c b'f'
    then some (c - b'a' + 10)
    else if leb b'A' c && leb c b'F'
    then some (c - b'A' + 10)
    else none

abbrev pub byte_of : Option ℕ → Option ℕ → Option ℕ
byte_of (some h) (some l) = some (16 * h + l)
byte_of (some h) none = none
byte_of none l = none

abbrev pub cons_byte : Option ℕ → List ℕ → List ℕ
cons_byte (some b) bs = b ∷ bs
cons_byte none bs = []

-- `Buffer.from(text, 'hex')`: the bytes before the first pair that is not hexadecimal.
unfoldable pub hex_bytes : Text → List ℕ
hex_bytes [] = []
hex_bytes (c ∷ []) = []
hex_bytes (c ∷ d ∷ cs) = cons_byte (byte_of (hex_value c) (hex_value d)) (hex_bytes cs)

-- `crypto.timingSafeEqual` throws on buffers of different lengths: `none`.
unfoldable pub timing_safe_equal : List ℕ → List ℕ → Option Bool
timing_safe_equal a b = if length a == length b then some (text_eq a b) else none

-- `chainHash` of the last entry.
abbrev pub last_chain_hash : List AuditLog → Option Text
last_chain_hash [] = none
last_chain_hash (e ∷ []) = some e.chain_hash
last_chain_hash (e ∷ f ∷ es) = last_chain_hash (f ∷ es)

abbrev pub get_current_chain_root : List AuditLog → Option Text
get_current_chain_root logs = last_chain_hash logs

abbrev pub prev_or_genesis : Option Text → Text
prev_or_genesis none = genesis_sentinel
prev_or_genesis (some t) = t

unfoldable pub insert_by_seq : AuditLog → List AuditLog → List AuditLog
insert_by_seq e [] = e ∷ []
insert_by_seq e (f ∷ fs) = if leb e.seq f.seq then e ∷ f ∷ fs else f ∷ insert_by_seq e fs

-- `[...logs].sort((a, b) => a.seq - b.seq)`, which is stable.
unfoldable pub sort_by_seq : List AuditLog → List AuditLog
sort_by_seq [] = []
sort_by_seq (e ∷ es) = insert_by_seq e (sort_by_seq es)

-- How the loop of `verifyChain` ends.
pub data Check : Type 0 where
  intact threw : Check
  broken : ℕ → Text → Check

module _ (p : Platform) where
  abbrev pub metadata_hash : Option Text → Text
  metadata_hash none = []
  metadata_hash (some m) = p.sha256 m

  unfoldable pub canonicalise_entry : AuditLog → Text
  canonicalise_entry e = join (
      p.decimal e.seq
      ∷ e.id
      ∷ e.user_id
      ∷ e.action
      ∷ e.resource
      ∷ or_empty e.resource_id
      ∷ or_empty e.content_hash
      ∷ p.to_iso e.timestamp
      ∷ metadata_hash e.metadata
      ∷ [])

  unfoldable pub compute_chain_hash : AuditLog → Text → Text
  compute_chain_hash e prev_hash = p.hmac (prev_hash ++ pipe ++ canonicalise_entry e)

  abbrev pub content_hash_of : Option Text → Option Text → Option Text
  content_hash_of none given = given
  content_hash_of (some content) given = some (p.payload_hash content)

  -- With the random id and the time of the call, and the entry's own hash left empty.
  abbrev pub partial_log : Text → ℕ → AuditLogInput → Option Text → List AuditLog → AuditLog
  partial_log id now log content logs = record {
    id = id;
    user_id = log.user_id;
    action = log.action;
    resource = log.resource;
    resource_id = log.resource_id;
    metadata = log.metadata;
    content_hash = content_hash_of content log.content_hash;
    timestamp = now;
    chain_hash = [];
    seq = length logs;
  }

  unfoldable pub create_audit_log :
      Text → ℕ → AuditLogInput → Option Text → List AuditLog → List AuditLog
  create_audit_log id now log content logs =
      let partial = partial_log id now log content logs in
      let prev_hash = prev_or_genesis (last_chain_hash logs) in
      logs ++ record partial { chain_hash = compute_chain_hash partial prev_hash } ∷ []

  unfoldable pub check_from : ℕ → Text → List AuditLog → Check
  check_from i prev_hash [] = intact
  check_from i prev_hash (e ∷ es) =
      let rest = check_from (suc i) e.chain_hash es in
      elim (timing_safe_equal (hex_bytes (compute_chain_hash e prev_hash))
        (hex_bytes e.chain_hash)) [
          | none ↦ threw
          | some same ↦ if same then rest else broken i e.id
        ]

  abbrev pub report : List AuditLog → Check → Option ChainVerificationResult
  report ordered threw = none
  report ordered (broken i id) = some (record {
    valid = false;
    checked_count = i;
    broken_at_index = some i;
    broken_at_id = some id;
    chain_root = last_chain_hash ordered;
  })
  report ordered intact = some (record {
    valid = true;
    checked_count = length ordered;
    broken_at_index = none;
    broken_at_id = none;
    chain_root = last_chain_hash ordered;
  })

  -- `none` stands for the error that `timingSafeEqual` throws.
  unfoldable pub verify_chain : List AuditLog → Option ChainVerificationResult
  verify_chain logs =
      let ordered = sort_by_seq logs in report ordered (check_from 0 genesis_sentinel ordered)
