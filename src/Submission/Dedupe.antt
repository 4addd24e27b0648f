-- ===== src/Submission/Dedupe.antt =====
-- Deduplication across batches, of src/services/soroban/submitAttestation.ts.
pub mod Keys
use veritasor_backend.Prelude.{
  ℕ, max, Bool, true, false, [], ◌∷◌, ◌++◌, Option, none, some, leb, if◌then◌else◌,
}
use veritasor_backend.Prelude.Text.{Text, codes, join}
use veritasor_backend.Submission.{Params, Timestamp}

abbrev pub attestation_dedupe_prefix : Text
attestation_dedupe_prefix = codes "attestation:dedupe"

abbrev pub default_attestation_dedupe_ttl_ms : ℕ
default_attestation_dedupe_ttl_ms = 300_000

abbrev pub min_attestation_dedupe_ttl_ms : ℕ
min_attestation_dedupe_ttl_ms = 30_000

-- What `Number` makes of the environment's value.
pub data RawTtl : Type 0 where
  unset not_an_integer negative : RawTtl
  integer : ℕ → RawTtl

pub resolve_attestation_dedupe_ttl_ms : RawTtl → ℕ
resolve_attestation_dedupe_ttl_ms unset = default_attestation_dedupe_ttl_ms
resolve_attestation_dedupe_ttl_ms not_an_integer = default_attestation_dedupe_ttl_ms
resolve_attestation_dedupe_ttl_ms negative = default_attestation_dedupe_ttl_ms
resolve_attestation_dedupe_ttl_ms (integer n) =
    if leb 1 n then max min_attestation_dedupe_ttl_ms n else default_attestation_dedupe_ttl_ms

-- A reply of the Redis client, or its failure.
pub data Reply (A : Type 0) : Type 0 where
  replied : A → Reply A
  unreachable : Reply A

-- The Redis client, with the states of the server it talks to. A call that fails leaves a state, too.
pub record RedisClient (Redis : Type 0) : Type 0 where
  pub get : Redis → Text → Reply (Option Text)
  -- `set(key, value, 'PX', ms)`
  pub set : Redis → Text → Text → ℕ → Redis

-- What a submission takes from its libraries to form keys.
pub record Printer : Type 0 where
  pub sha256 : Text → Text
  pub print_timestamp : Timestamp → Text

abbrev pub canonical : Printer → Params → Text
canonical lib p =
    join (p.business ∷ p.period ∷ p.merkle_root ∷ lib.print_timestamp p.timestamp ∷ p.version ∷ [])

unfoldable pub compute_attestation_dedupe_key : Printer → Params → Text
compute_attestation_dedupe_key lib p = lib.sha256 (canonical lib p)

abbrev pub dedupe_entry : Printer → Params → Text
dedupe_entry lib p = attestation_dedupe_prefix ++ codes ":" ++ compute_attestation_dedupe_key lib p

-- `existing !== null`, and false when Redis cannot be reached.
abbrev pub is_hit : Reply (Option Text) → Bool
is_hit (replied none) = false
is_hit (replied (some value)) = true
is_hit unreachable = false

module _ {Redis : Type 0} (client : RedisClient Redis) (lib : Printer) where
  unfoldable pub check_attestation_dedupe : Redis → Params → Bool
  check_attestation_dedupe redis p = is_hit (client.get redis (dedupe_entry lib p))

  unfoldable pub mark_attestation_submitted : Redis → Params → Text → ℕ → Redis
  mark_attestation_submitted redis p tx_hash ttl_ms =
      client.set redis (dedupe_entry lib p) tx_hash ttl_ms
