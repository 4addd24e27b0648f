-- ===== src/Audit/Tests.antt =====
-- The theorems about src/repositories/auditLogRepository.ts at concrete inputs, with a keyed sum in
-- place of the HMAC.
use veritasor_backend.Prelude.{
  ℕ, ◌+◌, ◌*◌, ◌%◌, ◌≡◌, ◌⊎◌, refl, List, [], ◌∷◌, ◌++◌, none, some, replicate,
}
use veritasor_backend.Prelude.Text.{Text, codes, text_eq}
use veritasor_backend.Audit.{
  AuditLog, AuditLogInput, Platform, create_audit_log, check_from, verify_chain, compute_chain_hash,
  canonicalise_entry, hex_bytes, timing_safe_equal,
}
use veritasor_backend.Audit.Created.{Creation, created, intact_result, verify_chain-created}
use veritasor_backend.Audit.Tampering.{Collision, SameText, check_from_binding}

abbrev sum : Text → ℕ
sum [] = 7
sum (c ∷ cs) = c + 3 * sum cs

abbrev platform : Platform
platform = record {
  hmac = λ t. replicate 63 b'0' ++ (b'0' + sum t % 10) ∷ [];
  sha256 = λ t. t;
  to_iso = λ n. b'T' ∷ (b'0' + n % 10) ∷ [];
  decimal = λ n. (b'0' + n % 10) ∷ [];
  payload_hash = λ t. t;
}

abbrev login : AuditLogInput
login = record {
  user_id = codes "u1";
  action = codes "login";
  resource = codes "session";
  resource_id = none;
  metadata = some (codes "{}");
  content_hash = none;
}

abbrev calls : List Creation
calls =
    record { id = codes "a"; now = 1; log = login; content = none }
    ∷ record { id = codes "b"; now = 2; log = login; content = some (codes "x") }
    ∷ []

verify_chain-created_example :
    verify_chain platform (created platform calls [])
    ≡ some (intact_result (created platform calls []))
verify_chain-created_example = verify_chain-created platform calls

abbrev logs : List AuditLog
unfolding create_audit_log compute_chain_hash canonicalise_entry
logs = created platform calls []

check_from_binding_example : SameText platform logs logs ⊎ Collision platform
unfolding create_audit_log compute_chain_hash canonicalise_entry check_from timing_safe_equal
    hex_bytes text_eq
check_from_binding_example =
    check_from_binding platform logs logs refl (refl, (refl, tt)) (refl, (refl, tt)) refl refl refl

abbrev entry : AuditLog
entry = record {
  id = codes "c";
  user_id = codes "u1";
  action = [];
  resource = [];
  resource_id = none;
  metadata = none;
  content_hash = none;
  timestamp = 3;
  chain_hash = replicate 64 b'0';
  seq = 0;
}
