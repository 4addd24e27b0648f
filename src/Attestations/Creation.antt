-- ===== src/Attestations/Creation.antt =====
-- `create` and `createWithConflictCheck` of src/repositories/attestationRepository.ts.
pub mod Lookup
use veritasor_backend.Prelude.{
  ℕ, zero, suc, ◌+◌, ◌-◌, Bool, true, false, not, ◌&&◌, Option, none, some, List, [], ◌∷◌, ◌++◌,
  ltb, if◌then◌else◌,
}
use veritasor_backend.Prelude.Text.{Text, text_eq}
use veritasor_backend.Attestations.{
  Attestation, Rows, CreateAttestationInput, RepositoryError, duplicate, foreign_key,
  version_conflict, no_valid_fields, null_error, Outcome, ok, throws, get_by_business_and_period,
}

-- The row of an `INSERT`, with what the database draws for it.
unfoldable pub inserted : ℕ → Text → CreateAttestationInput → Attestation
inserted now id d = record {
  id = id;
  business_id = d.business_id;
  period = d.period;
  merkle_root = d.merkle_root;
  tx_hash = d.tx_hash;
  status = d.status;
  version = 1;
  created_at = now;
  updated_at = now;
}

abbrev pub is_positive : ℕ → Bool
is_positive zero = false
is_positive (suc k) = true

-- `is_business` is the foreign key. A row with the business and the period is refused by the constraint
-- UNIQUE (business_id, period) of src/db/migrations/20260225_001_create_attestations_table.sql.
module _ (is_business : Text → Bool) where
  unfoldable pub insert_if_new :
      ℕ → Text → CreateAttestationInput → Option Attestation → Rows → Outcome Attestation × Rows
  insert_if_new now id d (some r) rows = (throws duplicate, rows)
  insert_if_new now id d none rows =
      if is_business d.business_id
      then (ok (inserted now id d), rows ++ inserted now id d ∷ [])
      else (throws foreign_key, rows)

  unfoldable pub create : ℕ → Text → CreateAttestationInput → Rows → Outcome Attestation × Rows
  create now id d rows =
      insert_if_new now id d (get_by_business_and_period d.business_id d.period rows) rows

  -- `others n` is what other clients do to the rows before the `n`-th statement of the call, `ids n` the
  -- id that the database draws for an insertion there.
  module _ (now : ℕ) (ids : ℕ → Text) (others : ℕ → Rows → Rows) (return_existing retry : Bool)
      (d : CreateAttestationInput) where
    -- After a duplicate, with attempts left: the result of the look-up, or one more attempt.
    abbrev pub rechecked :
        (Rows → Outcome Attestation × Rows) → Option Attestation → Rows → Outcome Attestation × Rows
    rechecked again (some r) rows = (if return_existing then ok r else throws duplicate, rows)
    rechecked again none rows = again rows

    abbrev pub on_error :
        (Rows → Outcome Attestation × Rows)
        → Bool
        → ℕ
        → Outcome Attestation × Rows
        → Outcome Attestation × Rows
    on_error again more n (ok r, rows) = (ok r, rows)
    on_error again more n (throws duplicate, rows) =
        if retry && more
        then rechecked again
            (get_by_business_and_period d.business_id d.period (others (n + 1) rows))
            (others (n + 1) rows)
        else (throws duplicate, rows)
    on_error again more n (throws foreign_key, rows) = (throws foreign_key, rows)
    on_error again more n (throws version_conflict, rows) = (throws version_conflict, rows)
    on_error again more n (throws no_valid_fields, rows) = (throws no_valid_fields, rows)
    on_error again more n (throws null_error, rows) = (throws null_error, rows)

    -- The loop with the attempts that are left, before statement `n`.
    unfoldable pub attempts : ℕ → ℕ → Rows → Outcome Attestation × Rows
    attempts zero n rows = (throws null_error, rows)
    attempts (suc k) n rows =
        on_error (attempts k (n + 2)) (is_positive k) n (create now (ids n) d (others n rows))

    abbrev pub checked : ℕ → Option Attestation → Rows → Outcome Attestation × Rows
    checked max_retries (some r) rows = (if return_existing then ok r else throws duplicate, rows)
    checked max_retries none rows = attempts (if retry then max_retries else 1) 1 rows

    unfoldable pub create_with_conflict_check : ℕ → Rows → Outcome Attestation × Rows
    create_with_conflict_check max_retries rows =
        checked max_retries (get_by_business_and_period d.business_id d.period (others 0 rows))
          (others 0 rows)
