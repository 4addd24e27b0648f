-- ===== src/Attestations/Revocation.antt =====
-- `revokeBatchAttestations` of src/services/attestation/revokeBatch.ts over the rows and the audit log,
-- and `revokeAttestation` of src/services/attestation/revoke.ts over the records in memory of
-- src/repositories/attestation.ts. The chain and other services are arguments.
pub mod Batch
pub mod Single
use veritasor_backend.Prelude.{
  ℕ, Bool, true, false, not, ◌&&◌, Option, none, some, List, [], ◌∷◌, ◌++◌, length, ltb, leb,
  if◌then◌else◌,
}
use veritasor_backend.Prelude.Text.{Text, text_eq}
use veritasor_backend.Attestations.{
  Attestation, AttestationStatus, pending, submitted, confirmed, failed, revoked, Rows, has_id,
  select, update_status,
}

pub data BatchError : Type 0 where
  nothing_provided over_cap chain_failed commit_failed : BatchError
  not_found already_revoked : Text → BatchError

pub data Result (A : Type 0) : Type 0 where
  ok : A → Result A
  throws : BatchError → Result A

-- The entry of the audit log, all of which are of a success in a batch.
pub record AuditEntry : Type 0 where
  pub user_id : Text
  pub resource_id : Text

-- The rows as the transaction sees them, and the audit log, which is no part of the transaction.
pub record World : Type 0 where
  pub rows : Rows
  pub trail : List AuditEntry

abbrev pub is_revoked : AttestationStatus → Bool
is_revoked pending = false
is_revoked submitted = false
is_revoked confirmed = false
is_revoked failed = false
is_revoked revoked = true

abbrev pub prepend :
    Attestation → Result (List Attestation) × World → Result (List Attestation) × World
prepend a (ok l, w) = (ok (a ∷ l), w)
prepend a (throws e, w) = (throws e, w)

module _ (now : ℕ) (admin_id : Text) where
  unfoldable pub mark_revoked : Text → World → World
  mark_revoked id w = record {
    rows = (update_status now id revoked none w.rows).1;
    trail = w.trail ++ record { user_id = admin_id; resource_id = id } ∷ [];
  }

  abbrev pub revoke_found :
      (World → Result (List Attestation) × World)
      → Text
      → Option Attestation
      → World
      → Result (List Attestation) × World
  revoke_found others id none w = (throws (not_found id), w)
  revoke_found others id (some a) w =
      if is_revoked a.status
      then (throws (already_revoked id), w)
      else prepend a (others (mark_revoked id w))

  -- The loop over the ids.
  unfoldable pub revoke_each : List Text → World → Result (List Attestation) × World
  revoke_each [] w = (ok [], w)
  revoke_each (id ∷ ids) w = revoke_found (revoke_each ids) id (select (has_id id) w.rows) w

  -- What follows the loop; an error rolls the rows back.
  unfoldable pub finish :
      (List Attestation → Bool)
      → Bool
      → Rows
      → Result (List Attestation) × World
      → Result (List Attestation) × World
  finish on_chain commits before (throws e, w) = (throws e, record w { rows = before })
  finish on_chain commits before (ok l, w) =
      if on_chain l
      then (if commits then (ok l, w) else (throws commit_failed, record w { rows = before }))
      else (throws chain_failed, record w { rows = before })

  -- `on_chain` is whether the transaction on Soroban is confirmed, and true without a secret.
  unfoldable pub revoke_batch_attestations :
      (List Attestation → Bool) → Bool → List Text → World → Result (List Attestation) × World
  revoke_batch_attestations on_chain commits [] w = (throws nothing_provided, w)
  revoke_batch_attestations on_chain commits (id ∷ ids) w =
      if ltb 500 (length (id ∷ ids))
      then (throws over_cap, w)
      else finish on_chain commits w.rows (revoke_each (id ∷ ids) w)
