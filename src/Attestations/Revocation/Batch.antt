-- ===== src/Attestations/Revocation/Batch.antt =====
-- A batch of src/services/attestation/revokeBatch.ts is revoked as a whole or not at all.
use veritasor_backend.Prelude.{ℕ, ◌≤◌, ◌<◌, ◌≡◌, some, List, [], ◌∷◌, ◌++◌, length}
use veritasor_backend.Prelude.Text.{Text}
use veritasor_backend.Attestations.{Attestation, revoked, has_id, select}
use veritasor_backend.Attestations.Revocation.{
  nothing_provided, over_cap, chain_failed, commit_failed, not_found, already_revoked, Result, ok,
  throws, AuditEntry, World,
}

-- The first row of the id is revoked.
abbrev pub IsRevoked : Text → List Attestation → Type 0
IsRevoked id rows = (a : Attestation) × (select (has_id id) rows ≡ some a) × (a.status ≡ revoked)

abbrev pub AllRevoked : List Text → List Attestation → Type 0
AllRevoked [] rows = Unit {0}
AllRevoked (id ∷ ids) rows = IsRevoked id rows × AllRevoked ids rows

module _ (now : ℕ) (admin_id : Text) where
  abbrev pub entries : List Text → List AuditEntry
  entries [] = []
  entries (id ∷ ids) = record { user_id = admin_id; resource_id = id } ∷ entries ids

  -- Every id of the batch is revoked, and the log has an entry for each.
  abbrev pub Done : List Text → World → World → Type 0
  Done ids w w' = AllRevoked ids w'.rows × (w'.trail ≡ w.trail ++ entries ids)

  -- The errors of the loop.
  abbrev pub Names : Result (List Attestation) → Type 0
  Names (ok l) = Unit {0}
  Names (throws (not_found id)) = Unit {0}
  Names (throws (already_revoked id)) = Unit {0}
  Names (throws nothing_provided) = ⊥
  Names (throws over_cap) = ⊥
  Names (throws chain_failed) = ⊥
  Names (throws commit_failed) = ⊥

  -- What a batch of the ids has done in each of its endings.
  abbrev pub AllOrNothing : List Text → World → Result (List Attestation) × World → Type 0
  AllOrNothing ids w (ok l, w') = (length ids ≤ 500) × Done ids w w'
  AllOrNothing ids w (throws chain_failed, w') =
      (w'.rows ≡ w.rows) × (w'.trail ≡ w.trail ++ entries ids)
  AllOrNothing ids w (throws commit_failed, w') =
      (w'.rows ≡ w.rows) × (w'.trail ≡ w.trail ++ entries ids)
  AllOrNothing ids w (throws nothing_provided, w') = (ids ≡ []) × (w' ≡ w)
  AllOrNothing ids w (throws over_cap, w') = (500 < length ids) × (w' ≡ w)
  AllOrNothing ids w (throws (not_found id), w') = w'.rows ≡ w.rows
  AllOrNothing ids w (throws (already_revoked id), w') = w'.rows ≡ w.rows
