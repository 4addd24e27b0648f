-- ===== src/Attestations/Tests.antt =====
-- Concrete runs of the attestations.
use veritasor_backend.Prelude.{
  ◌↔◌, ℕ, zero, suc, ◌≡◌, ◌≢◌, refl, inl, true, false, Option, none, some, List, [], ◌∷◌,
}
use veritasor_backend.Prelude.Text.{Text, text_eq}
use veritasor_backend.Attestations.{
  Attestation, pending, confirmed, revoked, CreateAttestationInput, ok, select, update_where,
  updated_or_conflict, changed, status_change, update, strong, recorded, get_by_business_and_period,
  get_by_id,
}
use veritasor_backend.Attestations.Creation.{
  inserted, insert_if_new, create, attempts, create_with_conflict_check,
}
use veritasor_backend.Attestations.Creation.Lookup.{create_with_conflict_check-found}
use veritasor_backend.Attestations.Reads.{get_by_id-confirmed}
use veritasor_backend.Attestations.Revocation.{World}
use veritasor_backend.Attestations.Revocation.Single.{
  StoredAttestation, done, find_by_id, revoke_attestation, MayRevoke, revoke_attestation_iff,
}
use veritasor_backend.Attestations.Versions.{Step, Run}
use veritasor_backend.Attestations.Versions.LostUpdates.{no_lost_update}

abbrev input : CreateAttestationInput
input = record {
  business_id = b'b' ∷ [];
  period = b'p' ∷ [];
  merkle_root = b'r' ∷ [];
  tx_hash = b't' ∷ [];
  status = pending;
}

abbrev row : Attestation
row = record {
  id = b'i' ∷ [];
  business_id = b'b' ∷ [];
  period = b'p' ∷ [];
  merkle_root = b'r' ∷ [];
  tx_hash = b't' ∷ [];
  status = pending;
  version = 1;
  created_at = 5;
  updated_at = 5;
}

one_row-Run : Run (λ b. true) (λ id. false) [] (row ∷ [])
unfolding select get_by_business_and_period inserted insert_if_new create
one_row-Run = Run.next Run.here (Step.creates 5 (b'i' ∷ []) input refl refl)

no_lost_update_example :
    ((update 9
        (b'i' ∷ [])
        (status_change revoked)
        (some 1)
        (update 7 (b'i' ∷ []) (status_change confirmed) (some 1) (row ∷ [])).1).0
      ≢ ok (some row))
    × ((update 9
          (b'i' ∷ [])
          (status_change revoked)
          (some 1)
          (update 7 (b'i' ∷ []) (status_change confirmed) (some 1) (row ∷ [])).1).1
        ≡ (update 7 (b'i' ∷ []) (status_change confirmed) (some 1) (row ∷ [])).1)
unfolding text_eq update updated_or_conflict update_where changed
no_lost_update_example =
    no_lost_update (λ b. true) (b'i' ∷ []) 1 7 9 (status_change confirmed) (status_change revoked)
      (changed 7 (status_change confirmed) row) row one_row-Run refl Run.here

-- Another client inserts the attestation between the look-up and the insertion.
abbrev raced : ℕ → List Attestation → List Attestation
raced zero rows = rows
raced (suc k) rows = row ∷ []

create_with_conflict_check-found_example :
    get_by_business_and_period
      (b'b' ∷ [])
      (b'p' ∷ [])
      (create_with_conflict_check (λ b. true) 8 (λ n. b'j' ∷ []) raced true true input 3 []).1
    ≡ some row
unfolding text_eq select get_by_business_and_period insert_if_new create attempts
    create_with_conflict_check
create_with_conflict_check-found_example =
    create_with_conflict_check-found (λ b. true) 8 (λ n. b'j' ∷ []) raced true true input 3 [] row
      refl

-- The chain has another root.
get_by_id-confirmed_example :
    (get_by_id 9 (λ b p. recorded (b'x' ∷ [])) strong (b'i' ∷ []) (row ∷ [])).0
    ≡ some (changed 9 (status_change confirmed) row)
unfolding text_eq select
get_by_id-confirmed_example =
    get_by_id-confirmed 9 (λ b p. recorded (b'x' ∷ [])) (b'i' ∷ []) (b'x' ∷ []) row (row ∷ []) refl
      (inl refl) refl

abbrev world : World
world = record { rows = row ∷ []; trail = [] }

abbrev stored : StoredAttestation
stored = record {
  id = b'i' ∷ [];
  business_id = b'b' ∷ [];
  period = b'p' ∷ [];
  attested_at = [];
  status = none;
  revoked_at = none;
  revoke_reason = none;
}

abbrev owner : Text → Option Text
owner b = some (b'u' ∷ [])

revoke_attestation_iff_example :
    ((revoke_attestation owner (λ url. true) [] (b'i' ∷ []) (b'u' ∷ []) (stored ∷ [])).outcome
      ≡ done)
    ↔ ((a : StoredAttestation) × (find_by_id (b'i' ∷ []) (stored ∷ []) ≡ some a)
        × MayRevoke owner (λ url. true) [] (b'u' ∷ []) a)
revoke_attestation_iff_example =
    revoke_attestation_iff owner (λ url. true) [] (b'i' ∷ []) (b'u' ∷ []) (stored ∷ [])
