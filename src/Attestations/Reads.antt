-- ===== src/Attestations/Reads.antt =====
-- A strong read of src/repositories/attestationRepository.ts.
use veritasor_backend.Prelude.{
  ℕ, ◌≡◌, ◌⊎◌, ap, ◌∙◌, Option, none, some, List, [], ◌∷◌, inl, inr, Bool-cases,
}
use veritasor_backend.Prelude.Text.{Text, text_eq→≡}
use veritasor_backend.Attestations.{
  Attestation, AttestationStatus, pending, submitted, confirmed, failed, revoked, has_id, selects,
  select, update_where, updated_or_conflict, changed, status_change, update_status, strong,
  ChainRead, recorded, first_or, caught_up, verify_consistency, read_back, get_by_id,
}
use veritasor_backend.Attestations.Versions.Rows.{select_sound}

update_where-select :
    (id : Text) (change : Attestation → Attestation) (r : Attestation) (rows : List Attestation)
    → select (has_id id) rows ≡ some r
    → (update_where (selects id none) change rows).0 ≡ some (change r)
unfolding select update_where
update_where-select id change r [] h = absurd (cc)
update_where-select id change r (x ∷ rows) h = elim (Bool-cases (has_id id x)) [
  | inl e ↦
      let p : x ≡ r = (let same : some x ≡ some r = rw e at h in cc) in
      rw e (ap (λ y. some (change y)) p)
  | inr e ↦ rw e (update_where-select id change r rows (rw e at h))
]

confirm :
    (now : ℕ) (r : Attestation) (rows : List Attestation)
    → select (has_id r.id) rows ≡ some r
    → (first_or r (update_status now r.id confirmed none rows)).0
      ≡ changed now (status_change confirmed) r
unfolding update_status updated_or_conflict changed
confirm now r rows found =
    given (update_where (selects r.id none) (changed now (status_change confirmed)) rows)
      (update_where-select r.id (changed now (status_change confirmed)) r rows found)
  where
    given :
        (p : Option Attestation × List Attestation)
        → p.0 ≡ some (changed now (status_change confirmed) r)
        → (first_or r (updated_or_conflict r.id none rows p)).0
          ≡ changed now (status_change confirmed) r
    given (none, rows') e = absurd (cc)
    given (some a, rows') e = cc

caught_up-confirmed :
    (now : ℕ) (status : AttestationStatus) (r : Attestation) (rows : List Attestation)
    → select (has_id r.id) rows ≡ some r
    → (status ≡ pending) ⊎ (status ≡ submitted)
    → (caught_up now status r rows).0 ≡ changed now (status_change confirmed) r
unfolding caught_up
caught_up-confirmed now pending r rows found h = confirm now r rows found
caught_up-confirmed now submitted r rows found h = confirm now r rows found
caught_up-confirmed now confirmed r rows found h = absurd (elim h [ inl e ↦ cc | inr e ↦ cc ])
caught_up-confirmed now failed r rows found h = absurd (elim h [ inl e ↦ cc | inr e ↦ cc ])
caught_up-confirmed now revoked r rows found h = absurd (elim h [ inl e ↦ cc | inr e ↦ cc ])

-- Whatever root the chain has for its business and period, a strong read of a pending or submitted
-- attestation confirms it, with the local root.
pub get_by_id-confirmed :
    (now : ℕ) (chain : Text → Text → ChainRead) (id root : Text) (r : Attestation)
    (rows : List Attestation)
    → select (has_id id) rows ≡ some r
    → (r.status ≡ pending) ⊎ (r.status ≡ submitted)
    → chain r.business_id r.period ≡ recorded root
    → (get_by_id now chain strong id rows).0 ≡ some (changed now (status_change confirmed) r)
unfolding get_by_id read_back verify_consistency
get_by_id-confirmed now chain id root r rows found open_status answer =
    let same : r.id ≡ id = text_eq→≡ r.id id (select_sound (has_id id) rows found) in
    let found' : select (has_id r.id) rows ≡ some r =
      ap (λ i. select (has_id i) rows) same ∙ found in
    rw (found, answer) (ap some (caught_up-confirmed now r.status r rows found' open_status))
