-- ===== src/Attestations/Versions/Locking.antt =====
-- Optimistic locking in src/repositories/attestationRepository.ts.
use veritasor_backend.Prelude.{
  ℕ, ◌≡◌, refl, Bool, false, Option, none, some, List, [], ◌∷◌, ◌++◌, inl, inr, Bool-cases,
}
use veritasor_backend.Prelude.Text.{Text, text_eq_comm}
use veritasor_backend.Attestations.{
  Attestation, AttestationStatus, pending, submitted, confirmed, failed, revoked,
  CreateAttestationInput, Outcome, ok, throws, has_id, is_of, selects, select, update_where,
  updated_or_conflict, remove_rows, Changes, changed, status_change, is_empty, update,
  update_status, remove, ReadConsistency, local, strong, ChainRead, raised, missing, recorded,
  first_or, caught_up, verify_consistency, read_back, get_by_id, get_by_business_and_period,
}
use veritasor_backend.Attestations.Creation.{inserted, insert_if_new, create}
use veritasor_backend.Attestations.Versions.{
  UniqueBy, same_id, same_key, Step, creates, updates, updates_status, reads, removes, Run, here,
  next,
}
use veritasor_backend.Attestations.Versions.Rows.{
  Absent-select, UniqueBy-append, UniqueBy-remove_rows, UniqueBy-update_where,
}

pub updated_or_conflict-rows :
    (id : Text) (expected : Option ℕ) (rows : List Attestation)
    (p : Option Attestation × List Attestation)
    → (updated_or_conflict id expected rows p).1 ≡ p.1
unfolding updated_or_conflict
updated_or_conflict-rows id none rows (none, rows') = refl
updated_or_conflict-rows id none rows (some r, rows') = refl
updated_or_conflict-rows id (some v) rows (none, rows') = refl
updated_or_conflict-rows id (some v) rows (some r, rows') = refl

first_or-rows :
    (a : Attestation) (p : Outcome (Option Attestation) × List Attestation) → (first_or a p).1 ≡ p.1
first_or-rows a (ok none, rows) = refl
first_or-rows a (ok (some b), rows) = refl
first_or-rows a (throws e, rows) = refl

-- A predicate that every statement keeps is kept by every call.
module _ (is_business barred : Text → Bool) (P : List Attestation → Type 0)
    (P-update_where : (sel : Attestation → Bool) (now : ℕ) (c : Changes) (rows : List Attestation)
      → P rows
      → P (update_where sel (changed now c) rows).1)
    (P-remove_rows : (id : Text) (rows : List Attestation) → P rows → P (remove_rows id rows))
    (P-inserted : (now : ℕ) (id : Text) (d : CreateAttestationInput) (rows : List Attestation)
      → select (has_id id) rows ≡ none
      → barred id ≡ false
      → select (is_of d.business_id d.period) rows ≡ none
      → P rows
      → P (rows ++ inserted now id d ∷ [])) where
  insert_if_new-P :
      (now : ℕ) (id : Text) (d : CreateAttestationInput) (found : Option Attestation)
      (rows : List Attestation)
      → select (has_id id) rows ≡ none
      → barred id ≡ false
      → select (is_of d.business_id d.period) rows ≡ found
      → P rows
      → P (insert_if_new is_business now id d found rows).1
  unfolding insert_if_new
  insert_if_new-P now id d (some r) rows new free e h = h
  insert_if_new-P now id d none rows new free e h = elim (Bool-cases (is_business d.business_id)) [
    | inl known ↦ rw known (P-inserted now id d rows new free e h)
    | inr other ↦ rw other h
  ]

  update_status-P :
      (now : ℕ) (id : Text) (status : AttestationStatus) (expected : Option ℕ)
      (rows : List Attestation)
      → P rows
      → P (update_status now id status expected rows).1
  unfolding update_status
  update_status-P now id status expected rows h =
      rw
        (updated_or_conflict-rows id expected rows
          (update_where (selects id expected) (changed now (status_change status)) rows))
        (P-update_where (selects id expected) now (status_change status) rows h)

  update-P :
      (now : ℕ) (id : Text) (c : Changes) (expected : Option ℕ) (rows : List Attestation)
      → P rows
      → P (update now id c expected rows).1
  unfolding update
  update-P now id c expected rows h = elim (Bool-cases (is_empty c)) [
    | inl e ↦ rw e h
    | inr e ↦
        rw
          (
            e,
            updated_or_conflict-rows id expected rows
                (update_where (selects id expected) (changed now c) rows),
          )
          (P-update_where (selects id expected) now c rows h)
  ]

  caught_up-P :
      (now : ℕ) (status : AttestationStatus) (r : Attestation) (rows : List Attestation)
      → P rows
      → P (caught_up now status r rows).1
  unfolding caught_up
  caught_up-P now pending r rows h =
      rw (first_or-rows r (update_status now r.id confirmed none rows))
        (update_status-P now r.id confirmed none rows h)
  caught_up-P now submitted r rows h =
      rw (first_or-rows r (update_status now r.id confirmed none rows))
        (update_status-P now r.id confirmed none rows h)
  caught_up-P now confirmed r rows h = h
  caught_up-P now failed r rows h = h
  caught_up-P now revoked r rows h = h

  verify_consistency-P :
      (now : ℕ) (answer : ChainRead) (r : Attestation) (rows : List Attestation)
      → P rows
      → P (verify_consistency now answer r rows).1
  unfolding verify_consistency
  verify_consistency-P now raised r rows h = h
  verify_consistency-P now missing r rows h = h
  verify_consistency-P now (recorded root) r rows h = caught_up-P now r.status r rows h

  read_back-P :
      (now : ℕ) (chain : Text → Text → ChainRead) (consistency : ReadConsistency)
      (found : Option Attestation) (rows : List Attestation)
      → P rows
      → P (read_back now chain consistency found rows).1
  unfolding read_back
  read_back-P now chain consistency none rows h = h
  read_back-P now chain local (some r) rows h = h
  read_back-P now chain strong (some r) rows h =
      verify_consistency-P now (chain r.business_id r.period) r rows h

  Step-P : {s t : List Attestation} → Step is_business barred s t → P s → P t
  unfolding create get_by_business_and_period get_by_id remove
  Step-P {s} (creates now id d new free) h =
      insert_if_new-P now id d (select (is_of d.business_id d.period) s) s new free refl h
  Step-P {s} (updates now id c expected) h = update-P now id c expected s h
  Step-P {s} (updates_status now id status expected) h = update_status-P now id status expected s h
  Step-P {s} (reads now chain consistency id) h =
      read_back-P now chain consistency (select (has_id id) s) s h
  Step-P {s} (removes id) h = P-remove_rows id s h

  pub Run-P : {s t : List Attestation} → Run is_business barred s t → P s → P t
  Run-P here h = h
  Run-P (next r step) h = Step-P step (Run-P r h)

same_id_comm : (a b : Attestation) → same_id a b ≡ same_id b a
same_id_comm a b = text_eq_comm b.id a.id

same_key_comm : (a b : Attestation) → same_key a b ≡ same_key b a
same_key_comm a b =
    rw (text_eq_comm b.business_id a.business_id, text_eq_comm b.period a.period) refl

-- Whatever clients do, no two attestations have one id, or one business and period.
pub Run-UniqueBy :
    (is_business : Text → Bool) {rows : List Attestation}
    → Run is_business (λ id. false) [] rows
    → UniqueBy same_id rows × UniqueBy same_key rows
unfolding changed inserted
Run-UniqueBy is_business run =
    Run-P is_business (λ id. false) (λ rows. UniqueBy same_id rows × UniqueBy same_key rows)
      (λ sel now c rows h. (
        UniqueBy-update_where sel now c same_id (λ r. refl) (λ r s. refl) rows h.0,
        UniqueBy-update_where sel now c same_key (λ r. refl) (λ r s. refl) rows h.1,
      ))
      (λ id rows h.
        (UniqueBy-remove_rows same_id id rows h.0, UniqueBy-remove_rows same_key id rows h.1))
      (λ now id d rows new free unkeyed h. (
        UniqueBy-append same_id same_id_comm rows (inserted now id d) h.0
            (Absent-select (has_id id) rows new),
        UniqueBy-append same_key same_key_comm rows (inserted now id d) h.1
            (Absent-select (is_of d.business_id d.period) rows unkeyed),
      ))
      run (tt, tt)
