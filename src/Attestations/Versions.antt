-- ===== src/Attestations/Versions.antt =====
-- The keys and the versions of the rows of src/repositories/attestationRepository.ts.
pub mod Rows
pub mod Locking
pub mod LostUpdates
use veritasor_backend.Prelude.{
  ℕ, ◌+◌, ◌<◌, ◌≡◌, refl, sym, ◌∙◌, ap, Bool, true, false, ◌&&◌, Option, none, some, List, [], ◌∷◌,
  ◌++◌, inl, inr, arith, if◌then◌else◌, Bool-cases,
}
use veritasor_backend.Prelude.Text.{Text, text_eq, text_eq_comm}
use veritasor_backend.Attestations.{
  Attestation, AttestationStatus, CreateAttestationInput, Outcome, has_id, is_of, select,
  update_where, remove_rows, Changes, changed, update, update_status, remove, ReadConsistency,
  ChainRead, get_by_id,
}
use veritasor_backend.Attestations.Creation.{create}

-- No row passes the test.
abbrev pub Absent : (Attestation → Bool) → List Attestation → Type 0
Absent test [] = Unit {0}
Absent test (r ∷ rows) = (test r ≡ false) × Absent test rows

-- No two rows are the same.
abbrev pub UniqueBy : (Attestation → Attestation → Bool) → List Attestation → Type 0
UniqueBy same [] = Unit {0}
UniqueBy same (r ∷ rows) = Absent (same r) rows × UniqueBy same rows

abbrev pub same_id : Attestation → Attestation → Bool
same_id r = has_id r.id

abbrev pub same_key : Attestation → Attestation → Bool
same_key r = is_of r.business_id r.period

-- What clients do to the rows. An id that is drawn is new among the rows, and is none that is barred.
pub data Step (is_business barred : Text → Bool) (rows : List Attestation)
    : List Attestation → Type 0 where
  creates :
      (now : ℕ) (id : Text) (d : CreateAttestationInput)
      → select (has_id id) rows ≡ none
      → barred id ≡ false
      → Step is_business barred rows (create is_business now id d rows).1
  updates :
      (now : ℕ) (id : Text) (c : Changes) (expected : Option ℕ)
      → Step is_business barred rows (update now id c expected rows).1
  updates_status :
      (now : ℕ) (id : Text) (status : AttestationStatus) (expected : Option ℕ)
      → Step is_business barred rows (update_status now id status expected rows).1
  reads :
      (now : ℕ) (chain : Text → Text → ChainRead) (consistency : ReadConsistency) (id : Text)
      → Step is_business barred rows (get_by_id now chain consistency id rows).1
  removes : (id : Text) → Step is_business barred rows (remove id rows).1

pub data Run (is_business barred : Text → Bool) (rows : List Attestation)
    : List Attestation → Type 0 where
  here : Run is_business barred rows rows
  next :
      {s t : List Attestation}
      → Run is_business barred rows s
      → Step is_business barred s t
      → Run is_business barred rows t
