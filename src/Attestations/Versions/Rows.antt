-- ===== src/Attestations/Versions/Rows.antt =====
-- What the statements of src/repositories/attestationRepository.ts keep of the rows.
use veritasor_backend.Prelude.{
  ℕ, ◌≡◌, ◌∙◌, Bool, true, false, none, some, List, [], ◌∷◌, ◌++◌, inl, inr, Bool-cases,
}
use veritasor_backend.Prelude.Text.{Text}
use veritasor_backend.Attestations.{
  Attestation, has_id, select, update_where, remove_rows, Changes, changed,
}
use veritasor_backend.Attestations.Versions.{Absent, UniqueBy}

pub Absent-select :
    (test : Attestation → Bool) (rows : List Attestation)
    → select test rows ≡ none
    → Absent test rows
unfolding select
Absent-select test [] h = tt
Absent-select test (r ∷ rows) h = elim (Bool-cases (test r)) [
  | inl e ↦ let bad : some r ≡ none = rw e at h in absurd (cc)
  | inr e ↦ (e, Absent-select test rows (rw e at h))
]

pub Absent-append :
    (test : Attestation → Bool) (rows : List Attestation) (r : Attestation)
    → Absent test rows
    → test r ≡ false
    → Absent test (rows ++ r ∷ [])
Absent-append test [] r v e = (e, tt)
Absent-append test (x ∷ rows) r v e = (v.0, Absent-append test rows r v.1 e)

pub Absent-remove_rows :
    (test : Attestation → Bool) (id : Text) (rows : List Attestation)
    → Absent test rows
    → Absent test (remove_rows id rows)
unfolding remove_rows
Absent-remove_rows test id [] v = tt
Absent-remove_rows test id (r ∷ rows) v = elim (Bool-cases (has_id id r)) [
  | inl e ↦ rw e (Absent-remove_rows test id rows v.1)
  | inr e ↦ rw e (v.0, Absent-remove_rows test id rows v.1)
]

module _ (same : Attestation → Attestation → Bool)
    (same_comm : (a b : Attestation) → same a b ≡ same b a) where
  pub UniqueBy-append :
      (rows : List Attestation) (r : Attestation)
      → UniqueBy same rows
      → Absent (same r) rows
      → UniqueBy same (rows ++ r ∷ [])
  UniqueBy-append [] r v new = (tt, tt)
  UniqueBy-append (x ∷ rows) r v new =
      (Absent-append (same x) rows r v.0 (same_comm x r ∙ new.0), UniqueBy-append rows r v.1 new.1)

pub UniqueBy-remove_rows :
    (same : Attestation → Attestation → Bool) (id : Text) (rows : List Attestation)
    → UniqueBy same rows
    → UniqueBy same (remove_rows id rows)
unfolding remove_rows
UniqueBy-remove_rows same id [] v = tt
UniqueBy-remove_rows same id (r ∷ rows) v = elim (Bool-cases (has_id id r)) [
  | inl e ↦ rw e (UniqueBy-remove_rows same id rows v.1)
  | inr e ↦ rw e (Absent-remove_rows (same r) id rows v.0, UniqueBy-remove_rows same id rows v.1)
]

-- A change that the tests do not see.
module _ (sel : Attestation → Bool) (now : ℕ) (c : Changes) where
  pub Absent-update_where :
      (test : Attestation → Bool)
      → ((r : Attestation) → test (changed now c r) ≡ test r)
      → (rows : List Attestation) → Absent test rows
      → Absent test (update_where sel (changed now c) rows).1
  unfolding update_where
  Absent-update_where test blind [] v = tt
  Absent-update_where test blind (r ∷ rows) v = elim (Bool-cases (sel r)) [
    | inl e ↦ rw e (blind r ∙ v.0, Absent-update_where test blind rows v.1)
    | inr e ↦ rw e (v.0, Absent-update_where test blind rows v.1)
  ]

  pub UniqueBy-update_where :
      (same : Attestation → Attestation → Bool)
      → ((r : Attestation) → same (changed now c r) ≡ same r)
      → ((r s : Attestation) → same r (changed now c s) ≡ same r s)
      → (rows : List Attestation) → UniqueBy same rows
      → UniqueBy same (update_where sel (changed now c) rows).1
  unfolding update_where
  UniqueBy-update_where same left right [] v = tt
  UniqueBy-update_where same left right (r ∷ rows) v = elim (Bool-cases (sel r)) [
    | inl e ↦
        rw (e, left r)
          (
            Absent-update_where (same r) (right r) rows v.0,
            UniqueBy-update_where same left right rows v.1,
          )
    | inr e ↦ rw e (
      Absent-update_where (same r) (right r) rows v.0,
      UniqueBy-update_where same left right rows v.1,
    )
  ]

pub select_sound :
    (test : Attestation → Bool) {r : Attestation} (rows : List Attestation)
    → select test rows ≡ some r
    → test r ≡ true
unfolding select
select_sound test [] h = absurd (cc)
select_sound test {r} (x ∷ rows) h = elim (Bool-cases (test x)) [
  | inl e ↦ let p : x ≡ r = (let q : some x ≡ some r = rw e at h in cc) in rw (← p) e
  | inr e ↦ select_sound test rows (rw e at h)
]
