-- ===== src/Attestations/Creation/Lookup.antt =====
-- What `createWithConflictCheck` of src/repositories/attestationRepository.ts returns is what is found.
use veritasor_backend.Prelude.{
  ℕ, zero, suc, ◌+◌, ◌≡◌, refl, Bool, true, ◌&&◌, Option, none, some, List, [], ◌∷◌, ◌++◌, inl, inr,
  if◌then◌else◌, Bool-cases,
}
use veritasor_backend.Prelude.Text.{Text, text_eq_refl}
use veritasor_backend.Attestations.{
  Attestation, CreateAttestationInput, duplicate, foreign_key, version_conflict, no_valid_fields,
  null_error, Outcome, ok, throws, is_of, select, get_by_business_and_period,
}
use veritasor_backend.Attestations.Creation.{
  inserted, insert_if_new, create, rechecked, on_error, is_positive, attempts, checked,
  create_with_conflict_check,
}

select-append :
    (test : Attestation → Bool) (rows : List Attestation) (r : Attestation)
    → select test rows ≡ none
    → test r ≡ true
    → select test (rows ++ r ∷ []) ≡ some r
unfolding select
select-append test [] r h e = rw e refl
select-append test (x ∷ rows) r h e = elim (Bool-cases (test x)) [
  | inl f ↦ let bad : some x ≡ none = rw f at h in absurd (cc)
  | inr f ↦ rw (f, select-append test rows r (rw f at h) e) refl
]

module _ (is_business : Text → Bool) (now : ℕ) (ids : ℕ → Text)
    (others : ℕ → List Attestation → List Attestation) (return_existing retry : Bool)
    (d : CreateAttestationInput) where
  -- A result that is what the look-up of the business and period finds.
  abbrev IsFound : Outcome Attestation × List Attestation → Type 0
  IsFound (ok r, rows) = get_by_business_and_period d.business_id d.period rows ≡ some r
  IsFound (throws e, rows) = Unit {0}

  insert_if_new-IsFound :
      (id : Text) (found : Option Attestation) (rows : List Attestation)
      → get_by_business_and_period d.business_id d.period rows ≡ found
      → IsFound (insert_if_new is_business now id d found rows)
  unfolding insert_if_new get_by_business_and_period inserted
  insert_if_new-IsFound id (some r) rows e = tt
  insert_if_new-IsFound id none rows e = elim (Bool-cases (is_business d.business_id)) [
    | inl known ↦ rw known (
        select-append (is_of d.business_id d.period) rows _ e
          (rw (text_eq_refl d.business_id, text_eq_refl d.period) refl))
    | inr other ↦ rw other tt
  ]

  returned-IsFound :
      (r : Attestation) (rows : List Attestation)
      → get_by_business_and_period d.business_id d.period rows ≡ some r
      → IsFound (if return_existing then ok r else throws duplicate, rows)
  returned-IsFound r rows e = elim (Bool-cases return_existing) [
    | inl returns ↦ rw returns e
    | inr other ↦ rw other tt
  ]

  module _ (again : List Attestation → Outcome Attestation × List Attestation)
      (again-IsFound : (rows : List Attestation) → IsFound (again rows)) where
    rechecked-IsFound :
        (found : Option Attestation) (rows : List Attestation)
        → get_by_business_and_period d.business_id d.period rows ≡ found
        → IsFound (rechecked is_business now ids others return_existing retry d again found rows)
    rechecked-IsFound (some r) rows e = returned-IsFound r rows e
    rechecked-IsFound none rows e = again-IsFound rows

    on_error-IsFound :
        (more : Bool) (n : ℕ) (p : Outcome Attestation × List Attestation)
        → IsFound p
        → IsFound (on_error is_business now ids others return_existing retry d again more n p)
    on_error-IsFound more n (ok r, rows) h = h
    on_error-IsFound more n (throws duplicate, rows) h = elim (Bool-cases (retry && more)) [
      | inl e ↦ rw e (rechecked-IsFound _ (others (n + 1) rows) refl)
      | inr e ↦ rw e tt
    ]
    on_error-IsFound more n (throws foreign_key, rows) h = tt
    on_error-IsFound more n (throws version_conflict, rows) h = tt
    on_error-IsFound more n (throws no_valid_fields, rows) h = tt
    on_error-IsFound more n (throws null_error, rows) h = tt

  attempts-IsFound :
      (k n : ℕ) (rows : List Attestation)
      → IsFound (attempts is_business now ids others return_existing retry d k n rows)
  unfolding attempts create
  attempts-IsFound zero n rows = tt
  attempts-IsFound (suc k) n rows =
      on_error-IsFound (attempts is_business now ids others return_existing retry d k (n + 2))
        (attempts-IsFound k (n + 2)) (is_positive k) n
        (create is_business now (ids n) d (others n rows))
        (insert_if_new-IsFound (ids n) _ (others n rows) refl)

  checked-IsFound :
      (max_retries : ℕ) (found : Option Attestation) (rows : List Attestation)
      → get_by_business_and_period d.business_id d.period rows ≡ found
      → IsFound (checked is_business now ids others return_existing retry d max_retries found rows)
  checked-IsFound max_retries (some r) rows e = returned-IsFound r rows e
  checked-IsFound max_retries none rows e =
      attempts-IsFound (if retry then max_retries else 1) 1 rows

  found_of :
      (p : Outcome Attestation × List Attestation) (r : Attestation)
      → IsFound p
      → p.0 ≡ ok r
      → get_by_business_and_period d.business_id d.period p.1 ≡ some r
  found_of (ok x, rows) r h e = cc
  found_of (throws e', rows) r h e = absurd (cc)

  -- An attestation that the call returns, a new one or one that was there, is what a look-up of its
  -- business and period finds when the call ends, whatever other clients do between its statements.
  pub create_with_conflict_check-found :
      (max_retries : ℕ) (rows : List Attestation) (r : Attestation)
      → (create_with_conflict_check is_business now ids others return_existing retry d max_retries
          rows).0
        ≡ ok r
      → get_by_business_and_period d.business_id d.period
          (create_with_conflict_check is_business now ids others return_existing retry d max_retries
            rows).1
        ≡ some r
  unfolding create_with_conflict_check
  create_with_conflict_check-found max_retries rows r e =
      found_of
        (create_with_conflict_check is_business now ids others return_existing retry d max_retries
          rows)
        r (checked-IsFound max_retries _ (others 0 rows) refl) e
