-- ===== src/Attestations/Versions/LostUpdates.antt =====
-- Of two updates of src/repositories/attestationRepository.ts that expect one version, one is refused.
use veritasor_backend.Prelude.{
  ℕ, ◌≡◌, ◌≢◌, refl, ap, Bool, true, false, ◌&&◌, Option, none, some, List, [], ◌∷◌, inl, inr,
  arith, leb, Bool-cases,
}
use veritasor_backend.Prelude.Text.{Text, text_eq, text_eq→≡, text_eq_comm_false}
use veritasor_backend.Attestations.{
  Attestation, CreateAttestationInput, no_valid_fields, Outcome, ok, throws, has_id, selects,
  select, update_where, updated_or_conflict, conflict, Changes, changed, is_empty, update,
}
use veritasor_backend.Attestations.Creation.{inserted}
use veritasor_backend.Attestations.Versions.{Absent, UniqueBy, same_id, Run}
use veritasor_backend.Attestations.Versions.Rows.{Absent-append, Absent-remove_rows}
use veritasor_backend.Attestations.Versions.Locking.{updated_or_conflict-rows, Run-P, Run-UniqueBy}

-- The row has the id, and a version that is not above `v`.
abbrev pub is_old : Text → ℕ → Attestation → Bool
is_old id v r = has_id id r && leb r.version v

Absent-is_old :
    (id : Text) (v : ℕ) (rows : List Attestation)
    → Absent (has_id id) rows
    → Absent (is_old id v) rows
Absent-is_old id v [] h = tt
Absent-is_old id v (r ∷ rows) h = (rw (h.0) refl, Absent-is_old id v rows h.1)

Absent-selects :
    (id : Text) (v : ℕ) (rows : List Attestation)
    → Absent (is_old id v) rows
    → Absent (selects id (some v)) rows
Absent-selects id v [] h = tt
Absent-selects id v (r ∷ rows) h = (ground (arith, h.0), Absent-selects id v rows h.1)

update_where-Absent :
    (sel : Attestation → Bool) (change : Attestation → Attestation) (rows : List Attestation)
    → Absent sel rows
    → update_where sel change rows ≡ (none, rows)
unfolding update_where
update_where-Absent sel change [] h = refl
update_where-Absent sel change (r ∷ rows) h = rw (h.0, update_where-Absent sel change rows h.1) refl

is_old-changed :
    (id : Text) (v now : ℕ) (c : Changes) (r : Attestation)
    → is_old id v r ≡ false
    → is_old id v (changed now c r) ≡ false
unfolding changed
is_old-changed id v now c r h = ground arith

is_old-update_where :
    (id : Text) (v : ℕ) (sel : Attestation → Bool) (now : ℕ) (c : Changes) (rows : List Attestation)
    → Absent (is_old id v) rows
    → Absent (is_old id v) (update_where sel (changed now c) rows).1
unfolding update_where
is_old-update_where id v sel now c [] h = tt
is_old-update_where id v sel now c (r ∷ rows) h = elim (Bool-cases (sel r)) [
  | inl e ↦ rw e (is_old-changed id v now c r h.0, is_old-update_where id v sel now c rows h.1)
  | inr e ↦ rw e (h.0, is_old-update_where id v sel now c rows h.1)
]

-- The others have other ids.
Absent-has_id :
    (id : Text) (r : Attestation) (rows : List Attestation)
    → has_id id r ≡ true
    → Absent (same_id r) rows
    → Absent (has_id id) rows
Absent-has_id id r rows e h = rw (← text_eq→≡ r.id id e) h

unmatched :
    (id : Text) (expected : Option ℕ) (change : Attestation → Attestation) (r : Attestation)
    (rows : List Attestation)
    → has_id id r ≡ true
    → Absent (same_id r) rows
    → update_where (selects id expected) change rows ≡ (none, rows)
unmatched id expected change r rows e h =
    update_where-Absent (selects id expected) change rows
      (narrowed rows (Absent-has_id id r rows e h))
  where
    narrowed : (l : List Attestation) → Absent (has_id id) l → Absent (selects id expected) l
    narrowed [] h = tt
    narrowed (x ∷ l) h = (rw (h.0) refl, narrowed l h.1)

changed-is_old :
    (id : Text) (v now : ℕ) (c : Changes) (r : Attestation)
    → selects id (some v) r ≡ true
    → (has_id id r ≡ true) × (is_old id v (changed now c r) ≡ false)
unfolding changed
changed-is_old id v now c r e = ground arith

updated-is_old :
    (id : Text) (v now : ℕ) (c : Changes) (a : Attestation) (rows : List Attestation)
    → UniqueBy same_id rows
    → (update_where (selects id (some v)) (changed now c) rows).0 ≡ some a
    → Absent (is_old id v) (update_where (selects id (some v)) (changed now c) rows).1
unfolding update_where
updated-is_old id v now c a [] u h = cc
updated-is_old id v now c a (r ∷ rows) u h = elim (Bool-cases (selects id (some v) r)) [
  | inl e ↦
      let (mine, grown) = changed-is_old id v now c r e in
      rw (e, unmatched id (some v) (changed now c) r rows mine u.0)
        (grown, Absent-is_old id v rows (Absent-has_id id r rows mine u.0))
  | inr e ↦
      let h' : (update_where (selects id (some v)) (changed now c) rows).0 ≡ some a = rw e at h in
      rw e (
        elim (Bool-cases (has_id id r)) [
          | inl mine ↦
              absurd (cc (ap (λ p. p.0) (unmatched id (some v) (changed now c) r rows mine u.0)))
          | inr other ↦ rw other refl
        ],
        updated-is_old id v now c a rows u.1 h',
      )
]

conflict_changes_none : (o : Option Attestation) (a : Attestation) → conflict o ≢ ok (some a)
conflict_changes_none none a h = cc
conflict_changes_none (some r) a h = cc

updated_or_conflict-ok :
    (id : Text) (v : ℕ) (rows : List Attestation) (p : Option Attestation × List Attestation)
    (a : Attestation)
    → (updated_or_conflict id (some v) rows p).0 ≡ ok (some a)
    → p.0 ≡ some a
unfolding updated_or_conflict
updated_or_conflict-ok id v rows (some r, rows') a h = cc
updated_or_conflict-ok id v rows (none, rows') a h =
    absurd (conflict_changes_none (select (has_id id) rows') a h)

-- An update that has changed a row has gone by `update_where`.
update_ok :
    (now : ℕ) (id : Text) (c : Changes) (v : ℕ) (rows : List Attestation) (a : Attestation)
    → (update now id c (some v) rows).0 ≡ ok (some a)
    → (is_empty c ≡ false)
      × ((update_where (selects id (some v)) (changed now c) rows).0 ≡ some a)
      × ((update now id c (some v) rows).1
          ≡ (update_where (selects id (some v)) (changed now c) rows).1)
unfolding update
update_ok now id c v rows a h = elim (Bool-cases (is_empty c)) [
  | inl e ↦
      let bad : ◌≡◌ {A = Outcome (Option Attestation)} (throws no_valid_fields) (ok (some a)) =
        rw e at h in
      absurd (cc)
  | inr e ↦ (
    e,
    updated_or_conflict-ok id v rows (update_where (selects id (some v)) (changed now c) rows) a
        (rw e at h),
    rw e (
        updated_or_conflict-rows id (some v) rows
          (update_where (selects id (some v)) (changed now c) rows)),
  )
]

inserted-is_old :
    (id other : Text) (v now : ℕ) (d : CreateAttestationInput)
    → text_eq id other ≡ false
    → is_old id v (inserted now other d) ≡ false
unfolding inserted
inserted-is_old id other v now d free = rw (text_eq_comm_false id other free) refl

-- Without an old row, an update changes nothing.
update_refused :
    (now : ℕ) (id : Text) (c : Changes) (v : ℕ) (rows : List Attestation) (b : Attestation)
    → Absent (is_old id v) rows
    → ((update now id c (some v) rows).0 ≢ ok (some b)) × ((update now id c (some v) rows).1 ≡ rows)
unfolding update updated_or_conflict
update_refused now id c v rows b h = elim (Bool-cases (is_empty c)) [
  | inl e ↦ rw e (λ bad. cc, refl)
  | inr e ↦
      rw
        (
          e,
          update_where-Absent (selects id (some v)) (changed now c) rows
              (Absent-selects id v rows h),
        )
        (conflict_changes_none (select (has_id id) rows) b, refl)
]

-- Once an update that expects a version has changed an attestation, another that expects that version
-- changes nothing and says so, whatever other clients do in between.
pub no_lost_update :
    (is_business : Text → Bool) (id : Text) (v : ℕ) (now now' : ℕ) (c c' : Changes)
    (a b : Attestation) {rows rows' : List Attestation}
    → Run is_business (λ id. false) [] rows
    → (update now id c (some v) rows).0 ≡ ok (some a)
    → Run is_business (text_eq id) (update now id c (some v) rows).1 rows'
    → ((update now' id c' (some v) rows').0 ≢ ok (some b))
      × ((update now' id c' (some v) rows').1 ≡ rows')
no_lost_update is_business id v now now' c c' a b {rows} {rows'} before done after =
    let (_, found, written) = update_ok now id c v rows a done in
    let start : Absent (is_old id v) (update now id c (some v) rows).1 =
      rw written (updated-is_old id v now c a rows (Run-UniqueBy is_business before).0 found) in
    update_refused now' id c' v rows' b (
      Run-P is_business (text_eq id) (Absent (is_old id v))
        (λ sel t d l k. is_old-update_where id v sel t d l k)
        (λ i l k. Absent-remove_rows (is_old id v) i l k)
        (λ t i d l new free unkeyed k.
          Absent-append (is_old id v) l (inserted t i d) k (inserted-is_old id i v t d free))
        after start)
