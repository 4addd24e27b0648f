-- ===== src/Attestations.antt =====
-- src/repositories/attestationRepository.ts over the table of attestations. A statement of SQL is a
-- function on the rows, with the unique key and the trigger of the table's migration; ids and times,
-- which the database draws, are arguments. Time-outs, other failures and logs are left out.
pub mod Versions
pub mod Creation
pub mod Revocation
pub mod Reads
mod Tests
use veritasor_backend.Prelude.{
  ℕ, zero, suc, ◌+◌, ◌-◌, Bool, true, false, not, ◌&&◌, ◌||◌, Option, none, some, List, [], ◌∷◌,
  ◌++◌, map, ◌==◌, if◌then◌else◌, or_else,
}
use veritasor_backend.Prelude.Text.{Text, text_eq}

pub data AttestationStatus : Type 0 where
  pending submitted confirmed failed revoked : AttestationStatus

pub record Attestation : Type 0 where
  pub id : Text
  pub business_id : Text
  pub period : Text
  pub merkle_root : Text
  pub tx_hash : Text
  pub status : AttestationStatus
  pub version : ℕ
  pub created_at : ℕ
  pub updated_at : ℕ

abbrev pub Rows : Type 0
Rows = List Attestation

pub record CreateAttestationInput : Type 0 where
  pub business_id : Text
  pub period : Text
  pub merkle_root : Text
  pub tx_hash : Text
  pub status : AttestationStatus

pub data RepositoryError : Type 0 where
  duplicate foreign_key version_conflict no_valid_fields : RepositoryError
  -- `throw lastError` where no error has been.
  null_error : RepositoryError

pub data Outcome (A : Type 0) : Type 0 where
  ok : A → Outcome A
  throws : RepositoryError → Outcome A

-- The first row that a `WHERE` clause selects.
unfoldable pub select : (Attestation → Bool) → Rows → Option Attestation
select test [] = none
select test (r ∷ rows) = let rest = select test rows in if test r then some r else rest

abbrev pub has_id : Text → Attestation → Bool
has_id id r = text_eq r.id id

abbrev pub is_of : Text → Text → Attestation → Bool
is_of business_id period r = text_eq r.business_id business_id && text_eq r.period period

unfoldable pub get_by_business_and_period : Text → Text → Rows → Option Attestation
get_by_business_and_period business_id period rows = select (is_of business_id period) rows

unfoldable pub get_by_merkle_root : Text → Rows → Option Attestation
get_by_merkle_root merkle_root rows = select (λ r. text_eq r.merkle_root merkle_root) rows

-- `UPDATE … RETURNING *`: every selected row is changed, and the first is returned as it is then.
unfoldable pub update_where :
    (Attestation → Bool) → (Attestation → Attestation) → Rows → Option Attestation × Rows
update_where test change [] = (none, [])
update_where test change (r ∷ rows) =
    let (later, rest) = update_where test change rows in
    if test r then (some (change r), change r ∷ rest) else (later, r ∷ rest)

abbrev pub has_version : Option ℕ → Attestation → Bool
has_version none r = true
has_version (some v) r = r.version == v

-- `existing`, read after an `UPDATE` that has changed nothing.
abbrev pub conflict : Option Attestation → Outcome (Option Attestation)
conflict none = ok none
conflict (some r) = throws version_conflict

-- What follows an `UPDATE` by id: with an expected version, no row but one of that id is a conflict.
unfoldable pub updated_or_conflict :
    Text → Option ℕ → Rows → Option Attestation × Rows → Outcome (Option Attestation) × Rows
updated_or_conflict id expected rows (some r, rows') = (ok (some r), rows')
updated_or_conflict id none rows (none, rows') = (ok none, rows')
updated_or_conflict id (some v) rows (none, rows') = (conflict (select (has_id id) rows'), rows')

abbrev pub selects : Text → Option ℕ → Attestation → Bool
selects id expected r = has_id id r && has_version expected r

-- The columns that `update` may set.
pub record Changes : Type 0 where
  pub merkle_root : Option Text
  pub tx_hash : Option Text
  pub status : Option AttestationStatus

-- The row after an `UPDATE`, with the trigger's `updated_at`.
unfoldable pub changed : ℕ → Changes → Attestation → Attestation
changed now c r = record r {
  merkle_root = or_else c.merkle_root r.merkle_root;
  tx_hash = or_else c.tx_hash r.tx_hash;
  status = or_else c.status r.status;
  version = r.version + 1;
  updated_at = now;
}

abbrev pub status_change : AttestationStatus → Changes
status_change status = record { merkle_root = none; tx_hash = none; status = some status }

unfoldable pub update_status :
    ℕ → Text → AttestationStatus → Option ℕ → Rows → Outcome (Option Attestation) × Rows
update_status now id status expected rows =
    updated_or_conflict id expected rows
      (update_where (selects id expected) (changed now (status_change status)) rows)

abbrev pub is_none : {A : Type 0} → Option A → Bool
is_none none = true
is_none (some a) = false

abbrev pub is_empty : Changes → Bool
is_empty c = is_none c.merkle_root && is_none c.tx_hash && is_none c.status

unfoldable pub update : ℕ → Text → Changes → Option ℕ → Rows → Outcome (Option Attestation) × Rows
update now id c expected rows =
    if is_empty c
    then (throws no_valid_fields, rows)
    else updated_or_conflict id expected rows
        (update_where (selects id expected) (changed now c) rows)

unfoldable pub remove_rows : Text → Rows → Rows
remove_rows id [] = []
remove_rows id (r ∷ rows) = if has_id id r then remove_rows id rows else r ∷ remove_rows id rows

unfoldable pub remove : Text → Rows → Bool × Rows
remove id rows = (not (is_none (select (has_id id) rows)), remove_rows id rows)

-- `getAttestation` of the contract: no answer, no record, or the root of the record.
pub data ChainRead : Type 0 where
  raised missing : ChainRead
  recorded : Text → ChainRead

abbrev pub first_or : {A B : Type 0} → A → Outcome (Option A) × B → A × B
first_or a (ok (some b), s) = (b, s)
first_or a (ok none, s) = (a, s)
first_or a (throws e, s) = (a, s)

-- The status of a local record that the chain has.
unfoldable pub caught_up : ℕ → AttestationStatus → Attestation → Rows → Attestation × Rows
caught_up now pending r rows = first_or r (update_status now r.id confirmed none rows)
caught_up now submitted r rows = first_or r (update_status now r.id confirmed none rows)
caught_up now confirmed r rows = (r, rows)
caught_up now failed r rows = (r, rows)
caught_up now revoked r rows = (r, rows)

-- A root on the chain that differs from the local one is logged only.
unfoldable pub verify_consistency : ℕ → ChainRead → Attestation → Rows → Attestation × Rows
verify_consistency now raised r rows = (r, rows)
verify_consistency now missing r rows = (r, rows)
verify_consistency now (recorded root) r rows = caught_up now r.status r rows

pub data ReadConsistency : Type 0 where
  local strong : ReadConsistency

unfoldable pub read_back :
    ℕ
    → (Text → Text → ChainRead)
    → ReadConsistency
    → Option Attestation
    → Rows
    → Option Attestation × Rows
read_back now chain consistency none rows = (none, rows)
read_back now chain local (some r) rows = (some r, rows)
read_back now chain strong (some r) rows =
    let (r', rows') = verify_consistency now (chain r.business_id r.period) r rows in
    (some r', rows')

unfoldable pub get_by_id :
    ℕ → (Text → Text → ChainRead) → ReadConsistency → Text → Rows → Option Attestation × Rows
get_by_id now chain consistency id rows =
    read_back now chain consistency (select (has_id id) rows) rows
