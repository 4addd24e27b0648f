-- ===== src/Attestations/Revocation/Single.antt =====
-- `revokeAttestation` of src/services/attestation/revoke.ts over the records in memory of
-- src/repositories/attestation.ts. The look-up of a business and the purge of the CDN are arguments.
use mathlib.Core.Path.{subst}
use veritasor_backend.Prelude.{
  ◌≡◌, ◌≢◌, ◌↔◌, sym, ap, ◌∙◌, inl, inr, Bool-cases, refl, Bool, true, false, Option, none, some,
  List, [], ◌∷◌, ◌++◌, arith, if◌then◌else◌,
}
use veritasor_backend.Prelude.Text.{Text, codes, text_eq, text_eq→≡, text_eq_refl}

pub data StoredStatus : Type 0 where
  active revoked : StoredStatus

pub record StoredAttestation : Type 0 where
  pub id : Text
  pub business_id : Text
  pub period : Text
  pub attested_at : Text
  pub status : Option StoredStatus
  pub revoked_at : Option Text
  pub revoke_reason : Option Text

abbrev pub Store : Type 0
Store = List StoredAttestation

pub data RevokeError : Type 0 where
  not_found unauthorized already_revoked : RevokeError

pub data Revoked : Type 0 where
  done : Revoked
  throws : RevokeError → Revoked

pub data PurgeStatus : Type 0 where
  success failed : PurgeStatus

unfoldable pub find_by_id : Text → Store → Option StoredAttestation
find_by_id id [] = none
find_by_id id (a ∷ store) =
    let rest = find_by_id id store in if text_eq a.id id then some a else rest

unfoldable pub list_by_business : Text → Store → Store
list_by_business business_id [] = []
list_by_business business_id (a ∷ store) =
    if text_eq a.business_id business_id
    then a ∷ list_by_business business_id store
    else list_by_business business_id store

-- The columns that an update of a record may set.
pub record StoredChanges : Type 0 where
  pub status : Option StoredStatus
  pub revoked_at : Option Text
  pub revoke_reason : Option Text

abbrev pub or_old : {A : Type 0} → Option A → Option A → Option A
or_old none old = old
or_old (some a) old = some a

unfoldable pub merged : StoredChanges → StoredAttestation → StoredAttestation
merged c a = record a {
  status = or_old c.status a.status;
  revoked_at = or_old c.revoked_at a.revoked_at;
  revoke_reason = or_old c.revoke_reason a.revoke_reason;
}

unfoldable pub update : Text → StoredChanges → Store → Option StoredAttestation × Store
update id c [] = (none, [])
update id c (a ∷ store) =
    let (r, rest) = update id c store in
    if text_eq a.id id then (some (merged c a), merged c a ∷ store) else (r, a ∷ rest)

abbrev pub is_revoked : Option StoredStatus → Bool
is_revoked none = false
is_revoked (some active) = false
is_revoked (some revoked) = true

-- What a call returns, the records after it, and what it has recorded of the purge.
pub record Ended : Type 0 where
  pub outcome : Revoked
  pub store : Store
  pub purges : List (Text × PurgeStatus)

-- `owner` is the user of a business, `purges` whether the CDN takes the purge of an address.
module _ (owner : Text → Option Text) (purge : Text → Bool) (cdn_base_url : Text) where
  abbrev pub refuse : RevokeError → Store → Ended
  refuse e store = record { outcome = throws e; store = store; purges = [] }

  abbrev pub owns : Text → Option Text → Bool
  owns user_id none = false
  owns user_id (some owner_id) = text_eq owner_id user_id

  -- `updateData` is built and given to no repository.
  unfoldable pub purge_cdn : Text → Store → Ended
  purge_cdn id store = record {
    outcome = done;
    store = store;
    purges =
        (id, if purge (cdn_base_url ++ codes "/attestations/" ++ id) then success else failed) ∷ [];
  }

  unfoldable pub revoke_found : Text → Text → Option StoredAttestation → Store → Ended
  revoke_found id user_id none store = refuse not_found store
  revoke_found id user_id (some a) store =
      if owns user_id (owner a.business_id)
      then (if is_revoked a.status then refuse already_revoked store else purge_cdn id store)
      else refuse unauthorized store

  unfoldable pub revoke_attestation : Text → Text → Store → Ended
  revoke_attestation id user_id store = revoke_found id user_id (find_by_id id store) store

  -- The attestation belongs to a business of the user, and is not revoked.
  abbrev pub MayRevoke : Text → StoredAttestation → Type 0
  MayRevoke user_id a = (owner a.business_id ≡ some user_id) × (a.status ≢ some revoked)

  owns→≡ : (user_id : Text) (o : Option Text) → owns user_id o ≡ true → o ≡ some user_id
  owns→≡ user_id none h = ground arith
  owns→≡ user_id (some u) h = ap some (text_eq→≡ u user_id h)

  not_revoked : (o : Option StoredStatus) → is_revoked o ≡ false → o ≢ some revoked
  not_revoked none h e = cc
  not_revoked (some active) h e = ground arith
  not_revoked (some revoked) h e = ground arith

  still_open : (o : Option StoredStatus) → o ≢ some revoked → is_revoked o ≡ false
  still_open none h = refl
  still_open (some active) h = refl
  still_open (some revoked) h = absurd (h refl)

  revoke_found_iff :
      (id user_id : Text) (a : StoredAttestation) (store : Store)
      → ((revoke_found id user_id (some a) store).outcome ≡ done) ↔ MayRevoke user_id a
  unfolding revoke_found purge_cdn
  revoke_found_iff id user_id a store = elim (Bool-cases (owns user_id (owner a.business_id))) [
    | inr foreign ↦
        ((λ h. ground arith), λ m. cc (sym foreign ∙ ap (owns user_id) m.0 ∙ text_eq_refl user_id))
    | inl mine ↦ elim (Bool-cases (is_revoked a.status)) [
      | inl gone ↦ ((λ h. ground arith), λ m. cc (sym gone ∙ still_open a.status m.1))
      | inr not_gone ↦ (
        (λ h. (owns→≡ user_id (owner a.business_id) mine, not_revoked a.status not_gone)),
        λ m. rw (mine, not_gone) refl,
      )
    ]
  ]

  found_iff :
      (id user_id : Text) (o : Option StoredAttestation) (store : Store)
      → ((revoke_found id user_id o store).outcome ≡ done)
        ↔ ((a : StoredAttestation) × (o ≡ some a) × MayRevoke user_id a)
  unfolding revoke_found
  found_iff id user_id none store = ((λ h. ground arith), λ m. cc (m.1))
  found_iff id user_id (some a) store = (
    (λ h. (a, refl, (revoke_found_iff id user_id a store).0 h)),
    λ m.
        let same : some a ≡ some m.0 = m.1 in
        (revoke_found_iff id user_id a store).1
          (subst (MayRevoke user_id) (sym (same_attestation a m.0 same)) m.2),
  )
    where
      same_attestation : (x y : StoredAttestation) → some x ≡ some y → x ≡ y
      same_attestation x y h = cc

  -- revokeAttestation ends well exactly if there is an attestation of that id, whose business belongs
  -- to the user, and which is not revoked.
  pub revoke_attestation_iff :
      (id user_id : Text) (store : Store)
      → ((revoke_attestation id user_id store).outcome ≡ done)
        ↔ ((a : StoredAttestation) × (find_by_id id store ≡ some a) × MayRevoke user_id a)
  unfolding revoke_attestation
  revoke_attestation_iff id user_id store = found_iff id user_id (find_by_id id store) store
