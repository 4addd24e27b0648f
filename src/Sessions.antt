-- ===== src/Sessions.antt =====
-- The rotation of refresh tokens in src/services/auth/refresh.ts over the store of used tokens in
-- src/services/auth/usedTokenStore.ts. The code awaits the look-up of the user between the test of a
-- token and its marking, so that these are two steps. JWT verification, its claims and the users are
-- parameters. A table with `ON CONFLICT DO NOTHING` behaves as the set in memory does.
pub mod Rotation
mod Tests
use veritasor_backend.Prelude.{
  ℕ, zero, suc, ◌*◌, Bool, true, false, ◌||◌, List, [], ◌∷◌, Option, none, some, if◌then◌else◌,
}
use veritasor_backend.Prelude.Text.{Text, text_eq, includes}

-- A row of `used_refresh_tokens`.
pub record UsedToken : Type 0 where
  pub jti : Text
  pub user_id : Text
  pub expires_at : ℕ

pub record User : Type 0 where
  pub id : Text
  pub email : Text

-- What `jwt.decode` finds in a token.
pub record Claims : Type 0 where
  pub jti : Option Text
  pub exp : Option ℕ

pub data RefreshError : Type 0 where
  token_required invalid_or_expired missing_claims already_used user_not_found : RefreshError

-- A request that waits for its user.
pub record Pending : Type 0 where
  pub token_user_id : Text
  pub jti : Text
  pub exp : ℕ

pub data Started : Type 0 where
  refused : RefreshError → Started
  waits : Pending → Started

-- The response holds an access token and a new refresh token for the user.
pub data Refreshed : Type 0 where
  failed : RefreshError → Refreshed
  granted : User → Refreshed

unfoldable pub has : Text → List UsedToken → Bool
has jti [] = false
has jti (row ∷ rows) = text_eq row.jti jti || has jti rows

-- A conflict on `jti` does nothing.
unfoldable pub mark : UsedToken → List UsedToken → List UsedToken
mark row rows = if has row.jti rows then rows else row ∷ rows

-- `!decoded?.jti || !decoded?.exp`: an empty jti and a zero are falsy.
abbrev pub extract_jti_and_exp : Option Claims → Option (Text × ℕ)
extract_jti_and_exp none = none
extract_jti_and_exp (some c) = both c.jti c.exp
  where
    both : Option Text → Option ℕ → Option (Text × ℕ)
    both none e = none
    both (some []) e = none
    both (some (j ∷ js)) none = none
    both (some (j ∷ js)) (some zero) = none
    both (some (j ∷ js)) (some (suc e)) = some (j ∷ js, suc e)

module _ (verify : Text → Option Text) (decode : Text → Option Claims)
    (find_user : Text → Option User) where
  abbrev pub start_verified : Text → Option Text → List UsedToken → Started
  start_verified token none used = refused invalid_or_expired
  start_verified token (some user_id) used = elim (extract_jti_and_exp (decode token)) [
    | none ↦ refused missing_claims
    | some (jti, exp) ↦
        if has jti used
        then refused already_used
        else waits (record { token_user_id = user_id; jti = jti; exp = exp })
  ]

  -- Up to the look-up of the user.
  unfoldable pub refresh_start : Text → List UsedToken → Started
  refresh_start [] used = refused token_required
  refresh_start (c ∷ cs) used = start_verified (c ∷ cs) (verify (c ∷ cs)) used

  -- From the user on: the token is marked, and the new tokens are signed.
  unfoldable pub refresh_finish : Pending → List UsedToken → Refreshed × List UsedToken
  refresh_finish p used = elim (find_user p.token_user_id) [
    | none ↦ (failed user_not_found, used)
    | some user ↦ (
      granted user,
      mark (record { jti = p.jti; user_id = user.id; expires_at = p.exp * 1000 }) used,
    )
  ]
