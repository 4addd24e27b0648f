-- ===== src/Sessions/Rotation.antt =====
-- What src/services/auth/refresh.ts grants when requests interleave.
use veritasor_backend.Prelude.{
  ℕ, ◌≡◌, inl, inr, refl, true, List, [], ◌∷◌, Option, some, arith, Bool-cases, Option-cases,
}
use veritasor_backend.Prelude.Text.{Text, text_eq_refl}
use veritasor_backend.Sessions.{
  UsedToken, User, Claims, Pending, refused, waits, granted, has, mark, refresh_start,
  refresh_finish, start_verified, extract_jti_and_exp, already_used,
}

has-mark_self : (row : UsedToken) (rows : List UsedToken) → has row.jti (mark row rows) ≡ true
unfolding has mark
has-mark_self row rows = elim (Bool-cases (has row.jti rows)) [
  | inl e ↦ rw e e
  | inr e ↦ rw (e, text_eq_refl row.jti) refl
]

-- A used token stays used.
has-mark :
    (row : UsedToken) (rows : List UsedToken) (jti : Text)
    → has jti rows ≡ true
    → has jti (mark row rows) ≡ true
unfolding has mark
has-mark row rows jti h = elim (Bool-cases (has row.jti rows)) [
  | inl e ↦ rw e h
  | inr e ↦ rw e (ground (arith, h))
]

module _ (verify : Text → Option Text) (decode : Text → Option Claims)
    (find_user : Text → Option User) where
  -- Other requests finish, one after another.
  abbrev pub finish_all : List Pending → List UsedToken → List UsedToken
  finish_all [] used = used
  finish_all (p ∷ ps) used = finish_all ps (refresh_finish verify decode find_user p used).1

  has-refresh_finish :
      (p : Pending) (used : List UsedToken) (jti : Text)
      → has jti used ≡ true
      → has jti (refresh_finish verify decode find_user p used).1 ≡ true
  unfolding refresh_finish
  has-refresh_finish p used jti h = elim (Option-cases (find_user p.token_user_id)) [
    | inl e ↦ rw (refresh_finish, e) h
    | inr (user, e) ↦ rw (refresh_finish, e) (has-mark _ used jti h)
  ]

  has-finish_all :
      (ps : List Pending) (used : List UsedToken) (jti : Text)
      → has jti used ≡ true
      → has jti (finish_all ps used) ≡ true
  has-finish_all [] used jti h = h
  has-finish_all (p ∷ ps) used jti h = has-finish_all ps _ jti (has-refresh_finish p used jti h)

  finish-has :
      (p : Pending) (used : List UsedToken) (user : User)
      → (refresh_finish verify decode find_user p used).0 ≡ granted user
      → has p.jti (refresh_finish verify decode find_user p used).1 ≡ true
  unfolding refresh_finish
  finish-has p used user h = elim (Option-cases (find_user p.token_user_id)) [
    | inl e ↦ cc (rw (refresh_finish, e) at h)
    | inr (found, e) ↦ rw (refresh_finish, e) (has-mark_self _ used)
  ]

  -- After a refresh has been granted, no request that starts later is granted one for the same
  -- token, whatever other requests finish in between.
  pub refresh_start-refused :
      (p : Pending) (used : List UsedToken) (user : User) (ps : List Pending) (c : ℕ)
      (cs user_id : Text) (exp : ℕ)
      → (refresh_finish verify decode find_user p used).0 ≡ granted user
      → verify (c ∷ cs) ≡ some user_id
      → extract_jti_and_exp (decode (c ∷ cs)) ≡ some (p.jti, exp)
      → refresh_start verify decode find_user
          (c ∷ cs)
          (finish_all ps (refresh_finish verify decode find_user p used).1)
        ≡ refused already_used
  unfolding refresh_start
  refresh_start-refused p used user ps c cs user_id exp grant verified claims =
      let spent = has-finish_all ps _ p.jti (finish-has p used user grant) in
      rw (verified, start_verified, claims, spent) refl

  -- A request that has started is granted its refresh if its user is found, whatever other requests
  -- finish before it, those for the same token included.
  pub refresh_finish-granted :
      (token : Text) (p : Pending) (used : List UsedToken) (user : User) (ps : List Pending)
      → refresh_start verify decode find_user token used ≡ waits p
      → find_user p.token_user_id ≡ some user
      → (refresh_finish verify decode find_user p (finish_all ps used)).0 ≡ granted user
  unfolding refresh_finish
  refresh_finish-granted token p used user ps started found = rw (refresh_finish, found) refl
