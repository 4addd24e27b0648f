-- ===== src/PasswordReset/Tokens/SingleUse.antt =====
-- A token of src/services/auth/forgotPassword.ts resets one password once, whatever other requests do.
use veritasor_backend.Prelude.{
  ℕ, ◌≡◌, refl, Bool, true, false, Option, none, some, ◌⊎◌, inl, inr, Bool-cases, Option-cases,
}
use veritasor_backend.Prelude.Text.{Text, text_eq, text_eq→≡}
use veritasor_backend.Prelude.Maps.{get, put, get-put_cases, get-remove_cases}
use veritasor_backend.Users.{
  User, UserRole, user, admin, business_admin, Users, promote, promote_found,
  promote_user_to_business_admin, equals, UpdateUserData, Update, keep, clear, assign, updated,
  next_user, save_user, unindex, replace_user, update_user, update_user_password, set_reset_token,
  create_user, drop_user, delete_user,
}
use veritasor_backend.PasswordReset.{
  Issued, Admitted, hash_reset_token, issue_token, forgot_finish, reset_finish,
}
use veritasor_backend.PasswordReset.Email.{EmailResult, delivered, failed}
use veritasor_backend.PasswordReset.Tokens.{
  Unheld, UnheldBut, get-Unheld, put-Unheld, remove-Unheld, put-Unheld_but, put-UnheldBut_own,
  put-UnheldBut_other, get-UnheldBut, remove-UnheldBut, gone-Unheld,
}

-- An update does not give the hash.
abbrev pub Spares : Text → Update Text → Type 0
Spares h keep = Unit {0}
Spares h clear = Unit {0}
Spares h (assign t) = text_eq t h ≡ false

updated-Spares :
    (h : Text) (change : Update Text) (old : Option Text)
    → Spares h change
    → equals old h ≡ false
    → equals (updated change old) h ≡ false
updated-Spares h keep old s e = e
updated-Spares h clear old s e = refl
updated-Spares h (assign t) old s e = s

pub unindex-users : (current later : User) (s : Users) → (unindex current later s).users ≡ s.users
unfolding unindex
unindex-users current later s = elim (Bool-cases (text_eq current.email later.email)) [
  | inl e ↦ rw e refl
  | inr e ↦ rw e refl
]

replace_user-Unheld :
    (h : Text) (now : ℕ) (changes : UpdateUserData) (id : Text) (found : Option User) (s : Users)
    → Spares h changes.reset_token
    → Unheld h s.users
    → get s.users id ≡ found
    → Unheld h (replace_user now changes found s).1.users
unfolding replace_user next_user save_user
replace_user-Unheld h now changes id none s spares v e = v
replace_user-Unheld h now changes id (some current) s spares v e =
    rw (unindex-users current (next_user now current changes) s) (
      put-Unheld h current.id (next_user now current changes) s.users
        (updated-Spares h changes.reset_token current.reset_token spares
          (get-Unheld h id s.users v e))
        v)

update_user-Unheld :
    (h : Text) (now : ℕ) (id : Text) (changes : UpdateUserData) (s : Users)
    → Spares h changes.reset_token
    → Unheld h s.users
    → Unheld h (update_user now id changes s).1.users
unfolding update_user
update_user-Unheld h now id changes s spares v =
    replace_user-Unheld h now changes id (get s.users id) s spares v refl

promote_found-Unheld :
    (h : Text) (now : ℕ) (id : Text) (found : Option User) (s : Users)
    → Unheld h s.users
    → get s.users id ≡ found
    → Unheld h (promote_found now found s).1.users
unfolding promote_found promote save_user
promote_found-Unheld h now id none s v e = v
promote_found-Unheld h now id (some current) s v e = promoted_role current.role
  where
    promoted_role : (r : UserRole) → Unheld h (promote now r current s).1.users
    promoted_role business_admin = v
    promoted_role admin = v
    promoted_role user = put-Unheld h current.id _ s.users (get-Unheld h id s.users v e) v

-- One user may hold the hash, and every user is kept under its id.
pub record Held (h id : Text) (s : Users) : Type 0 where
  pub only : UnheldBut h id s.users
  pub keyed : (i : Text) (u : User) → get s.users i ≡ some u → u.id ≡ i

pub put-Held :
    (h id k : Text) (u : User) (s t : Users)
    → t.users ≡ put s.users k u
    → u.id ≡ k
    → (text_eq k id ≡ true) ⊎ (equals u.reset_token h ≡ false)
    → Held h id s
    → Held h id t
put-Held h id k u s t e own spares v = record {
  only = rw e (put_only spares);
  keyed = λ i w at. elim (get-put_cases s.users k i u (rw e at at)) [
    | inl (same, mine) ↦ cc
    | inr (other, old) ↦ v.keyed i w old
  ];
}
  where
    put_only :
        (text_eq k id ≡ true) ⊎ (equals u.reset_token h ≡ false) → UnheldBut h id (put s.users k u)
    put_only (inl same) = rw (text_eq→≡ k id same) (put-UnheldBut_own h id u s.users v.only)
    put_only (inr free) = elim (Bool-cases (text_eq k id)) [
      | inl same ↦ rw (text_eq→≡ k id same) (put-UnheldBut_own h id u s.users v.only)
      | inr other ↦ put-UnheldBut_other h id k u s.users other free v.only
    ]

-- Whoever is not the one does not hold the hash.
spared :
    (h id k : Text) (current : User) (s : Users)
    → Held h id s
    → get s.users k ≡ some current
    → (text_eq k id ≡ true) ⊎ (equals current.reset_token h ≡ false)
spared h id k current s v e = elim (Bool-cases (text_eq k id)) [
  | inl same ↦ inl same
  | inr other ↦ inr (get-UnheldBut h id k s.users other v.only e)
]

replace_user-Held :
    (h id : Text) (now : ℕ) (changes : UpdateUserData) (k : Text) (found : Option User) (s : Users)
    → Spares h changes.reset_token
    → Held h id s
    → get s.users k ≡ found
    → Held h id (replace_user now changes found s).1
unfolding replace_user next_user save_user
replace_user-Held h id now changes k none s spares v e = v
replace_user-Held h id now changes k (some current) s spares v e =
    put-Held h id current.id (next_user now current changes) s _
      (rw (unindex-users current (next_user now current changes) s) refl) refl
      (elim (spared h id k current s v e) [
        | inl same ↦ inl (rw (v.keyed k current e) same)
        | inr free ↦ inr (updated-Spares h changes.reset_token current.reset_token spares free)
      ])
      v

update_user-Held :
    (h id : Text) (now : ℕ) (k : Text) (changes : UpdateUserData) (s : Users)
    → Spares h changes.reset_token
    → Held h id s
    → Held h id (update_user now k changes s).1
unfolding update_user
update_user-Held h id now k changes s spares v =
    replace_user-Held h id now changes k (get s.users k) s spares v refl

promote_found-Held :
    (h id : Text) (now : ℕ) (k : Text) (found : Option User) (s : Users)
    → Held h id s
    → get s.users k ≡ found
    → Held h id (promote_found now found s).1
unfolding promote_found promote save_user
promote_found-Held h id now k none s v e = v
promote_found-Held h id now k (some current) s v e = promoted_role current.role
  where
    promoted_role : (r : UserRole) → Held h id (promote now r current s).1
    promoted_role business_admin = v
    promoted_role admin = v
    promoted_role user =
        put-Held h id current.id _ s _ refl refl
          (elim (spared h id k current s v e) [
            | inl same ↦ inl (rw (v.keyed k current e) same)
            | inr free ↦ inr free
          ])
          v

drop_user-Held :
    (h id k : Text) (found : Option User) (s : Users)
    → Held h id s
    → Held h id (drop_user found k s).1
unfolding drop_user
drop_user-Held h id k none s v = v
drop_user-Held h id k (some u) s v = record {
  only = remove-UnheldBut h id k s.users v.only;
  keyed = λ i w at. v.keyed i w (get-remove_cases s.users k i at).1;
}

-- The one that may hold the hash loses it.
pub cleared-Unheld :
    (h id : Text) (now : ℕ) (changes : UpdateUserData) (s : Users)
    → changes.reset_token ≡ clear
    → Held h id s
    → Unheld h (update_user now id changes s).1.users
unfolding update_user replace_user next_user save_user
cleared-Unheld h id now changes s clears v = elim (Option-cases (get s.users id)) [
  | inl gone ↦ rw gone (gone-Unheld h id s.users v.only gone)
  | inr (current, found) ↦
      rw (found, unindex-users current (next_user now current changes) s, v.keyed id current found)
        (put-Unheld_but h id _ s.users (rw clears refl) v.only)
]

drop_user-Unheld :
    (h id : Text) (found : Option User) (s : Users)
    → Unheld h s.users
    → Unheld h (drop_user found id s).1.users
unfolding drop_user
drop_user-Unheld h id none s v = v
drop_user-Unheld h id (some u) s v = remove-Unheld h id s.users v

module _ (sha256 hash_password : Text → Text) where
  issue_token-Unheld :
      (h base_url : Text) (ttl_env : Option ℕ) (now : ℕ) (raw_token : Text) (found : Option User)
      (s : Users)
      → text_eq (sha256 raw_token) h ≡ false
      → Unheld h s.users
      → Unheld h (issue_token sha256 base_url ttl_env now raw_token found s).1.users
  unfolding issue_token hash_reset_token set_reset_token
  issue_token-Unheld h base_url ttl_env now raw_token none s other v = v
  issue_token-Unheld h base_url ttl_env now raw_token (some u) s other v =
      update_user-Unheld h now u.id _ s other v

  forgot_finish-Unheld :
      (h : Text) (now : ℕ) (is_production : Bool) (w : Issued) (r : EmailResult) (s : Users)
      → Unheld h s.users
      → Unheld h (forgot_finish now is_production w r s).1.users
  unfolding forgot_finish
  forgot_finish-Unheld h now is_production w delivered s v = v
  forgot_finish-Unheld h now is_production w (failed retryable) s v =
      update_user-Unheld h now w.user_id _ s tt v

  issue_token-Held :
      (h id base_url : Text) (ttl_env : Option ℕ) (now : ℕ) (raw_token : Text) (found : Option User)
      (s : Users)
      → text_eq (sha256 raw_token) h ≡ false
      → Held h id s
      → Held h id (issue_token sha256 base_url ttl_env now raw_token found s).1
  unfolding issue_token hash_reset_token set_reset_token
  issue_token-Held h id base_url ttl_env now raw_token none s other v = v
  issue_token-Held h id base_url ttl_env now raw_token (some u) s other v =
      update_user-Held h id now u.id _ s other v

  forgot_finish-Held :
      (h id : Text) (now : ℕ) (is_production : Bool) (w : Issued) (r : EmailResult) (s : Users)
      → Held h id s
      → Held h id (forgot_finish now is_production w r s).1
  unfolding forgot_finish
  forgot_finish-Held h id now is_production w delivered s v = v
  forgot_finish-Held h id now is_production w (failed retryable) s v =
      update_user-Held h id now w.user_id _ s tt v

  -- What other requests do to the users; no token that they give to a user has the hash `h`.
  pub data Later (h : Text) (s : Users) : Users → Type 0 where
    issues :
        (base_url : Text) (ttl_env : Option ℕ) (now : ℕ) (raw_token : Text) (found : Option User)
        → text_eq (sha256 raw_token) h ≡ false
        → Later h s (issue_token sha256 base_url ttl_env now raw_token found s).1
    is_answered :
        (now : ℕ) (is_production : Bool) (w : Issued) (r : EmailResult)
        → Later h s (forgot_finish now is_production w r s).1
    resets : (now : ℕ) (w : Admitted) → Later h s (reset_finish hash_password now w s).1
    signs_up :
        (now : ℕ) (id email password_hash : Text)
        → Later h s (create_user now id email password_hash s).1
    edits :
        (now : ℕ) (id : Text) (changes : UpdateUserData)
        → Spares h changes.reset_token
        → Later h s (update_user now id changes s).1
    promotes : (now : ℕ) (id : Text) → Later h s (promote_user_to_business_admin now id s).1
    leaves : (id : Text) → Later h s (delete_user id s).1

  pub data Run (h : Text) (s : Users) : Users → Type 0 where
    here : Run h s s
    next : {t u : Users} → Run h s t → Later h t u → Run h s u

  Later-Unheld : (h : Text) {s t : Users} → Later h s t → Unheld h s.users → Unheld h t.users
  unfolding reset_finish update_user_password create_user save_user delete_user
      promote_user_to_business_admin
  Later-Unheld h {s} (issues base_url ttl_env now raw_token found other) v =
      issue_token-Unheld h base_url ttl_env now raw_token found s other v
  Later-Unheld h {s} (is_answered now is_production w r) v =
      forgot_finish-Unheld h now is_production w r s v
  Later-Unheld h {s} (resets now w) v = update_user-Unheld h now w.user_id _ s tt v
  Later-Unheld h {s} (signs_up now id email password_hash) v = put-Unheld h id _ s.users refl v
  Later-Unheld h {s} (edits now id changes spares) v =
      update_user-Unheld h now id changes s spares v
  Later-Unheld h {s} (promotes now id) v = promote_found-Unheld h now id (get s.users id) s v refl
  Later-Unheld h {s} (leaves id) v = drop_user-Unheld h id (get s.users id) s v

  pub Run-Unheld : (h : Text) {s t : Users} → Run h s t → Unheld h s.users → Unheld h t.users
  Run-Unheld h here v = v
  Run-Unheld h (next r step) v = Later-Unheld h step (Run-Unheld h r v)

  Later-Held : (h id : Text) {s t : Users} → Later h s t → Held h id s → Held h id t
  unfolding reset_finish update_user_password create_user save_user delete_user
      promote_user_to_business_admin
  Later-Held h id {s} (issues base_url ttl_env now raw_token found other) v =
      issue_token-Held h id base_url ttl_env now raw_token found s other v
  Later-Held h id {s} (is_answered now is_production w r) v =
      forgot_finish-Held h id now is_production w r s v
  Later-Held h id {s} (resets now w) v = update_user-Held h id now w.user_id _ s tt v
  Later-Held h id {s} (signs_up now k email password_hash) v =
      put-Held h id k _ s _ refl refl (inr refl) v
  Later-Held h id {s} (edits now k changes spares) v =
      update_user-Held h id now k changes s spares v
  Later-Held h id {s} (promotes now k) v = promote_found-Held h id now k (get s.users k) s v refl
  Later-Held h id {s} (leaves k) v = drop_user-Held h id k (get s.users k) s v

  pub Run-Held : (h id : Text) {s t : Users} → Run h s t → Held h id s → Held h id t
  Run-Held h id here v = v
  Run-Held h id (next r step) v = Later-Held h id step (Run-Held h id r v)
