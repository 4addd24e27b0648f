-- ===== src/PasswordReset/Tokens/Flow.antt =====
-- From the request of src/services/auth/forgotPassword.ts to that of resetPassword.ts.
use mathlib.Core.Path.{subst}
use veritasor_backend.Prelude.{
  ℕ, ◌+◌, ◌*◌, ◌<◌, ◌≡◌, ◌⊎◌, refl, Bool, true, false, Option, none, some, inl, inr, lt→ltb, sym,
  Option-cases, if◌then◌else◌, Bool-cases,
}
use veritasor_backend.Prelude.Text.{Text, text_eq_refl}
use veritasor_backend.Prelude.Maps.{get, put, get-put_same}
use veritasor_backend.Users.{
  User, Users, no_users, Reaches, holds_token, UpdateUserData, next_user, save_user, replace_user,
  update_user, update_user_password, set_reset_token, find_user_by_id,
  find_user_by_reset_token_hash,
}
use veritasor_backend.Users.Index.{keyed_users}
use veritasor_backend.PasswordReset.{
  validation_error, invalid_reset_token, reset_email_retryable_failure, reset_email_unavailable,
  Outcome, ok, throws, is_invalid, resolve_token_ttl_minutes, Issued, Admitted, hash_reset_token,
  issue_token, looked_up, forgot_start, forgot_resume, forgot_finish, reset_start, reset_finish,
}
use veritasor_backend.PasswordReset.Email.{failed}
use veritasor_backend.PasswordReset.Tokens.{
  Unheld, Unheld-UnheldBut, find_holder-Unheld, find_holder-UnheldBut,
}
use veritasor_backend.PasswordReset.Tokens.SingleUse.{
  unindex-users, Held, put-Held, cleared-Unheld, Run, Run-Held, Run-Unheld,
}

-- What an update stores.
replace_user-users :
    (now : ℕ) (changes : UpdateUserData) (current : User) (s : Users)
    → (replace_user now changes (some current) s).1.users
      ≡ put s.users current.id (next_user now current changes)
unfolding replace_user save_user next_user
replace_user-users now changes current s =
    rw (unindex-users current (next_user now current changes) s) refl

update_user-users :
    (now : ℕ) (changes : UpdateUserData) (s : Users) (u : User)
    → get s.users u.id ≡ some u
    → (update_user now u.id changes s).1.users ≡ put s.users u.id (next_user now u changes)
unfolding update_user
update_user-users now changes s u found = rw found (replace_user-users now changes u s)

update_user-users_at :
    (now : ℕ) (k : Text) (changes : UpdateUserData) (s : Users) (v : User)
    → v.id ≡ k
    → get s.users k ≡ some v
    → (update_user now k changes s).1.users ≡ put s.users k (next_user now v changes)
update_user-users_at now k changes s v mine found =
    subst (λ i. (update_user now i changes s).1.users ≡ put s.users i (next_user now v changes))
      mine
      (update_user-users now changes s v (subst (λ i. get s.users i ≡ some v) (sym mine) found))

update_user-gone :
    (now : ℕ) (id : Text) (changes : UpdateUserData) (s : Users)
    → get s.users id ≡ none
    → (update_user now id changes s).1 ≡ s
unfolding update_user replace_user
update_user-gone now id changes s gone = rw gone refl

abbrev pub with_password : ℕ → Text → User → User
with_password now password_hash u = record u {
  password_hash = password_hash;
  reset_token = none;
  reset_token_expiry = none;
  updated_at = now;
}

update_user_password-found :
    (now : ℕ) (password_hash : Text) (s : Users) (u : User)
    → find_user_by_id u.id s ≡ some u
    → find_user_by_id u.id (update_user_password now u.id password_hash s).1
      ≡ some (with_password now password_hash u)
unfolding find_user_by_id update_user_password next_user
update_user_password-found now password_hash s u found =
    rw (update_user-users now _ s u found) (get-put_same s.users u.id _)

abbrev pub Refused : Outcome Admitted → Type 0
Refused o = (o ≡ throws validation_error) ⊎ (o ≡ throws invalid_reset_token)

module _ (sha256 hash_password : Text → Text) where
  reset_start-Unheld :
      (now : ℕ) (min_env : Option ℕ) (token new_password : Text) (s : Users)
      → Unheld (sha256 token) s.users
      → Refused (reset_start sha256 now min_env token new_password s)
  unfolding reset_start find_user_by_reset_token_hash hash_reset_token
  reset_start-Unheld now min_env token new_password s v =
      elim (Bool-cases (is_invalid min_env token new_password)) [
        | inl e ↦ inl (rw e refl)
        | inr e ↦ inr (rw (e, find_holder-Unheld now (sha256 token) s.users v) refl)
      ]

  abbrev pub holder : Option ℕ → ℕ → Text → User → User
  holder ttl_env now raw_token u = record u {
    reset_token = some (sha256 raw_token);
    reset_token_expiry = some (now + resolve_token_ttl_minutes ttl_env * 60 * 1000);
    updated_at = now;
  }

  -- A token is issued to a user that was looked up, in a state that has been reached by then.
  module _ (base_url : Text) (ttl_env : Option ℕ) (now : ℕ) (raw_token : Text) (u : User)
      (s : Users) (reached : Reaches no_users s) (unheld : Unheld (sha256 raw_token) s.users) where
    abbrev pub after_issue : Users
    after_issue = (issue_token sha256 base_url ttl_env now raw_token (some u) s).1

    issue_token-gone : find_user_by_id u.id s ≡ none → after_issue ≡ s
    unfolding issue_token set_reset_token find_user_by_id
    issue_token-gone gone = update_user-gone now u.id _ s gone

    issue_token-users :
        (v : User)
        → find_user_by_id u.id s ≡ some v
        → after_issue.users ≡ put s.users u.id (holder ttl_env now raw_token v)
    unfolding issue_token hash_reset_token set_reset_token find_user_by_id next_user
    issue_token-users v found =
        update_user-users_at now u.id _ s v (keyed_users reached u.id v found) found

    issue_token-Held : Held (sha256 raw_token) u.id after_issue
    unfolding find_user_by_id
    issue_token-Held = elim (Option-cases (find_user_by_id u.id s)) [
      | inl gone ↦ rw (issue_token-gone gone) start
      | inr (v, found) ↦
          put-Held (sha256 raw_token) u.id u.id (holder ttl_env now raw_token v) s _
            (issue_token-users v found) (keyed_users reached u.id v found) (inl (text_eq_refl u.id))
            start
    ]
      where
        start : Held (sha256 raw_token) u.id s
        start = record {
          only = Unheld-UnheldBut (sha256 raw_token) u.id s.users unheld;
          keyed = keyed_users reached;
        }

    holder-holds :
        (v : User) (t : ℕ)
        → t < now + resolve_token_ttl_minutes ttl_env * 60 * 1000
        → holds_token t (sha256 raw_token) (holder ttl_env now raw_token v) ≡ true
    unfolding holds_token
    holder-holds v t early = rw (text_eq_refl (sha256 raw_token), lt→ltb _ _ early) refl

    issue_token-holder :
        (v : User)
        → find_user_by_id u.id s ≡ some v
        → get after_issue.users u.id ≡ some (holder ttl_env now raw_token v)
    issue_token-holder v found =
        rw (issue_token-users v found) (get-put_same s.users u.id (holder ttl_env now raw_token v))

    found_by_token :
        (v : User) (t : ℕ)
        → find_user_by_id u.id s ≡ some v
        → t < now + resolve_token_ttl_minutes ttl_env * 60 * 1000
        → find_user_by_reset_token_hash t (sha256 raw_token) after_issue
          ≡ some (holder ttl_env now raw_token v)
    unfolding find_user_by_reset_token_hash
    found_by_token v t found early =
        find_holder-UnheldBut t (sha256 raw_token) u.id (holder ttl_env now raw_token v) _
          issue_token-Held.only (issue_token-holder v found) (holder-holds v t early)

    -- A token that is issued to a user who is still there after the delay resets the password until it
    -- expires: the request is admitted, and then the user has the hash of the new password and no
    -- token. No user has held a token with its hash.
    pub reset_after_forgot :
        (email : Text) (s0 : Users) (v : User) (min_env : Option ℕ) (new_password : Text) (t t' : ℕ)
        → forgot_start email s0 ≡ looked_up (some u)
        → find_user_by_id u.id s ≡ some v
        → is_invalid min_env raw_token new_password ≡ false
        → t < now + resolve_token_ttl_minutes ttl_env * 60 * 1000
        → let s' =
            (forgot_resume sha256 base_url ttl_env now raw_token (forgot_start email s0) s).1 in
          let w : Admitted = record { user_id = u.id; new_password = new_password } in
          (reset_start sha256 t min_env raw_token new_password s' ≡ ok w)
          × (find_user_by_id u.id (reset_finish hash_password t' w s').1
              ≡ some (with_password t' (hash_password new_password) v))
    unfolding reset_start reset_finish hash_reset_token find_user_by_id
    reset_after_forgot email s0 v min_env new_password t t' looked found valid early =
        let mine : v.id ≡ u.id = keyed_users reached u.id v found in
        rw looked (
          rw (valid, found_by_token v t found early, mine) refl,
          subst
              (λ k.
                get (update_user_password t' k (hash_password new_password) after_issue).1.users k
                ≡ some (with_password t' (hash_password new_password) v))
              mine
              (update_user_password-found t' (hash_password new_password) _
                (holder ttl_env now raw_token v)
                (subst (λ k. get after_issue.users k ≡ some (holder ttl_env now raw_token v))
                  (sym mine) (issue_token-holder v found))),
        )

    -- Once a reset for the user has ended, the token is refused for ever, whatever other requests do
    -- between its issue and the end of the reset and from then on, updates and promotions by others
    -- included, unless one gives a user a token with the same hash.
    pub reset_once :
        {s1 : Users}
        → Run sha256 hash_password (sha256 raw_token) after_issue s1
        → (t : ℕ) (w : Admitted) {s2 : Users} (t' : ℕ) (min_env : Option ℕ) (new_password : Text)
        → w.user_id ≡ u.id
        → Run sha256 hash_password (sha256 raw_token) (reset_finish hash_password t w s1).1 s2
        → Refused (reset_start sha256 t' min_env raw_token new_password s2)
    unfolding reset_finish update_user_password
    reset_once {s1} before t w t' min_env new_password mine run =
        reset_start-Unheld t' min_env raw_token new_password _ (
          Run-Unheld sha256 hash_password (sha256 raw_token) run (
            rw mine (
              cleared-Unheld (sha256 raw_token) u.id t _ s1 refl
                (Run-Held sha256 hash_password (sha256 raw_token) u.id before issue_token-Held))))

    -- If the e-mail with the token cannot be sent, the request ends with the error 503 or 500, and from
    -- then on the token is refused for ever, whatever other requests do while it is sent and later,
    -- unless one gives a user a token with its hash.
    pub unsent_token-Refused :
        {s1 : Users}
        → Run sha256 hash_password (sha256 raw_token) after_issue s1
        → (t : ℕ) (is_production retryable : Bool) (w : Issued) {s2 : Users} (t' : ℕ)
          (min_env : Option ℕ) (new_password : Text)
        → w.user_id ≡ u.id
        → Run sha256 hash_password
            (sha256 raw_token)
            (forgot_finish t is_production w (failed retryable) s1).1
            s2
        → ((forgot_finish t is_production w (failed retryable) s1).0
            ≡ throws (if retryable then reset_email_retryable_failure else reset_email_unavailable))
          × Refused (reset_start sha256 t' min_env raw_token new_password s2)
    unfolding forgot_finish
    unsent_token-Refused {s1} before t is_production retryable w t' min_env new_password mine run =
        (
          refl,
          reset_start-Unheld t' min_env raw_token new_password _ (
              Run-Unheld sha256 hash_password (sha256 raw_token) run (
                rw mine (
                  cleared-Unheld (sha256 raw_token) u.id t _ s1 refl (
                    Run-Held sha256 hash_password (sha256 raw_token) u.id before
                      issue_token-Held)))),
        )

  -- Two requests with one token may both be admitted before either ends, and then both end well: the
  -- password of the one that ends first is replaced by that of the other.
  pub admitted_twice :
      (now t t' : ℕ) (min_env : Option ℕ) (token p q : Text) (s : Users) (u : User)
      → find_user_by_reset_token_hash now (sha256 token) s ≡ some u
      → find_user_by_id u.id s ≡ some u
      → is_invalid min_env token p ≡ false
      → is_invalid min_env token q ≡ false
      → let v : Admitted = record { user_id = u.id; new_password = p } in
        let w : Admitted = record { user_id = u.id; new_password = q } in
        let (o, s1) = reset_finish hash_password t v s in
        let (o', s2) = reset_finish hash_password t' w s1 in
        (reset_start sha256 now min_env token p s ≡ ok v)
        × (reset_start sha256 now min_env token q s ≡ ok w)
        × (o ≡ ok (record {}))
        × (o' ≡ ok (record {}))
        × (find_user_by_id u.id s2 ≡ some (with_password t' (hash_password q) u))
  unfolding reset_start reset_finish hash_reset_token find_user_by_id
  admitted_twice now t t' min_env token p q s u held found valid valid' = (
    rw (valid, held) refl,
    rw (valid', held) refl,
    refl,
    refl,
    update_user_password-found t' (hash_password q) _ (with_password t (hash_password p) u)
        (update_user_password-found t (hash_password p) s u found),
  )
