-- ===== src/PasswordReset.antt =====
-- The reset of a password: src/services/auth/forgotPassword.ts, resetPassword.ts, what they use of
-- src/utils/tokenHash.ts, and src/services/email/sendReset.ts. A request is cut where it waits and the
-- users can change meanwhile. Log records are left out, and so are the texts of messages.
pub mod Email
pub mod Tokens
mod Tests
use veritasor_backend.Prelude.{
  ℕ, Bool, true, false, not, ◌&&◌, ◌||◌, Option, none, some, List, [], ◌∷◌, ◌++◌, length, ltb, leb,
  ◌==◌, if◌then◌else◌,
}
use veritasor_backend.Prelude.Text.{Text, codes, trim, lower}
use veritasor_backend.Users.{
  User, Users, keep, clear, assign, find_user_by_email, update_user, set_reset_token,
  update_user_password, find_user_by_reset_token_hash,
}
use veritasor_backend.PasswordReset.Email.{EmailResult, delivered, failed}

pub data AppError : Type 0 where
  validation_error invalid_reset_token reset_email_retryable_failure reset_email_unavailable :
      AppError

abbrev pub status_of : AppError → ℕ
status_of validation_error = 400
status_of invalid_reset_token = 400
status_of reset_email_retryable_failure = 503
status_of reset_email_unavailable = 500

pub data Outcome (A : Type 0) : Type 0 where
  ok : A → Outcome A
  throws : AppError → Outcome A

-- The environment's value, if it is set and a natural number.
abbrev pub resolve_token_ttl_minutes : Option ℕ → ℕ
resolve_token_ttl_minutes none = 15
resolve_token_ttl_minutes (some n) = if n == 0 || ltb 60 n then 15 else n

abbrev pub resolve_min_password_length : Option ℕ → ℕ
resolve_min_password_length none = 8
resolve_min_password_length (some n) = if ltb n 8 then 8 else n

abbrev pub is_blank : Text → Bool
is_blank t = length (trim t) == 0

-- The response has the link to reset the password, outside of production.
pub record ForgotPasswordResponse : Type 0 where
  pub reset_link : Option Text

pub record ResetPasswordResponse : Type 0 where

-- A request that waits for its e-mail to be sent.
pub record Issued : Type 0 where
  pub user_id : Text
  pub recipient : Text
  pub reset_link : Text

-- A request is answered, or has looked up a user and waits for the delay, or for the e-mail.
pub data Forgot : Type 0 where
  answered : Outcome ForgotPasswordResponse → Forgot
  looked_up : Option User → Forgot
  sending : Issued → Forgot

-- A request whose token has been found, and that waits for the hash of the new password.
pub record Admitted : Type 0 where
  pub user_id : Text
  pub new_password : Text

-- Up to the delay.
unfoldable pub forgot_start : Text → Users → Forgot
forgot_start email s =
    if is_blank email
    then answered (throws validation_error)
    else looked_up (find_user_by_email (lower (trim email)) s)

-- What follows the sending of the e-mail.
unfoldable pub forgot_finish :
    ℕ → Bool → Issued → EmailResult → Users → Outcome ForgotPasswordResponse × Users
forgot_finish now is_production w delivered s =
    (ok (record { reset_link = if is_production then none else some w.reset_link }), s)
forgot_finish now is_production w (failed retryable) s = (
  throws (if retryable then reset_email_retryable_failure else reset_email_unavailable),
  (update_user now w.user_id
      (record {
        email = none;
        password_hash = none;
        reset_token = clear;
        reset_token_expiry = clear;
        role = none;
      })
      s).1,
)

-- The tests of the input of a reset.
unfoldable pub is_invalid : Option ℕ → Text → Text → Bool
is_invalid min_env token new_password =
    is_blank token
    || is_blank new_password
    || ltb (length new_password) (resolve_min_password_length min_env)

-- `sha256` is the digest in hexadecimal, `hash_password` that of src/utils/password.ts.
module _ (sha256 : Text → Text) where
  unfoldable pub hash_reset_token : Text → Text
  hash_reset_token raw_token = sha256 raw_token

  module _ (base_url : Text) (ttl_env : Option ℕ) where
    abbrev pub link_of : Text → Text
    link_of raw_token = base_url ++ codes "?token=" ++ raw_token

    -- From the end of the delay to the sending of the e-mail.
    unfoldable pub issue_token : ℕ → Text → Option User → Users → Forgot × Users
    issue_token now raw_token none s = (answered (ok (record { reset_link = none })), s)
    issue_token now raw_token (some u) s = (
      sending (record { user_id = u.id; recipient = u.email; reset_link = link_of raw_token }),
      (set_reset_token now u.id (hash_reset_token raw_token) (resolve_token_ttl_minutes ttl_env)
          s).1,
    )

    -- A request goes on after the delay, in the state that the users have then.
    abbrev pub forgot_resume : ℕ → Text → Forgot → Users → Forgot × Users
    forgot_resume now raw_token (looked_up found) s = issue_token now raw_token found s
    forgot_resume now raw_token (answered o) s = (answered o, s)
    forgot_resume now raw_token (sending w) s = (sending w, s)

  abbrev pub admit : Text → Option User → Outcome Admitted
  admit new_password none = throws invalid_reset_token
  admit new_password (some u) = ok (record { user_id = u.id; new_password = new_password })

  unfoldable pub reset_start : ℕ → Option ℕ → Text → Text → Users → Outcome Admitted
  reset_start now min_env token new_password s =
      if is_invalid min_env token new_password
      then throws validation_error
      else admit new_password (find_user_by_reset_token_hash now (hash_reset_token token) s)

unfoldable pub reset_finish :
    (Text → Text) → ℕ → Admitted → Users → Outcome ResetPasswordResponse × Users
reset_finish hash_password now w s =
    (ok (record {}), (update_user_password now w.user_id (hash_password w.new_password) s).1)
