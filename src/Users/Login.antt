-- ===== src/Users/Login.antt =====
-- src/services/auth/login.ts. `loginInputSchema` of src/schemas/auth.ts trims the e-mail and puts it
-- into lower case before.
pub mod Aliases
use veritasor_backend.Prelude.{Bool, true, false, Option, none, some}
use veritasor_backend.Prelude.Text.{Text, trim, lower}
use veritasor_backend.Users.{User, Users, find_user_by_email}

pub record LoginResponse : Type 0 where
  pub access_token : Text
  pub refresh_token : Text
  pub user_id : Text
  pub email : Text

pub data LoginResult : Type 0 where
  granted : LoginResponse → LoginResult
  authentication_error : LoginResult

unfoldable pub login_email : Text → Text
login_email email = lower (trim email)

-- `verify` is bcrypt's comparison of a password with a hash; the tokens are signed for a user.
module _ (verify : Text → Text → Bool) (generate_token generate_refresh_token : User → Text) where
  abbrev pub checked : User → Bool → LoginResult
  checked u false = authentication_error
  checked u true = granted (record {
    access_token = generate_token u;
    refresh_token = generate_refresh_token u;
    user_id = u.id;
    email = u.email;
  })

  abbrev pub login_found : Text → Option User → LoginResult
  login_found password none = authentication_error
  login_found password (some u) = checked u (verify password u.password_hash)

  unfoldable pub login : Text → Text → Users → LoginResult
  login email password s = login_found password (find_user_by_email email s)
