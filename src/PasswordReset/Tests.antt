-- ===== src/PasswordReset/Tests.antt =====
-- A password that is reset: src/services/auth/forgotPassword.ts and resetPassword.ts.
use veritasor_backend.Prelude.{◌≡◌, refl, true, none, some, [], ◌∷◌, arith, replicate}
use veritasor_backend.Prelude.Text.{Text, text_eq, trim, trim_start, trim_end, lower}
use veritasor_backend.Prelude.Maps.{get, put}
use veritasor_backend.Users.{
  User, user, Users, promote_user_to_business_admin, no_users, holds_token, find_holder, save_user,
  create_user, find_user_by_id, find_user_by_email, find_user_by_reset_token_hash, creates, Reaches,
  here, next,
}
use veritasor_backend.PasswordReset.{
  ok, throws, reset_email_retryable_failure, Issued, Admitted, is_invalid, issue_token,
  forgot_start, forgot_resume, forgot_finish, reset_start, reset_finish,
}
use veritasor_backend.PasswordReset.Email.{failed}
use veritasor_backend.PasswordReset.Tokens.SingleUse.{Run, promotes}
use veritasor_backend.PasswordReset.Tokens.Flow.{
  Refused, with_password, reset_after_forgot, reset_once, unsent_token-Refused, admitted_twice,
}

abbrev bob : User
bob = record {
  id = 7 ∷ [];
  email = b'b' ∷ [];
  password_hash = 1 ∷ [];
  created_at = 5;
  updated_at = 5;
  reset_token = none;
  reset_token_expiry = none;
  role = user;
}

abbrev users : Users
users = record { users = (7 ∷ [], bob) ∷ []; email_index = (b'b' ∷ [], 7 ∷ []) ∷ [] }

users-Reaches : Reaches no_users users
unfolding get put save_user create_user
users-Reaches = next here (creates 5 (7 ∷ []) (b'b' ∷ []) (1 ∷ []) refl)

-- Toys in the place of SHA-256 and bcrypt.
abbrev digest : Text → Text
digest t = b'h' ∷ t

abbrev token : Text
token = b't' ∷ []

abbrev issued : Users
issued = (forgot_resume digest [] none 100 token (forgot_start (b'b' ∷ []) users) users).1

abbrev p1 : Text
p1 = replicate 8 b'p'

abbrev p2 : Text
p2 = replicate 9 b'q'

abbrev admitted : Text → Admitted
admitted p = record { user_id = 7 ∷ []; new_password = p }

abbrev waiting : Issued
waiting = record { user_id = 7 ∷ []; recipient = b'b' ∷ []; reset_link = [] }

reset_after_forgot_example :
    (reset_start digest 200 none token p1 issued ≡ ok (admitted p1))
    × (find_user_by_id (7 ∷ []) (reset_finish digest 300 (admitted p1) issued).1
        ≡ some (with_password 300 (digest p1) bob))
unfolding get text_eq trim trim_start trim_end lower forgot_start find_user_by_email find_user_by_id
    is_invalid
reset_after_forgot_example =
    reset_after_forgot digest digest [] none 100 token bob users users-Reaches (refl, tt)
      (b'b' ∷ []) users bob none p1 200 300 refl refl refl (omega arith)

abbrev given : Users
given = (issue_token digest [] none 100 token (some bob) users).1

abbrev later : Users
later = (promote_user_to_business_admin 150 (7 ∷ []) given).1

later-Run : Run digest digest (digest token) given later
later-Run = Run.next Run.here (promotes 150 (7 ∷ []))

reset_once_example :
    Refused (reset_start digest 400 none token p2 (reset_finish digest 300 (admitted p1) later).1)
reset_once_example =
    reset_once digest digest [] none 100 token bob users users-Reaches (refl, tt) later-Run 300
      (admitted p1) 400 none p2 refl Run.here

unsent_token-Refused_example :
    ((forgot_finish 200 true waiting (failed true) later).0 ≡ throws reset_email_retryable_failure)
    × Refused (
        reset_start digest 400 none token p2 (forgot_finish 200 true waiting (failed true) later).1)
unsent_token-Refused_example =
    unsent_token-Refused digest digest [] none 100 token bob users users-Reaches (refl, tt)
      later-Run 200 true true waiting 400 none p2 refl Run.here

abbrev holding : User
holding = record bob { reset_token = some (digest token); reset_token_expiry = some 1000 }

abbrev held : Users
held = record { users = (7 ∷ [], holding) ∷ []; email_index = (b'b' ∷ [], 7 ∷ []) ∷ [] }

admitted_twice_example :
    (reset_start digest 200 none token p1 held ≡ ok (admitted p1))
    × (reset_start digest 200 none token p2 held ≡ ok (admitted p2))
    × ((reset_finish digest 300 (admitted p1) held).0 ≡ ok (record {}))
    × ((reset_finish digest 301 (admitted p2) (reset_finish digest 300 (admitted p1) held).1).0
        ≡ ok (record {}))
    × (find_user_by_id
          (7 ∷ [])
          (reset_finish digest 301 (admitted p2) (reset_finish digest 300 (admitted p1) held).1).1
        ≡ some (with_password 301 (digest p2) holding))
unfolding get text_eq trim trim_start trim_end holds_token find_holder find_user_by_id
    find_user_by_reset_token_hash is_invalid
admitted_twice_example =
    admitted_twice digest digest 200 300 301 none token p1 p2 held holding refl refl refl refl
