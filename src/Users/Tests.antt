-- ===== src/Users/Tests.antt =====
-- Concrete runs of src/repositories/userRepository.ts.
use veritasor_backend.Prelude.{◌≡◌, refl, none, some, [], ◌∷◌}
use veritasor_backend.Prelude.Text.{Text, text_eq}
use veritasor_backend.Prelude.Maps.{get, put}
use veritasor_backend.Users.{
  User, user, Users, no_users, save_user, create_user, find_user_by_id, find_user_by_email, creates,
  Reaches, here, next,
}
use veritasor_backend.Signup.Email.{normalize_email}
use veritasor_backend.Users.Login.{authentication_error, login_email, login}
use veritasor_backend.Users.Login.Aliases.{login_tagged_refused}
use veritasor_backend.Users.Index.{find_user_by_email-Reaches}

abbrev ada : User
ada = record {
  id = 7 ∷ [];
  email = b'a' ∷ [];
  password_hash = 1 ∷ [];
  created_at = 5;
  updated_at = 5;
  reset_token = none;
  reset_token_expiry = none;
  role = user;
}

abbrev one_user : Users
one_user = record { users = (7 ∷ [], ada) ∷ []; email_index = (b'a' ∷ [], 7 ∷ []) ∷ [] }

one_user-Reaches : Reaches no_users one_user
unfolding get put save_user create_user
one_user-Reaches = next here (creates 5 (7 ∷ []) (b'a' ∷ []) (1 ∷ []) refl)

find_user_by_email-Reaches_example :
    (ada.email ≡ b'a' ∷ []) × (find_user_by_id (7 ∷ []) one_user ≡ some ada)
unfolding get text_eq find_user_by_email
find_user_by_email-Reaches_example =
    find_user_by_email-Reaches (b'a' ∷ []) {s = one_user} {u = ada} one_user-Reaches refl

abbrev tagged : Text
tagged = b'a' ∷ b'+' ∷ b't' ∷ b'@' ∷ b'x' ∷ []

login_tagged_refused_example :
    login text_eq
      (λ u. u.id)
      (λ u. u.id)
      (login_email tagged)
      (2 ∷ [])
      (create_user 5 (7 ∷ []) (normalize_email tagged) (2 ∷ []) no_users).1
    ≡ authentication_error
unfolding get
login_tagged_refused_example =
    login_tagged_refused (b'a' ∷ []) (b't' ∷ []) (b'x' ∷ []) (refl, tt) (refl, tt) text_eq
      (λ u. u.id) (λ u. u.id) 5 (7 ∷ []) (2 ∷ []) (2 ∷ []) no_users refl
