-- ===== src/Users/Login/Aliases.antt =====
-- Signup stores an e-mail without its tag, and login looks for it with its tag.
use veritasor_backend.Prelude.{
  ℕ, ◌≤◌, ◌<◌, ◌≡◌, refl, ap, Bool, false, none, [], ◌∷◌, ◌++◌, inl, inr, arith, Bool-cases, length,
  length-append,
}
use veritasor_backend.Prelude.Text.{Text, text_eq, text_eq→≡, trim_start, trim_end, lower}
use veritasor_backend.Prelude.Maps.{get, get-put_other}
use veritasor_backend.Signup.Email.{before_plus, normalize_email}
use veritasor_backend.Signup.Email.Aliases.{
  IsUnsigned, IsUnsigned-append, lower_address, normalize_address, tag_dropped, trim_start-append,
}
use veritasor_backend.Users.{User, Users, save_user, create_user, find_user_by_email}
use veritasor_backend.Users.Login.{authentication_error, login_email, login}

length-before_plus : (t : Text) → length (before_plus t) ≤ length t
unfolding before_plus
length-before_plus [] = omega arith
length-before_plus (c ∷ t) = ground (arith, length-before_plus t)

text_eq-of_length : (a b : Text) → length a < length b → text_eq a b ≡ false
text_eq-of_length a b h = elim (Bool-cases (text_eq a b)) [
  | inl e ↦ absurd (omega (arith, ap (length {0}) (text_eq→≡ a b e)))
  | inr e ↦ e
]

length-lower : (t : Text) → length (lower t) ≡ length t
unfolding lower
length-lower [] = refl
length-lower (c ∷ t) = omega (arith, length-lower t)

length-trim_start-tag :
    (local tag : Text) → length (trim_start local) < length (trim_start (local ++ b'+' ∷ tag))
length-trim_start-tag local tag =
    rw (trim_start-append local b'+' tag refl)
      (omega (arith, length-append {0} (trim_start local) (b'+' ∷ tag)))

module _ (local tag domain : Text) (hl : IsUnsigned local) (ht : IsUnsigned tag) where
  signed : IsUnsigned (local ++ b'+' ∷ tag)
  signed = IsUnsigned-append local (b'+' ∷ tag) hl (refl, ht)

  normalize_email-tagged :
      text_eq
        (normalize_email (local ++ b'+' ∷ tag ++ b'@' ∷ domain))
        (login_email (local ++ b'+' ∷ tag ++ b'@' ∷ domain))
      ≡ false
  unfolding normalize_email login_email
  normalize_email-tagged =
      rw
        (
          normalize_address false (local ++ b'+' ∷ tag) domain signed,
          tag_dropped local tag,
          lower_address (local ++ b'+' ∷ tag) domain,
        )
        (text_eq-of_length _ _ (
          omega (
            arith,
            length-append {0} (before_plus (lower (trim_start local)))
                (b'@' ∷ lower (trim_end domain)),
            length-append {0} (lower (trim_start (local ++ b'+' ∷ tag)))
                (b'@' ∷ lower (trim_end domain)),
            length-before_plus (lower (trim_start local)),
            length-lower (trim_start local),
            length-lower (trim_start (local ++ b'+' ∷ tag)),
            length-trim_start-tag local tag,
          )))

  -- Who signs up with an address that has a tag cannot log in with it, unless the address itself has
  -- been registered otherwise.
  pub login_tagged_refused :
      (verify : Text → Text → Bool) (generate_token generate_refresh_token : User → Text) (now : ℕ)
      (id password password_hash : Text) (s : Users)
      → get s.email_index (login_email (local ++ b'+' ∷ tag ++ b'@' ∷ domain)) ≡ none
      → let address = local ++ b'+' ∷ tag ++ b'@' ∷ domain in
        login verify generate_token generate_refresh_token
          (login_email address)
          password
          (create_user now id (normalize_email address) password_hash s).1
        ≡ authentication_error
  unfolding login create_user save_user find_user_by_email
  login_tagged_refused verify generate_token generate_refresh_token now id password password_hash s
        new =
      rw
        (
          get-put_other s.email_index (normalize_email (local ++ b'+' ∷ tag ++ b'@' ∷ domain))
              (login_email (local ++ b'+' ∷ tag ++ b'@' ∷ domain)) id normalize_email-tagged,
          new,
        )
        refl
