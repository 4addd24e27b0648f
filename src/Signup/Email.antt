-- ===== src/Signup/Email.antt =====
-- `normalizeEmail` of src/utils/abusePrevention.ts, on texts whose letters are ASCII.
pub mod Aliases
use veritasor_backend.Prelude.{
  ℕ, Bool, true, false, ◌&&◌, ◌||◌, List, [], ◌∷◌, ◌++◌, Option, none, some, ◌==◌, if◌then◌else◌,
}
use veritasor_backend.Prelude.Text.{Text, codes, text_eq, trim, lower}

abbrev pub with_head : ℕ → Option (Text × Text) → Option (Text × Text)
with_head c none = none
with_head c (some (a, b)) = some (c ∷ a, b)

-- What is before the first @ and what is after it, if there is one.
unfoldable pub at_index : Text → Option (Text × Text)
at_index [] = none
at_index (c ∷ cs) = if c == b'@' then some ([], cs) else with_head c (at_index cs)

-- `local.split('+')[0]`
unfoldable pub before_plus : Text → Text
before_plus [] = []
before_plus (c ∷ cs) = if c == b'+' then [] else c ∷ before_plus cs

-- `local.replace(/\./g, '')`
unfoldable pub without_dots : Text → Text
without_dots [] = []
without_dots (c ∷ cs) = if c == b'.' then without_dots cs else c ∷ without_dots cs

abbrev pub is_gmail : Text → Bool
is_gmail domain = text_eq domain (codes "gmail.com") || text_eq domain (codes "googlemail.com")

abbrev pub rejoined : Bool → Text → Option (Text × Text) → Text
rejoined remove_gmail_dots whole none = whole
rejoined remove_gmail_dots whole (some (local, domain)) =
    (if remove_gmail_dots && is_gmail domain
      then without_dots (before_plus local)
      else before_plus local)
    ++ b'@' ∷ domain

unfoldable pub normalize_email_with : Bool → Text → Text
normalize_email_with remove_gmail_dots email =
    rejoined remove_gmail_dots (lower (trim email)) (at_index (lower (trim email)))

-- Without options.
unfoldable pub normalize_email : Text → Text
unfolding normalize_email_with
normalize_email email = normalize_email_with false email
