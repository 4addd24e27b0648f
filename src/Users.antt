-- ===== src/Users.antt =====
-- src/repositories/userRepository.ts: the users in memory and the index of their e-mails. Ids, which
-- the source draws at random, and times are arguments; copies of records are the records.
pub mod Index
pub mod Login
mod Tests
use veritasor_backend.Prelude.{
  ℕ, ◌+◌, ◌*◌, ◌≡◌, Bool, true, false, not, ◌&&◌, Option, none, some, List, [], ◌∷◌, map, ltb,
  if◌then◌else◌, or_else,
}
use veritasor_backend.Prelude.Text.{Text, text_eq}
use veritasor_backend.Prelude.Maps.{get, put, remove}

pub data UserRole : Type 0 where
  user admin business_admin : UserRole

pub record User : Type 0 where
  pub id : Text
  pub email : Text
  pub password_hash : Text
  pub created_at : ℕ
  pub updated_at : ℕ
  pub reset_token : Option Text
  pub reset_token_expiry : Option ℕ
  pub role : UserRole

pub record Users : Type 0 where
  pub users : List (Text × User)
  pub email_index : List (Text × Text)

abbrev pub no_users : Users
no_users = record { users = []; email_index = [] }

-- A field of an update that may be `null`: left out, `null`, or a value.
pub data Update (A : Type 0) : Type 0 where
  keep clear : Update A
  assign : A → Update A

pub record UpdateUserData : Type 0 where
  pub email : Option Text
  pub password_hash : Option Text
  pub reset_token : Update Text
  pub reset_token_expiry : Update ℕ
  pub role : Option UserRole

unfoldable pub save_user : User → Users → Users
save_user u s = record { users = put s.users u.id u; email_index = put s.email_index u.email u.id }

unfoldable pub create_user : ℕ → Text → Text → Text → Users → User × Users
create_user now id email password_hash s =
    let u : User = record {
      id = id;
      email = email;
      password_hash = password_hash;
      created_at = now;
      updated_at = now;
      reset_token = none;
      reset_token_expiry = none;
      role = user;
    } in
    (u, save_user u s)

unfoldable pub find_user_by_id : Text → Users → Option User
find_user_by_id id s = get s.users id

-- The look-up of what the index holds; `!userId` takes the empty text for a miss.
abbrev pub indexed : Option Text → Users → Option User
indexed none s = none
indexed (some []) s = none
indexed (some (c ∷ cs)) s = get s.users (c ∷ cs)

unfoldable pub find_user_by_email : Text → Users → Option User
find_user_by_email email s = indexed (get s.email_index email) s

abbrev pub updated : {A : Type 0} → Update A → Option A → Option A
updated keep old = old
updated clear old = none
updated (assign a) old = some a

unfoldable pub next_user : ℕ → User → UpdateUserData → User
next_user now current updates = record current {
  email = or_else updates.email current.email;
  password_hash = or_else updates.password_hash current.password_hash;
  reset_token = updated updates.reset_token current.reset_token;
  reset_token_expiry = updated updates.reset_token_expiry current.reset_token_expiry;
  role = or_else updates.role current.role;
  updated_at = now;
}

-- The index loses the old e-mail, if the new one is another.
unfoldable pub unindex : User → User → Users → Users
unindex current next s =
    if text_eq current.email next.email
    then s
    else record s { email_index = remove s.email_index current.email }

unfoldable pub replace_user : ℕ → UpdateUserData → Option User → Users → Option User × Users
replace_user now updates none s = (none, s)
replace_user now updates (some current) s =
    let next : User = next_user now current updates in
    (some next, save_user next (unindex current next s))

unfoldable pub update_user : ℕ → Text → UpdateUserData → Users → Option User × Users
update_user now id updates s = replace_user now updates (get s.users id) s

pub data Promotion : Type 0 where
  not_found : Promotion
  already_business_admin invalid_current_role promoted : User → Promotion

unfoldable pub promote : ℕ → UserRole → User → Users → Promotion × Users
promote now business_admin current s = (already_business_admin current, s)
promote now admin current s = (invalid_current_role current, s)
promote now user current s =
    let next : User = record current { role = business_admin; updated_at = now } in
    (promoted next, save_user next s)

unfoldable pub promote_found : ℕ → Option User → Users → Promotion × Users
promote_found now none s = (not_found, s)
promote_found now (some current) s = promote now current.role current s

unfoldable pub promote_user_to_business_admin : ℕ → Text → Users → Promotion × Users
promote_user_to_business_admin now id s = promote_found now (get s.users id) s

unfoldable pub update_user_password : ℕ → Text → Text → Users → Option User × Users
update_user_password now id password_hash = update_user now id (record {
  email = none;
  password_hash = some password_hash;
  reset_token = clear;
  reset_token_expiry = clear;
  role = none;
})

unfoldable pub set_reset_token : ℕ → Text → Text → ℕ → Users → Option User × Users
set_reset_token now id token_hash expiry_minutes = update_user now id (record {
  email = none;
  password_hash = none;
  reset_token = assign token_hash;
  reset_token_expiry = assign (now + expiry_minutes * 60 * 1000);
  role = none;
})

abbrev pub equals : Option Text → Text → Bool
equals none t = false
equals (some u) t = text_eq u t

abbrev pub is_after : Option ℕ → ℕ → Bool
is_after none now = false
is_after (some expiry) now = ltb now expiry

-- The test of the loop of `find_user_by_reset_token_hash`.
unfoldable pub holds_token : ℕ → Text → User → Bool
holds_token now token_hash u = equals u.reset_token token_hash && is_after u.reset_token_expiry now

unfoldable pub find_holder : ℕ → Text → List (Text × User) → Option User
find_holder now token_hash [] = none
find_holder now token_hash ((k, u) ∷ m) =
    let rest = find_holder now token_hash m in if holds_token now token_hash u then some u else rest

unfoldable pub find_user_by_reset_token_hash : ℕ → Text → Users → Option User
find_user_by_reset_token_hash now token_hash s = find_holder now token_hash s.users

unfoldable pub drop_user : Option User → Text → Users → Bool × Users
drop_user none id s = (false, s)
drop_user (some u) id s =
    (true, record { users = remove s.users id; email_index = remove s.email_index u.email })

unfoldable pub delete_user : Text → Users → Bool × Users
delete_user id s = drop_user (get s.users id) id s

unfoldable pub find_users_by_ids : List Text → Users → List (Option User)
find_users_by_ids ids s = map (λ id. get s.users id) ids

unfoldable pub get_all_users : Users → List User
get_all_users s = map (λ (e : Text × User). e.1) s.users

-- The calls that change the users; an id that is drawn is a new one.
pub data Step (s : Users) : Users → Type 0 where
  creates :
      (now : ℕ) (id email password_hash : Text)
      → get s.users id ≡ none
      → Step s (create_user now id email password_hash s).1
  updates :
      (now : ℕ) (id : Text) (changes : UpdateUserData) → Step s (update_user now id changes s).1
  promotes : (now : ℕ) (id : Text) → Step s (promote_user_to_business_admin now id s).1
  deletes : (id : Text) → Step s (delete_user id s).1

pub data Reaches (s : Users) : Users → Type 0 where
  here : Reaches s s
  next : {t u : Users} → Reaches s t → Step t u → Reaches s u
