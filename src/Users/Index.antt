-- ===== src/Users/Index.antt =====
-- The index of src/repositories/userRepository.ts: what it leads to is a user with that e-mail.
use veritasor_backend.Prelude.{
  ℕ, ◌≡◌, refl, sym, ◌∙◌, Option, none, some, [], ◌∷◌, inl, inr, Bool-cases,
}
use veritasor_backend.Prelude.Text.{Text, text_eq, text_eq→≡, text_eq_refl}
use veritasor_backend.Prelude.Maps.{
  get, remove, get-put_same, get-put_other, get-put_cases, get-remove_other, get-remove_cases,
}
use veritasor_backend.Users.{
  UserRole, user, admin, business_admin, User, Users, no_users, UpdateUserData, save_user,
  create_user, indexed, find_user_by_email, find_user_by_id, next_user, unindex, replace_user,
  update_user, promote, promote_found, promote_user_to_business_admin, drop_user, delete_user, Step,
  creates, updates, promotes, deletes, Reaches, here, next,
}

pub record IsValid (s : Users) : Type 0 where
  pub keyed : (i : Text) (u : User) → get s.users i ≡ some u → u.id ≡ i
  pub sound :
      (e i : Text)
      → get s.email_index e ≡ some i
      → (u : User) × (get s.users i ≡ some u) × (u.email ≡ e)

no_users-IsValid : IsValid no_users
unfolding get
no_users-IsValid = record { keyed = λ i u h. cc; sound = λ e i h. cc }

-- A user may be saved where the index holds its id under no other e-mail.
module _ (u : User) (s : Users) (v : IsValid s)
    (own : (e : Text) → get s.email_index e ≡ some u.id → e ≡ u.email) where
  save_user-IsValid : IsValid (save_user u s)
  unfolding save_user
  save_user-IsValid = record {
    keyed = λ i w h. elim (get-put_cases s.users u.id i u h) [
      | inl (e, f) ↦ cc
      | inr (e, g) ↦ v.keyed i w g
    ];
    sound = λ e i h. elim (get-put_cases s.email_index u.email e u.id h) [
      | inl (same, mine) ↦ (u, cc (get-put_same s.users u.id u), same)
      | inr (other, old) ↦ elim (Bool-cases (text_eq u.id i)) [
        | inl mine ↦
            let same_id : u.id ≡ i = text_eq→≡ u.id i mine in
            let at : get s.email_index e ≡ some u.id = cc in absurd (cc (own e at, text_eq_refl e))
        | inr theirs ↦
            let (w, found, of) = v.sound e i old in
            (w, get-put_other s.users u.id i u theirs ∙ found, of)
      ]
    ];
  }

remove_index-IsValid :
    (s : Users) (e : Text) → IsValid s → IsValid (record s { email_index = remove s.email_index e })
remove_index-IsValid s e v = record {
  keyed = v.keyed;
  sound = λ f i h. v.sound f i (get-remove_cases s.email_index e f h).1;
}

-- What the index leads to is `current` only under its own e-mail.
points_home :
    (s : Users) (v : IsValid s) (current : User) (e : Text)
    → get s.users current.id ≡ some current
    → get s.email_index e ≡ some current.id
    → current.email ≡ e
points_home s v current e found at = let (w, there, of) = v.sound e current.id at in cc

unindex-IsValid : (current later : User) (s : Users) → IsValid s → IsValid (unindex current later s)
unfolding unindex
unindex-IsValid current later s v = elim (Bool-cases (text_eq current.email later.email)) [
  | inl e ↦ rw e v
  | inr e ↦ rw e (remove_index-IsValid s current.email v)
]

unindex-own :
    (current later : User) (s : Users)
    → IsValid s
    → get s.users current.id ≡ some current
    → (e : Text) → get (unindex current later s).email_index e ≡ some current.id
    → e ≡ later.email
unfolding unindex
unindex-own current later s v found e at = elim (Bool-cases (text_eq current.email later.email)) [
  | inl same ↦
      let at' : get s.email_index e ≡ some current.id = rw same at at in
      cc (points_home s v current e found at', text_eq→≡ current.email later.email same)
  | inr other ↦
      let (apart, at') = get-remove_cases s.email_index current.email e (rw other at at) in
      absurd (cc (points_home s v current e found at', text_eq_refl e))
]

replace_user-IsValid :
    (now : ℕ) (changes : UpdateUserData) (id : Text) (found : Option User) (s : Users)
    → IsValid s
    → get s.users id ≡ found
    → IsValid (replace_user now changes found s).1
unfolding replace_user next_user
replace_user-IsValid now changes id none s v e = v
replace_user-IsValid now changes id (some current) s v e =
    let mine : get s.users current.id ≡ some current = cc (v.keyed id current e) in
    save_user-IsValid (next_user now current changes)
      (unindex current (next_user now current changes) s)
      (unindex-IsValid current (next_user now current changes) s v)
      (unindex-own current (next_user now current changes) s v mine)

drop_user-IsValid :
    (id : Text) (found : Option User) (s : Users)
    → IsValid s
    → get s.users id ≡ found
    → IsValid (drop_user found id s).1
unfolding drop_user
drop_user-IsValid id none s v e = v
drop_user-IsValid id (some u) s v found = record {
  keyed = λ i w h. v.keyed i w (get-remove_cases s.users id i h).1;
  sound = λ e i h.
      let (other, at) = get-remove_cases s.email_index u.email e h in
      let (w, there, of) = v.sound e i at in
      elim (Bool-cases (text_eq id i)) [
        | inl mine ↦
            let same : id ≡ i = text_eq→≡ id i mine in
            let w_is : some u ≡ some w = cc in absurd (cc (text_eq_refl e))
        | inr theirs ↦ (w, get-remove_other s.users id i theirs ∙ there, of)
      ];
}

promote-IsValid :
    (now : ℕ) (id : Text) (role : UserRole) (current : User) (s : Users)
    → IsValid s
    → get s.users id ≡ some current
    → IsValid (promote now role current s).1
unfolding promote
promote-IsValid now id business_admin current s v e = v
promote-IsValid now id admin current s v e = v
promote-IsValid now id user current s v e =
    let mine : get s.users current.id ≡ some current = cc (v.keyed id current e) in
    save_user-IsValid (record current { role = business_admin; updated_at = now }) s v
      (λ f at. sym (points_home s v current f mine at))

promote_found-IsValid :
    (now : ℕ) (id : Text) (found : Option User) (s : Users)
    → IsValid s
    → get s.users id ≡ found
    → IsValid (promote_found now found s).1
unfolding promote_found
promote_found-IsValid now id none s v e = v
promote_found-IsValid now id (some current) s v e =
    promote-IsValid now id current.role current s v e

Step-IsValid : {s t : Users} → Step s t → IsValid s → IsValid t
unfolding create_user update_user promote_user_to_business_admin delete_user
Step-IsValid {s} (creates now id email password_hash new) v =
    save_user-IsValid _ s v (λ e at. let (w, there, of) = v.sound e id at in absurd (cc))
Step-IsValid {s} (updates now id changes) v =
    replace_user-IsValid now changes id (get s.users id) s v refl
Step-IsValid {s} (promotes now id) v = promote_found-IsValid now id (get s.users id) s v refl
Step-IsValid {s} (deletes id) v = drop_user-IsValid id (get s.users id) s v refl

Reaches-IsValid : {s t : Users} → IsValid s → Reaches s t → IsValid t
Reaches-IsValid v here = v
Reaches-IsValid v (next r step) = Step-IsValid step (Reaches-IsValid v r)

-- Every user is kept under its id.
pub keyed_users :
    {s : Users} → Reaches no_users s → (i : Text) (u : User) → get s.users i ≡ some u → u.id ≡ i
keyed_users r = (Reaches-IsValid no_users-IsValid r).keyed

-- However users are created, updated, promoted and deleted, a look-up by e-mail brings a user who
-- has that e-mail and who is stored under its id.
pub find_user_by_email-Reaches :
    (e : Text) {s : Users} {u : User}
    → Reaches no_users s
    → find_user_by_email e s ≡ some u
    → (u.email ≡ e) × (find_user_by_id u.id s ≡ some u)
unfolding find_user_by_email find_user_by_id
find_user_by_email-Reaches e {s} {u} r h =
    from_index (Reaches-IsValid no_users-IsValid r) (get s.email_index e) refl h
  where
    from_index :
        IsValid s
        → (i : Option Text) → get s.email_index e ≡ i
        → indexed i s ≡ some u
        → (u.email ≡ e) × (get s.users u.id ≡ some u)
    from_index v none at found = absurd (cc)
    from_index v (some []) at found = absurd (cc)
    from_index v (some (c ∷ cs)) at found =
        let (w, there, of) = v.sound e (c ∷ cs) at in
        let key : u.id ≡ c ∷ cs = v.keyed (c ∷ cs) u found in (cc, cc)
