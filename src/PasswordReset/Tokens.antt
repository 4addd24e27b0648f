-- ===== src/PasswordReset/Tokens.antt =====
-- Which users hold the hash of a token, under the calls of src/repositories/userRepository.ts.
pub mod SingleUse
pub mod Flow
use veritasor_backend.Prelude.{
  ℕ, ◌≡◌, refl, sym, ◌∙◌, Bool, true, false, Option, none, some, List, [], ◌∷◌, inl, inr, arith,
  ltb, if◌then◌else◌, Bool-cases,
}
use veritasor_backend.Prelude.Text.{Text, text_eq, text_eq→≡, text_eq_refl}
use veritasor_backend.Prelude.Maps.{get, put, remove}
use veritasor_backend.Users.{
  User, equals, is_after, holds_token, find_holder, UpdateUserData, Update, keep, clear, assign,
  updated, next_user,
}

-- No user holds the hash.
abbrev pub Unheld : Text → List (Text × User) → Type 0
Unheld h [] = Unit {0}
Unheld h ((k, u) ∷ m) = (equals u.reset_token h ≡ false) × Unheld h m

-- No user holds the hash but the one of this id.
abbrev pub UnheldBut : Text → Text → List (Text × User) → Type 0
UnheldBut h id [] = Unit {0}
UnheldBut h id ((k, u) ∷ m) =
    if text_eq k id then Unheld h m else ((equals u.reset_token h ≡ false) × UnheldBut h id m)

pub put-Unheld :
    (h k : Text) (u : User) (m : List (Text × User))
    → equals u.reset_token h ≡ false
    → Unheld h m
    → Unheld h (put m k u)
unfolding put
put-Unheld h k u [] e v = (e, tt)
put-Unheld h k u ((x, w) ∷ m) e v = elim (Bool-cases (text_eq x k)) [
  | inl same ↦ rw same (e, v.1)
  | inr other ↦ rw other (v.0, put-Unheld h k u m e v.1)
]

pub remove-Unheld : (h k : Text) (m : List (Text × User)) → Unheld h m → Unheld h (remove m k)
unfolding remove
remove-Unheld h k [] v = tt
remove-Unheld h k ((x, w) ∷ m) v = elim (Bool-cases (text_eq x k)) [
  | inl same ↦ rw same (remove-Unheld h k m v.1)
  | inr other ↦ rw other (v.0, remove-Unheld h k m v.1)
]

-- The only one that may hold it is given another.
pub put-Unheld_but :
    (h id : Text) (u : User) (m : List (Text × User))
    → equals u.reset_token h ≡ false
    → UnheldBut h id m
    → Unheld h (put m id u)
unfolding put
put-Unheld_but h id u [] e v = (e, tt)
put-Unheld_but h id u ((x, w) ∷ m) e v = elim (Bool-cases (text_eq x id)) [
  | inl same ↦ rw same (e, rw same at v)
  | inr other ↦
      let v' : (equals w.reset_token h ≡ false) × UnheldBut h id m = rw other at v in
      rw other (v'.0, put-Unheld_but h id u m e v'.1)
]

pub put-UnheldBut :
    (h id : Text) (u : User) (m : List (Text × User)) → Unheld h m → UnheldBut h id (put m id u)
unfolding put
put-UnheldBut h id u [] v = rw (text_eq_refl id) tt
put-UnheldBut h id u ((x, w) ∷ m) v = elim (Bool-cases (text_eq x id)) [
  | inl same ↦ rw (same, same) v.1
  | inr other ↦ rw (other, other) (v.0, put-UnheldBut h id u m v.1)
]

pub get-Unheld :
    (h k : Text) {u : User} (m : List (Text × User))
    → Unheld h m
    → get m k ≡ some u
    → equals u.reset_token h ≡ false
unfolding get
get-Unheld h k [] v e = cc
get-Unheld h k ((x, w) ∷ m) v e = elim (Bool-cases (text_eq x k)) [
  | inl same ↦ let mine : some w ≡ some _ = rw same at e in cc (v.0)
  | inr other ↦ get-Unheld h k m v.1 (rw other at e)
]

pub Unheld-UnheldBut : (h id : Text) (m : List (Text × User)) → Unheld h m → UnheldBut h id m
Unheld-UnheldBut h id [] v = tt
Unheld-UnheldBut h id ((x, w) ∷ m) v = elim (Bool-cases (text_eq x id)) [
  | inl same ↦ rw same v.1
  | inr other ↦ rw other (v.0, Unheld-UnheldBut h id m v.1)
]

-- A change of the one that may hold it, or by one that does not.
pub put-UnheldBut_own :
    (h id : Text) (u : User) (m : List (Text × User))
    → UnheldBut h id m
    → UnheldBut h id (put m id u)
unfolding put
put-UnheldBut_own h id u [] v = rw (text_eq_refl id) tt
put-UnheldBut_own h id u ((x, w) ∷ m) v = elim (Bool-cases (text_eq x id)) [
  | inl same ↦ rw (same, same) (rw same at v)
  | inr other ↦
      let v' : (equals w.reset_token h ≡ false) × UnheldBut h id m = rw other at v in
      rw (other, other) (v'.0, put-UnheldBut_own h id u m v'.1)
]

pub put-UnheldBut_other :
    (h id k : Text) (u : User) (m : List (Text × User))
    → text_eq k id ≡ false
    → equals u.reset_token h ≡ false
    → UnheldBut h id m
    → UnheldBut h id (put m k u)
unfolding put
put-UnheldBut_other h id k u [] apart e v = rw apart (e, tt)
put-UnheldBut_other h id k u ((x, w) ∷ m) apart e v = elim (Bool-cases (text_eq x id)) [
  | inl same ↦
      let v' : Unheld h m = rw same at v in
      elim (Bool-cases (text_eq x k)) [
        | inl here ↦ rw (here, same) v'
        | inr there ↦ rw (there, same) (put-Unheld h k u m e v')
      ]
  | inr other ↦
      let v' : (equals w.reset_token h ≡ false) × UnheldBut h id m = rw other at v in
      elim (Bool-cases (text_eq x k)) [
        | inl here ↦ rw (here, other) (e, v'.1)
        | inr there ↦ rw (there, other) (v'.0, put-UnheldBut_other h id k u m apart e v'.1)
      ]
]

pub get-UnheldBut :
    (h id k : Text) {u : User} (m : List (Text × User))
    → text_eq k id ≡ false
    → UnheldBut h id m
    → get m k ≡ some u
    → equals u.reset_token h ≡ false
unfolding get
get-UnheldBut h id k [] apart v e = cc
get-UnheldBut h id k ((x, w) ∷ m) apart v e = elim (Bool-cases (text_eq x id)) [
  | inl same ↦
      let v' : Unheld h m = rw same at v in
      elim (Bool-cases (text_eq x k)) [
        | inl here ↦ absurd (cc (text_eq→≡ x k here, same))
        | inr there ↦ get-Unheld h k m v' (rw there at e)
      ]
  | inr other ↦
      let v' : (equals w.reset_token h ≡ false) × UnheldBut h id m = rw other at v in
      elim (Bool-cases (text_eq x k)) [
        | inl here ↦ let mine : some w ≡ some _ = rw here at e in cc (v'.0)
        | inr there ↦ get-UnheldBut h id k m apart v'.1 (rw there at e)
      ]
]

pub remove-UnheldBut :
    (h id k : Text) (m : List (Text × User)) → UnheldBut h id m → UnheldBut h id (remove m k)
unfolding remove
remove-UnheldBut h id k [] v = tt
remove-UnheldBut h id k ((x, w) ∷ m) v = elim (Bool-cases (text_eq x id)) [
  | inl same ↦
      let v' : Unheld h m = rw same at v in
      elim (Bool-cases (text_eq x k)) [
        | inl here ↦ rw here (Unheld-UnheldBut h id (remove m k) (remove-Unheld h k m v'))
        | inr there ↦ rw (there, same) (remove-Unheld h k m v')
      ]
  | inr other ↦
      let v' : (equals w.reset_token h ≡ false) × UnheldBut h id m = rw other at v in
      elim (Bool-cases (text_eq x k)) [
        | inl here ↦ rw here (remove-UnheldBut h id k m v'.1)
        | inr there ↦ rw (there, other) (v'.0, remove-UnheldBut h id k m v'.1)
      ]
]

-- Without the one that may hold it, nobody does.
pub gone-Unheld :
    (h id : Text) (m : List (Text × User)) → UnheldBut h id m → get m id ≡ none → Unheld h m
unfolding get
gone-Unheld h id [] v e = tt
gone-Unheld h id ((x, w) ∷ m) v e = elim (Bool-cases (text_eq x id)) [
  | inl same ↦ let found : some w ≡ none = rw same at e in cc
  | inr other ↦
      let v' : (equals w.reset_token h ≡ false) × UnheldBut h id m = rw other at v in
      (v'.0, gone-Unheld h id m v'.1 (rw other at e))
]

not_holder :
    (now : ℕ) (h : Text) (u : User) → equals u.reset_token h ≡ false → holds_token now h u ≡ false
unfolding holds_token
not_holder now h u e = rw e refl

pub find_holder-Unheld :
    (now : ℕ) (h : Text) (m : List (Text × User)) → Unheld h m → find_holder now h m ≡ none
unfolding find_holder holds_token
find_holder-Unheld now h [] v = refl
find_holder-Unheld now h ((k, u) ∷ m) v = rw (v.0, find_holder-Unheld now h m v.1) refl

pub find_holder-UnheldBut :
    (now : ℕ) (h id : Text) (u : User) (m : List (Text × User))
    → UnheldBut h id m
    → get m id ≡ some u
    → holds_token now h u ≡ true
    → find_holder now h m ≡ some u
unfolding find_holder get
find_holder-UnheldBut now h id u [] v found holds = cc
find_holder-UnheldBut now h id u ((k, w) ∷ m) v found holds = elim (Bool-cases (text_eq k id)) [
  | inl same ↦
      let same_user : some w ≡ some u = rw same at found in
      let holds' : holds_token now h w ≡ true = cc in rw holds' same_user
  | inr other ↦
      let v' : (equals w.reset_token h ≡ false) × UnheldBut h id m = rw other at v in
      let found' : get m id ≡ some u = rw other at found in
      rw (not_holder now h w v'.0, find_holder-UnheldBut now h id u m v'.1 found' holds) refl
]
