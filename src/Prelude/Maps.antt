-- ===== src/Prelude/Maps.antt =====
-- A `Map` of the program, keyed by texts: the entries in the order of their insertion.
use Prim.Native.Nat.{suc, ◌≤◌}
use mathlib.Core.Path.{◌≡◌, refl, sym, ◌∙◌}
use mathlib.Core.Bool.{false}
use mathlib.Core.List.{List, [], ◌∷◌}
use mathlib.Core.Option.{Option, none, some}
use mathlib.Core.Logic.{◌⊎◌, inl, inr}
use native.Mathlib.Omega.{arith}
use veritasor_backend.Prelude.Tests.{if◌then◌else◌, Bool-cases}
use veritasor_backend.Prelude.Lists.{length}
use veritasor_backend.Prelude.Text.{Text, text_eq, text_eq→≡, text_eq_refl}

module _ {V : Type 0} where
  unfoldable pub get : List (Text × V) → Text → Option V
  get [] k = none
  get ((x, v) ∷ m) k = if text_eq x k then some v else get m k

  -- `set` keeps the place of a key that is present, and adds a new one at the end.
  unfoldable pub put : List (Text × V) → Text → V → List (Text × V)
  put [] k v = (k, v) ∷ []
  put ((x, w) ∷ m) k v = if text_eq x k then (x, v) ∷ m else (x, w) ∷ put m k v

  unfoldable pub remove : List (Text × V) → Text → List (Text × V)
  remove [] k = []
  remove ((x, w) ∷ m) k = if text_eq x k then remove m k else (x, w) ∷ remove m k

  pub get-put_same : (m : List (Text × V)) (k : Text) (v : V) → get (put m k v) k ≡ some v
  unfolding get put
  get-put_same [] k v = ground (arith, text_eq_refl k)
  get-put_same ((x, w) ∷ m) k v = ground (arith, get-put_same m k v)

  pub get-put_other :
      (m : List (Text × V)) (k l : Text) (v : V) → text_eq k l ≡ false → get (put m k v) l ≡ get m l
  unfolding get put
  get-put_other [] k l v h = ground arith
  get-put_other ((x, w) ∷ m) k l v h = elim (Bool-cases (text_eq x k)) [
    | inl e ↦ rw (e, text_eq→≡ x k e, h) refl
    | inr e ↦ rw (e, get-put_other m k l v h) refl
  ]

  pub get-remove_other :
      (m : List (Text × V)) (k l : Text) → text_eq k l ≡ false → get (remove m k) l ≡ get m l
  unfolding get remove
  get-remove_other [] k l h = refl
  get-remove_other ((x, w) ∷ m) k l h = elim (Bool-cases (text_eq x k)) [
    | inl e ↦ rw (e, text_eq→≡ x k e, h, get-remove_other m k l h) refl
    | inr e ↦ rw (e, get-remove_other m k l h) refl
  ]

  pub get-remove_same : (m : List (Text × V)) (k : Text) → get (remove m k) k ≡ none
  unfolding get remove
  get-remove_same [] k = refl
  get-remove_same ((x, w) ∷ m) k = ground (arith, get-remove_same m k)

  pub length-put : (m : List (Text × V)) (k : Text) (v : V) → length (put m k v) ≤ suc (length m)
  unfolding put
  length-put [] k v = omega arith
  length-put ((x, w) ∷ m) k v = ground (arith, length-put m k v)

  pub length-remove : (m : List (Text × V)) (k : Text) → length (remove m k) ≤ length m
  unfolding remove
  length-remove [] k = omega arith
  length-remove ((x, w) ∷ m) k = ground (arith, length-remove m k)

  -- The laws in one equation each.
  pub get-put :
      (m : List (Text × V)) (k l : Text) (v : V)
      → get (put m k v) l ≡ (if text_eq k l then some v else get m l)
  get-put m k l v = elim (Bool-cases (text_eq k l)) [
    | inl e ↦ rw (e, text_eq→≡ k l e, get-put_same m l v) refl
    | inr e ↦ rw (e, get-put_other m k l v e) refl
  ]

  pub get-remove :
      (m : List (Text × V)) (k l : Text)
      → get (remove m k) l ≡ (if text_eq k l then none else get m l)
  get-remove m k l = elim (Bool-cases (text_eq k l)) [
    | inl e ↦ rw (e, text_eq→≡ k l e, get-remove_same m l) refl
    | inr e ↦ rw (e, get-remove_other m k l e) refl
  ]

  -- What is found after a change was put there by it, or was there before.
  pub get-put_cases :
      (m : List (Text × V)) (k l : Text) (v : V) {w : V}
      → get (put m k v) l ≡ some w
      → ((k ≡ l) × (v ≡ w)) ⊎ ((text_eq k l ≡ false) × (get m l ≡ some w))
  get-put_cases m k l v h = elim (Bool-cases (text_eq k l)) [
    | inl e ↦ inl (text_eq→≡ k l e, cc (get-put m k l v))
    | inr e ↦ inr (e, sym (get-put_other m k l v e) ∙ h)
  ]

  pub get-remove_cases :
      (m : List (Text × V)) (k l : Text) {w : V}
      → get (remove m k) l ≡ some w
      → (text_eq k l ≡ false) × (get m l ≡ some w)
  get-remove_cases m k l h = elim (Bool-cases (text_eq k l)) [
    | inl e ↦ absurd (cc (get-remove m k l))
    | inr e ↦ (e, sym (get-remove_other m k l e) ∙ h)
  ]
