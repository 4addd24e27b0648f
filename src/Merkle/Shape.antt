-- ===== src/Merkle/Shape.antt =====
-- When `buildTree` of src/services/merkle/buildTree.ts succeeds, and which leaf lists share a root.
use veritasor_backend.Prelude.{
  ℕ, zero, suc, ◌%◌, ◌≤◌, ◌<◌, ◌≡◌, ◌⊎◌, ◌↔◌, refl, ap, sym, ◌∙◌, false, List, [], ◌∷◌, ◌++◌, some,
  arith, length, inl, inr, Bool-cases, Option-cases, map, ltb, length-map, length-append,
}
use mathlib.Core.List.{map-append}
use veritasor_backend.Prelude.Text.{Text}
use veritasor_backend.Merkle.{
  ok, build_levels, build_tree, next_level, get_root, is_empty, any_empty,
}
use veritasor_backend.Merkle.Levels.{length-next_level, build_tree_inversion, get_root-append}

module _ (hash : Text → Text) where
  build_levels_inversion :
      (f : ℕ) (level t : List Text)
      → build_levels hash (suc f) level ≡ some t
      → ((length level ≤ 1) × (t ≡ level))
        ⊎ ((1 < length level)
            × (v : List Text) × (t ≡ level ++ v)
            × (build_levels hash f (next_level hash level) ≡ some v))
  unfolding build_levels
  build_levels_inversion f level t e = elim (Bool-cases (ltb 1 (length level))) [
    | inr one ↦ inl (ground arith, cc (rw (one, build_levels) at e))
    | inl more ↦ elim (Option-cases (build_levels hash f (next_level hash level))) [
      | inl stop ↦ cc (rw (more, stop, build_levels) at e)
      | inr (v, go) ↦ inr (ground arith, v, cc (rw (more, go, build_levels) at e), go)
    ]
  ]

  -- The nodes of a tree do not depend on the fuel.
  build_levels_unique :
      (f g : ℕ) (level t u : List Text)
      → build_levels hash f level ≡ some t
      → build_levels hash g level ≡ some u
      → t ≡ u
  unfolding build_levels
  build_levels_unique zero g level t u a b = ground arith
  build_levels_unique (suc f) zero level t u a b = ground arith
  build_levels_unique (suc f) (suc g) level t u a b = elim (build_levels_inversion f level t a) [
    | inl (one, e) ↦ ground arith
    | inr (more, v, e, a') ↦ elim (build_levels_inversion g level u b) [
      | inl (one, e') ↦ absurd (omega arith)
      | inr (_, w, e', b') ↦
          e
          ∙ ap (λ z. level ++ z) (build_levels_unique f g (next_level hash level) v w a' b')
          ∙ sym e'
    ]
  ]

  build_levels_nonempty :
      (f : ℕ) (level t : List Text)
      → is_empty level ≡ false
      → build_levels hash f level ≡ some t
      → is_empty t ≡ false
  unfolding build_levels
  build_levels_nonempty zero level t h e = ground arith
  build_levels_nonempty (suc f) level t h e = elim (build_levels_inversion f level t e) [
    | inl (one, same) ↦ ap is_empty same ∙ h
    | inr (more, v, joined, _) ↦ ap is_empty joined ∙ first level v h
  ]
    where
      first : (xs ys : List Text) → is_empty xs ≡ false → is_empty (xs ++ ys) ≡ false
      first [] ys h = ground arith
      first (x ∷ xs) ys h = refl

  build_levels_total :
      (f : ℕ) (level : List Text)
      → length level < f
      → (t : List Text) × (build_levels hash f level ≡ some t)
  unfolding build_levels
  build_levels_total zero level h = absurd (omega arith)
  build_levels_total (suc f) level h = elim (Bool-cases (ltb 1 (length level))) [
    | inr one ↦ (level, rw (one, build_levels))
    | inl more ↦
        let (v, e) =
          build_levels_total f (next_level hash level)
            (ground (arith, length-next_level hash level)) in
        (level ++ v, rw (more, e, build_levels))
  ]

  -- A tree is built exactly for a list of non-empty leaves that is itself non-empty and within the
  -- limit: the loop ends, and the guards are the only failures.
  pub build_tree-ok_iff :
      (max_leaves : ℕ) (leaves : List Text)
      → ((t : List Text) × (build_tree hash max_leaves leaves ≡ ok t))
        ↔ ((is_empty leaves ≡ false) × (length leaves ≤ max_leaves) × (any_empty leaves ≡ false))
  unfolding build_tree
  build_tree-ok_iff max_leaves leaves = (
    (λ r. let inv = build_tree_inversion hash max_leaves leaves r.0 r.1 in (inv.0, inv.1, inv.2)),
    λ g.
        let (t, e) =
          build_levels_total (suc (length leaves)) (map hash leaves)
            (omega (arith, length-map leaves hash)) in
        (t, ground (arith, g)),
  )

  next_level_twice :
      (xs : List Text) (a : Text)
      → length xs % 2 ≡ 0
      → next_level hash (xs ++ a ∷ a ∷ []) ≡ next_level hash (xs ++ a ∷ [])
  unfolding next_level
  next_level_twice [] a h = refl
  next_level_twice (x ∷ []) a h = absurd (omega arith)
  next_level_twice (x ∷ y ∷ xs) a h =
      ap (λ l. hash (x ++ y) ∷ l) (next_level_twice xs a (omega arith))

  root_above :
      (f g : ℕ) (level level' t u : List Text)
      → 1 < length level
      → 1 < length level'
      → next_level hash level ≡ next_level hash level'
      → build_levels hash (suc f) level ≡ some t
      → build_levels hash (suc g) level' ≡ some u
      → get_root t ≡ get_root u
  root_above f g level level' t u h k same a b = elim (build_levels_inversion f level t a) [
    | inl (one, _) ↦ absurd (omega arith)
    | inr (_, v, e, a') ↦ elim (build_levels_inversion g level' u b) [
      | inl (one, _) ↦ absurd (omega arith)
      | inr (_, w, e', b') ↦
          ap get_root e
          ∙ get_root-append level v (full f level v h a')
          ∙ ap get_root (
              build_levels_unique f g (next_level hash level) v w a'
                (ap (build_levels hash g) same ∙ b'))
          ∙ sym (ap get_root e' ∙ get_root-append level' w (full g level' w k b'))
    ]
  ]
    where
      full :
          (f : ℕ) (level v : List Text)
          → 1 < length level
          → build_levels hash f (next_level hash level) ≡ some v
          → is_empty v ≡ false
      full f level v h e =
          build_levels_nonempty f (next_level hash level) v
            (nonempty (next_level hash level) (omega (arith, length-next_level hash level))) e
        where
          nonempty : (l : List Text) → 0 < length l → is_empty l ≡ false
          nonempty [] h = absurd (omega arith)
          nonempty (x ∷ l) h = refl

  -- An odd last leaf is paired with itself, so writing it twice gives another list of leaves with
  -- the same root, whenever there are leaves before it.
  pub get_root_twice :
      (max_leaves : ℕ) (x : Text) (xs : List Text) (a : Text) (t u : List Text)
      → length (x ∷ xs) % 2 ≡ 0
      → build_tree hash max_leaves (x ∷ xs ++ a ∷ []) ≡ ok t
      → build_tree hash max_leaves (x ∷ xs ++ a ∷ a ∷ []) ≡ ok u
      → get_root t ≡ get_root u
  get_root_twice max_leaves x xs a t u even e f =
      root_above (length one) (length two) (map hash one) (map hash two) t u
        (omega (arith, length-map one hash, length-append xs (a ∷ [])))
        (omega (arith, length-map two hash, length-append xs (a ∷ a ∷ []))) (sym same)
        (build_tree_inversion hash max_leaves one t e).3
        (build_tree_inversion hash max_leaves two u f).3
    where
      one : List Text
      one = x ∷ xs ++ a ∷ []

      two : List Text
      two = x ∷ xs ++ a ∷ a ∷ []

      same : next_level hash (map hash two) ≡ next_level hash (map hash one)
      same =
          ap (next_level hash) (map-append hash (x ∷ xs) (a ∷ a ∷ []))
          ∙ next_level_twice (map hash (x ∷ xs)) (hash a) (omega (arith, even, length-map xs hash))
          ∙ sym (ap (next_level hash) (map-append hash (x ∷ xs) (a ∷ [])))
