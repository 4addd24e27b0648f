-- ===== src/Merkle/Levels.antt =====
-- One level of the tree against the next: src/services/merkle/buildTree.ts and
-- src/services/merkle/generateProof.ts.
use veritasor_backend.Prelude.{
  ◌⊎◌, inl, inr, Option-cases, Bool-cases, ltb, map, ◌≤◌, ◌<◌, ◌^◌, ℕ, zero, suc, ◌+◌, ◌/◌, ◌≡◌,
  refl, false, List, [], ◌∷◌, ◌++◌, some, arith, length, get_elem?,
}
use veritasor_backend.Prelude.Text.{Text}
use native.Mathlib.Nat.{pow-suc}
use veritasor_backend.Merkle.{
  RawLimit, unset, not_positive_integer, integer, merkle_max_leaves, ok, Proof, ProofStep,
  build_levels, build_tree, proof_levels, any_empty, next_level, get_root, is_empty, choose_sibling,
  sibling_index, combine, step_position,
}

pub sibling_index_up : (i : ℕ) → sibling_index (suc (suc i)) ≡ suc (suc (sibling_index i))
sibling_index_up i = ground arith

pub step_position_up : (i : ℕ) → step_position (suc (suc i)) ≡ step_position i
step_position_up i = ground arith

pub choose_sibling_up :
    (l r : Text) (level : List Text) (i : ℕ)
    → choose_sibling (l ∷ r ∷ level) (suc (suc i)) ≡ choose_sibling level i
unfolding choose_sibling
choose_sibling_up l r level i = rw (sibling_index_up i) (ground arith)

module _ (hash : Text → Text) where
  pub length-next_level :
      (level : List Text) → length (next_level hash level) ≡ (length level + 1) / 2
  unfolding next_level
  length-next_level [] = refl
  length-next_level (l ∷ []) = refl
  length-next_level (l ∷ r ∷ rest) = omega (arith, length-next_level rest)

  -- The parent of node `i` is the hash of the node joined with the sibling that a proof lists.
  pub parent_lem :
      (level : List Text) (i : ℕ) (current : Text)
      → get_elem? level i ≡ some current
      → (s : Text) × (choose_sibling level i ≡ some s)
        × (get_elem? (next_level hash level) (i / 2)
            ≡ some (combine hash (step_position i) current s))
  unfolding choose_sibling next_level
  parent_lem [] i current h = ground arith
  parent_lem (l ∷ []) zero current h = (l, ground arith, ground arith)
  parent_lem (l ∷ []) (suc i) current h = ground arith
  parent_lem (l ∷ r ∷ rest) zero current h = (r, ground arith, ground arith)
  parent_lem (l ∷ r ∷ rest) (suc zero) current h = (l, ground arith, ground arith)
  parent_lem (l ∷ r ∷ rest) (suc (suc i)) current h =
      let (s, e, f) = parent_lem rest i current h in
      let half : suc (suc i) / 2 ≡ suc (i / 2) = omega arith in
      (s, rw choose_sibling_up e, rw (half, step_position_up i) f)

pub get_root-append : (xs ys : List Text) → is_empty ys ≡ false → get_root (xs ++ ys) ≡ get_root ys
unfolding get_root
get_root-append [] ys h = refl
get_root-append (x ∷ []) [] h = ground arith
get_root-append (x ∷ []) (y ∷ ys) h = refl
get_root-append (x ∷ x' ∷ xs) ys h = get_root-append (x' ∷ xs) ys h

pub is_empty-append_right : (xs ys : List Text) → is_empty ys ≡ false → is_empty (xs ++ ys) ≡ false
is_empty-append_right [] ys h = h
is_empty-append_right (x ∷ xs) ys h = refl

-- A limit that the environment can set is at most 2 ^ 24.
pub merkle_max_leaves-le : (raw : RawLimit) (n : ℕ) → merkle_max_leaves raw ≡ ok n → n ≤ 2 ^ 24
unfolding merkle_max_leaves
merkle_max_leaves-le unset n h = ground arith
merkle_max_leaves-le not_positive_integer n h = ground arith
merkle_max_leaves-le (integer m) n h = ground arith

pub get_elem?-map :
    (f : Text → Text) (xs : List Text) (i : ℕ) (x : Text)
    → get_elem? xs i ≡ some x
    → get_elem? (map f xs) i ≡ some (f x)
get_elem?-map f [] i x h = ground arith
get_elem?-map f (y ∷ ys) zero x h = ground arith
get_elem?-map f (y ∷ ys) (suc i) x h = get_elem?-map f ys i x h

pub lt_of_get_elem? : (xs : List Text) (i : ℕ) (x : Text) → get_elem? xs i ≡ some x → i < length xs
lt_of_get_elem? [] i x h = ground arith
lt_of_get_elem? (y ∷ ys) zero x h = omega arith
lt_of_get_elem? (y ∷ ys) (suc i) x h = omega (arith, lt_of_get_elem? ys i x h)

module _ (hash : Text → Text) where
  proof_levels_inversion :
      (fuel : ℕ) (level : List Text) (i : ℕ) (path : Proof)
      → proof_levels hash (suc fuel) level i ≡ some path
      → ((length level ≤ 1) × (path ≡ []))
        ⊎ ((step : ProofStep) × (rest : Proof) × (path ≡ step ∷ rest)
            × (proof_levels hash fuel (next_level hash level) (i / 2) ≡ some rest))
  unfolding proof_levels
  proof_levels_inversion fuel level i path e = elim (Bool-cases (ltb 1 (length level))) [
    | inl more ↦ elim (Option-cases (choose_sibling level i)) [
      | inl bad ↦ cc (rw (more, bad, proof_levels) at e)
      | inr (s, good) ↦
          elim (Option-cases (proof_levels hash fuel (next_level hash level) (i / 2))) [
            | inl stop ↦ cc (rw (more, good, stop, proof_levels) at e)
            | inr (rest, go) ↦ inr (
              record { sibling = s; position = step_position i },
              rest,
              cc (rw (more, good, go, proof_levels) at e),
              go,
            )
          ]
    ]
    | inr one ↦ inl (ground arith, cc (rw (one, proof_levels) at e))
  ]

  -- A tree of at most 2 ^ k leaves has proofs of at most k steps.
  pub length-proof_levels :
      (fuel k : ℕ) (level : List Text) (i : ℕ) (path : Proof)
      → length level ≤ 2 ^ k
      → proof_levels hash fuel level i ≡ some path
      → length path ≤ k
  unfolding proof_levels
  length-proof_levels zero k level i path h e = ground arith
  length-proof_levels (suc fuel) zero level i path h e = ground arith
  length-proof_levels (suc fuel) (suc k) level i path h e =
      elim (proof_levels_inversion fuel level i path e) [
        | inl (small, done) ↦ rw done (omega arith)
        | inr (step, rest, is_step, is_rest) ↦ rw is_step (
            omega (
              arith,
              length-proof_levels fuel k (next_level hash level) (i / 2) rest
                  (omega (arith, length-next_level hash level, pow-suc 2 k)) is_rest,
            ))
      ]

  pub build_tree_inversion :
      (max_leaves : ℕ) (leaves tree : List Text)
      → build_tree hash max_leaves leaves ≡ ok tree
      → (is_empty leaves ≡ false)
        × (length leaves ≤ max_leaves)
        × (any_empty leaves ≡ false)
        × (build_levels hash (suc (length leaves)) (map hash leaves) ≡ some tree)
  unfolding build_tree
  build_tree_inversion max_leaves leaves tree h = ground arith
