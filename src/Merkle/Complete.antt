-- ===== src/Merkle/Complete.antt =====
-- Every proof that `generateProof` makes is accepted by `verifyProof` against the root that
-- `buildTree` computed: src/services/merkle/buildTree.ts and src/services/merkle/generateProof.ts.
use veritasor_backend.Prelude.{
  ℕ, zero, suc, ◌/◌, ◌≤◌, ◌<◌, ◌≡◌, refl, ap, sym, ◌∙◌, true, false, List, [], ◌∷◌, ◌++◌, some,
  arith, ltb, length, get_elem?, inl, inr, Bool-cases, Option-cases, map, lt→ltb, length-map,
}
use veritasor_backend.Prelude.Text.{Text, text_eq_refl}
use veritasor_backend.Merkle.{
  RawLimit, merkle_max_leaves, Proof, ok, build_levels, build_tree, proof_levels, generate_proof,
  next_level, get_root, is_empty, choose_sibling, sibling_index, combine, step_position, fold_proof,
  verify_proof, is_proof, every_step, is_proof_step, is_hash_hex, normalize_hash_hex, at, Position,
  left, right,
}
use veritasor_backend.Merkle.Hex.{IsDigest, normalize_digest}
use veritasor_backend.Merkle.Levels.{
  length-proof_levels, build_tree_inversion, merkle_max_leaves-le, get_elem?-map, lt_of_get_elem?,
  length-next_level, parent_lem, get_root-append,
}

module _ (hash : Text → Text) (digest : (t : Text) → IsDigest (hash t)) where
  abbrev AllDigest : List Text → Type 0
  AllDigest [] = Unit {0}
  AllDigest (t ∷ ts) = IsDigest t × AllDigest ts

  next_level-AllDigest : (level : List Text) → AllDigest (next_level hash level)
  unfolding next_level
  next_level-AllDigest [] = tt
  next_level-AllDigest (l ∷ []) = (digest (l ++ l), tt)
  next_level-AllDigest (l ∷ r ∷ rest) = (digest (l ++ r), next_level-AllDigest rest)

  map-AllDigest : (leaves : List Text) → AllDigest (map hash leaves)
  map-AllDigest [] = tt
  map-AllDigest (l ∷ ls) = (digest l, map-AllDigest ls)

  get_elem?-IsDigest :
      (level : List Text) (i : ℕ) (t : Text)
      → AllDigest level
      → get_elem? level i ≡ some t
      → IsDigest t
  get_elem?-IsDigest [] i t d h = ground arith
  get_elem?-IsDigest (x ∷ xs) zero t d h = ground arith
  get_elem?-IsDigest (x ∷ xs) (suc i) t d h = get_elem?-IsDigest xs i t d.1 h

  choose_sibling-IsDigest :
      (level : List Text) (i : ℕ) (t : Text)
      → AllDigest level
      → choose_sibling level i ≡ some t
      → IsDigest t
  unfolding choose_sibling
  choose_sibling-IsDigest level i t d h = elim (Bool-cases (ltb (sibling_index i) (length level))) [
    | inl inside ↦ get_elem?-IsDigest level (sibling_index i) t d (rw inside at h)
    | inr outside ↦ get_elem?-IsDigest level i t d (rw outside at h)
  ]

  build_levels_step :
      (fuel : ℕ) (level above : List Text)
      → 1 < length level
      → build_levels hash fuel (next_level hash level) ≡ some above
      → build_levels hash (suc fuel) level ≡ some (level ++ above)
  unfolding build_levels
  build_levels_step fuel level above h e = ground arith

  proof_levels_step :
      (fuel : ℕ) (level : List Text) (i : ℕ) (s : Text) (rest : Proof)
      → 1 < length level
      → choose_sibling level i ≡ some s
      → proof_levels hash fuel (next_level hash level) (i / 2) ≡ some rest
      → proof_levels hash (suc fuel) level i
        ≡ some (record { sibling = s; position = step_position i } ∷ rest)
  unfolding proof_levels
  proof_levels_step fuel level i s rest h chosen e =
      rw (lt→ltb 1 (length level) h, chosen, e, proof_levels)

  fold_proof_step :
      (current s : Text) (p : Position) (rest : Proof)
      → IsDigest s
      → (fold_proof hash current (record { sibling = s; position = p } ∷ rest)
          ≡ fold_proof hash (combine hash p current s) rest)
        × (every_step (record { sibling = s; position = p } ∷ rest) ≡ every_step rest)
  unfolding fold_proof every_step is_proof_step is_hash_hex
  fold_proof_step current s p rest d =
      (rw (normalize_digest s d, fold_proof), rw (normalize_digest s d, every_step))

  -- The tree and the proof for node `i` of a level.
  record Agrees (fuel : ℕ) (level : List Text) (i : ℕ) (current : Text) : Type 0 where
    tree : List Text
    path : Proof
    built : build_levels hash fuel level ≡ some tree
    nonempty : is_empty tree ≡ false
    proved : proof_levels hash fuel level i ≡ some path
    folds : fold_proof hash current path ≡ some (get_root tree)
    checks : every_step path ≡ true

  agrees :
      (fuel : ℕ) (level : List Text) (i : ℕ) (current : Text)
      → length level ≤ fuel
      → AllDigest level
      → get_elem? level i ≡ some current
      → Agrees fuel level i current
  unfolding build_levels proof_levels fold_proof every_step is_proof_step is_hash_hex get_root
  agrees zero [] i current h d e = ground arith
  agrees zero (x ∷ xs) i current h d e = absurd (omega arith)
  agrees (suc fuel) [] i current h d e = ground arith
  agrees (suc fuel) (x ∷ []) zero current h d e = record {
    tree = x ∷ [];
    path = [];
    built = ground arith;
    nonempty = refl;
    proved = ground arith;
    folds = sym e;
    checks = refl;
  }
  agrees (suc fuel) (x ∷ []) (suc i) current h d e = ground arith
  agrees (suc fuel) (x ∷ y ∷ rest) i current h d e =
      let level : List Text = x ∷ y ∷ rest in
      let (s, chosen, parent) = parent_lem hash level i current e in
      let above =
        agrees fuel (next_level hash level) (i / 2) (combine hash (step_position i) current s)
          (omega (arith, length-next_level hash level)) (next_level-AllDigest level) parent in
      let step =
        fold_proof_step current s (step_position i) above.path
          (choose_sibling-IsDigest level i s d chosen) in
      record {
        tree = level ++ above.tree;
        path = record { sibling = s; position = step_position i } ∷ above.path;
        built = build_levels_step fuel level above.tree (omega arith) above.built;
        nonempty = refl;
        proved = proof_levels_step fuel level i s above.path (omega arith) chosen above.proved;
        folds =
            step.0 ∙ above.folds ∙ ap some (sym (get_root-append level above.tree above.nonempty));
        checks = step.1 ∙ above.checks;
      }

  combine-IsDigest : (p : Position) (c s : Text) → IsDigest (combine hash p c s)
  combine-IsDigest left c s = digest (s ++ c)
  combine-IsDigest right c s = digest (c ++ s)

  fold_proof-IsDigest :
      (current : Text) (path : Proof) (r : Text)
      → IsDigest current
      → fold_proof hash current path ≡ some r
      → IsDigest r
  unfolding fold_proof
  fold_proof-IsDigest current [] r d e = ground arith
  fold_proof-IsDigest current (s ∷ ss) r d e = elim (Option-cases (normalize_hash_hex s.sibling)) [
    | inl bad ↦ cc (rw (bad, fold_proof) at e)
    | inr (t, good) ↦
        fold_proof-IsDigest (combine hash s.position current t) ss r
          (combine-IsDigest s.position current t) (rw (good, fold_proof) at e)
  ]

  some-inj : (a b : List Text) → some a ≡ some b → a ≡ b
  some-inj a b h = cc

  generate_proof_at :
      (leaves : List Text) (i : ℕ) (path : Proof)
      → i < length leaves
      → proof_levels hash (suc (length leaves)) (map hash leaves) i ≡ some path
      → generate_proof hash leaves (at i) ≡ ok path
  unfolding generate_proof
  generate_proof_at [] i path h e = absurd (omega arith)
  generate_proof_at (l ∷ ls) i path h e = rw (lt→ltb i (length (l ∷ ls)) h, e)

  verify_proof_lem :
      (leaf : Text) (path : Proof) (root : Text)
      → length path ≤ 256
      → every_step path ≡ true
      → IsDigest root
      → fold_proof hash (hash leaf) path ≡ some root
      → verify_proof hash leaf path root ≡ true
  unfolding verify_proof is_proof
  verify_proof_lem leaf path root short checks d e =
      ground (arith, normalize_digest root d, text_eq_refl root)

  -- Every leaf that a tree was built over has a proof, and `verifyProof` accepts it against the
  -- root of the tree, for every limit that MERKLE_MAX_LEAVES can be set to.
  pub verify_proof-generate_proof :
      (raw : RawLimit) (max_leaves : ℕ) (leaves tree : List Text) (i : ℕ) (leaf : Text)
      → merkle_max_leaves raw ≡ ok max_leaves
      → build_tree hash max_leaves leaves ≡ ok tree
      → get_elem? leaves i ≡ some leaf
      → (proof : Proof) × (generate_proof hash leaves (at i) ≡ ok proof)
        × (verify_proof hash leaf proof (get_root tree) ≡ true)
  verify_proof-generate_proof raw max_leaves leaves tree i leaf limited built found =
      let a =
        agrees (suc (length leaves)) (map hash leaves) i (hash leaf)
          (omega (arith, length-map leaves hash)) (map-AllDigest leaves)
          (get_elem?-map hash leaves i leaf found) in
      let inv = build_tree_inversion hash max_leaves leaves tree built in
      let bound = merkle_max_leaves-le raw max_leaves limited in
      let short =
        length-proof_levels hash (suc (length leaves)) 24 (map hash leaves) i a.path
          (omega (arith, length-map leaves hash, inv.1, bound)) a.proved in
      let same = some-inj tree a.tree (sym inv.3 ∙ a.built) in
      (
        a.path,
        generate_proof_at leaves i a.path (lt_of_get_elem? leaves i leaf found) a.proved,
        rw same (
            verify_proof_lem leaf a.path (get_root a.tree) (omega (arith, short)) a.checks
              (fold_proof-IsDigest (hash leaf) a.path _ (digest leaf) a.folds) a.folds),
      )
