-- ===== src/Merkle/Legacy/Trip.antt =====
-- The proofs of `MerkleTree` in src/services/merkle.ts verify.
use mathlib.Core.Path.{subst}
use mathlib.Core.List.{append-nil}
use veritasor_backend.Prelude.{
  ℕ, zero, suc, ◌+◌, ◌/◌, ◌%◌, ◌≤◌, ◌<◌, ◌≡◌, inl, inr, refl, sym, ◌∙◌, ap, arith, true, false,
  List, [], ◌∷◌, ◌++◌, map, Option, none, some, ltb, leb, ◌==◌, if◌then◌else◌, length, get_elem?,
  Bool-cases, length-map,
}
use veritasor_backend.Prelude.Text.{Text, text_eq_refl}
use veritasor_backend.Merkle.{ok, is_empty}
use veritasor_backend.Merkle.Legacy.{
  Bytes, Level, Leaf, Crypto, sibling_of, sibling_in, bottom_up, hash_leaf, legacy_next, grow,
  new_tree, legacy_root, climb, get_proof, fold_legacy, verify_legacy, some_empty_text,
}

sibling_of_up : (i : ℕ) → sibling_of (suc (suc i)) ≡ suc (suc (sibling_of i))
sibling_of_up i = ground arith

sibling_in_up :
    (l r : Bytes) (level : Level) (i : ℕ)
    → sibling_in (l ∷ r ∷ level) (suc (suc i)) ≡ sibling_in level i
unfolding sibling_in
sibling_in_up l r level i = rw (sibling_of_up i) (ground arith)

parity_up : (i : ℕ) → (suc (suc i) % 2 == 0) ≡ (i % 2 == 0)
parity_up i = ground arith

some_is : (x b : Bytes) → some x ≡ some b → x ≡ b
some_is x b h = cc

abbrev ap_leaf : (Leaf → Bytes) → Option Leaf → Option Bytes
ap_leaf f none = none
ap_leaf f (some l) = some (f l)

get_elem?-map_leaf :
    (f : Leaf → Bytes) (xs : List Leaf) (i : ℕ) (x : Leaf)
    → get_elem? xs i ≡ some x
    → get_elem? (map f xs) i ≡ some (f x)
get_elem?-map_leaf f [] i x h = cc
get_elem?-map_leaf f (y ∷ ys) zero x h = ap (λ o. ap_leaf f o) h
get_elem?-map_leaf f (y ∷ ys) (suc i) x h = get_elem?-map_leaf f ys i x h

filled : (xs : List Leaf) (i : ℕ) (x : Leaf) → get_elem? xs i ≡ some x → is_empty xs ≡ false
filled [] i x h = cc
filled (y ∷ ys) i x h = refl

inside : (xs : Level) (i : ℕ) (x : Bytes) → get_elem? xs i ≡ some x → ltb i (length xs) ≡ true
inside [] i x h = cc
inside (y ∷ ys) zero x h = ground arith
inside (y ∷ ys) (suc i) x h = ground (arith, inside ys i x h)

module _ (c : Crypto) where
  joined : ℕ → Bytes → Bytes → Bytes
  joined index hash sibling =
      if index % 2 == 0 then c.sha (hash ++ sibling) else c.sha (sibling ++ hash)

  joined_up : (i : ℕ) (h s : Bytes) → joined (suc (suc i)) h s ≡ joined i h s
  unfolding joined
  joined_up i h s = rw (parity_up i) refl

  -- The parent of a node is the hash of the node joined with its sibling.
  parent_of :
      (level : Level) (i : ℕ) (current : Bytes)
      → get_elem? level i ≡ some current
      → (s : Bytes) × (sibling_in level i ≡ some s)
        × (get_elem? (legacy_next c level) (i / 2) ≡ some (joined i current s))
  unfolding sibling_in legacy_next joined
  parent_of [] i current h = ground arith
  parent_of (l ∷ []) zero current h = (l, ground arith, ground arith)
  parent_of (l ∷ []) (suc i) current h = ground arith
  parent_of (l ∷ r ∷ rest) zero current h = (r, ground arith, ground arith)
  parent_of (l ∷ r ∷ rest) (suc zero) current h = (l, ground arith, ground arith)
  parent_of (l ∷ r ∷ rest) (suc (suc i)) current h =
      let (s, e, f) = parent_of rest i current h in
      let half : suc (suc i) / 2 ≡ suc (i / 2) = omega arith in
      (
        s,
        rw sibling_in_up e,
        subst
            (λ k.
              get_elem? (c.sha (l ++ r) ∷ legacy_next c rest) k
              ≡ some (joined (suc (suc i)) current s))
            (sym half) (f ∙ ap some (sym (joined_up i current s))),
      )

  -- The levels from the bottom up: each is made of the one below it, and the last has one node.
  Tower : List Level → Type 0
  Tower [] = ⊥
  Tower (top ∷ []) = ltb 1 (length top) ≡ false
  Tower (level ∷ above ∷ levels) = (above ≡ legacy_next c level) × Tower (above ∷ levels)

  abbrev top_of : Level → List Level → Level
  top_of level [] = level
  top_of level (above ∷ levels) = top_of above levels

  bottom_up-bottom_up :
      (xs acc zs : List Level) → bottom_up (bottom_up xs acc) zs ≡ bottom_up acc (xs ++ zs)
  unfolding bottom_up
  bottom_up-bottom_up [] acc zs = refl
  bottom_up-bottom_up (x ∷ xs) acc zs = bottom_up-bottom_up xs (x ∷ acc) zs

  abbrev root_of : Level → Text
  root_of [] = []
  root_of (b ∷ bs) = c.to_hex b

  legacy_root-bottom_up :
      (ups : List Level) (level : Level) (below : List Level)
      → legacy_root c (bottom_up ups (level ∷ below)) ≡ root_of (top_of level ups)
  unfolding bottom_up legacy_root
  legacy_root-bottom_up [] [] below = refl
  legacy_root-bottom_up [] (b ∷ bs) below = refl
  legacy_root-bottom_up (u ∷ ups) level below = legacy_root-bottom_up ups u (level ∷ below)

  length-legacy_next : (level : Level) → length (legacy_next c level) ≡ (length level + 1) / 2
  unfolding legacy_next
  length-legacy_next [] = refl
  length-legacy_next (l ∷ []) = refl
  length-legacy_next (l ∷ r ∷ rest) = omega (arith, length-legacy_next rest)

  -- The loop ends within its fuel, and piles up a tower.
  grow-Tower :
      (fuel : ℕ) (level : Level) (below : List Level)
      → length level < suc fuel
      → (ups : List Level) × Tower (level ∷ ups)
        × (grow c (suc fuel) level (level ∷ below) ≡ some (bottom_up ups (level ∷ below)))
  unfolding grow Tower bottom_up
  grow-Tower zero level below h = ([], ground arith, rw (small level h) refl)
    where
      small : (level : Level) → length level < 1 → ltb 1 (length level) ≡ false
      small level h = ground arith
  grow-Tower (suc fuel) level below h = elim (Bool-cases (ltb 1 (length level))) [
    | inr one ↦ ([], one, rw one refl)
    | inl more ↦
        let (ups, tower, e) =
          grow-Tower fuel (legacy_next c level) (level ∷ below) (shorter level (ground arith) h) in
        (legacy_next c level ∷ ups, (refl, tower), rw (grow, more) e)
  ]
    where
      shorter :
          (level : Level)
          → 1 < length level
          → length level < suc (suc fuel)
          → length (legacy_next c level) < suc fuel
      shorter level m h = omega (arith, length-legacy_next level)

  -- A node of the bottom level has a proof, along which it is folded to the top.
  climb-fold_legacy :
      ((b : Bytes) → c.from_hex (c.to_hex b) ≡ b)
      → (level : Level) (ups : List Level) (i : ℕ) (current : Bytes) → Tower (level ∷ ups)
      → get_elem? level i ≡ some current
      → (proof : List Text) × (j : ℕ) × (climb c (level ∷ ups) i ≡ some proof)
        × (get_elem? (top_of level ups) j ≡ some (fold_legacy c current proof i))
        × (ltb 1 (length (top_of level ups)) ≡ false)
  unfolding climb fold_legacy Tower joined
  climb-fold_legacy round level [] i current t h = ([], i, refl, h, t)
  climb-fold_legacy round level (above ∷ ups) i current t h =
      let (s, found, parent) = parent_of level i current h in
      let up : get_elem? above (i / 2) ≡ some (joined i current s) = rw t.0 parent in
      let (proof, j, e, top, one) =
        climb-fold_legacy round above ups (i / 2) (joined i current s) t.1 up in
      (c.to_hex s ∷ proof, j, rw (found, e) refl, rw (round s) top, one)

  root_lem :
      (top : Level) (j : ℕ) (b : Bytes)
      → ltb 1 (length top) ≡ false
      → get_elem? top j ≡ some b
      → root_of top ≡ c.to_hex b
  root_lem [] j b h e = cc
  root_lem (x ∷ []) zero b h e = ap c.to_hex (some_is x b e)
  root_lem (x ∷ []) (suc j) b h e = cc
  root_lem (x ∷ y ∷ top) j b h e = ground arith

  turned : (level : Level) (ups : List Level) → bottom_up (level ∷ []) (ups ++ []) ≡ level ∷ ups
  unfolding bottom_up
  turned level ups = ap (λ xs. level ∷ xs) (append-nil ups)

  grown : List Leaf → (ups : List Level) → List Level
  grown leaves ups = bottom_up ups (map (hash_leaf c) leaves ∷ [])

  -- The proof that a tower of levels gives for a leaf.
  Tower-get_proof :
      ((b : Bytes) → c.from_hex (c.to_hex b) ≡ b)
      → (leaves : List Leaf) (ups : List Level) (i : ℕ) (leaf : Leaf)
      → Tower (map (hash_leaf c) leaves ∷ ups)
      → get_elem? leaves i ≡ some leaf
      → (proof : List Text) × (get_proof c (grown leaves ups) i ≡ some proof)
        × (verify_legacy c leaf proof (legacy_root c (grown leaves ups)) i ≡ true)
  unfolding get_proof verify_legacy grown
  Tower-get_proof round leaves ups i leaf t h =
      let level = map (hash_leaf c) leaves in
      let at_i = get_elem?-map_leaf (hash_leaf c) leaves i leaf h in
      let (proof, j, e, top, one) = climb-fold_legacy round level ups i (hash_leaf c leaf) t at_i in
      let order : bottom_up (bottom_up ups (level ∷ [])) [] ≡ level ∷ ups =
        bottom_up-bottom_up ups (level ∷ []) [] ∙ turned level ups in
      (
        proof,
        rw (order, inside level i (hash_leaf c leaf) at_i) e,
        rw (legacy_root-bottom_up ups level [], root_lem (top_of level ups) j _ one top)
            (text_eq_refl (c.to_hex (fold_legacy c (hash_leaf c leaf) proof i))),
      )

  -- The class builds a tree of every list of leaves within the limit and without empty strings, and
  -- the proof of each leaf verifies at its index against the root.
  pub get_proof-verify_legacy :
      ((b : Bytes) → c.from_hex (c.to_hex b) ≡ b)
      → (max_leaves : ℕ) (leaves : List Leaf) (i : ℕ) (leaf : Leaf) → length leaves ≤ max_leaves
      → some_empty_text leaves ≡ false
      → get_elem? leaves i ≡ some leaf
      → (levels : List Level) × (proof : List Text) × (new_tree c max_leaves leaves ≡ ok levels)
        × (get_proof c levels i ≡ some proof)
        × (verify_legacy c leaf proof (legacy_root c levels) i ≡ true)
  unfolding new_tree grown
  get_proof-verify_legacy round max_leaves leaves i leaf small full h =
      let level = map (hash_leaf c) leaves in
      let (ups, tower, e) =
        grow-Tower (length leaves) level [] (omega (arith, length-map leaves (hash_leaf c))) in
      let within : leb (length leaves) max_leaves ≡ true = ground arith in
      let (proof, proves, verifies) = Tower-get_proof round leaves ups i leaf tower h in
      (
        bottom_up ups (level ∷ []),
        proof,
        rw (filled leaves i leaf h, within, full, e) refl,
        proves,
        verifies,
      )
