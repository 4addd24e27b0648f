-- ===== src/Merkle/Legacy.antt =====
-- The class `MerkleTree` of src/services/merkle.ts, on byte strings. SHA-256, the encoding of strings
-- and the hexadecimal form of bytes are parameters. The levels stand from the root down, as the source
-- keeps them; the loop takes fuel, and `stuck` is the model's own failure.
pub mod Trip
use veritasor_backend.Prelude.{
  ℕ, zero, suc, ◌+◌, ◌-◌, ◌/◌, ◌%◌, Bool, true, false, not, ◌||◌, List, [], ◌∷◌, ◌++◌, map, Option,
  none, some, ltb, leb, ◌==◌, if◌then◌else◌, length, get_elem?,
}
use veritasor_backend.Prelude.Text.{Text, text_eq}
use veritasor_backend.Merkle.{
  Result, throws, ok, no_leaves, too_many_leaves, empty_leaf, require, or_stuck, is_empty,
}

abbrev pub Bytes : Type 0
Bytes = List ℕ

abbrev pub Level : Type 0
Level = List Bytes

pub data Leaf : Type 0 where
  text : Text → Leaf
  buffer : Bytes → Leaf

abbrev pub is_empty_text : Leaf → Bool
is_empty_text (text t) = is_empty t
is_empty_text (buffer b) = false

unfoldable pub some_empty_text : List Leaf → Bool
some_empty_text [] = false
some_empty_text (l ∷ ls) = is_empty_text l || some_empty_text ls

-- What the class takes from Node.
pub record Crypto : Type 0 where
  pub sha : Bytes → Bytes
  pub encode : Text → Bytes
  pub to_hex : Bytes → Text
  pub from_hex : Text → Bytes

abbrev pub sibling_of : ℕ → ℕ
sibling_of index = if index % 2 == 0 then index + 1 else index - 1

-- `siblingIndex < level.length ? level[siblingIndex] : level[index]`
unfoldable pub sibling_in : Level → ℕ → Option Bytes
sibling_in level index =
    if ltb (sibling_of index) (length level)
    then get_elem? level (sibling_of index)
    else get_elem? level index

-- `this.levels[this.levels.length - 1]`, with the levels above it from the bottom up.
unfoldable pub bottom_up : List Level → List Level → List Level
bottom_up [] acc = acc
bottom_up (level ∷ above) acc = bottom_up above (level ∷ acc)

module _ (c : Crypto) where
  unfoldable pub hash_leaf : Leaf → Bytes
  hash_leaf (text t) = c.sha (c.encode t)
  hash_leaf (buffer b) = c.sha b

  unfoldable pub legacy_next : Level → Level
  legacy_next [] = []
  legacy_next (l ∷ []) = c.sha (l ++ l) ∷ []
  legacy_next (l ∷ r ∷ rest) = c.sha (l ++ r) ∷ legacy_next rest

  -- `while (level.length > 1)`, with `unshift` of each new level.
  unfoldable pub grow : ℕ → Level → List Level → Option (List Level)
  grow zero level levels = none
  grow (suc fuel) level levels =
      let higher = grow fuel (legacy_next level) (legacy_next level ∷ levels) in
      if ltb 1 (length level) then higher else some levels

  unfoldable pub new_tree : ℕ → List Leaf → Result (List Level)
  new_tree max_leaves leaves = require no_leaves (not (is_empty leaves)) (
      require too_many_leaves (leb (length leaves) max_leaves) (
        require empty_leaf (not (some_empty_text leaves)) (
          or_stuck
            (grow (suc (length leaves)) (map hash_leaf leaves) (map hash_leaf leaves ∷ [])))))

  -- `this.levels[0][0].toString('hex')`
  unfoldable pub legacy_root : List Level → Text
  legacy_root [] = []
  legacy_root ([] ∷ levels) = []
  legacy_root ((b ∷ bs) ∷ levels) = c.to_hex b

  abbrev pub push_hex : Option Bytes → Option (List Text) → Option (List Text)
  push_hex (some b) (some proof) = some (c.to_hex b ∷ proof)
  push_hex (some b) none = none
  push_hex none proof = none

  -- The loop from the bottom to the level below the root; `none` where the source reads a property of
  -- undefined.
  unfoldable pub climb : List Level → ℕ → Option (List Text)
  climb [] index = some []
  climb (top ∷ []) index = some []
  climb (level ∷ above ∷ levels) index =
      push_hex (sibling_in level index) (climb (above ∷ levels) (index / 2))

  abbrev pub proof_from : List Level → ℕ → Option (List Text)
  proof_from [] index = some []
  proof_from (bottom ∷ levels) index =
      if ltb index (length bottom) then climb (bottom ∷ levels) index else some []

  -- The index is not negative.
  unfoldable pub get_proof : List Level → ℕ → Option (List Text)
  get_proof levels index = proof_from (bottom_up levels []) index

  unfoldable pub fold_legacy : Bytes → List Text → ℕ → Bytes
  fold_legacy hash [] index = hash
  fold_legacy hash (s ∷ proof) index =
      fold_legacy
        (if index % 2 == 0 then c.sha (hash ++ c.from_hex s) else c.sha (c.from_hex s ++ hash))
        proof (index / 2)

  unfoldable pub verify_legacy : Leaf → List Text → Text → ℕ → Bool
  verify_legacy leaf proof root_hex index =
      text_eq (c.to_hex (fold_legacy (hash_leaf leaf) proof index)) root_hex
