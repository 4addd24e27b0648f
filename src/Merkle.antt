-- ===== src/Merkle.antt =====
-- The Merkle service: src/services/merkle/buildTree.ts and src/services/merkle/generateProof.ts.
-- `hash` (SHA-256 of a string as lowercase hex) is the crypto library's, so it is a parameter.
-- Strings are lists of code units. The loops over levels take fuel; `Stuck` is the model's own
-- failure, when fuel runs out or an index is undefined.
pub mod Hex
pub mod Levels
pub mod Complete
pub mod Sound
pub mod Shape
pub mod Legacy
mod Tests
use veritasor_backend.Prelude.{
  ℕ, zero, suc, ◌+◌, ◌-◌, ◌/◌, ◌%◌, Bool, true, false, not, ◌&&◌, ◌||◌, List, [], ◌∷◌, ◌++◌, map,
  Option, none, some, ltb, leb, ◌==◌, if◌then◌else◌, length, get_elem?, drop,
}
use veritasor_backend.Prelude.Text.{Text, text_eq}

pub data Error : Type 0 where
  no_leaves too_many_leaves empty_leaf bad_max_leaves : Error
  index_not_integer index_out_of_range stuck : Error

pub data Result {ℓ} (A : Type ℓ) : Type ℓ where
  throws : Error → Result A
  ok : A → Result A

-- `if (!test) throw error;` before the code that follows.
abbrev pub require {ℓ} : {A : Type ℓ} → Error → Bool → Result A → Result A
require error false next = throws error
require error true next = next

-- The result of a loop; `none` is the model's own failure.
abbrev pub or_stuck {ℓ} : {A : Type ℓ} → Option A → Result A
or_stuck none = throws stuck
or_stuck (some a) = ok a

-- What `Number(process.env.MERKLE_MAX_LEAVES)` yields, read from the environment.
pub data RawLimit : Type 0 where
  unset not_positive_integer : RawLimit
  integer : ℕ → RawLimit

pub merkle_max_leaves : RawLimit → Result ℕ
merkle_max_leaves unset = ok 1_048_576
merkle_max_leaves not_positive_integer = throws bad_max_leaves
merkle_max_leaves (integer n) = if n == 0 || ltb 16_777_216 n then throws bad_max_leaves else ok n

abbrev pub is_empty {ℓ} : {A : Type ℓ} → List A → Bool
is_empty [] = true
is_empty (x ∷ xs) = false

-- `leaf.length === 0` of some leaf.
pub any_empty : List Text → Bool
any_empty [] = false
any_empty (l ∷ ls) = is_empty l || any_empty ls

pub data Position : Type 0 where
  left right : Position

pub record ProofStep : Type 0 where
  pub sibling : Text
  pub position : Position

abbrev pub Proof : Type 0
Proof = List ProofStep

-- `Number` as the index of a leaf.
pub data LeafIndex : Type 0 where
  at : ℕ → LeafIndex
  negative : LeafIndex
  fraction : LeafIndex

module _ (hash : Text → Text) where
  -- `for (let i = 0; i < level.length; i += 2)`: an odd last node is paired with itself.
  pub next_level : List Text → List Text
  next_level [] = []
  next_level (l ∷ []) = hash (l ++ l) ∷ []
  next_level (l ∷ r ∷ rest) = hash (l ++ r) ∷ next_level rest

  -- `while (level.length > 1)`: the nodes that are pushed on the tree from this level up.
  pub build_levels : ℕ → List Text → Option (List Text)
  build_levels zero level = none
  build_levels (suc fuel) level = elim (ltb 1 (length level)) [
    | false ↦ some level
    | true ↦ elim (build_levels fuel (next_level level)) [
      | none ↦ none
      | some above ↦ some (level ++ above)
    ]
  ]

  pub build_tree : ℕ → List Text → Result (List Text)
  build_tree max_leaves leaves = require no_leaves (not (is_empty leaves)) (
      require too_many_leaves (leb (length leaves) max_leaves) (
        require empty_leaf (not (any_empty leaves))
          (or_stuck (build_levels (suc (length leaves)) (map hash leaves)))))

-- `tree[tree.length - 1]`, and the empty string for an empty tree.
pub get_root : List Text → Text
get_root [] = []
get_root (n ∷ []) = n
get_root (n ∷ m ∷ ns) = get_root (m ∷ ns)

abbrev pub sibling_index : ℕ → ℕ
sibling_index index = if index % 2 == 0 then index + 1 else index - 1

-- `siblingIndex < level.length ? level[siblingIndex] : level[index]`
pub choose_sibling : List Text → ℕ → Option Text
choose_sibling level index =
    if ltb (sibling_index index) (length level)
    then get_elem? level (sibling_index index)
    else get_elem? level index

abbrev pub step_position : ℕ → Position
step_position index = if index % 2 == 0 then right else left

module _ (hash : Text → Text) where
  pub proof_levels : ℕ → List Text → ℕ → Option Proof
  proof_levels zero level index = none
  proof_levels (suc fuel) level index = elim (ltb 1 (length level)) [
    | false ↦ some []
    | true ↦ elim (choose_sibling level index) [
      | none ↦ none
      | some s ↦ elim (proof_levels fuel (next_level hash level) (index / 2)) [
        | none ↦ none
        | some rest ↦ some (record { sibling = s; position = step_position index } ∷ rest)
      ]
    ]
  ]

  pub generate_at : List Text → ℕ → Result Proof
  generate_at leaves index =
      require index_out_of_range (ltb index (length leaves))
        (or_stuck (proof_levels (suc (length leaves)) (map hash leaves) index))

  pub generate_proof : List Text → LeafIndex → Result Proof
  unfolding generate_at
  generate_proof [] index = throws no_leaves
  generate_proof (l ∷ ls) fraction = throws index_not_integer
  generate_proof (l ∷ ls) negative = throws index_out_of_range
  generate_proof (l ∷ ls) (at index) = generate_at (l ∷ ls) index

-- `value.startsWith("0x") || value.startsWith("0X") ? value.slice(2) : value`
pub strip_hex_prefix : Text → Text
strip_hex_prefix [] = []
strip_hex_prefix (c ∷ []) = c ∷ []
strip_hex_prefix (c ∷ d ∷ rest) =
    if c == b'0' && (d == b'x' || d == b'X') then rest else c ∷ d ∷ rest

unfoldable pub is_hex_digit : ℕ → Bool
is_hex_digit c =
    (leb b'0' c && leb c b'9') || (leb b'a' c && leb c b'f') || (leb b'A' c && leb c b'F')

unfoldable pub all_hex : Text → Bool
unfolding is_hex_digit
all_hex [] = true
all_hex (c ∷ cs) = is_hex_digit c && all_hex cs

-- HASH_HEX_REGEX: 64 hex digits, in either case.
pub matches_hash_hex : Text → Bool
matches_hash_hex t = (length t == 64) && all_hex t

pub to_lower : Text → Text
to_lower [] = []
to_lower (c ∷ cs) = (if leb b'A' c && leb c b'Z' then c + 32 else c) ∷ to_lower cs

pub normalize_hash_hex : Text → Option Text
normalize_hash_hex value =
    let stripped = strip_hex_prefix value in
    if matches_hash_hex stripped then some (to_lower stripped) else none

abbrev pub is_some {ℓ} : {A : Type ℓ} → Option A → Bool
is_some none = false
is_some (some a) = true

pub is_hash_hex : Text → Bool
is_hash_hex value = is_some (normalize_hash_hex value)

pub is_proof_step : ProofStep → Bool
unfolding is_hash_hex
is_proof_step step = is_hash_hex step.sibling

pub every_step : Proof → Bool
every_step [] = true
every_step (s ∷ ss) = is_proof_step s && every_step ss

abbrev pub merkle_proof_max_steps : ℕ
merkle_proof_max_steps = 256

pub is_proof : Proof → Bool
is_proof steps = leb (length steps) merkle_proof_max_steps && every_step steps

abbrev pub is_root : Option Text → Text → Bool
is_root none root = false
is_root (some current) root = text_eq current root

module _ (hash : Text → Text) where
  abbrev pub combine : Position → Text → Text → Text
  combine right current sibling = hash (current ++ sibling)
  combine left current sibling = hash (sibling ++ current)

  -- The loop of `verifyProof`; `none` is its early `return false`.
  pub fold_proof : Text → Proof → Option Text
  fold_proof current [] = some current
  fold_proof current (s ∷ ss) = elim (normalize_hash_hex s.sibling) [
    | none ↦ none
    | some sibling ↦ fold_proof (combine s.position current sibling) ss
  ]

  pub verify_proof : Text → Proof → Text → Bool
  verify_proof leaf proof root = elim (normalize_hash_hex root) [
    | none ↦ false
    | some normalized_root ↦
        if is_proof proof then is_root (fold_proof (hash leaf) proof) normalized_root else false
  ]
