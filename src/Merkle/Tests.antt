-- ===== src/Merkle/Tests.antt =====
-- The theorems about src/services/merkle at concrete inputs, with a toy digest for SHA-256.
use veritasor_backend.Merkle.Legacy.{
  Crypto, Leaf, text, buffer, Level, new_tree, get_proof, verify_legacy, legacy_root,
  some_empty_text,
}
use veritasor_backend.Merkle.Legacy.Trip.{get_proof-verify_legacy}
use veritasor_backend.Prelude.{
  ℕ, zero, suc, ◌+◌, ◌%◌, ◌<◌, ◌≡◌, ◌⊎◌, refl, true, false, List, [], ◌∷◌, some, arith, replicate,
  length-replicate, ◌++◌,
}
use veritasor_backend.Prelude.Text.{Text, codes, text_eq}
use veritasor_backend.Merkle.{
  Error, Result, ok, throws, unset, merkle_max_leaves, any_empty, Proof, ProofStep, right, at,
  next_level, build_levels, build_tree, get_root, choose_sibling, proof_levels, generate_at,
  generate_proof, strip_hex_prefix, is_hex_digit, all_hex, matches_hash_hex, to_lower,
  normalize_hash_hex, is_hash_hex, is_proof_step, every_step, is_proof, fold_proof, verify_proof,
}
use veritasor_backend.Merkle.Hex.{IsDigest, AllLowerHex, is_lower_hex}
use veritasor_backend.Merkle.Complete.{verify_proof-generate_proof}
use veritasor_backend.Merkle.Sound.{Collide, hashed, verify_proof_binding}

abbrev checksum : ℕ → Text → ℕ
checksum acc [] = acc % 10
checksum acc (c ∷ cs) = checksum (acc + c) cs

-- 64 copies of one decimal digit.
abbrev toy_hash : Text → Text
toy_hash t = replicate 64 (b'0' + checksum 0 t)

AllLowerHex-replicate : (n c : ℕ) → is_lower_hex c ≡ true → AllLowerHex (replicate n c)
AllLowerHex-replicate zero c h = tt
AllLowerHex-replicate (suc n) c h = (h, AllLowerHex-replicate n c h)

checksum-lt : (acc : ℕ) (t : Text) → checksum acc t < 10
checksum-lt acc [] = omega arith
checksum-lt acc (c ∷ cs) = checksum-lt (acc + c) cs

digit_is_hex : (d : ℕ) → d < 10 → is_lower_hex (b'0' + d) ≡ true
digit_is_hex d h = ground arith

toy_hash-IsDigest : (t : Text) → IsDigest (toy_hash t)
toy_hash-IsDigest t = (
  length-replicate 64 (b'0' + checksum 0 t),
  AllLowerHex-replicate 64 (b'0' + checksum 0 t) (digit_is_hex (checksum 0 t) (checksum-lt 0 t)),
)

program : Unit {0}
unfolding merkle_max_leaves any_empty next_level build_levels build_tree get_root choose_sibling
    proof_levels generate_at generate_proof strip_hex_prefix is_hex_digit all_hex matches_hash_hex
    to_lower normalize_hash_hex is_hash_hex is_proof_step every_step is_proof fold_proof
    verify_proof text_eq
program = tt

abbrev leaf_a : Text
leaf_a = b'a' ∷ []

abbrev leaf_b : Text
leaf_b = b'b' ∷ b'2' ∷ []

abbrev leaf_c : Text
leaf_c = b'c' ∷ []

abbrev three : List Text
three = leaf_a ∷ leaf_b ∷ leaf_c ∷ []

abbrev four : List Text
four = leaf_a ∷ leaf_b ∷ leaf_c ∷ leaf_c ∷ []

abbrev or_nil {ℓ} : {A : Type ℓ} → Result (List A) → List A
or_nil (ok t) = t
or_nil (throws e) = []

abbrev tree_of : List Text → List Text
tree_of leaves = or_nil (build_tree toy_hash 100 leaves)

abbrev proof_of : ℕ → Proof
proof_of i = or_nil (generate_proof toy_hash three (at i))

abbrev root : Text
root = get_root (tree_of three)

-- The error branches.
empty_tree : build_tree toy_hash 100 [] ≡ throws Error.no_leaves
unfolding program
empty_tree = refl

wrong_leaf_refused : verify_proof toy_hash leaf_b (proof_of 0) root ≡ false
unfolding program
wrong_leaf_refused = refl

upper_case_root : normalize_hash_hex (b'0' ∷ b'X' ∷ replicate 64 b'A') ≡ some (replicate 64 b'a')
unfolding program
upper_case_root = refl

verify_proof-generate_proof_example :
    (proof : Proof) × (generate_proof toy_hash three (at 2) ≡ ok proof)
    × (verify_proof toy_hash leaf_c proof (get_root (or_nil (build_tree toy_hash 1_048_576 three)))
        ≡ true)
unfolding program
verify_proof-generate_proof_example =
    verify_proof-generate_proof toy_hash toy_hash-IsDigest unset 1_048_576 three
      (or_nil (build_tree toy_hash 1_048_576 three)) 2 leaf_c refl refl refl

verify_proof_binding_example :
    (leaf_a ≡ leaf_a)
    ⊎ Collide toy_hash (hashed toy_hash leaf_a (proof_of 0)) (hashed toy_hash leaf_a (proof_of 0))
unfolding program
verify_proof_binding_example =
    verify_proof_binding toy_hash toy_hash-IsDigest leaf_a leaf_a (proof_of 0) (proof_of 0) root
      refl refl refl

abbrev first_step : ProofStep
first_step = record { sibling = toy_hash leaf_b; position = right }

abbrev rest_steps : Proof
rest_steps =
    record { sibling = toy_hash (toy_hash leaf_c ++ toy_hash leaf_c); position = right } ∷ []

-- Bytes that stand for themselves.
abbrev plain : Crypto
plain = record { sha = λ b. b; encode = λ t. t; to_hex = λ b. b; from_hex = λ t. t }

abbrev three_leaves : List Leaf
three_leaves = text (codes "a") ∷ buffer (1 ∷ []) ∷ text (codes "b") ∷ []

get_proof-verify_legacy_example :
    (levels : List Level) × (proof : List Text) × (new_tree plain 5 three_leaves ≡ ok levels)
    × (get_proof plain levels 2 ≡ some proof)
    × (verify_legacy plain (text (codes "b")) proof (legacy_root plain levels) 2 ≡ true)
unfolding some_empty_text
get_proof-verify_legacy_example =
    get_proof-verify_legacy plain (λ b. refl) 5 three_leaves 2 (text (codes "b")) (omega arith) refl
      refl
