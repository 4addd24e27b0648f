-- ===== src/Merkle/Sound.antt =====
-- What an accepted proof tells: `verifyProof` of src/services/merkle/generateProof.ts, and the
-- shape of the trees of src/services/merkle/buildTree.ts.
use mathlib.Core.Path.{subst}
use veritasor_backend.Prelude.{
  ℕ, suc, get_elem?, ◌≡◌, ◌≢◌, ◌⊎◌, refl, ap, sym, ◌∙◌, Bool, true, false, List, [], ◌∷◌, ◌++◌,
  Option, none, some, arith, length, inl, inr, Bool-cases, Option-cases, map, if◌then◌else◌,
}
use veritasor_backend.Prelude.Text.{Text, text_eq, text_eq→≡, text_eq_refl}
use veritasor_backend.Merkle.{
  Proof, ProofStep, Position, left, right, is_root, combine, fold_proof, verify_proof, is_proof,
  every_step, normalize_hash_hex,
}
use veritasor_backend.Merkle.Hex.{IsDigest, length_of_normalized}

-- The string that is hashed at a step of a proof.
abbrev pub preimage : Position → Text → Text → Text
preimage right current sibling = current ++ sibling
preimage left current sibling = sibling ++ current

-- The strings that are hashed on the way up, where the siblings are digests.
abbrev pub hashed_at :
    (Text → Text) → Text → Position → Option Text → (Text → List Text) → List Text
hashed_at hash c p none rest = []
hashed_at hash c p (some t) rest = preimage p c t ∷ rest (hash (preimage p c t))

abbrev pub hashed_from : (Text → Text) → Text → Proof → List Text
hashed_from hash c [] = []
hashed_from hash c (s ∷ ss) =
    hashed_at hash c s.position (normalize_hash_hex s.sibling) (λ d. hashed_from hash d ss)

-- The strings that the verification of a proof hashes: the leaf first.
abbrev pub hashed : (Text → Text) → Text → Proof → List Text
hashed hash leaf path = leaf ∷ hashed_from hash (hash leaf) path

-- Different strings with one digest.
abbrev pub Differ : (Text → Text) → Text → Text → Type 0
Differ hash x y = (x ≢ y) × (hash x ≡ hash y)

-- At one place of two lists stand different strings with one digest.
abbrev pub Collide : (Text → Text) → List Text → List Text → Type 0
Collide hash xs ys =
    (i : ℕ) × (x : Text) × (y : Text) × (get_elem? xs i ≡ some x)
    × (get_elem? ys i ≡ some y)
    × Differ hash x y

abbrev pub positions : Proof → List Position
positions = map (λ s. s.position)

append_cancel : (a b c d : Text) → length a ≡ length b → a ++ c ≡ b ++ d → (a ≡ b) × (c ≡ d)
append_cancel [] [] c d h e = (refl, e)
append_cancel [] (y ∷ b) c d h e = absurd (omega arith)
append_cancel (x ∷ a) [] c d h e = absurd (omega arith)
append_cancel (x ∷ a) (y ∷ b) c d h e = ground (arith, append_cancel a b c d)

accepted :
    (proper : Bool) (o : Option Text) (r : Text)
    → (if proper then is_root o r else false) ≡ true
    → (proper ≡ true) × (o ≡ some r)
accepted false o r h = ground arith
accepted true none r h = ground arith
accepted true (some c) r h = (refl, ap some (text_eq→≡ c r h))

module _ (hash : Text → Text) where
  -- Equal digests come from equal strings, or from a collision.
  hash_cases : (x y : Text) → hash x ≡ hash y → (x ≡ y) ⊎ Differ hash x y
  hash_cases x y h = elim (Bool-cases (text_eq x y)) [
    | inl same ↦ inl (text_eq→≡ x y same)
    | inr other ↦ inr ((λ e. cc (sym other ∙ ap (text_eq x) (sym e) ∙ text_eq_refl x)), h)
  ]

  combine_cases :
      (p : Position) (c d s t : Text)
      → length c ≡ length d
      → length s ≡ length t
      → combine hash p c s ≡ combine hash p d t
      → (c ≡ d) ⊎ Differ hash (preimage p c s) (preimage p d t)
  combine_cases left c d s t h k e = elim (hash_cases (s ++ c) (t ++ d) e) [
    | inl same ↦ inl (append_cancel s t c d k same).1
    | inr bad ↦ inr bad
  ]
  combine_cases right c d s t h k e = elim (hash_cases (c ++ s) (d ++ t) e) [
    | inl same ↦ inl (append_cancel c d s t h same).0
    | inr bad ↦ inr bad
  ]

  preimage-combine : (z : Position) (x y : Text) → hash (preimage z x y) ≡ combine hash z x y
  preimage-combine left x y = refl
  preimage-combine right x y = refl

  fold_proof_inversion :
      (c : Text) (s : ProofStep) (ss : Proof) (r : Text)
      → fold_proof hash c (s ∷ ss) ≡ some r
      → (t : Text) × (normalize_hash_hex s.sibling ≡ some t)
        × (fold_proof hash (combine hash s.position c t) ss ≡ some r)
  unfolding fold_proof
  fold_proof_inversion c s ss r e = elim (Option-cases (normalize_hash_hex s.sibling)) [
    | inl bad ↦ cc (rw (bad, fold_proof) at e)
    | inr (t, good) ↦ (t, good, rw (good, fold_proof) at e)
  ]

  verify_proof_inversion :
      (leaf : Text) (path : Proof) (root : Text)
      → verify_proof hash leaf path root ≡ true
      → (r : Text) × (normalize_hash_hex root ≡ some r)
        × (is_proof path ≡ true)
        × (fold_proof hash (hash leaf) path ≡ some r)
  unfolding verify_proof
  verify_proof_inversion leaf path root e = elim (Option-cases (normalize_hash_hex root)) [
    | inl bad ↦ cc (rw (bad, verify_proof) at e)
    | inr (r, good) ↦
        let (a, b) =
          accepted (is_proof path) (fold_proof hash (hash leaf) path) r
            (rw (good, verify_proof) at e) in
        (r, good, a, b)
  ]

  verify_proof_intro :
      (leaf : Text) (path : Proof) (root r : Text)
      → normalize_hash_hex root ≡ some r
      → is_proof path ≡ true
      → fold_proof hash (hash leaf) path ≡ some r
      → verify_proof hash leaf path root ≡ true
  unfolding verify_proof
  verify_proof_intro leaf path root r e proper f = ground (arith, text_eq_refl r)

  -- One step: from what is joined above to what is joined below.
  step_cases :
      (z : Position) (c d s t : Text) (p q : Proof)
      → length c ≡ length d
      → length s ≡ length t
      → (combine hash z c s ≡ combine hash z d t)
        ⊎ Collide hash
            (hashed_from hash (hash (preimage z c s)) p)
            (hashed_from hash (hash (preimage z d t)) q)
      → (c ≡ d)
        ⊎ Collide hash
            (hashed_at hash c z (some s) (λ b. hashed_from hash b p))
            (hashed_at hash d z (some t) (λ b. hashed_from hash b q))
  step_cases z c d s t p q h k (inl joined) = elim (combine_cases z c d s t h k joined) [
    | inl same ↦ inl same
    | inr bad ↦ inr (0, preimage z c s, preimage z d t, refl, refl, bad)
  ]
  step_cases z c d s t p q h k (inr (i, x, y, at, at', bad)) = inr (suc i, x, y, at, at', bad)

  fold_proof_cases :
      (p q : Proof) (c d r : Text)
      → ((t : Text) → length (hash t) ≡ 64)
      → positions p ≡ positions q
      → length c ≡ length d
      → fold_proof hash c p ≡ some r
      → fold_proof hash d q ≡ some r
      → (c ≡ d) ⊎ Collide hash (hashed_from hash c p) (hashed_from hash d q)
  unfolding fold_proof
  fold_proof_cases [] [] c d r sized same h e f = inl (ground arith)
  fold_proof_cases [] (t ∷ q) c d r sized same h e f = ground arith
  fold_proof_cases (s ∷ p) [] c d r sized same h e f = ground arith
  fold_proof_cases (s ∷ p) (t ∷ q) c d r sized same h e f =
      let (s', es, fs) = fold_proof_inversion c s p r e in
      let (t', et, ft) = fold_proof_inversion d t q r f in
      let turn : s.position ≡ t.position = ground arith in
      let rest : positions p ≡ positions q = ground arith in
      let lengths : length s' ≡ length t' =
        length_of_normalized s.sibling s' es ∙ sym (length_of_normalized t.sibling t' et) in
      rw (es, et)
        (subst
          (λ z.
            (c ≡ d)
            ⊎ Collide hash (hashed_at hash c s.position (some s') (λ b. hashed_from hash b p))
                (hashed_at hash d z (some t') (λ b. hashed_from hash b q)))
          turn
          (step_cases s.position c d s' t' p q h lengths (
            rw (preimage-combine s.position c s', preimage-combine s.position d t')
              (fold_proof_cases p q (combine hash s.position c s') (combine hash s.position d t') r
                sized rest (length-combine s.position c s' ∙ sym (length-combine s.position d t'))
                fs (ap (λ z. fold_proof hash (combine hash z d t') q) turn ∙ ft)))))
    where
      length-combine : (z : Position) (x y : Text) → length (combine hash z x y) ≡ 64
      length-combine left x y = sized (y ++ x)
      length-combine right x y = sized (x ++ y)

  -- If every digest is 64 lower-case hexadecimal digits: two proofs along the same path to one root,
  -- both accepted, are for the same leaf, unless at one and the same place of the two ways up to the
  -- root different strings with one digest are hashed.
  pub verify_proof_binding :
      (digest : (t : Text) → IsDigest (hash t)) (leaf other : Text) (p q : Proof) (root : Text)
      → positions p ≡ positions q
      → verify_proof hash leaf p root ≡ true
      → verify_proof hash other q root ≡ true
      → (leaf ≡ other) ⊎ Collide hash (hashed hash leaf p) (hashed hash other q)
  verify_proof_binding digest leaf other p q root same e f =
      let (r, er, _, fr) = verify_proof_inversion leaf p root e in
      let (r', er', _, fr') = verify_proof_inversion other q root f in
      let one : r' ≡ r = ground arith in
      elim (fold_proof_cases p q (hash leaf) (hash other) r (λ t. (digest t).0) same
        ((digest leaf).0 ∙ sym (digest other).0) fr (fr' ∙ ap some one)) [
          | inl joined ↦ elim (hash_cases leaf other joined) [
            | inl equal ↦ inl equal
            | inr bad ↦ inr (0, leaf, other, refl, refl, bad)
          ]
          | inr (i, x, y, at, at', bad) ↦ inr (suc i, x, y, at, at', bad)
        ]

  -- Leaves and inner nodes are hashed alike: whenever a proof with a step is accepted, the string
  -- that its first step hashes passes as a leaf, with the rest of the proof.
  pub verify_proof_interior :
      (leaf : Text) (s : ProofStep) (ss : Proof) (root t : Text)
      → normalize_hash_hex s.sibling ≡ some t
      → verify_proof hash leaf (s ∷ ss) root ≡ true
      → verify_proof hash (preimage s.position (hash leaf) t) ss root ≡ true
  unfolding is_proof every_step
  verify_proof_interior leaf s ss root t e h =
      let (r, er, proper, f) = verify_proof_inversion leaf (s ∷ ss) root h in
      let (t', et, ft) = fold_proof_inversion (hash leaf) s ss r f in
      let one : t' ≡ t = ground arith in
      let again : fold_proof hash (hash (preimage s.position (hash leaf) t)) ss ≡ some r =
        ap (λ z. fold_proof hash z ss)
          (preimage-combine s.position (hash leaf) t
            ∙ ap (combine hash s.position (hash leaf)) (sym one))
        ∙ ft in
      verify_proof_intro (preimage s.position (hash leaf) t) ss root r er (ground arith) again
