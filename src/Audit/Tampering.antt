-- ===== src/Audit/Tampering.antt =====
-- What the chain of src/repositories/auditLogRepository.ts shows of changed entries, and what it does
-- not.
use mathlib.Core.List.{append_assoc}
use veritasor_backend.Prelude.{
  ℕ, suc, ◌≡◌, ◌⊎◌, inl, inr, refl, ap, sym, ◌∙◌, true, false, List, [], ◌∷◌, ◌++◌, none, some,
  if◌then◌else◌, length, length-append, arith, Bool-cases, Option-cases,
}
use veritasor_backend.Prelude.Text.{pipe, Text, text_eq, text_eq→≡}
use veritasor_backend.Audit.{
  AuditLog, Platform, compute_chain_hash, canonicalise_entry, check_from, intact, threw, broken,
  Check, last_chain_hash, genesis_sentinel, timing_safe_equal, hex_bytes,
}

-- Two different strings whose HMACs decode to the same bytes.
abbrev pub Collision : Platform → Type 0
Collision p =
    (a : Text) × (b : Text) × (text_eq a b ≡ false) × (hex_bytes (p.hmac a) ≡ hex_bytes (p.hmac b))

-- Every chain hash is 64 characters long, as that of a created entry is.
abbrev pub Sized : List AuditLog → Type 0
Sized [] = Unit {0}
Sized (e ∷ es) = (length e.chain_hash ≡ 64) × Sized es

-- Entry by entry, the two logs have the same canonical text.
abbrev pub SameText : Platform → List AuditLog → List AuditLog → Type 0
SameText p [] [] = Unit {0}
SameText p [] (f ∷ fs) = ⊥
SameText p (e ∷ es) [] = ⊥
SameText p (e ∷ es) (f ∷ fs) = (canonicalise_entry p e ≡ canonicalise_entry p f) × SameText p es fs

safe_equal→≡ : (a b : List ℕ) → timing_safe_equal a b ≡ some true → a ≡ b
unfolding timing_safe_equal
safe_equal→≡ a b h = elim (Bool-cases (text_eq a b)) [
  | inl e ↦ text_eq→≡ a b e
  | inr e ↦ ground (arith, h, e)
]

-- What the loop has seen when it goes past an entry.
check_step :
    (p : Platform) (i : ℕ) (prev : Text) (e : AuditLog) (es : List AuditLog)
    → check_from p i prev (e ∷ es) ≡ intact
    → (hex_bytes (compute_chain_hash p e prev) ≡ hex_bytes e.chain_hash)
      × (check_from p (suc i) e.chain_hash es ≡ intact)
unfolding check_from
check_step p i prev e es h =
    elim (Option-cases
      (timing_safe_equal (hex_bytes (compute_chain_hash p e prev)) (hex_bytes e.chain_hash))) [
        | inl unequal ↦ cc (rw (check_from, unequal) at h)
        | inr (true, equal) ↦ (safe_equal→≡ _ _ equal, rw (check_from, equal) at h)
        | inr (false, equal) ↦ cc (rw (check_from, equal) at h)
      ]

append_split :
    (xs ys us vs : Text) → length xs ≡ length us → xs ++ ys ≡ us ++ vs → (xs ≡ us) × (ys ≡ vs)
append_split [] ys [] vs n h = (refl, h)
append_split [] ys (u ∷ us) vs n h = ground arith
append_split (x ∷ xs) ys [] vs n h = ground arith
append_split (x ∷ xs) ys (u ∷ us) vs n h = ground (arith, append_split xs ys us vs)

-- One link: equal chain hashes come of equal texts, or of a collision.
same_link :
    (p : Platform) (e f : AuditLog) (prev prev_f : Text)
    → length prev ≡ length prev_f
    → hex_bytes (compute_chain_hash p e prev) ≡ hex_bytes e.chain_hash
    → hex_bytes (compute_chain_hash p f prev_f) ≡ hex_bytes f.chain_hash
    → e.chain_hash ≡ f.chain_hash
    → ((prev ≡ prev_f) × (canonicalise_entry p e ≡ canonicalise_entry p f)) ⊎ Collision p
unfolding compute_chain_hash
same_link p e f prev prev_f sized he hf same =
    let a = prev ++ pipe ++ canonicalise_entry p e in
    let b = prev_f ++ pipe ++ canonicalise_entry p f in
    elim (Bool-cases (text_eq a b)) [
      | inl eq ↦
          let parts =
            append_split (prev ++ pipe) (canonicalise_entry p e) (prev_f ++ pipe)
              (canonicalise_entry p f)
              (omega (arith, length-append prev pipe, length-append prev_f pipe))
              (text_eq→≡ a b eq) in
          inl ((append_split prev pipe prev_f pipe sized parts.0).0, parts.1)
      | inr ne ↦ inr (a, b, ne, he ∙ ap hex_bytes same ∙ sym hf)
    ]

-- Along two chains of one length that both check and end in one hash.
same_chain :
    (p : Platform) (i j : ℕ) (prev prev_f : Text) (e f : AuditLog) (es fs : List AuditLog)
    → length prev ≡ length prev_f
    → length es ≡ length fs
    → Sized (e ∷ es)
    → Sized (f ∷ fs)
    → check_from p i prev (e ∷ es) ≡ intact
    → check_from p j prev_f (f ∷ fs) ≡ intact
    → last_chain_hash (e ∷ es) ≡ last_chain_hash (f ∷ fs)
    → ((prev ≡ prev_f) × SameText p (e ∷ es) (f ∷ fs)) ⊎ Collision p
same_chain p i j prev prev_f e f [] [] sized n se sf he hf root =
    elim (same_link p e f prev prev_f sized (check_step p i prev e [] he).0
      (check_step p j prev_f f [] hf).0 (ground (arith, root))) [
        | inl same ↦ inl (same.0, (same.1, tt))
        | inr c ↦ inr c
      ]
same_chain p i j prev prev_f e f [] (g ∷ fs) sized n se sf he hf root = ground arith
same_chain p i j prev prev_f e f (g ∷ es) [] sized n se sf he hf root = ground arith
same_chain p i j prev prev_f e f (e1 ∷ es) (f1 ∷ fs) sized n se sf he hf root =
    let first = check_step p i prev e (e1 ∷ es) he in
    let second = check_step p j prev_f f (f1 ∷ fs) hf in
    elim (same_chain p (suc i) (suc j) e.chain_hash f.chain_hash e1 f1 es fs (se.0 ∙ sym sf.0)
      (omega arith) se.1 sf.1 first.1 second.1 root) [
        | inr c ↦ inr c
        | inl rest ↦ elim (same_link p e f prev prev_f sized first.0 second.0 rest.0) [
          | inl same ↦ inl (same.0, (same.1, rest.1))
          | inr c ↦ inr c
        ]
      ]

-- Two logs of one size that both pass the loop of verifyChain and have the same root have the same
-- canonical texts in the same order, or two strings with one HMAC are at hand: a change of an entry
-- shows in the root.
pub check_from_binding :
    (p : Platform) (logs other : List AuditLog)
    → length logs ≡ length other
    → Sized logs
    → Sized other
    → check_from p 0 genesis_sentinel logs ≡ intact
    → check_from p 0 genesis_sentinel other ≡ intact
    → last_chain_hash logs ≡ last_chain_hash other
    → SameText p logs other ⊎ Collision p
check_from_binding p [] [] n sl so hl ho root = inl tt
check_from_binding p [] (f ∷ fs) n sl so hl ho root = ground arith
check_from_binding p (e ∷ es) [] n sl so hl ho root = ground arith
check_from_binding p (e ∷ es) (f ∷ fs) n sl so hl ho root =
    elim (same_chain p 0 0 genesis_sentinel genesis_sentinel e f es fs refl (omega arith) sl so hl
      ho root) [ inl same ↦ inl same.1 | inr c ↦ inr c ]

-- The entry with another action and resource.
abbrev pub relabel : Text → Text → AuditLog → AuditLog
relabel action resource e = record e { action = action; resource = resource }

shift : (a b c q r : Text) → a ++ q ++ (b ++ q ++ c ++ q ++ r) ≡ a ++ q ++ b ++ q ++ (c ++ q ++ r)
shift a b c q r = simp append_assoc refl

canonical_shift :
    (p : Platform) (e : AuditLog) (a b c : Text)
    → canonicalise_entry p (relabel a (b ++ pipe ++ c) e)
      ≡ canonicalise_entry p (relabel (a ++ pipe ++ b) c e)
unfolding canonicalise_entry
canonical_shift p e a b c =
    ap (λ r. p.decimal e.seq ++ pipe ++ (e.id ++ pipe ++ (e.user_id ++ pipe ++ r)))
      (shift a b c pipe _)

-- The step of the loop at an entry, by what it reads of the entry.
abbrev judged : Platform → ℕ → Text → List AuditLog → Text → Text → Text → Check
judged p i prev after text hash id =
    elim (timing_safe_equal (hex_bytes (p.hmac (prev ++ pipe ++ text))) (hex_bytes hash)) [
      | none ↦ threw
      | some same ↦ if same then check_from p (suc i) hash after else broken i id
    ]

-- The step of the loop at an entry, by how the rest ends.
abbrev gone_past : Platform → ℕ → Text → AuditLog → Check → Check
gone_past p i prev g rest =
    elim (timing_safe_equal (hex_bytes (compute_chain_hash p g prev)) (hex_bytes g.chain_hash)) [
      | none ↦ threw
      | some same ↦ if same then rest else broken i g.id
    ]

check_past :
    (p : Platform) (i : ℕ) (prev : Text) (before : List AuditLog) (e f : AuditLog)
    (after : List AuditLog)
    → canonicalise_entry p e ≡ canonicalise_entry p f
    → e.chain_hash ≡ f.chain_hash
    → e.id ≡ f.id
    → check_from p i prev (before ++ e ∷ after) ≡ check_from p i prev (before ++ f ∷ after)
unfolding check_from compute_chain_hash
check_past p i prev [] e f after text hash id =
    ap (λ t. judged p i prev after t e.chain_hash e.id) text
    ∙ ap (λ h. judged p i prev after (canonicalise_entry p f) h e.id) hash
    ∙ ap (judged p i prev after (canonicalise_entry p f) f.chain_hash) id
check_past p i prev (g ∷ before) e f after text hash id =
    ap (gone_past p i prev g) (check_past p (suc i) g.chain_hash before e f after text hash id)

-- The separator is not escaped: if it moves from the resource of an entry to its action, the loop of
-- verifyChain ends as before.
pub check_from_shift :
    (p : Platform) (before after : List AuditLog) (e : AuditLog) (a b c : Text)
    → check_from p 0 genesis_sentinel (before ++ relabel a (b ++ pipe ++ c) e ∷ after)
      ≡ check_from p 0 genesis_sentinel (before ++ relabel (a ++ pipe ++ b) c e ∷ after)
check_from_shift p before after e a b c =
    check_past p 0 genesis_sentinel before (relabel a (b ++ pipe ++ c) e)
      (relabel (a ++ pipe ++ b) c e) after (canonical_shift p e a b c) refl refl
