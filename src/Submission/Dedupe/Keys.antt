-- ===== src/Submission/Dedupe/Keys.antt =====
-- The keys of the deduplication and the time they are kept, of
-- src/services/soroban/submitAttestation.ts.
use veritasor_backend.Prelude.{
  ◌≤◌, ◌≡◌, ◌⊎◌, inl, inr, false, [], ◌∷◌, ◌++◌, arith, ◌==◌, Bool-cases,
}
use veritasor_backend.Prelude.Text.{Text, pipe, text_eq, text_eq→≡}
use veritasor_backend.Submission.{Params}
use veritasor_backend.Submission.Dedupe.{
  Printer, canonical, compute_attestation_dedupe_key, resolve_attestation_dedupe_ttl_ms, RawTtl,
  min_attestation_dedupe_ttl_ms, integer, unset, not_an_integer, negative,
}

-- No separator in the text.
abbrev pub IsPlain : Text → Type 0
IsPlain [] = Unit {0}
IsPlain (c ∷ cs) = ((c == b'|') ≡ false) × IsPlain cs

pipe_split :
    (a b : Text)
    → IsPlain a
    → IsPlain b
    → (x y : Text) → a ++ pipe ++ x ≡ b ++ pipe ++ y
    → (a ≡ b) × (x ≡ y)
pipe_split [] [] pa pb x y h = ground arith
pipe_split [] (d ∷ b) pa pb x y h = ground arith
pipe_split (c ∷ a) [] pa pb x y h = ground arith
pipe_split (c ∷ a) (d ∷ b) pa pb x y h = ground (arith, pipe_split a b pa.1 pb.1 x y)

-- Business, period, root and printed time without separators.
pub record IsPlainParams (lib : Printer) (p : Params) : Type 0 where
  pub business : IsPlain p.business
  pub period : IsPlain p.period
  pub merkle_root : IsPlain p.merkle_root
  pub timestamp : IsPlain (lib.print_timestamp p.timestamp)

-- Two different texts with the same digest.
abbrev pub Collision : Printer → Type 0
Collision lib = (a : Text) × (b : Text) × (text_eq a b ≡ false) × (lib.sha256 a ≡ lib.sha256 b)

abbrev pub SameAttestation : Printer → Params → Params → Type 0
SameAttestation lib p q =
    (p.business ≡ q.business)
    × (p.period ≡ q.period)
    × (p.merkle_root ≡ q.merkle_root)
    × (lib.print_timestamp p.timestamp ≡ lib.print_timestamp q.timestamp)
    × (p.version ≡ q.version)

canonical_parts :
    (lib : Printer) (p q : Params)
    → IsPlainParams lib p
    → IsPlainParams lib q
    → canonical lib p ≡ canonical lib q
    → SameAttestation lib p q
canonical_parts lib p q pp pq h =
    let business = pipe_split p.business q.business pp.business pq.business _ _ h in
    let period = pipe_split p.period q.period pp.period pq.period _ _ business.1 in
    let root = pipe_split p.merkle_root q.merkle_root pp.merkle_root pq.merkle_root _ _ period.1 in
    let stamp = pipe_split _ _ pp.timestamp pq.timestamp _ _ root.1 in
    (business.0, period.0, root.0, stamp.0, stamp.1)

-- Two requests without separators in their fields that share a dedupe key are the same attestation,
-- up to its signer, or show a collision of the hash.
pub compute_attestation_dedupe_key_binding :
    (lib : Printer) (p q : Params)
    → IsPlainParams lib p
    → IsPlainParams lib q
    → compute_attestation_dedupe_key lib p ≡ compute_attestation_dedupe_key lib q
    → SameAttestation lib p q ⊎ Collision lib
unfolding compute_attestation_dedupe_key
compute_attestation_dedupe_key_binding lib p q pp pq h =
    elim (Bool-cases (text_eq (canonical lib p) (canonical lib q))) [
      | inl same ↦ inl (canonical_parts lib p q pp pq (text_eq→≡ _ _ same))
      | inr other ↦ inr (canonical lib p, canonical lib q, other, h)
    ]

-- Whatever the environment holds, a key is kept for half a minute at least.
pub resolve_ttl_bound :
    (raw : RawTtl) → min_attestation_dedupe_ttl_ms ≤ resolve_attestation_dedupe_ttl_ms raw
unfolding resolve_attestation_dedupe_ttl_ms
resolve_ttl_bound unset = omega arith
resolve_ttl_bound not_an_integer = omega arith
resolve_ttl_bound negative = omega arith
resolve_ttl_bound (integer n) = ground arith
