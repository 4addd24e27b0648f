-- ===== src/Merkle/Hex.antt =====
-- Hexadecimal digests: `normalizeHashHex` of src/services/merkle/generateProof.ts.
use veritasor_backend.Prelude.{
  ℕ, ◌≡◌, refl, ap, Bool, true, ◌&&◌, ◌||◌, [], ◌∷◌, some, arith, leb, length,
}
use veritasor_backend.Prelude.Text.{Text}
use veritasor_backend.Merkle.{
  strip_hex_prefix, all_hex, matches_hash_hex, to_lower, normalize_hash_hex,
}

abbrev pub is_lower_hex : ℕ → Bool
is_lower_hex c = (leb b'0' c && leb c b'9') || (leb b'a' c && leb c b'f')

abbrev pub AllLowerHex : Text → Type 0
AllLowerHex [] = Unit {0}
AllLowerHex (c ∷ cs) = (is_lower_hex c ≡ true) × AllLowerHex cs

-- The documented form of a SHA-256 digest as lowercase hex.
abbrev pub IsDigest : Text → Type 0
IsDigest t = (length t ≡ 64) × AllLowerHex t

all_hex_of_lower : (t : Text) → AllLowerHex t → all_hex t ≡ true
unfolding all_hex
all_hex_of_lower [] h = refl
all_hex_of_lower (c ∷ cs) h = ground (arith, all_hex_of_lower cs h.1)

to_lower_of_lower : (t : Text) → AllLowerHex t → to_lower t ≡ t
unfolding to_lower
to_lower_of_lower [] h = refl
to_lower_of_lower (c ∷ cs) h = ground (arith, to_lower_of_lower cs h.1)

strip_of_lower : (t : Text) → AllLowerHex t → strip_hex_prefix t ≡ t
unfolding strip_hex_prefix
strip_of_lower [] h = refl
strip_of_lower (c ∷ []) h = refl
strip_of_lower (c ∷ d ∷ rest) h = ground arith

-- A digest is its own normal form.
pub normalize_digest : (t : Text) → IsDigest t → normalize_hash_hex t ≡ some t
unfolding normalize_hash_hex matches_hash_hex
normalize_digest t h =
    ground (arith, strip_of_lower t h.1, all_hex_of_lower t h.1, to_lower_of_lower t h.1)

length-to_lower : (t : Text) → length (to_lower t) ≡ length t
unfolding to_lower
length-to_lower [] = refl
length-to_lower (c ∷ cs) = ap Prim.Native.Nat.suc (length-to_lower cs)

-- Whatever is accepted as a hash has 64 digits when normalised.
pub length_of_normalized : (t s : Text) → normalize_hash_hex t ≡ some s → length s ≡ 64
unfolding normalize_hash_hex matches_hash_hex
length_of_normalized t s h = ground (arith, length-to_lower (strip_hex_prefix t))
