-- ===== src/Signup/Email/Aliases.antt =====
-- E-mail addresses that `normalizeEmail` of src/utils/abusePrevention.ts takes for one.
use veritasor_backend.Prelude.{
  ℕ, ◌+◌, ◌≡◌, refl, sym, ◌∙◌, ap, arith, Bool, false, ◌&&◌, [], ◌∷◌, ◌++◌, some, ◌==◌, leb,
  if◌then◌else◌, inl, inr, Bool-cases,
}
use veritasor_backend.Prelude.Text.{Text, is_space, trim, trim_start, trim_end, end_trimmed, lower}
use veritasor_backend.Signup.Email.{
  at_index, before_plus, is_gmail, without_dots, normalize_email_with, rejoined,
}

-- No @ in the text.
abbrev pub IsUnsigned : Text → Type 0
IsUnsigned [] = Unit {0}
IsUnsigned (c ∷ cs) = ((c == b'@') ≡ false) × IsUnsigned cs

pub trim_start-append :
    (t : Text) (c : ℕ) (u : Text)
    → is_space c ≡ false
    → trim_start (t ++ c ∷ u) ≡ trim_start t ++ c ∷ u
unfolding trim_start
trim_start-append [] c u h = rw h refl
trim_start-append (d ∷ t) c u h = elim (Bool-cases (is_space d)) [
  | inl e ↦ rw (e, trim_start-append t c u h) refl
  | inr e ↦ rw e refl
]

end_trimmed-cons :
    (c d : ℕ) (t : Text)
    → is_space d ≡ false
    → end_trimmed c (end_trimmed d t) ≡ c ∷ end_trimmed d t
end_trimmed-cons c d [] h = rw h refl
end_trimmed-cons c d (x ∷ t) h = refl

trim_end-append :
    (t : Text) (c : ℕ) (u : Text)
    → is_space c ≡ false
    → trim_end (t ++ c ∷ u) ≡ t ++ end_trimmed c (trim_end u)
unfolding trim_end
trim_end-append [] c u h = refl
trim_end-append (d ∷ t) c u h = ap (end_trimmed d) (trim_end-append t c u h) ∙ shown t
  where
    shown :
        (t : Text)
        → end_trimmed d (t ++ end_trimmed c (trim_end u)) ≡ d ∷ t ++ end_trimmed c (trim_end u)
    shown [] = end_trimmed-cons d c (trim_end u) h
    shown (x ∷ t) = refl

pub lower-append : (t u : Text) → lower (t ++ u) ≡ lower t ++ lower u
unfolding lower
lower-append [] u = refl
lower-append (c ∷ t) u =
    ap (λ r. (if leb b'A' c && leb c b'Z' then c + 32 else c) ∷ r) (lower-append t u)

IsUnsigned-lower : (t : Text) → IsUnsigned t → IsUnsigned (lower t)
unfolding lower
IsUnsigned-lower [] h = tt
IsUnsigned-lower (c ∷ t) h = (ground arith, IsUnsigned-lower t h.1)

IsUnsigned-trim_start : (t : Text) → IsUnsigned t → IsUnsigned (trim_start t)
unfolding trim_start
IsUnsigned-trim_start [] h = tt
IsUnsigned-trim_start (c ∷ t) h = elim (Bool-cases (is_space c)) [
  | inl e ↦ rw e (IsUnsigned-trim_start t h.1)
  | inr e ↦ rw e h
]

pub IsUnsigned-append : (t u : Text) → IsUnsigned t → IsUnsigned u → IsUnsigned (t ++ u)
IsUnsigned-append [] u h k = k
IsUnsigned-append (c ∷ t) u h k = (h.0, IsUnsigned-append t u h.1 k)

at_index-append : (t u : Text) → IsUnsigned t → at_index (t ++ b'@' ∷ u) ≡ some (t, u)
unfolding at_index
at_index-append [] u h = refl
at_index-append (c ∷ t) u h = rw (h.0, at_index-append t u h.1) refl

before_plus-append : (t u : Text) → before_plus (t ++ b'+' ∷ u) ≡ before_plus t
unfolding before_plus
before_plus-append [] u = refl
before_plus-append (c ∷ t) u = elim (Bool-cases (c == b'+')) [
  | inl e ↦ rw e refl
  | inr e ↦ rw (e, before_plus-append t u) refl
]

at_kept : (u : Text) → end_trimmed b'@' u ≡ b'@' ∷ u
at_kept [] = refl
at_kept (c ∷ u) = refl

trim-address :
    (t domain : Text) → trim (t ++ b'@' ∷ domain) ≡ trim_start t ++ b'@' ∷ trim_end domain
unfolding trim
trim-address t domain =
    ap trim_end (trim_start-append t b'@' domain refl)
    ∙ trim_end-append (trim_start t) b'@' domain refl
    ∙ ap (λ r. trim_start t ++ r) (at_kept (trim_end domain))

pub lower_address :
    (t domain : Text)
    → lower (trim (t ++ b'@' ∷ domain)) ≡ lower (trim_start t) ++ b'@' ∷ lower (trim_end domain)
unfolding lower
lower_address t domain =
    ap lower (trim-address t domain) ∙ lower-append (trim_start t) (b'@' ∷ trim_end domain)

pub normalize_address :
    (dots : Bool) (t domain : Text)
    → IsUnsigned t
    → normalize_email_with dots (t ++ b'@' ∷ domain)
      ≡ rejoined dots [] (some (lower (trim_start t), lower (trim_end domain)))
unfolding normalize_email_with
normalize_address dots t domain h =
    rw
      (
        lower_address t domain,
        at_index-append (lower (trim_start t)) (lower (trim_end domain))
            (IsUnsigned-lower (trim_start t) (IsUnsigned-trim_start t h)),
      )
      refl

pub tag_dropped :
    (local tag : Text)
    → before_plus (lower (trim_start (local ++ b'+' ∷ tag)))
      ≡ before_plus (lower (trim_start local))
unfolding lower
tag_dropped local tag =
    ap (λ t. before_plus (lower t)) (trim_start-append local b'+' tag refl)
    ∙ ap before_plus (lower-append (trim_start local) (b'+' ∷ tag))
    ∙ before_plus-append (lower (trim_start local)) (lower tag)

-- Addresses that differ by a tag after a plus have the same normal form.
pub normalize_email_alias :
    (dots : Bool) (local tag domain : Text)
    → IsUnsigned local
    → IsUnsigned tag
    → normalize_email_with dots (local ++ b'+' ∷ tag ++ b'@' ∷ domain)
      ≡ normalize_email_with dots (local ++ b'@' ∷ domain)
normalize_email_alias dots local tag domain hl ht =
    normalize_address dots (local ++ b'+' ∷ tag) domain
      (IsUnsigned-append local (b'+' ∷ tag) hl (refl, ht))
    ∙ ap
        (λ b.
          (if dots && is_gmail (lower (trim_end domain)) then without_dots b else b)
          ++ b'@' ∷ lower (trim_end domain))
        (tag_dropped local tag)
    ∙ sym (normalize_address dots local domain hl)
