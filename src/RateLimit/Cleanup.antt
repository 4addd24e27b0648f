-- ===== src/RateLimit/Cleanup.antt =====
-- The cleanup of src/middleware/rateLimiter.ts and the single entry that a key has.
use veritasor_backend.Prelude.{
  ℕ, ◌≡◌, inl, inr, refl, sym, ◌∙◌, true, List, [], ◌∷◌, none, arith, Bool-cases,
}
use veritasor_backend.Prelude.Text.{Text, text_eq, text_eq→≡, text_eq_comm_false}
use veritasor_backend.Prelude.Maps.{get, put, get-put_other}
use veritasor_backend.RateLimit.{keep_recent, cleanup_sliding_store, or_no_times, is_none_kept}

-- No key has two entries.
abbrev pub Distinct : List (Text × List ℕ) → Type 0
Distinct [] = Unit {0}
Distinct ((k, ts) ∷ m) = (get m k ≡ none) × Distinct m

abbrev pub log_of : Text → List (Text × List ℕ) → List ℕ
log_of key store = or_no_times (get store key)

pub Distinct-put :
    (m : List (Text × List ℕ)) (k : Text) (v : List ℕ) → Distinct m → Distinct (put m k v)
unfolding put get
Distinct-put [] k v h = (refl, tt)
Distinct-put ((x, w) ∷ m) k v h = elim (Bool-cases (text_eq x k)) [
  | inl e ↦ rw e h
  | inr e ↦ rw e (get-put_other m k x v (text_eq_comm_false x k e) ∙ h.0, Distinct-put m k v h.1)
]

get-cleanup_none :
    (now w : ℕ) (m : List (Text × List ℕ)) (k : Text)
    → get m k ≡ none
    → get (cleanup_sliding_store now w m) k ≡ none
unfolding get cleanup_sliding_store
get-cleanup_none now w [] k h = refl
get-cleanup_none now w ((x, ts) ∷ m) k h = ground (arith, get-cleanup_none now w m k)

pub Distinct-cleanup :
    (now w : ℕ) (m : List (Text × List ℕ)) → Distinct m → Distinct (cleanup_sliding_store now w m)
unfolding cleanup_sliding_store
Distinct-cleanup now w [] h = tt
Distinct-cleanup now w ((x, ts) ∷ m) h = elim (Bool-cases (is_none_kept (keep_recent now w ts))) [
  | inl e ↦ rw e (Distinct-cleanup now w m h.1)
  | inr e ↦ rw e (get-cleanup_none now w m x h.0, Distinct-cleanup now w m h.1)
]

none_kept : (ts : List ℕ) → is_none_kept ts ≡ true → ts ≡ []
none_kept [] h = refl
none_kept (t ∷ ts) h = ground arith

-- A cleanup prunes the log of each key.
pub log_of-cleanup :
    (now w : ℕ) (m : List (Text × List ℕ)) (k : Text)
    → Distinct m
    → log_of k (cleanup_sliding_store now w m) ≡ keep_recent now w (log_of k m)
unfolding get cleanup_sliding_store keep_recent
log_of-cleanup now w [] k h = refl
log_of-cleanup now w ((x, ts) ∷ m) k h = elim (Bool-cases (text_eq x k)) [
  | inl e ↦ elim (Bool-cases (is_none_kept (keep_recent now w ts))) [
    | inl gone ↦
        rw (gone, e, ← text_eq→≡ x k e)
          (rw (get-cleanup_none now w m x h.0) (sym (none_kept (keep_recent now w ts) gone)))
    | inr kept ↦ rw (kept, e) refl
  ]
  | inr e ↦ elim (Bool-cases (is_none_kept (keep_recent now w ts))) [
    | inl gone ↦ rw (gone, e) (log_of-cleanup now w m k h.1)
    | inr kept ↦ rw (kept, e) (log_of-cleanup now w m k h.1)
  ]
]
