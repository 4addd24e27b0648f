-- ===== src/RateLimit/Fixed.antt =====
-- That the fixed window of src/middleware/rateLimiter.ts counts the requests of its window.
use veritasor_backend.Prelude.{
  ℕ, suc, ◌+◌, ◌≤◌, ◌≡◌, false, List, [], ◌∷◌, none, some, ltb, length, arith,
}
use veritasor_backend.Prelude.Text.{Text}
use veritasor_backend.Prelude.Maps.{get, put, get-put_same}
use veritasor_backend.RateLimit.{RateLimitRecord, memory_increment, is_let_through}

-- One request of a key after another, at the given times.
abbrev pub hits : Text → ℕ → List ℕ → List (Text × RateLimitRecord) → List (Text × RateLimitRecord)
hits key w [] store = store
hits key w (t ∷ ts) store = hits key w ts (memory_increment t key w store).1

abbrev pub AllBy : ℕ → List ℕ → Type 0
AllBy limit [] = Unit {0}
AllBy limit (t ∷ ts) = (t ≤ limit) × AllBy limit ts

get-hits :
    (ts : List ℕ) (key : Text) (w count reset : ℕ) (store : List (Text × RateLimitRecord))
    → AllBy reset ts
    → get store key ≡ some (record { count = count; reset_time = reset })
    → get (hits key w ts store) key
      ≡ some (record { count = count + length ts; reset_time = reset })
unfolding memory_increment
get-hits [] key w count reset store within found =
    let none_more : count + 0 ≡ count = omega arith in rw none_more found
get-hits (t ∷ ts) key w count reset store within found =
    let fresh : ltb reset t ≡ false = ground (arith, within.0) in
    let counted : RateLimitRecord = record { count = count + 1; reset_time = reset } in
    let one_more : count + 1 + length ts ≡ count + suc (length ts) = omega arith in
    rw (found, fresh, ← one_more)
      (get-hits ts key w (count + 1) reset (put store key counted) within.1
        (get-put_same store key counted))

-- Of the requests of a key that fall into the window that the first of them opens, a further one is
-- let through exactly if fewer than `max` came before it.
pub is_let_through-hits :
    (ts : List ℕ) (first now : ℕ) (key : Text) (w max_requests : ℕ)
    (store : List (Text × RateLimitRecord))
    → get store key ≡ none
    → AllBy (first + w) ts
    → now ≤ first + w
    → is_let_through max_requests (memory_increment now key w (hits key w (first ∷ ts) store)).0
      ≡ ltb (suc (length ts)) max_requests
unfolding is_let_through memory_increment
is_let_through-hits ts first now key w max_requests store absent within live =
    let opened : RateLimitRecord = record { count = 1; reset_time = first + w } in
    let after =
      get-hits ts key w 1 (first + w) (put store key opened) within
        (get-put_same store key opened) in
    let fresh : ltb (first + w) now ≡ false = ground (arith, live) in
    rw (absent, after, fresh) (ground arith)
