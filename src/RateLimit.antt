-- ===== src/RateLimit.antt =====
-- The rate limiter of src/middleware/rateLimiter.ts with its stores in memory: the fixed window of
-- `MemoryStore` and the sliding window of `SlidingWindowMemoryStore`. The key of a request and its
-- window are given. Where the code subtracts a window from a time, it stands on the other side.
pub mod Sliding
pub mod Cleanup
pub mod Fixed
mod Tests
use veritasor_backend.Prelude.{
  ℕ, suc, ◌+◌, ◌*◌, Bool, true, false, List, [], ◌∷◌, ◌++◌, Option, none, some, ltb, leb,
  if◌then◌else◌, length,
}
use veritasor_backend.Prelude.Text.{Text}
use veritasor_backend.Prelude.Maps.{get, put}

abbrev pub default_window_ms : ℕ
default_window_ms = 15 * 60 * 1000

pub record RateLimitRecord : Type 0 where
  pub count : ℕ
  pub reset_time : ℕ

-- `!record || now > record.resetTime`
abbrev pub current_record : ℕ → ℕ → Option RateLimitRecord → RateLimitRecord
current_record now window_ms none = record { count = 0; reset_time = now + window_ms }
current_record now window_ms (some r) =
    if ltb r.reset_time now then record { count = 0; reset_time = now + window_ms } else r

unfoldable pub memory_increment :
    ℕ → Text → ℕ → List (Text × RateLimitRecord) → RateLimitRecord × List (Text × RateLimitRecord)
memory_increment now key window_ms store =
    let r = current_record now window_ms (get store key) in
    let counted : RateLimitRecord = record r { count = r.count + 1 } in
    (counted, put store key counted)

unfoldable pub memory_cleanup : ℕ → List (Text × RateLimitRecord) → List (Text × RateLimitRecord)
memory_cleanup now [] = []
memory_cleanup now ((k, r) ∷ m) =
    if ltb r.reset_time now then memory_cleanup now m else (k, r) ∷ memory_cleanup now m

-- `timestamps.filter((t) => t > now - windowMs)`
unfoldable pub keep_recent : ℕ → ℕ → List ℕ → List ℕ
keep_recent now window_ms [] = []
keep_recent now window_ms (t ∷ ts) =
    if ltb now (t + window_ms)
    then t ∷ keep_recent now window_ms ts
    else keep_recent now window_ms ts

abbrev pub or_no_times : Option (List ℕ) → List ℕ
or_no_times none = []
or_no_times (some ts) = ts

unfoldable pub sliding_increment :
    ℕ → Text → ℕ → List (Text × List ℕ) → RateLimitRecord × List (Text × List ℕ)
sliding_increment now key window_ms store =
    let timestamps = keep_recent now window_ms (or_no_times (get store key)) ++ now ∷ [] in
    (record { count = length timestamps; reset_time = now + window_ms }, put store key timestamps)

abbrev pub is_none_kept : List ℕ → Bool
is_none_kept [] = true
is_none_kept (t ∷ ts) = false

unfoldable pub cleanup_sliding_store : ℕ → ℕ → List (Text × List ℕ) → List (Text × List ℕ)
cleanup_sliding_store now window_ms [] = []
cleanup_sliding_store now window_ms ((k, ts) ∷ m) =
    let pruned = keep_recent now window_ms ts in
    let rest = cleanup_sliding_store now window_ms m in
    if is_none_kept pruned then rest else (k, pruned) ∷ rest

-- The answer of `rateLimiter`: `next` or status 429.
unfoldable pub is_let_through : ℕ → RateLimitRecord → Bool
is_let_through max_requests r = if ltb max_requests r.count then false else true
