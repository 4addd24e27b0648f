-- ===== src/Idempotency/Store.antt =====
-- The store in memory of src/middleware/idempotency.ts over time.
use veritasor_backend.Prelude.{
  ℕ, ◌+◌, ◌≤◌, ◌≡◌, inl, inr, refl, ap, sym, ◌∙◌, false, List, [], ◌∷◌, Option, none, some, length,
  arith, Bool-cases,
}
use veritasor_backend.Prelude.Text.{Text, text_eq, text_eq→≡}
use veritasor_backend.Prelude.Maps.{get, get-put_other, get-remove_other, length-put, length-remove}
use veritasor_backend.Idempotency.{
  IdempotencyEntry, Row, Store, prune_expired_memory_store, read_row, store_get, store_set,
  max_memory_store_size,
}

-- What is done to the store: reads and writes of any request, and sweeps.
pub data StoreEvent : Type 0 where
  read : ℕ → Text → StoreEvent
  save : ℕ → Text → IdempotencyEntry → ℕ → StoreEvent
  swept : ℕ → StoreEvent

unfoldable pub store_step : StoreEvent → Store → Store
store_step (read now key) m = (store_get now key m).1
store_step (save now key entry ttl) m = store_set now key entry ttl m
store_step (swept now) m = prune_expired_memory_store now m

abbrev pub store_run : List StoreEvent → Store → Store
store_run [] m = m
store_run (e ∷ es) m = store_run es (store_step e m)

length-prune : (now : ℕ) (m : Store) → length (prune_expired_memory_store now m) ≤ length m
unfolding prune_expired_memory_store
length-prune now [] = omega arith
length-prune now ((k, row) ∷ m) = ground (arith, length-prune now m)

length-read_row :
    (now : ℕ) (key : Text) (o : Option Row) (m : Store) → length (read_row now key o m).1 ≤ length m
length-read_row now key none m = omega arith
length-read_row now key (some row) m = ground (arith, length-remove m key)

length-store_step :
    (e : StoreEvent) (m : Store)
    → length m ≤ max_memory_store_size
    → length (store_step e m) ≤ max_memory_store_size
unfolding store_step store_get store_set
length-store_step (read now key) m h = omega (arith, length-read_row now key (get m key) m)
length-store_step (save now key entry ttl) m h =
    let row : Row = record { entry = entry; expires_at = now + ttl } in
    let pruned = prune_expired_memory_store now m in
    ground (arith, length-put m key row, length-put pruned key row, length-prune now m)
length-store_step (swept now) m h = omega (arith, length-prune now m)

-- In every order of reads, writes and sweeps the store has at most 10000 rows.
pub length-store_run :
    (es : List StoreEvent) (m : Store)
    → length m ≤ max_memory_store_size
    → length (store_run es m) ≤ max_memory_store_size
length-store_run [] m h = h
length-store_run (e ∷ es) m h = length-store_run es (store_step e m) (length-store_step e m h)

-- A sweep leaves a row that has not expired.
get-prune :
    (now : ℕ) (m : Store) (k : Text) (row : Row)
    → get m k ≡ some row
    → now ≤ row.expires_at
    → get (prune_expired_memory_store now m) k ≡ some row
unfolding get prune_expired_memory_store
get-prune now [] k row h live = cc h
get-prune now ((x, r) ∷ m) k row h live = ground (arith, get-prune now m k row)

get-read_row :
    (now : ℕ) (key : Text) (o : Option Row) (m : Store) (k : Text) (row : Row)
    → get m key ≡ o
    → get m k ≡ some row
    → now ≤ row.expires_at
    → get (read_row now key o m).1 k ≡ some row
get-read_row now key none m k row found h live = h
get-read_row now key (some r) m k row found h live = elim (Bool-cases (text_eq key k)) [
  | inl e ↦
      let same : some r ≡ some row = sym found ∙ ap (get m) (text_eq→≡ key k e) ∙ h in
      ground (arith, same, live)
  | inr e ↦ ground (arith, get-remove_other m key k e)
]

-- Done no later than `limit`, and not a write under the key.
abbrev pub Spares : ℕ → Text → StoreEvent → Type 0
Spares limit k (read now key) = now ≤ limit
Spares limit k (save now key entry ttl) = (now ≤ limit) × (text_eq key k ≡ false)
Spares limit k (swept now) = now ≤ limit

abbrev pub AllSpare : ℕ → Text → List StoreEvent → Type 0
AllSpare limit k [] = Unit {0}
AllSpare limit k (e ∷ es) = Spares limit k e × AllSpare limit k es

get-store_step :
    (e : StoreEvent) (m : Store) (k : Text) (row : Row)
    → get m k ≡ some row
    → Spares row.expires_at k e
    → get (store_step e m) k ≡ some row
unfolding store_step store_get store_set
get-store_step (read now key) m k row h spares =
    get-read_row now key (get m key) m k row refl h spares
get-store_step (save now key entry ttl) m k row h spares =
    let new : Row = record { entry = entry; expires_at = now + ttl } in
    let pruned = prune_expired_memory_store now m in
    ground (
      arith,
      get-put_other m key k new,
      get-put_other pruned key k new,
      get-prune now m k row h spares.0,
    )
get-store_step (swept now) m k row h spares = get-prune now m k row h spares

-- A row stays until it expires, whatever is done under other keys.
pub get-store_run :
    (es : List StoreEvent) (m : Store) (k : Text) (row : Row)
    → get m k ≡ some row
    → AllSpare row.expires_at k es
    → get (store_run es m) k ≡ some row
get-store_run [] m k row h spare = h
get-store_run (e ∷ es) m k row h spare =
    get-store_run es (store_step e m) k row (get-store_step e m k row h spare.0) spare.1
