-- ===== src/Submission/Queue/Drained.antt =====
-- What a drain of the queue of src/services/soroban/submitAttestation.ts takes out, and what it keeps.
use veritasor_backend.Prelude.{
  ◌⊎◌, ℕ, zero, suc, ◌+◌, ◌-◌, ◌^◌, ◌≤◌, ◌≡◌, inl, inr, refl, sym, ◌∙◌, ap, arith, Bool, true,
  false, ◌&&◌, ◌||◌, List, [], ◌∷◌, ◌++◌, Option, none, some, Bool-cases, length, length-append,
  set, get_elem?, length-take, take,
}
use veritasor_backend.Prelude.Text.{Text, text_eq, text_eq→≡}
use veritasor_backend.Submission.{Params, Outcome, ok, throws, SubmitResult}
use veritasor_backend.Submission.Queue.{
  QueueItem, holds_key, find_index, splice, failed_item, latest, replace_item, Drain, DrainResult,
  settle_attempt, attempt_at, attempt_found, drain_item, drain_loop, is_final, processing,
  drain_queued_attestations, bounded_limit, due, sort_by_queued_at,
  get_queued_attestation_backoff_ms,
}
use veritasor_backend.Submission.Queue.Keys.{
  holds_key-append, holds_key-set, holds_key-replace_item, get_elem?-set_at, some_parts,
}

-- The submission has ended for good: with a result, as a duplicate or as invalid.
abbrev pub concluded : Outcome SubmitResult → Bool
concluded (ok result) = true
concluded (throws e) = is_final e

-- The item with the key has been concluded.
unfoldable pub finished : List DrainResult → Text → Bool
finished [] key = false
finished (r ∷ rs) key =
    (concluded r.outcome && text_eq r.item.idempotency_key key) || finished rs key

finished-append :
    (rs ts : List DrainResult) (key : Text)
    → finished (rs ++ ts) key ≡ (finished rs key || finished ts key)
unfolding finished
finished-append [] ts key = refl
finished-append (r ∷ rs) ts key = ground (arith, finished-append rs ts key)

or_right : (a b : Bool) → b ≡ true → (a || b) ≡ true
or_right true b h = refl
or_right false b h = h

-- What is taken out by its index leaves the other keys.
holds_key-spliced :
    (xs : List QueueItem) (i : ℕ) (x : QueueItem) (key : Text)
    → get_elem? xs i ≡ some x
    → text_eq x.idempotency_key key ≡ false
    → holds_key xs key ≡ true
    → holds_key (splice xs i) key ≡ true
unfolding holds_key
holds_key-spliced [] i x key at other h = h
holds_key-spliced (z ∷ xs) zero x key at other h =
    let mine : text_eq z.idempotency_key key ≡ false =
      ap (λ (y : QueueItem). text_eq y.idempotency_key key) (some_parts z x at) ∙ other in
    rw mine at h
holds_key-spliced (z ∷ xs) (suc i) x key at other h =
    elim (Bool-cases (text_eq z.idempotency_key key)) [
      | inl same ↦ rw same refl
      | inr apart ↦ rw apart (holds_key-spliced xs i x key at other (rw apart at h))
    ]

get_elem?-append :
    (xs ys : List QueueItem) (i : ℕ) (x : QueueItem)
    → get_elem? xs i ≡ some x
    → get_elem? (xs ++ ys) i ≡ some x
get_elem?-append [] ys i x h = cc
get_elem?-append (z ∷ xs) ys zero x h = h
get_elem?-append (z ∷ xs) ys (suc i) x h = get_elem?-append xs ys i x h

key_of_latest :
    (xs : List QueueItem) (x : QueueItem) → (latest xs x).idempotency_key ≡ x.idempotency_key
unfolding latest
key_of_latest [] x = refl
key_of_latest (y ∷ ys) x = elim (Bool-cases (text_eq y.idempotency_key x.idempotency_key)) [
  | inl same ↦ rw same (text_eq→≡ _ _ same)
  | inr other ↦ rw other (key_of_latest ys x)
]

-- A write keeps the key at every place.
get_elem?-replace_item :
    (xs : List QueueItem) (r : QueueItem) (i : ℕ) (x : QueueItem)
    → get_elem? xs i ≡ some x
    → (y : QueueItem) × (get_elem? (replace_item xs r) i ≡ some y)
      × (y.idempotency_key ≡ x.idempotency_key)
unfolding replace_item
get_elem?-replace_item [] r i x h = cc
get_elem?-replace_item (z ∷ xs) r zero x h =
    elim (Bool-cases (text_eq z.idempotency_key r.idempotency_key)) [
      | inl same ↦ rw same (
        r,
        refl,
        sym (text_eq→≡ _ _ same) ∙ ap (λ (y : QueueItem). y.idempotency_key) (some_parts z x h),
      )
      | inr other ↦ rw other (x, h, refl)
    ]
get_elem?-replace_item (z ∷ xs) r (suc j) x h =
    elim (Bool-cases (text_eq z.idempotency_key r.idempotency_key)) [
      | inl same ↦ rw same (x, h, refl)
      | inr other ↦ rw other (get_elem?-replace_item xs r j x h)
    ]

last_finished :
    (rs : List DrainResult) (r : DrainResult) (key : Text)
    → concluded r.outcome ≡ true
    → text_eq r.item.idempotency_key key ≡ true
    → finished (rs ++ r ∷ []) key ≡ true
unfolding finished
last_finished rs r key done same =
    finished-append rs (r ∷ []) key ∙ or_right (finished rs key) _ (rw (done, same) refl)

still_finished :
    (rs : List DrainResult) (r : DrainResult) (key : Text)
    → finished rs key ≡ true
    → finished (rs ++ r ∷ []) key ≡ true
still_finished rs r key h = finished-append rs (r ∷ []) key ∙ rw h refl

module _ {S : Type 0} (submit : Params → S → Outcome SubmitResult × S) (clock : S → ℕ)
    (arrivals : S → List QueueItem → List QueueItem) where
  -- Other calls put items at the end of the queue, and do nothing else to it.
  abbrev pub arrive : S → List QueueItem → List QueueItem
  arrive s q = q ++ arrivals s q

  -- The key is in the queue, or its submission has ended for good.
  abbrev IsKept : Text → Drain S → Type 0
  IsKept key d = (holds_key d.store key ≡ true) ⊎ (finished d.results key ≡ true)

  arrived :
      (s : S) (q : List QueueItem) (key : Text)
      → holds_key q key ≡ true
      → holds_key (arrive s q) key ≡ true
  arrived s q key h = holds_key-append q (arrivals s q) key ∙ rw h refl

  taken_out :
      (q : List QueueItem) (i : ℕ) (x : QueueItem) (rs : List DrainResult) (r : DrainResult)
      (key : Text)
      → get_elem? q i ≡ some x
      → r.item.idempotency_key ≡ x.idempotency_key
      → concluded r.outcome ≡ true
      → holds_key q key ≡ true
      → (holds_key (splice q i) key ≡ true) ⊎ (finished (rs ++ r ∷ []) key ≡ true)
  taken_out q i x rs r key at same done h = elim (Bool-cases (text_eq x.idempotency_key key)) [
    | inl mine ↦ inr (last_finished rs r key done (rw same mine))
    | inr other ↦ inl (holds_key-spliced q i x key at other h)
  ]

  settle_attempt-IsKept :
      (key : Text) (d : Drain S) (i : ℕ) (x : QueueItem) (r : Outcome SubmitResult × S)
      → get_elem? d.store i ≡ some x
      → IsKept key d
      → IsKept key (settle_attempt submit clock arrive d i x r)
  settle_attempt-IsKept key d i x (ok result, s) at (inr f) = inr (still_finished d.results _ key f)
  settle_attempt-IsKept key d i x (throws e, s) at (inr f) = inr (still_finished d.results _ key f)
  settle_attempt-IsKept key d i x (ok result, s) at (inl h) =
      taken_out (arrive s d.store) i x d.results _ key (get_elem?-append d.store _ i x at)
        (key_of_latest (arrive s d.store) x) refl (arrived s d.store key h)
  settle_attempt-IsKept key d i x (throws e, s) at (inl h) =
      let store = arrive s d.store in
      let retried = failed_item (latest store x) (clock s) in
      let (y, there, same) =
        get_elem?-replace_item store retried i x (get_elem?-append d.store _ i x at) in
      let holds = holds_key-replace_item store retried key ∙ arrived s d.store key h in
      elim (Bool-cases (is_final e)) [
        | inl final ↦ rw final (
            taken_out (replace_item store retried) i y d.results
              (record { item = retried; outcome = throws e }) key there
              (key_of_latest store x ∙ sym same) final holds)
        | inr kept ↦ rw kept (inl holds)
      ]

  attempt-IsKept :
      (key : Text) (d : Drain S) (i : ℕ) (o : Option QueueItem)
      → get_elem? d.store i ≡ o
      → IsKept key d
      → IsKept key (attempt_at submit clock arrive d i o)
  attempt-IsKept key d i none at v = v
  attempt-IsKept key d i (some x) at v =
      let current : QueueItem = record x { status = processing } in
      settle_attempt-IsKept key (record d { store = set d.store i current }) i current _
        (get_elem?-set_at d.store i x current at)
        (elim v [ inl h ↦ inl (holds_key-set d.store i x current key at refl ∙ h) | inr f ↦ inr f ])

  found-IsKept :
      (key : Text) (d : Drain S) (o : Option ℕ)
      → IsKept key d
      → IsKept key (attempt_found submit clock arrive d o)
  found-IsKept key d none v = v
  found-IsKept key d (some i) v = attempt-IsKept key d i (get_elem? d.store i) refl v

  loop-IsKept :
      (key : Text) (xs : List QueueItem) (d : Drain S)
      → IsKept key d
      → IsKept key (drain_loop submit clock arrive xs d)
  unfolding drain_loop drain_item
  loop-IsKept key [] d v = v
  loop-IsKept key (x ∷ xs) d v =
      loop-IsKept key xs (drain_item submit clock arrive d x) (found-IsKept key d _ v)

  -- Nothing is lost by a drain while which other calls put items at the end of the queue, and do
  -- nothing else to it: a key that the queue held is in it afterwards, or the submission of its item
  -- has ended for good, with a result, as a duplicate or as invalid.
  pub drain-holds_key :
      (limit : Option ℕ) (store : List QueueItem) (s : S) (key : Text)
      → holds_key store key ≡ true
      → (holds_key (drain_queued_attestations submit clock arrive limit store s).store key ≡ true)
        ⊎ (finished (drain_queued_attestations submit clock arrive limit store s).results key
            ≡ true)
  unfolding drain_queued_attestations
  drain-holds_key limit store s key h = loop-IsKept key _ _ (inl h)

module _ {S : Type 0} (submit : Params → S → Outcome SubmitResult × S) (clock : S → ℕ)
    (meanwhile : S → List QueueItem → List QueueItem) where
  settled_results :
      (d : Drain S) (i : ℕ) (x : QueueItem) (r : Outcome SubmitResult × S)
      → length (settle_attempt submit clock meanwhile d i x r).results ≤ length d.results + 1
  settled_results d i x (ok result, s) = omega (
    arith,
    length-append d.results
        (record { item = latest (meanwhile s d.store) x; outcome = ok result } ∷ []),
  )
  settled_results d i x (throws e, s) =
      let r : DrainResult = record {
        item = failed_item (latest (meanwhile s d.store) x) (clock s);
        outcome = throws e;
      } in
      omega (arith, length-append d.results (r ∷ []))

  attempt_results :
      (d : Drain S) (i : ℕ) (o : Option QueueItem)
      → length (attempt_at submit clock meanwhile d i o).results ≤ length d.results + 1
  attempt_results d i none = omega arith
  attempt_results d i (some x) =
      let current : QueueItem = record x { status = processing } in
      settled_results (record d { store = set d.store i current }) i current _

  found_results :
      (d : Drain S) (o : Option ℕ)
      → length (attempt_found submit clock meanwhile d o).results ≤ length d.results + 1
  found_results d none = omega arith
  found_results d (some i) = attempt_results d i (get_elem? d.store i)

  loop_results :
      (xs : List QueueItem) (d : Drain S)
      → length (drain_loop submit clock meanwhile xs d).results ≤ length d.results + length xs
  unfolding drain_loop drain_item
  loop_results [] d = omega arith
  loop_results (x ∷ xs) d = omega (
    arith,
    loop_results xs (drain_item submit clock meanwhile d x),
    found_results d (find_index d.store x.idempotency_key),
  )

bounded_limit_max : (limit : Option ℕ) → bounded_limit limit ≤ 100
unfolding bounded_limit
bounded_limit_max none = omega arith
bounded_limit_max (some limit) = omega arith

-- A drain makes a hundred submissions at most.
pub drain_results :
    {S : Type 0} (submit : Params → S → Outcome SubmitResult × S) (clock : S → ℕ)
    (meanwhile : S → List QueueItem → List QueueItem) (limit : Option ℕ) (store : List QueueItem)
    (s : S)
    → length (drain_queued_attestations submit clock meanwhile limit store s).results ≤ 100
unfolding drain_queued_attestations
drain_results submit clock meanwhile limit store s =
    let chosen = sort_by_queued_at (due (clock s) store) in
    omega (
      arith,
      loop_results submit clock meanwhile (take (bounded_limit limit) chosen)
          (record { store = store; state = s; results = [] }),
      length-take (bounded_limit limit) chosen,
      bounded_limit_max limit,
    )

two_pow : (k : ℕ) → 1 ≤ 2 ^ k
two_pow zero = omega arith
two_pow (suc k) = omega (arith, two_pow k)

-- An item that is tried again waits for 5 seconds at least and for a minute at most.
pub backoff_bounds :
    (attempts : ℕ)
    → (5000 ≤ get_queued_attestation_backoff_ms attempts)
      × (get_queued_attestation_backoff_ms attempts ≤ 60000)
unfolding get_queued_attestation_backoff_ms
backoff_bounds attempts = omega (arith, two_pow (attempts - 1))
