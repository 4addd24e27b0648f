-- ===== src/Submission/Queue/Keys.antt =====
-- The invariant of the queue of src/services/soroban/submitAttestation.ts: its keys are unique, and it
-- holds no more than its limit.
use veritasor_backend.Prelude.{
  ℕ, zero, suc, ◌≤◌, ◌<◌, ◌≡◌, ◌⊎◌, inl, inr, refl, sym, ◌∙◌, ap, arith, Bool, true, false, ◌||◌,
  List, [], ◌∷◌, ◌++◌, Option, none, some, leb, Bool-cases, length, length-append, set, get_elem?,
  length-set,
}
use veritasor_backend.Prelude.Text.{Text, text_eq, text_eq→≡, text_eq_comm_false}
use veritasor_backend.Submission.{Params, Outcome, ok, throws, SubmitResult}
use veritasor_backend.Submission.Dedupe.{Printer}
use veritasor_backend.Submission.Queue.{
  QueueItem, accepted, refused, holds_key, enqueue_queued_attestation, splice, failed_item, Drain,
  drain_queued_attestations, admit, lacks_field, Refusal, disabled, invalid, duplicate, queue_full,
  latest, replace_item, settle_attempt, attempt_at, attempt_found, drain_item, drain_loop, is_final,
  processing,
}

abbrev pub Unique : List QueueItem → Type 0
Unique [] = Unit {0}
Unique (x ∷ xs) = (holds_key xs x.idempotency_key ≡ false) × Unique xs

pub holds_key-append :
    (xs ys : List QueueItem) (key : Text)
    → holds_key (xs ++ ys) key ≡ (holds_key xs key || holds_key ys key)
unfolding holds_key
holds_key-append [] ys key = refl
holds_key-append (x ∷ xs) ys key = ground (arith, holds_key-append xs ys key)

pub some_parts : {A : Type 0} (a b : A) → some a ≡ some b → a ≡ b
some_parts a b h = cc

neither : (a b : Bool) → (a || b) ≡ false → (a ≡ false) × (b ≡ false)
neither true b h = ground arith
neither false b h = (refl, h)

absent :
    (xs : List QueueItem) (x : QueueItem) (key : Text)
    → holds_key xs key ≡ false
    → text_eq x.idempotency_key key ≡ false
    → (holds_key xs key || holds_key (x ∷ []) key) ≡ false
unfolding holds_key
absent xs x key h e = rw (h, e) refl

Unique-append :
    (xs : List QueueItem) (x : QueueItem)
    → Unique xs
    → holds_key xs x.idempotency_key ≡ false
    → Unique (xs ++ x ∷ [])
unfolding holds_key
Unique-append [] x u h = (refl, tt)
Unique-append (y ∷ ys) x u h =
    let (other, rest) = neither (text_eq y.idempotency_key x.idempotency_key) _ h in
    (
      holds_key-append ys (x ∷ []) y.idempotency_key
          ∙ absent ys x y.idempotency_key u.0 (text_eq_comm_false _ _ other),
      Unique-append ys x u.1 rest,
    )

pub holds_key-splice :
    (xs : List QueueItem) (i : ℕ) (key : Text)
    → holds_key xs key ≡ false
    → holds_key (splice xs i) key ≡ false
unfolding holds_key
holds_key-splice [] i key h = refl
holds_key-splice (x ∷ xs) zero key h = ground arith
holds_key-splice (x ∷ xs) (suc i) key h = ground (arith, holds_key-splice xs i key)

pub Unique-splice : (xs : List QueueItem) (i : ℕ) → Unique xs → Unique (splice xs i)
Unique-splice [] i u = tt
Unique-splice (x ∷ xs) zero u = u.1
Unique-splice (x ∷ xs) (suc i) u =
    (holds_key-splice xs i x.idempotency_key u.0, Unique-splice xs i u.1)

length-splice : (xs : List QueueItem) (i : ℕ) → length (splice xs i) ≤ length xs
length-splice [] i = omega arith
length-splice (x ∷ xs) zero = omega arith
length-splice (x ∷ xs) (suc i) = omega (arith, length-splice xs i)

-- A write of an item with the key that stands there leaves the keys as they are.
pub holds_key-set :
    (xs : List QueueItem) (i : ℕ) (x y : QueueItem) (key : Text)
    → get_elem? xs i ≡ some x
    → y.idempotency_key ≡ x.idempotency_key
    → holds_key (set xs i y) key ≡ holds_key xs key
unfolding holds_key
holds_key-set [] i x y key at same = refl
holds_key-set (z ∷ xs) zero x y key at same =
    ap (λ k. text_eq k key || holds_key xs key)
      (same ∙ ap (λ i. i.idempotency_key) (sym (some_parts z x at)))
holds_key-set (z ∷ xs) (suc i) x y key at same = ground (arith, holds_key-set xs i x y key at same)

pub Unique-set :
    (xs : List QueueItem) (i : ℕ) (x y : QueueItem)
    → get_elem? xs i ≡ some x
    → y.idempotency_key ≡ x.idempotency_key
    → Unique xs
    → Unique (set xs i y)
Unique-set [] i x y at same u = tt
Unique-set (z ∷ xs) zero x y at same u =
    (ap (holds_key xs) (same ∙ ap (λ i. i.idempotency_key) (sym (some_parts z x at))) ∙ u.0, u.1)
Unique-set (z ∷ xs) (suc i) x y at same u =
    (holds_key-set xs i x y z.idempotency_key at same ∙ u.0, Unique-set xs i x y at same u.1)

pub get_elem?-set_at :
    (xs : List QueueItem) (i : ℕ) (x y : QueueItem)
    → get_elem? xs i ≡ some x
    → get_elem? (set xs i y) i ≡ some y
get_elem?-set_at [] i x y h = cc
get_elem?-set_at (z ∷ xs) zero x y h = refl
get_elem?-set_at (z ∷ xs) (suc i) x y h = get_elem?-set_at xs i x y h

pub record IsValid (max_items : ℕ) (store : List QueueItem) : Type 0 where
  pub unique : Unique store
  pub bounded : length store ≤ max_items

IsValid-set :
    (n : ℕ) (xs : List QueueItem) (i : ℕ) (x y : QueueItem)
    → get_elem? xs i ≡ some x
    → y.idempotency_key ≡ x.idempotency_key
    → IsValid n xs
    → IsValid n (set xs i y)
IsValid-set n xs i x y at same v = record {
  unique = Unique-set xs i x y at same v.unique;
  bounded = omega (arith, length-set xs i y, v.bounded);
}

IsValid-splice : (n : ℕ) (xs : List QueueItem) (i : ℕ) → IsValid n xs → IsValid n (splice xs i)
IsValid-splice n xs i v = record {
  unique = Unique-splice xs i v.unique;
  bounded = omega (arith, length-splice xs i, v.bounded);
}

-- A write of an item leaves the keys and the number as they are.
pub holds_key-replace_item :
    (xs : List QueueItem) (x : QueueItem) (key : Text)
    → holds_key (replace_item xs x) key ≡ holds_key xs key
unfolding holds_key replace_item
holds_key-replace_item [] x key = refl
holds_key-replace_item (y ∷ ys) x key =
    elim (Bool-cases (text_eq y.idempotency_key x.idempotency_key)) [
      | inl same ↦ rw (same, text_eq→≡ _ _ same) refl
      | inr other ↦ rw (other, holds_key-replace_item ys x key) refl
    ]

Unique-replace_item : (xs : List QueueItem) (x : QueueItem) → Unique xs → Unique (replace_item xs x)
unfolding replace_item
Unique-replace_item [] x u = tt
Unique-replace_item (y ∷ ys) x u = elim (Bool-cases (text_eq y.idempotency_key x.idempotency_key)) [
  | inl same ↦ rw same (ap (holds_key ys) (sym (text_eq→≡ _ _ same)) ∙ u.0, u.1)
  | inr other ↦
      rw other (holds_key-replace_item ys x y.idempotency_key ∙ u.0, Unique-replace_item ys x u.1)
]

length-replace_item : (xs : List QueueItem) (x : QueueItem) → length (replace_item xs x) ≤ length xs
unfolding replace_item
length-replace_item [] x = omega arith
length-replace_item (y ∷ ys) x = elim (Bool-cases (text_eq y.idempotency_key x.idempotency_key)) [
  | inl same ↦ rw same (omega arith)
  | inr other ↦ rw other (omega (arith, length-replace_item ys x))
]

IsValid-replace_item :
    (n : ℕ) (xs : List QueueItem) (x : QueueItem) → IsValid n xs → IsValid n (replace_item xs x)
IsValid-replace_item n xs x v = record {
  unique = Unique-replace_item xs x v.unique;
  bounded = omega (arith, length-replace_item xs x, v.bounded);
}

module _ {S : Type 0} (submit : Params → S → Outcome SubmitResult × S) (clock : S → ℕ)
    (meanwhile : S → List QueueItem → List QueueItem) (n : ℕ)
    (keeps : (s : S) (q : List QueueItem) → IsValid n q → IsValid n (meanwhile s q)) where
  settle_attempt-IsValid :
      (d : Drain S) (i : ℕ) (x : QueueItem) (r : Outcome SubmitResult × S)
      → IsValid n d.store
      → IsValid n (settle_attempt submit clock meanwhile d i x r).store
  settle_attempt-IsValid d i x (ok result, s) v =
      IsValid-splice n (meanwhile s d.store) i (keeps s d.store v)
  settle_attempt-IsValid d i x (throws e, s) v =
      let store = meanwhile s d.store in
      let written =
        IsValid-replace_item n store (failed_item (latest store x) (clock s)) (keeps s d.store v) in
      elim (Bool-cases (is_final e)) [
        | inl final ↦ rw final (IsValid-splice n _ i written)
        | inr kept ↦ rw kept written
      ]

  attempt-IsValid :
      (d : Drain S) (i : ℕ) (o : Option QueueItem)
      → get_elem? d.store i ≡ o
      → IsValid n d.store
      → IsValid n (attempt_at submit clock meanwhile d i o).store
  attempt-IsValid d i none at v = v
  attempt-IsValid d i (some x) at v =
      let current : QueueItem = record x { status = processing } in
      settle_attempt-IsValid (record d { store = set d.store i current }) i current _
        (IsValid-set n d.store i x current at refl v)

  found-IsValid :
      (d : Drain S) (o : Option ℕ)
      → IsValid n d.store
      → IsValid n (attempt_found submit clock meanwhile d o).store
  found-IsValid d none v = v
  found-IsValid d (some i) v = attempt-IsValid d i (get_elem? d.store i) refl v

  loop-IsValid :
      (xs : List QueueItem) (d : Drain S)
      → IsValid n d.store
      → IsValid n (drain_loop submit clock meanwhile xs d).store
  unfolding drain_loop drain_item
  loop-IsValid [] d v = v
  loop-IsValid (x ∷ xs) d v =
      loop-IsValid xs (drain_item submit clock meanwhile d x) (found-IsValid d _ v)

  drain-IsValid :
      (limit : Option ℕ) (store : List QueueItem) (s : S)
      → IsValid n store
      → IsValid n (drain_queued_attestations submit clock meanwhile limit store s).store
  unfolding drain_queued_attestations
  drain-IsValid limit store s v = loop-IsValid _ _ v

module _ (enabled : Bool) (n : ℕ) where
  -- An item is refused and the queue left as it is, or it passes every guard and comes last.
  pub admit_cases :
      (item : QueueItem) (store : List QueueItem)
      → ((reason : Refusal) × (admit enabled n item store ≡ (refused reason, store)))
        ⊎ ((enabled ≡ true)
            × (lacks_field item.params ≡ false)
            × (holds_key store item.idempotency_key ≡ false)
            × (length store < n)
            × (admit enabled n item store ≡ (accepted item, store ++ item ∷ [])))
  unfolding admit
  admit_cases item store = elim (Bool-cases enabled) [
    | inr off ↦ inl (disabled, rw off refl)
    | inl on ↦ elim (Bool-cases (lacks_field item.params)) [
      | inl blank ↦ inl (invalid, rw (on, blank) refl)
      | inr full ↦ elim (Bool-cases (holds_key store item.idempotency_key)) [
        | inl held ↦ inl (duplicate, rw (on, full, held) refl)
        | inr new ↦ elim (Bool-cases (leb n (length store))) [
          | inl most ↦ inl (queue_full, rw (on, full, new, most) refl)
          | inr room ↦ inr (on, full, new, ground arith, rw (on, full, new, room) refl)
        ]
      ]
    ]
  ]

  pub admit-IsValid :
      (item : QueueItem) (store : List QueueItem)
      → IsValid n store
      → IsValid n (admit enabled n item store).1
  admit-IsValid item store v = elim (admit_cases item store) [
    | inl (reason, e) ↦ rw e v
    | inr (on, full, new, room, e) ↦ rw e (record {
      unique = Unique-append store item v.unique new;
      bounded = omega (arith, length-append store (item ∷ []));
    })
  ]

-- What happens to a queue.
pub data Event : Type 0 where
  enqueues : ℕ → Params → Option Text → Event
  drains : Option ℕ → Event

module _ {S : Type 0} (submit : Params → S → Outcome SubmitResult × S) (clock : S → ℕ)
    (meanwhile : S → List QueueItem → List QueueItem) (enabled : Bool) (n : ℕ) (lib : Printer) where
  abbrev pub apply : Event → List QueueItem × S → List QueueItem × S
  apply (enqueues now p option) (store, s) =
      ((enqueue_queued_attestation enabled n lib now p option store).1, s)
  apply (drains limit) (store, s) =
      let d = drain_queued_attestations submit clock meanwhile limit store s in (d.store, d.state)

  unfoldable pub run_queue : List Event → List QueueItem × S → List QueueItem × S
  run_queue [] q = q
  run_queue (e ∷ es) q = run_queue es (apply e q)

  abbrev Keeps : Type 0
  Keeps = (s : S) (q : List QueueItem) → IsValid n q → IsValid n (meanwhile s q)

  apply-IsValid :
      Keeps → (e : Event) (q : List QueueItem × S) → IsValid n q.0 → IsValid n (apply e q).0
  unfolding enqueue_queued_attestation
  apply-IsValid keeps (enqueues now p option) q v = admit-IsValid enabled n _ q.0 v
  apply-IsValid keeps (drains limit) q v =
      drain-IsValid submit clock meanwhile n keeps limit q.0 q.1 v

  -- Whatever is enqueued and however submissions end, the keys of the queue are unique, and there are
  -- no more of them than the limit, if that is so of the queue at first, and if the calls that come
  -- while a submission is awaited keep it so.
  pub run_queue-IsValid :
      ((s : S) (q : List QueueItem) → IsValid n q → IsValid n (meanwhile s q))
      → (es : List Event) (q : List QueueItem × S) → IsValid n q.0
      → IsValid n (run_queue es q).0
  unfolding run_queue
  run_queue-IsValid keeps [] q v = v
  run_queue-IsValid keeps (e ∷ es) q v =
      run_queue-IsValid keeps es (apply e q) (apply-IsValid keeps e q v)
