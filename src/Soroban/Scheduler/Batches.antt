-- ===== src/Soroban/Scheduler/Batches.antt =====
-- A whole batch of src/services/soroban/drrScheduler.ts: its size, its end, and who is served.
use veritasor_backend.Prelude.{
  ℕ, zero, suc, ◌+◌, ◌-◌, ◌*◌, ◌≤◌, ◌<◌, ◌≡◌, ◌⊎◌, inl, inr, refl, ap, sym, ◌∙◌, true, false, List,
  [], ◌∷◌, some, ltb, leb, length, take, drop, length-take, length-drop, arith, Bool-cases,
}
use veritasor_backend.Prelude.Text.{Text, includes}
use veritasor_backend.Prelude.Maps.{get, put, get-put_same}
use veritasor_backend.Soroban.Scheduler.{
  BatchQueueItem, TenantState, DrrScheduler, Round, Batch, without, consume, serve, visit,
  visit_all, round, goes_on, rounds_loop, dequeue_batch, none_left,
}
use veritasor_backend.Soroban.Scheduler.Rounds.{Weighted, round_progress}

without_none : (ids : List Text) → without [] ids ≡ ids
unfolding without includes
without_none [] = refl
without_none (id ∷ ids) = ap (λ r. id ∷ r) (without_none ids)

module _ {T : Type 0} where
  stopped :
      (batch_size : ℕ) (b : Batch T)
      → goes_on batch_size b ≡ false
      → length b.collected ≤ batch_size
      → (length b.collected ≡ batch_size) ⊎ (b.scheduler.active_order ≡ [])
  unfolding goes_on
  stopped batch_size b e fits = ground arith

  running :
      (batch_size : ℕ) (b : Batch T) → goes_on batch_size b ≡ true → length b.collected < batch_size
  unfolding goes_on
  running batch_size b e = ground arith

  rounds_loop_idle :
      (fuel batch_size : ℕ) (b : Batch T)
      → b.scheduler.active_order ≡ []
      → rounds_loop fuel batch_size b ≡ b
  unfolding rounds_loop goes_on
  rounds_loop_idle zero batch_size b idle = refl
  rounds_loop_idle (suc fuel) batch_size b idle = ground (arith, idle)

  -- With fuel for the items that are missing, the loop stops by its own condition.
  rounds_loop_ends :
      (fuel batch_size : ℕ) (b : Batch T)
      → Weighted b.scheduler.tenants
      → 0 < b.scheduler.quantum
      → length b.collected ≤ batch_size
      → batch_size ≤ length b.collected + fuel
      → let after = rounds_loop fuel batch_size b in
        (length after.collected ≤ batch_size)
        × ((length after.collected ≡ batch_size) ⊎ (after.scheduler.active_order ≡ []))
  unfolding rounds_loop round
  rounds_loop_ends zero batch_size b weighted q fits enough = (fits, inl (omega arith))
  rounds_loop_ends (suc fuel) batch_size b weighted q fits enough =
      elim (Bool-cases (goes_on batch_size b)) [
        | inl e ↦
            let next = round batch_size b.scheduler b.collected in
            let p = round_progress batch_size b weighted q (running batch_size b e) in
            rw e (elim p.2 [
              | inl grew ↦ rounds_loop_ends fuel batch_size next p.0 q p.1 (omega arith)
              | inr idle ↦ rw (rounds_loop_idle fuel batch_size next idle) (p.1, inr idle)
            ])
        | inr e ↦ rw e (fits, stopped batch_size b e fits)
      ]

  -- If the quantum is one at least and every tenant has a weight of one at least, the rounds of a
  -- batch end: with the batch full, or with no tenant active. The batch never exceeds its size.
  pub dequeue_batch_ends :
      (batch_size : ℕ) (s : DrrScheduler T)
      → Weighted s.tenants
      → 0 < s.quantum
      → let after = dequeue_batch batch_size s in
        (length after.collected ≤ batch_size)
        × ((length after.collected ≡ batch_size) ⊎ (after.scheduler.active_order ≡ []))
  unfolding dequeue_batch
  dequeue_batch_ends batch_size s weighted q =
      rounds_loop_ends batch_size batch_size (record { scheduler = s; collected = [] }) weighted q
        (omega arith) (omega arith)

  consume_enough :
      (xs : List (BatchQueueItem T)) (deficit room : ℕ)
      → room ≤ deficit
      → room < length xs
      → consume xs deficit room
        ≡ record { taken = take room xs; left = drop room xs; credit = deficit - room }
  consume_enough [] deficit room rich long = ground arith
  consume_enough (x ∷ xs) zero zero rich long = refl
  consume_enough (x ∷ xs) zero (suc room) rich long = ground arith
  consume_enough (x ∷ xs) (suc deficit) zero rich long = ground arith
  consume_enough (x ∷ xs) (suc deficit) (suc room) rich long =
      let rest = consume_enough xs deficit room (omega arith) (omega arith) in
      let credit : deficit - room ≡ suc deficit - suc room = omega arith in rw (rest, credit) refl

  visit_all_full :
      (ids : List Text) (batch_size quantum : ℕ) (r : Round T)
      → batch_size ≤ length r.result
      → visit_all batch_size quantum ids r ≡ r
  unfolding visit_all visit
  visit_all_full [] batch_size quantum r full = refl
  visit_all_full (id ∷ ids) batch_size quantum r full =
      let e : leb batch_size (length r.result) ≡ true = ground (arith, full) in
      rw e (visit_all_full ids batch_size quantum r full)

  none_left-drop :
      (n : ℕ) (xs : List (BatchQueueItem T)) → n < length xs → none_left (drop n xs) ≡ false
  none_left-drop n xs h = ground (arith, length-drop n xs)

  rounds_loop_full : (fuel n : ℕ) (b : Batch T) → n ≤ length b.collected → rounds_loop fuel n b ≡ b
  unfolding rounds_loop goes_on
  rounds_loop_full zero n b full = refl
  rounds_loop_full (suc fuel) n b full =
      let e : ltb (length b.collected) n ≡ false = ground (arith, full) in rw e refl

  -- The first tenant after a batch that was all its own.
  abbrev pub served : ℕ → ℕ → TenantState T → TenantState T
  served n quantum state = record state {
    queue = drop n state.queue;
    deficit = state.deficit + state.weight * quantum - n;
  }

  abbrev full_round : ℕ → ℕ → Text → TenantState T → List (Text × TenantState T) → Round T
  full_round n quantum id state tenants = record {
    tenants = put tenants id (served n quantum state);
    result = take n state.queue;
    exhausted = [];
  }

  visit_first :
      (n quantum : ℕ) (id : Text) (state : TenantState T) (tenants : List (Text × TenantState T))
      → get tenants id ≡ some state
      → 0 < n
      → n < length state.queue
      → n ≤ state.deficit + state.weight * quantum
      → visit n quantum id (record { tenants = tenants; result = []; exhausted = [] })
        ≡ full_round n quantum id state tenants
  unfolding visit
  visit_first n quantum id state tenants present some_room long rich =
      let e : leb n 0 ≡ false = ground (arith, some_room) in
      let waits : none_left state.queue ≡ false = none_left-drop 0 state.queue (omega arith) in
      let off : n - 0 ≡ n = omega arith in
      rw
        (
          e,
          present,
          waits,
          serve,
          off,
          consume_enough state.queue (state.deficit + state.weight * quantum) n rich long,
          none_left-drop n state.queue long,
        )
        refl

  visit_all_first :
      (n quantum : ℕ) (id : Text) (ids : List Text) (state : TenantState T)
      (tenants : List (Text × TenantState T))
      → get tenants id ≡ some state
      → 0 < n
      → n < length state.queue
      → n ≤ state.deficit + state.weight * quantum
      → visit_all n quantum (id ∷ ids) (record { tenants = tenants; result = []; exhausted = [] })
        ≡ full_round n quantum id state tenants
  unfolding visit_all
  visit_all_first n quantum id ids state tenants present some_room long rich =
      ap (visit_all n quantum ids)
        (visit_first n quantum id state tenants present some_room long rich)
      ∙ visit_all_full ids n quantum (full_round n quantum id state tenants)
          (omega (arith, length-take n state.queue))

  abbrev first_batch : ℕ → DrrScheduler T → Text → List Text → TenantState T → Batch T
  first_batch n s id ids state = record {
    scheduler = record s {
      tenants = put s.tenants id (served n s.quantum state);
      active_order = id ∷ ids;
      rounds = suc s.rounds;
    };
    collected = take n state.queue;
  }

  round_first :
      (n : ℕ) (s : DrrScheduler T) (id : Text) (ids : List Text) (state : TenantState T)
      → s.active_order ≡ id ∷ ids
      → get s.tenants id ≡ some state
      → 0 < n
      → n < length state.queue
      → n ≤ state.deficit + state.weight * s.quantum
      → round n s [] ≡ first_batch n s id ids state
  unfolding round
  round_first n s id ids state order present some_room long rich =
      rw
        (
          order,
          visit_all_first n s.quantum id ids state s.tenants present some_room long rich,
          without_none (id ∷ ids),
        )
        refl

  dequeue_first :
      (n : ℕ) (s : DrrScheduler T) (id : Text) (ids : List Text) (state : TenantState T)
      → s.active_order ≡ id ∷ ids
      → get s.tenants id ≡ some state
      → 0 < n
      → n < length state.queue
      → n ≤ state.deficit + state.weight * s.quantum
      → dequeue_batch n s ≡ first_batch n s id ids state
  unfolding dequeue_batch rounds_loop goes_on
  dequeue_first zero s id ids state order present some_room long rich = ground arith
  dequeue_first (suc n) s id ids state order present some_room long rich =
      let goes : goes_on (suc n) (record { scheduler = s; collected = [] }) ≡ true =
        ground (arith, order) in
      rw (goes, round_first (suc n) s id ids state order present some_room long rich)
        (rounds_loop_full n (suc n) (first_batch (suc n) s id ids state)
          (omega (arith, length-take (suc n) state.queue)))

  -- If the tenant that is first in the order waits with more items than the batch takes, and one
  -- round's credits cover the batch, the whole batch is its own, and it is first again afterwards:
  -- the other tenants wait for as long as this lasts.
  pub dequeue_batch-first :
      (n : ℕ) (s : DrrScheduler T) (id : Text) (ids : List Text) (state : TenantState T)
      → s.active_order ≡ id ∷ ids
      → get s.tenants id ≡ some state
      → 0 < n
      → n < length state.queue
      → n ≤ state.deficit + state.weight * s.quantum
      → let after = dequeue_batch n s in
        (after.collected ≡ take n state.queue)
        × (after.scheduler.active_order ≡ s.active_order)
        × (get after.scheduler.tenants id ≡ some (served n s.quantum state))
  dequeue_batch-first n s id ids state order present some_room long rich =
      rw (dequeue_first n s id ids state order present some_room long rich)
        (refl, sym order, get-put_same s.tenants id (served n s.quantum state))
