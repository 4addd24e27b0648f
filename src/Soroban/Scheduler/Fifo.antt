-- ===== src/Soroban/Scheduler/Fifo.antt =====
-- That the scheduler of src/services/soroban/drrScheduler.ts keeps a first-in first-out queue for
-- each tenant.
use mathlib.Core.List.{append_assoc, append-nil}
use veritasor_backend.Prelude.{
  ℕ, zero, suc, ◌+◌, ◌-◌, ◌*◌, ◌≡◌, inl, inr, refl, ap, sym, ◌∙◌, true, false, List, [], ◌∷◌, ◌++◌,
  Option, none, some, leb, if◌then◌else◌, length, arith, Bool-cases,
}
use veritasor_backend.Prelude.Text.{Text, text_eq, text_eq→≡}
use veritasor_backend.Prelude.Maps.{get, put, get-put_same, get-put_other}
use veritasor_backend.Soroban.Scheduler.{
  BatchQueueItem, TenantState, Round, Batch, consume, visit_state, visit, visit_all, round, goes_on,
  rounds_loop, none_left,
}

module _ {T : Type 0} where
  abbrev pub items_of : Text → List (BatchQueueItem T) → List (BatchQueueItem T)
  items_of t [] = []
  items_of t (x ∷ xs) = if text_eq x.tenant_id t then x ∷ items_of t xs else items_of t xs

  abbrev pub queue_in : Option (TenantState T) → List (BatchQueueItem T)
  queue_in none = []
  queue_in (some state) = state.queue

  abbrev pub queue_of : Text → List (Text × TenantState T) → List (BatchQueueItem T)
  queue_of t tenants = queue_in (get tenants t)

  abbrev pub AllOf : Text → List (BatchQueueItem T) → Type 0
  AllOf t [] = Unit {0}
  AllOf t (x ∷ xs) = (text_eq x.tenant_id t ≡ true) × AllOf t xs

  -- Each queue holds items of its own tenant.
  abbrev pub Tagged : List (Text × TenantState T) → Type 0
  Tagged tenants = (t : Text) → AllOf t (queue_of t tenants)

  pub items_of-append :
      (t : Text) (xs ys : List (BatchQueueItem T))
      → items_of t (xs ++ ys) ≡ items_of t xs ++ items_of t ys
  items_of-append t [] ys = refl
  items_of-append t (x ∷ xs) ys = ground (arith, items_of-append t xs ys)

  items_of_own : (t : Text) (xs : List (BatchQueueItem T)) → AllOf t xs → items_of t xs ≡ xs
  items_of_own t [] h = refl
  items_of_own t (x ∷ xs) h = rw (h.0, items_of_own t xs h.1) refl

  items_of_other :
      (t u : Text) (xs : List (BatchQueueItem T))
      → text_eq u t ≡ false
      → AllOf u xs
      → items_of t xs ≡ []
  items_of_other t u [] other h = refl
  items_of_other t u (x ∷ xs) other h =
      rw (text_eq→≡ x.tenant_id u h.0, other, items_of_other t u xs other h.1) refl

  consume_split :
      (xs : List (BatchQueueItem T)) (deficit room : ℕ)
      → (consume xs deficit room).taken ++ (consume xs deficit room).left ≡ xs
  consume_split [] deficit room = refl
  consume_split (x ∷ xs) zero room = refl
  consume_split (x ∷ xs) (suc deficit) zero = refl
  consume_split (x ∷ xs) (suc deficit) (suc room) = ap (λ r. x ∷ r) (consume_split xs deficit room)

  consume-AllOf :
      (t : Text) (xs : List (BatchQueueItem T)) (deficit room : ℕ)
      → AllOf t xs
      → AllOf t (consume xs deficit room).taken × AllOf t (consume xs deficit room).left
  consume-AllOf t [] deficit room h = (h, h)
  consume-AllOf t (x ∷ xs) zero room h = (tt, h)
  consume-AllOf t (x ∷ xs) (suc deficit) zero h = (tt, h)
  consume-AllOf t (x ∷ xs) (suc deficit) (suc room) h =
      let rest = consume-AllOf t xs deficit room h.1 in ((h.0, rest.0), rest.1)

  pub AllOf-snoc :
      (t : Text) (xs : List (BatchQueueItem T)) (x : BatchQueueItem T)
      → AllOf t xs
      → text_eq x.tenant_id t ≡ true
      → AllOf t (xs ++ x ∷ [])
  AllOf-snoc t [] x h own = (own, tt)
  AllOf-snoc t (y ∷ xs) x h own = (h.0, AllOf-snoc t xs x h.1 own)

  -- What the tenant has been served, and then what it waits for.
  abbrev pub stream :
      Text → List (Text × TenantState T) → List (BatchQueueItem T) → List (BatchQueueItem T)
  stream t tenants result = items_of t result ++ queue_of t tenants

  -- The tenants are tagged, and for each the served and the waiting items are as given.
  abbrev pub Keeps :
      (Text → List (BatchQueueItem T))
      → List (Text × TenantState T)
      → List (BatchQueueItem T)
      → Type 0
  Keeps all tenants result = Tagged tenants × ((t : Text) → stream t tenants result ≡ all t)

  pub queue_of-put_same :
      (id : Text) (m : List (Text × TenantState T)) (v : TenantState T)
      → queue_of id (put m id v) ≡ v.queue
  queue_of-put_same id m v = ap queue_in (get-put_same m id v)

  pub queue_of-put_other :
      (id t : Text) (m : List (Text × TenantState T)) (v : TenantState T)
      → text_eq id t ≡ false
      → queue_of t (put m id v) ≡ queue_of t m
  queue_of-put_other id t m v other = ap queue_in (get-put_other m id t v other)

  pub Tagged-put :
      (m : List (Text × TenantState T)) (id : Text) (v : TenantState T)
      → Tagged m
      → AllOf id v.queue
      → Tagged (put m id v)
  Tagged-put m id v h own t = elim (Bool-cases (text_eq id t)) [
    | inl e ↦ rw (← text_eq→≡ id t e, queue_of-put_same id m v) own
    | inr e ↦ rw (queue_of-put_other id t m v e) (h t)
  ]

  -- Served items join the stream of their tenant where its queue began.
  stream-put :
      (m : List (Text × TenantState T)) (result taken : List (BatchQueueItem T)) (id : Text)
      (v : TenantState T)
      → AllOf id taken
      → taken ++ v.queue ≡ queue_of id m
      → (t : Text) → stream t (put m id v) (result ++ taken) ≡ stream t m result
  stream-put m result taken id v own parts t = elim (Bool-cases (text_eq id t)) [
    | inl e ↦
        rw
          (
            ← text_eq→≡ id t e,
            queue_of-put_same id m v,
            items_of-append id result taken,
            items_of_own id taken own,
            ← parts,
          )
          (append_assoc (items_of id result) taken v.queue)
    | inr e ↦
        rw
          (
            queue_of-put_other id t m v e,
            items_of-append t result taken,
            items_of_other t id taken e own,
          )
          (ap (λ q. q ++ queue_of t m) (append-nil _))
  ]

  Keeps-visit_state :
      (all : Text → List (BatchQueueItem T)) (batch_size quantum : ℕ) (id : Text)
      (o : Option (TenantState T)) (r : Round T)
      → get r.tenants id ≡ o
      → Keeps all r.tenants r.result
      → let after = visit_state batch_size quantum id o r in Keeps all after.tenants after.result
  Keeps-visit_state all batch_size quantum id none r absent h = h
  Keeps-visit_state all batch_size quantum id (some state) r present h =
      let own : AllOf id state.queue = rw present at (h.0 id) in
      let deficit = state.deficit + state.weight * quantum in
      let room = batch_size - length r.result in
      let split = consume-AllOf id state.queue deficit room own in
      let c = consume state.queue deficit room in
      let v : TenantState T = record state { queue = c.left; deficit = c.credit } in
      elim (Bool-cases (none_left state.queue)) [
        | inl e ↦ rw e h
        | inr e ↦ rw e (
          Tagged-put r.tenants id v h.0 split.1,
          λ t.
              stream-put r.tenants r.result c.taken id v split.0
                (consume_split state.queue deficit room ∙ sym (ap queue_in present)) t
              ∙ h.1 t,
        )
      ]

  Keeps-visit :
      (all : Text → List (BatchQueueItem T)) (batch_size quantum : ℕ) (id : Text) (r : Round T)
      → Keeps all r.tenants r.result
      → let after = visit batch_size quantum id r in Keeps all after.tenants after.result
  unfolding visit
  Keeps-visit all batch_size quantum id r h = elim (Bool-cases (leb batch_size (length r.result))) [
    | inl e ↦ rw e h
    | inr e ↦ rw e (Keeps-visit_state all batch_size quantum id (get r.tenants id) r refl h)
  ]

  Keeps-visit_all :
      (all : Text → List (BatchQueueItem T)) (batch_size quantum : ℕ) (ids : List Text)
      (r : Round T)
      → Keeps all r.tenants r.result
      → let after = visit_all batch_size quantum ids r in Keeps all after.tenants after.result
  unfolding visit_all
  Keeps-visit_all all batch_size quantum [] r h = h
  Keeps-visit_all all batch_size quantum (id ∷ ids) r h =
      Keeps-visit_all all batch_size quantum ids (visit batch_size quantum id r)
        (Keeps-visit all batch_size quantum id r h)

  pub Keeps-rounds_loop :
      (all : Text → List (BatchQueueItem T)) (fuel batch_size : ℕ) (b : Batch T)
      → Keeps all b.scheduler.tenants b.collected
      → let after = rounds_loop fuel batch_size b in
        Keeps all after.scheduler.tenants after.collected
  unfolding rounds_loop round
  Keeps-rounds_loop all zero batch_size b h = h
  Keeps-rounds_loop all (suc fuel) batch_size b h = elim (Bool-cases (goes_on batch_size b)) [
    | inl e ↦ rw e (
        Keeps-rounds_loop all fuel batch_size (round batch_size b.scheduler b.collected)
          (Keeps-visit_all all batch_size b.scheduler.quantum b.scheduler.active_order _ h))
    | inr e ↦ rw e h
  ]
