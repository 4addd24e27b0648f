-- ===== src/Soroban/Scheduler/Rounds.antt =====
-- What a round brings, in src/services/soroban/drrScheduler.ts, and the end of its rounds.
use veritasor_backend.Prelude.{
  ℕ, zero, suc, ◌+◌, ◌-◌, ◌*◌, ◌≤◌, ◌<◌, ◌≡◌, ◌⊎◌, inl, inr, refl, Bool, true, false, List, [], ◌∷◌,
  ◌++◌, Option, none, some, leb, if◌then◌else◌, length, length-append, arith, Bool-cases,
}
use veritasor_backend.Prelude.Text.{Text, includes, text_eq, text_eq→≡, text_eq_refl}
use veritasor_backend.Prelude.Maps.{get, put, get-put_same, get-put_other}
use veritasor_backend.Soroban.Scheduler.{
  BatchQueueItem, TenantState, Round, Batch, without, consume, visit_state, visit, visit_all, round,
  none_left,
}

includes-append_left :
    (xs ys : List Text) (v : Text) → includes xs v ≡ true → includes (xs ++ ys) v ≡ true
unfolding includes
includes-append_left [] ys v h = ground arith
includes-append_left (x ∷ xs) ys v h = ground (arith, includes-append_left xs ys v)

includes-snoc : (xs : List Text) (v : Text) → includes (xs ++ v ∷ []) v ≡ true
unfolding includes
includes-snoc [] v = ground (arith, text_eq_refl v)
includes-snoc (x ∷ xs) v = ground (arith, includes-snoc xs v)

exhausted_grows :
    (b : Bool) (xs : List Text) (id v : Text)
    → includes xs v ≡ true
    → includes (if b then xs ++ id ∷ [] else xs) v ≡ true
exhausted_grows true xs id v h = includes-append_left xs (id ∷ []) v h
exhausted_grows false xs id v h = h

-- Every one of the ids is exhausted.
abbrev Covered : List Text → List Text → Type 0
Covered exhausted [] = Unit {0}
Covered exhausted (id ∷ ids) = (includes exhausted id ≡ true) × Covered exhausted ids

without-Covered : (exhausted ids : List Text) → Covered exhausted ids → without exhausted ids ≡ []
unfolding without
without-Covered exhausted [] h = refl
without-Covered exhausted (id ∷ ids) h = rw h.0 (without-Covered exhausted ids h.1)

credit_pos :
    (deficit weight quantum : ℕ) → 0 < weight → 0 < quantum → 0 < deficit + weight * quantum
credit_pos deficit weight zero w q = omega arith
credit_pos deficit zero (suc quantum) w q = omega arith
credit_pos deficit (suc weight) (suc quantum) w q = grind arith

module _ {T : Type 0} where
  length-consume :
      (xs : List (BatchQueueItem T)) (deficit room : ℕ)
      → length (consume xs deficit room).taken ≤ room
  length-consume [] deficit room = omega arith
  length-consume (x ∷ xs) zero room = omega arith
  length-consume (x ∷ xs) (suc deficit) zero = omega arith
  length-consume (x ∷ xs) (suc deficit) (suc room) = omega (arith, length-consume xs deficit room)

  -- With credits and room, a queue with items gives one.
  consume_some :
      (xs : List (BatchQueueItem T)) (deficit room : ℕ)
      → none_left xs ≡ false
      → 0 < deficit
      → 0 < room
      → 0 < length (consume xs deficit room).taken
  consume_some [] deficit room items credit free = ground arith
  consume_some (x ∷ xs) zero room items credit free = ground arith
  consume_some (x ∷ xs) (suc deficit) zero items credit free = ground arith
  consume_some (x ∷ xs) (suc deficit) (suc room) items credit free = omega arith

  abbrev weight_in : Option (TenantState T) → ℕ
  weight_in none = 1
  weight_in (some state) = state.weight

  -- Every tenant has a weight, as `resolveWeight` gives.
  abbrev pub Weighted : List (Text × TenantState T) → Type 0
  Weighted tenants = (t : Text) → 0 < weight_in (get tenants t)

  Weighted-put :
      (m : List (Text × TenantState T)) (id : Text) (v : TenantState T)
      → Weighted m
      → 0 < v.weight
      → Weighted (put m id v)
  Weighted-put m id v h w t = elim (Bool-cases (text_eq id t)) [
    | inl e ↦ rw (← text_eq→≡ id t e, get-put_same m id v) w
    | inr e ↦ rw (get-put_other m id t v e) (h t)
  ]

  -- The result stays within the batch, and grows or keeps its size.
  Grows : ℕ → Round T → Round T → Type 0
  Grows batch_size r after =
      (length r.result ≤ length after.result)
      × (length r.result ≤ batch_size → length after.result ≤ batch_size)
      × Weighted after.tenants
      × ((v : Text) → includes r.exhausted v ≡ true → includes after.exhausted v ≡ true)

  Grows-visit_state :
      (batch_size quantum : ℕ) (id : Text) (o : Option (TenantState T)) (r : Round T)
      → get r.tenants id ≡ o
      → Weighted r.tenants
      → length r.result < batch_size
      → 0 < quantum
      → let after = visit_state batch_size quantum id o r in
        Grows batch_size r after
        × ((length r.result < length after.result) ⊎ (includes after.exhausted id ≡ true))
  unfolding Grows
  Grows-visit_state batch_size quantum id none r absent weighted free q = (
    (omega arith, (λ h. h), weighted, λ v h. includes-append_left r.exhausted _ v h),
    inr (includes-snoc r.exhausted id),
  )
  Grows-visit_state batch_size quantum id (some state) r present weighted free q =
      let c =
        consume state.queue (state.deficit + state.weight * quantum)
          (batch_size - length r.result) in
      let w : 0 < state.weight = rw present at (weighted id) in
      elim (Bool-cases (none_left state.queue)) [
        | inl e ↦ rw e (
          (omega arith, (λ h. h), weighted, λ v h. includes-append_left r.exhausted _ v h),
          inr (includes-snoc r.exhausted id),
        )
        | inr e ↦ rw e (
          (
            omega (arith, length-append r.result c.taken),
            (λ h. omega (arith, length-append r.result c.taken, length-consume state.queue _ _)),
            Weighted-put r.tenants id _ weighted w,
            λ v h. exhausted_grows (none_left c.left) r.exhausted id v h,
          ),
          inl (
              omega (
                arith,
                length-append r.result c.taken,
                consume_some state.queue (state.deficit + state.weight * quantum)
                    (batch_size - length r.result) e
                    (credit_pos state.deficit state.weight quantum w q) (omega arith),
              )),
        )
      ]

  Grows-trans :
      (batch_size : ℕ) (a b c : Round T)
      → Grows batch_size a b
      → Grows batch_size b c
      → Grows batch_size a c
  unfolding Grows
  Grows-trans batch_size a b c g h =
      (omega (arith, g.0, h.0), (λ fit. h.1 (g.1 fit)), h.2, λ v e. h.3 v (g.3 v e))

  -- One visit in a round that began with `old` items.
  visit_progress :
      (old batch_size quantum : ℕ) (id : Text) (r : Round T)
      → Weighted r.tenants
      → old < batch_size
      → old ≤ length r.result
      → 0 < quantum
      → let after = visit batch_size quantum id r in
        Grows batch_size r after
        × ((old < length after.result) ⊎ (includes after.exhausted id ≡ true))
  unfolding visit Grows
  visit_progress old batch_size quantum id r weighted small began q =
      elim (Bool-cases (leb batch_size (length r.result))) [
        | inl e ↦ rw e ((omega arith, (λ h. h), weighted, λ v h. h), inl (ground (arith, small, e)))
        | inr e ↦
            let one =
              Grows-visit_state batch_size quantum id (get r.tenants id) r refl weighted
                (ground (arith, e)) q in
            rw e (one.0, elim one.1 [ inl grew ↦ inl (omega arith) | inr out ↦ inr out ])
      ]

  visit_all_progress :
      (ids : List Text) (old batch_size quantum : ℕ) (r : Round T)
      → Weighted r.tenants
      → old < batch_size
      → old ≤ length r.result
      → 0 < quantum
      → let after = visit_all batch_size quantum ids r in
        Grows batch_size r after × ((old < length after.result) ⊎ Covered after.exhausted ids)
  unfolding visit_all Grows
  visit_all_progress [] old batch_size quantum r weighted small began q =
      ((omega arith, (λ h. h), weighted, λ v h. h), inr tt)
  visit_all_progress (id ∷ ids) old batch_size quantum r weighted small began q =
      let one = visit_progress old batch_size quantum id r weighted small began q in
      let rest =
        visit_all_progress ids old batch_size quantum (visit batch_size quantum id r) one.0.2 small
          (omega (arith, one.0.0)) q in
      (
        Grows-trans batch_size r (visit batch_size quantum id r) _ one.0 rest.0,
        elim rest.1 [
          | inl grew ↦ inl grew
          | inr covered ↦ elim one.1 [
            | inl grew ↦ inl (omega (arith, rest.0.0))
            | inr out ↦ inr (rest.0.3 id out, covered)
          ]
        ],
      )

  -- A round of a batch that is not full brings an item, or leaves no tenant active.
  pub round_progress :
      (batch_size : ℕ) (b : Batch T)
      → Weighted b.scheduler.tenants
      → 0 < b.scheduler.quantum
      → length b.collected < batch_size
      → let after = round batch_size b.scheduler b.collected in
        Weighted after.scheduler.tenants
        × (length after.collected ≤ batch_size)
        × ((length b.collected < length after.collected) ⊎ (after.scheduler.active_order ≡ []))
  unfolding round Grows
  round_progress batch_size b weighted q small =
      let all =
        visit_all_progress b.scheduler.active_order (length b.collected) batch_size
          b.scheduler.quantum
          (record { tenants = b.scheduler.tenants; result = b.collected; exhausted = [] }) weighted
          small (omega arith) q in
      (
        all.0.2,
        all.0.1 (omega arith),
        elim all.1 [
          | inl grew ↦ inl grew
          | inr covered ↦ inr (without-Covered _ b.scheduler.active_order covered)
        ],
      )
