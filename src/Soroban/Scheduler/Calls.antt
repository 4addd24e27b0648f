-- ===== src/Soroban/Scheduler/Calls.antt =====
-- Sequences of calls of the scheduler of src/services/soroban/drrScheduler.ts.
use mathlib.Core.List.{append_assoc, append-nil}
use veritasor_backend.Prelude.{
  ℕ, ◌≡◌, inl, inr, refl, ap, sym, ◌∙◌, List, [], ◌∷◌, ◌++◌, Option, none, some, Bool-cases,
}
use veritasor_backend.Prelude.Text.{Text, text_eq, text_eq→≡, text_eq_refl}
use veritasor_backend.Prelude.Maps.{get}
use veritasor_backend.Soroban.Scheduler.{
  BatchQueueItem, TenantState, Batch, new_scheduler, tenant_or_new, enqueue, rounds_loop,
  dequeue_batch, resolve_weight,
}
use veritasor_backend.Soroban.Scheduler.Fifo.{
  items_of, queue_in, queue_of, Keeps, queue_of-put_same, queue_of-put_other, Tagged-put,
  AllOf-snoc, items_of-append, Keeps-rounds_loop,
}

-- The calls of the scheduler's owner.
pub data SchedulerCall (T : Type 0) : Type 0 where
  arrives : BatchQueueItem T → SchedulerCall T
  batch_of : ℕ → SchedulerCall T

module _ {T : Type 0} where
  -- What the batches have brought so far goes along.
  abbrev pub call : SchedulerCall T → Batch T → Batch T
  call (arrives item) b = record b { scheduler = enqueue item b.scheduler }
  call (batch_of n) b =
      let next = dequeue_batch n b.scheduler in
      record { scheduler = next.scheduler; collected = b.collected ++ next.collected }

  abbrev pub run : List (SchedulerCall T) → Batch T → Batch T
  run [] b = b
  run (c ∷ cs) b = run cs (call c b)

  abbrev pub arrived : List (SchedulerCall T) → List (BatchQueueItem T)
  arrived [] = []
  arrived (arrives item ∷ cs) = item ∷ arrived cs
  arrived (batch_of n ∷ cs) = arrived cs

  tenant_or_new-queue :
      (w : ℕ) (o : Option (TenantState T)) → (tenant_or_new w o).queue ≡ queue_in o
  tenant_or_new-queue w none = refl
  tenant_or_new-queue w (some s) = refl

  Keeps-arrives :
      (all : Text → List (BatchQueueItem T)) (item : BatchQueueItem T) (b : Batch T)
      → Keeps all b.scheduler.tenants b.collected
      → let after = call (arrives item) b in
        Keeps (λ t. all t ++ items_of t (item ∷ [])) after.scheduler.tenants after.collected
  unfolding enqueue
  Keeps-arrives all item b h =
      let m = b.scheduler.tenants in
      let id = item.tenant_id in
      let state = tenant_or_new (resolve_weight b.scheduler.tier_weights item.tier) (get m id) in
      let v : TenantState T = record state { queue = state.queue ++ item ∷ [] } in
      let old : state.queue ≡ queue_of id m = tenant_or_new-queue _ (get m id) in
      (
        Tagged-put m id v h.0 (AllOf-snoc id state.queue item (rw old (h.0 id)) (text_eq_refl id)),
        λ t. elim (Bool-cases (text_eq id t)) [
          | inl e ↦
              rw (e, ← text_eq→≡ id t e, queue_of-put_same id m v, old, ← h.1 id)
                (sym (append_assoc (items_of id b.collected) (queue_of id m) (item ∷ [])))
          | inr e ↦ rw (e, queue_of-put_other id t m v e) (h.1 t ∙ sym (append-nil (all t)))
        ],
      )

  Keeps-batch_of :
      (all : Text → List (BatchQueueItem T)) (n : ℕ) (b : Batch T)
      → Keeps all b.scheduler.tenants b.collected
      → let after = call (batch_of n) b in Keeps all after.scheduler.tenants after.collected
  unfolding dequeue_batch
  Keeps-batch_of all n b h =
      let start : Batch T = record { scheduler = b.scheduler; collected = [] } in
      let kept =
        Keeps-rounds_loop (λ t. queue_of t b.scheduler.tenants) n n start (h.0, λ t. refl) in
      let next = rounds_loop n n start in
      (
        kept.0,
        λ t.
            ap (λ q. q ++ queue_of t next.scheduler.tenants)
              (items_of-append t b.collected next.collected)
            ∙ append_assoc (items_of t b.collected) _ _
            ∙ ap (λ q. items_of t b.collected ++ q) (kept.1 t)
            ∙ h.1 t,
      )

  Keeps-run :
      (cs : List (SchedulerCall T)) (all : Text → List (BatchQueueItem T)) (b : Batch T)
      → Keeps all b.scheduler.tenants b.collected
      → let after = run cs b in
        Keeps (λ t. all t ++ items_of t (arrived cs)) after.scheduler.tenants after.collected
  Keeps-run [] all b h = (h.0, λ t. h.1 t ∙ sym (append-nil (all t)))
  Keeps-run (arrives item ∷ cs) all b h =
      let kept = Keeps-run cs _ _ (Keeps-arrives all item b h) in
      (
        kept.0,
        λ t.
            kept.1 t
            ∙ append_assoc (all t) _ _
            ∙ ap (λ q. all t ++ q) (sym (items_of-append t (item ∷ []) (arrived cs))),
      )
  Keeps-run (batch_of n ∷ cs) all b h =
      Keeps-run cs all (call (batch_of n) b) (Keeps-batch_of all n b h)

  -- However enqueues and batches follow each other, the items of a tenant that the batches brought
  -- and then those that wait are the tenant's items in the order of their arrival, each once.
  pub run-items_of :
      (weights : List (Text × ℕ)) (numerator below_denominator : ℕ) (cs : List (SchedulerCall T))
      (t : Text)
      → let after = run cs (record {
        scheduler = new_scheduler weights numerator below_denominator;
        collected = [];
      }) in
        items_of t after.collected ++ queue_of t after.scheduler.tenants ≡ items_of t (arrived cs)
  unfolding new_scheduler get
  run-items_of weights numerator below_denominator cs t =
      (Keeps-run cs (λ u. [])
          (record { scheduler = new_scheduler weights numerator below_denominator; collected = [] })
          ((λ u. tt), λ u. refl)).1
        t
