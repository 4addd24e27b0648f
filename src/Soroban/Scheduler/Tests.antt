-- ===== src/Soroban/Scheduler/Tests.antt =====
-- The theorems about src/services/soroban/drrScheduler.ts at concrete inputs.
use veritasor_backend.Prelude.{ℕ, ◌≤◌, ◌≡◌, ◌⊎◌, List, [], ◌∷◌, ◌++◌, length, arith}
use veritasor_backend.Prelude.Text.{Text, codes}
use veritasor_backend.Prelude.Maps.{get}
use veritasor_backend.Soroban.Scheduler.{
  BatchQueueItem, TenantState, DrrScheduler, new_scheduler, dequeue_batch,
}
use veritasor_backend.Soroban.Scheduler.Rounds.{Weighted}
use veritasor_backend.Soroban.Scheduler.Fifo.{items_of, queue_of}
use veritasor_backend.Soroban.Scheduler.Calls.{
  SchedulerCall, arrives, batch_of, run, arrived, run-items_of,
}
use veritasor_backend.Soroban.Scheduler.Batches.{dequeue_batch_ends}

abbrev weights : List (Text × ℕ)
weights = (codes "enterprise", 8) ∷ (codes "free", 1) ∷ []

abbrev alice : ℕ → BatchQueueItem ℕ
alice n = record {
  tenant_id = codes "alice";
  tier = codes "enterprise";
  payload = n;
  enqueued_at = n;
}

abbrev bob : ℕ → BatchQueueItem ℕ
bob n = record { tenant_id = codes "bob"; tier = codes "free"; payload = n; enqueued_at = n }

abbrev calls : List (SchedulerCall ℕ)
calls = arrives (alice 1) ∷ arrives (bob 2) ∷ batch_of 1 ∷ arrives (alice 3) ∷ batch_of 5 ∷ []

run-items_of_example :
    let after = run calls (record { scheduler = new_scheduler weights 10 0; collected = [] }) in
    items_of (codes "alice") after.collected ++ queue_of (codes "alice") after.scheduler.tenants
    ≡ items_of (codes "alice") (arrived calls)
run-items_of_example = run-items_of weights 10 0 calls (codes "alice")

abbrev alice_waits : TenantState ℕ
alice_waits = record { queue = alice 1 ∷ alice 2 ∷ alice 3 ∷ []; deficit = 0; weight = 8 }

abbrev bob_waits : TenantState ℕ
bob_waits = record { queue = bob 4 ∷ []; deficit = 0; weight = 1 }

abbrev both_wait : DrrScheduler ℕ
both_wait = record {
  tenants = (codes "alice", alice_waits) ∷ (codes "bob", bob_waits) ∷ [];
  active_order = codes "alice" ∷ codes "bob" ∷ [];
  tier_weights = weights;
  quantum = 10;
  rounds = 0;
}

both_wait-Weighted : Weighted both_wait.tenants
unfolding get
both_wait-Weighted t = ground arith

dequeue_batch_ends_example :
    let after = dequeue_batch 5 both_wait in
    (length after.collected ≤ 5)
    × ((length after.collected ≡ 5) ⊎ (after.scheduler.active_order ≡ []))
dequeue_batch_ends_example = dequeue_batch_ends 5 both_wait both_wait-Weighted (omega arith)
