-- ===== src/Soroban/Batching/Tests.antt =====
-- The theorems about src/services/soroban/batchingQueue.ts at concrete inputs.
use veritasor_backend.Prelude.{ℕ, ◌≡◌, refl, List, [], ◌∷◌, ◌++◌}
use veritasor_backend.Soroban.Batching.{
  BatchingQueueItem, BatchingQueueConfig, QueueEvent, enqueued, flush_settled, drained, run,
  new_queue,
}
use veritasor_backend.Soroban.Batching.Delivery.{arrivals, flushed-arrivals}
use veritasor_backend.Soroban.Batching.Progress.{Attended, run-Attended}

abbrev config : BatchingQueueConfig
config = record {
  max_batch_size = 2;
  max_latency_ms = 50;
  backpressure_threshold = 3;
  flush_cooldown_ms = 10;
}

-- The second item meets the cooldown of the start, the third the backpressure threshold.
abbrev burst : List (QueueEvent ℕ)
burst = enqueued 1 100 ∷ enqueued 2 101 ∷ enqueued 3 102 ∷ enqueued 4 103 ∷ []

abbrev settled : List (QueueEvent ℕ)
settled = burst ++ flush_settled 20 ∷ []

abbrev item : ℕ → ℕ → BatchingQueueItem ℕ
item now payload = record { payload = payload; enqueued_at = now }

flushed-arrivals_example :
    (run (new_queue config) settled).flushed ++ (run (new_queue config) settled).queue
    ≡ arrivals settled
flushed-arrivals_example = flushed-arrivals config settled refl

run-Attended_example : Attended (run (new_queue config) (settled ++ drained ∷ enqueued 30 104 ∷ []))
run-Attended_example = run-Attended config (settled ++ drained ∷ enqueued 30 104 ∷ [])
