-- ===== src/Soroban/Batching/Progress.antt =====
-- That no item waits for ever in the queue of src/services/soroban/batchingQueue.ts, and the size of
-- a batch.
use veritasor_backend.Prelude.{
  ℕ, ◌≤◌, ◌≡◌, ◌⊎◌, inl, refl, true, false, List, [], ◌∷◌, ◌++◌, Option, none, some, arith, min,
  length, take, length-take, length-append, ◌==◌,
}
use veritasor_backend.Soroban.Batching.{
  BatchingQueue, BatchingQueueItem, BatchingQueueConfig, QueueEvent, enqueued, latency_fired,
  deferred_fired, flush_settled, flush_now, drained, step, run, new_queue, do_flush, check_triggers,
  enqueue, latency_fires, schedule_latency_flush, flush_settles, drain, run_deferred, is_flushing,
  is_empty, FlushTrigger, manual, push, first_item, remaining_items, backpressure, size, latency,
}

is_empty-snoc : {A : Type 0} (xs : List A) (x : A) → is_empty (xs ++ x ∷ []) ≡ false
is_empty-snoc [] x = refl
is_empty-snoc (y ∷ xs) x = refl

one_item : {A : Type 0} (xs : List A) (x : A) → (length (xs ++ x ∷ []) == 1) ≡ is_empty xs
one_item [] x = refl
one_item (y ∷ xs) x = ground (arith, length-append xs (x ∷ []))

take_fits : {A : Type 0} (c n : ℕ) (xs : List A) → length (take (min c n) xs) ≤ c
take_fits c n xs = omega (arith, length-take (min c n) xs)

module _ {T : Type 0} where
  -- Something that is set or runs will come to flush the queue.
  abbrev pub Attended : BatchingQueue T → Type 0
  Attended q =
      (is_empty q.queue ≡ true)
      ⊎ ((is_flushing q.flushing ≡ true)
          ⊎ ((q.latency_timer ≡ true) ⊎ (is_empty q.deferred ≡ false)))

  Attended-do_flush :
      (now : ℕ) (t : FlushTrigger) (q : BatchingQueue T) → Attended (do_flush now t q)
  unfolding do_flush
  Attended-do_flush now t q = ground (arith, is_empty-snoc q.deferred t)

  Attended-check_triggers :
      (now : ℕ) (q : BatchingQueue T) → Attended q → Attended (check_triggers now q)
  unfolding check_triggers
  Attended-check_triggers now q h =
      ground (arith, Attended-do_flush now backpressure q, Attended-do_flush now size q)

  Attended-first_item :
      (now : ℕ) (payload : T) (q : BatchingQueue T)
      → Attended q
      → Attended (first_item (push now payload q))
  unfolding schedule_latency_flush
  Attended-first_item now payload q h = ground (
    arith,
    one_item q.queue (record { payload = payload; enqueued_at = now }),
    is_empty-snoc q.queue (record { payload = payload; enqueued_at = now }),
  )

  Attended-remaining_items : (q : BatchingQueue T) → Attended (remaining_items q)
  unfolding schedule_latency_flush
  Attended-remaining_items q = ground arith

  Attended-run_deferred :
      (now : ℕ) (q : BatchingQueue T) (ts : List FlushTrigger)
      → Attended q
      → Attended (run_deferred now q ts)
  Attended-run_deferred now q [] h = h
  Attended-run_deferred now q (t ∷ ts) h = Attended-do_flush now t (record q { deferred = ts })

  Attended-step : (q : BatchingQueue T) (e : QueueEvent T) → Attended q → Attended (step q e)
  unfolding step enqueue latency_fires flush_settles drain
  Attended-step q (enqueued now payload) h =
      Attended-check_triggers now (first_item (push now payload q))
        (Attended-first_item now payload q h)
  Attended-step q (latency_fired now) h =
      ground (arith, Attended-do_flush now latency (record q { latency_timer = false }))
  Attended-step q (deferred_fired now) h = Attended-run_deferred now q q.deferred h
  Attended-step q (flush_settled now) h =
      let idle : BatchingQueue T = record q { flushing = none } in
      let woken =
        Attended-check_triggers now (remaining_items idle) (Attended-remaining_items idle) in
      ground arith
  Attended-step q (flush_now now) h = Attended-do_flush now manual q
  Attended-step q drained h = inl refl

  Attended-run : (q : BatchingQueue T) (es : List (QueueEvent T)) → Attended q → Attended (run q es)
  unfolding run
  Attended-run q [] h = h
  Attended-run q (e ∷ es) h = Attended-run (step q e) es (Attended-step q e h)

  -- In every order of events, a queue with items has a flush that runs or a timer that is set.
  pub run-Attended :
      (config : BatchingQueueConfig) (es : List (QueueEvent T))
      → Attended (run (new_queue config) es)
  unfolding new_queue
  run-Attended config es = Attended-run (new_queue config) es (inl refl)

  abbrev batch : Option (List (BatchingQueueItem T)) → ℕ
  batch none = 0
  batch (some b) = length b

  abbrev Fits : ℕ → BatchingQueue T → Type 0
  Fits c q = (q.config.max_batch_size ≡ c) × (batch q.flushing ≤ c)

  Fits-do_flush :
      (c now : ℕ) (t : FlushTrigger) (q : BatchingQueue T) → Fits c q → Fits c (do_flush now t q)
  unfolding do_flush
  Fits-do_flush c now t q h =
      ground (arith, take_fits q.config.max_batch_size (length q.queue) q.queue)

  Fits-check_triggers : (c now : ℕ) (q : BatchingQueue T) → Fits c q → Fits c (check_triggers now q)
  unfolding check_triggers
  Fits-check_triggers c now q h =
      ground (arith, Fits-do_flush c now backpressure q h, Fits-do_flush c now size q h)

  Fits-run_deferred :
      (c now : ℕ) (q : BatchingQueue T) (ts : List FlushTrigger)
      → Fits c q
      → Fits c (run_deferred now q ts)
  Fits-run_deferred c now q [] h = h
  Fits-run_deferred c now q (t ∷ ts) h = Fits-do_flush c now t (record q { deferred = ts }) h

  Fits-step : (c : ℕ) (q : BatchingQueue T) (e : QueueEvent T) → Fits c q → Fits c (step q e)
  unfolding step enqueue latency_fires flush_settles drain schedule_latency_flush
  Fits-step c q (enqueued now payload) h =
      Fits-check_triggers c now (first_item (push now payload q)) (ground (arith, h))
  Fits-step c q (latency_fired now) h =
      ground (arith, Fits-do_flush c now latency (record q { latency_timer = false }) h)
  Fits-step c q (deferred_fired now) h = Fits-run_deferred c now q q.deferred h
  Fits-step c q (flush_settled now) h =
      let idle : BatchingQueue T = record q { flushing = none } in
      let woken = Fits-check_triggers c now (remaining_items idle) (ground (arith, h)) in
      ground arith
  Fits-step c q (flush_now now) h = Fits-do_flush c now manual q h
  Fits-step c q drained h = h

  Fits-run : (c : ℕ) (q : BatchingQueue T) (es : List (QueueEvent T)) → Fits c q → Fits c (run q es)
  unfolding run
  Fits-run c q [] h = h
  Fits-run c q (e ∷ es) h = Fits-run c (step q e) es (Fits-step c q e h)

  -- In every order of events, the batch that the flush callback is given has at most maxBatchSize
  -- items.
  pub run-flushing :
      (config : BatchingQueueConfig) (es : List (QueueEvent T)) (items : List (BatchingQueueItem T))
      → (run (new_queue config) es).flushing ≡ some items
      → length items ≤ config.max_batch_size
  unfolding new_queue
  run-flushing config es items h =
      let fits = Fits-run config.max_batch_size (new_queue config) es (refl, omega arith) in
      rw h at fits.1
