-- ===== src/Soroban/Batching/Delivery.antt =====
-- What becomes of the items of the queue of src/services/soroban/batchingQueue.ts.
use veritasor_backend.Prelude.{
  ℕ, suc, ◌≡◌, refl, ap, sym, ◌∙◌, Bool, true, false, List, [], ◌∷◌, ◌++◌, none, arith,
  if◌then◌else◌, inl, inr, Bool-cases, length, take-append-drop, ◌==◌,
}
use veritasor_backend.Soroban.Batching.{
  BatchingQueue, BatchingQueueItem, BatchingQueueConfig, QueueEvent, enqueued, latency_fired,
  deferred_fired, flush_settled, flush_now, drained, step, run, new_queue, do_flush, start_flush,
  check_triggers, enqueue, latency_fires, schedule_latency_flush, flush_settles, run_deferred,
  is_flushing, FlushTrigger, manual, push, first_item, remaining_items, backpressure, size, latency,
}
use mathlib.Core.List.{append_assoc, append-nil}

module _ {T : Type 0} where
  -- The items that calls of `enqueue` brought, in order.
  abbrev pub arrivals : List (QueueEvent T) → List (BatchingQueueItem T)
  arrivals [] = []
  arrivals (enqueued now payload ∷ es) =
      record { payload = payload; enqueued_at = now } ∷ arrivals es
  arrivals (latency_fired now ∷ es) = arrivals es
  arrivals (deferred_fired now ∷ es) = arrivals es
  arrivals (flush_settled now ∷ es) = arrivals es
  arrivals (flush_now now ∷ es) = arrivals es
  arrivals (drained ∷ es) = arrivals es

  abbrev pub drains : List (QueueEvent T) → ℕ
  drains [] = 0
  drains (drained ∷ es) = suc (drains es)
  drains (enqueued now payload ∷ es) = drains es
  drains (latency_fired now ∷ es) = drains es
  drains (deferred_fired now ∷ es) = drains es
  drains (flush_settled now ∷ es) = drains es
  drains (flush_now now ∷ es) = drains es

  -- Everything flushed or queued, in order.
  abbrev pub line : BatchingQueue T → List (BatchingQueueItem T)
  line q = q.flushed ++ q.queue

  line-start_flush : (now : ℕ) (q : BatchingQueue T) → line (start_flush now q) ≡ line q
  line-start_flush now q =
      append_assoc q.flushed _ _ ∙ ap (λ r. q.flushed ++ r) (take-append-drop _ q.queue)

  line-do_flush :
      (now : ℕ) (t : FlushTrigger) (q : BatchingQueue T) → line (do_flush now t q) ≡ line q
  unfolding do_flush
  line-do_flush now t q = ground (arith, line-start_flush now q)

  line-check_triggers : (now : ℕ) (q : BatchingQueue T) → line (check_triggers now q) ≡ line q
  unfolding check_triggers
  line-check_triggers now q =
      ground (arith, line-do_flush now backpressure q, line-do_flush now size q)

  line-schedule :
      (b : Bool) (q : BatchingQueue T) → line (if b then schedule_latency_flush q else q) ≡ line q
  unfolding schedule_latency_flush
  line-schedule true q = refl
  line-schedule false q = refl

  line-remaining_items : (q : BatchingQueue T) → line (remaining_items q) ≡ line q
  unfolding schedule_latency_flush
  line-remaining_items q = ground arith

  line-enqueue :
      (now : ℕ) (payload : T) (q : BatchingQueue T)
      → line (enqueue now payload q)
        ≡ line q ++ record { payload = payload; enqueued_at = now } ∷ []
  unfolding enqueue
  line-enqueue now payload q =
      line-check_triggers now (first_item (push now payload q))
      ∙ line-schedule (length (push now payload q).queue == 1) (push now payload q)
      ∙ sym (append_assoc q.flushed q.queue _)

  line-flush_settles : (now : ℕ) (q : BatchingQueue T) → line (flush_settles now q) ≡ line q
  unfolding flush_settles
  line-flush_settles now q =
      let idle : BatchingQueue T = record q { flushing = none } in
      line-check_triggers now (remaining_items idle) ∙ line-remaining_items idle

  line-run_deferred :
      (now : ℕ) (q : BatchingQueue T) (ts : List FlushTrigger)
      → line (run_deferred now q ts) ≡ line q
  line-run_deferred now q [] = refl
  line-run_deferred now q (t ∷ ts) = line-do_flush now t (record q { deferred = ts })

  line-latency_fires : (now : ℕ) (q : BatchingQueue T) → line (latency_fires now q) ≡ line q
  unfolding latency_fires
  line-latency_fires now q = line-do_flush now latency (record q { latency_timer = false })

  line-step :
      (q : BatchingQueue T) (e : QueueEvent T) (es : List (QueueEvent T))
      → drains (e ∷ es) ≡ 0
      → line (step q e) ++ arrivals es ≡ line q ++ arrivals (e ∷ es)
  unfolding step latency_fires
  line-step q (enqueued now payload) es h =
      rw (line-enqueue now payload q) (append_assoc (line q) _ _)
  line-step q (latency_fired now) es h = elim (Bool-cases q.latency_timer) [
    | inl e ↦ rw (e, line-latency_fires now q) refl
    | inr e ↦ rw e refl
  ]
  line-step q (deferred_fired now) es h = rw (line-run_deferred now q q.deferred) refl
  line-step q (flush_settled now) es h = elim (Bool-cases (is_flushing q.flushing)) [
    | inl e ↦ rw (e, line-flush_settles now q) refl
    | inr e ↦ rw e refl
  ]
  line-step q (flush_now now) es h = rw (line-do_flush now manual q) refl
  line-step q drained es h = ground arith

  tail_undrained :
      (e : QueueEvent T) (es : List (QueueEvent T)) → drains (e ∷ es) ≡ 0 → drains es ≡ 0
  tail_undrained (enqueued now payload) es h = h
  tail_undrained (latency_fired now) es h = h
  tail_undrained (deferred_fired now) es h = h
  tail_undrained (flush_settled now) es h = h
  tail_undrained (flush_now now) es h = h
  tail_undrained drained es h = ground arith

  line-run :
      (q : BatchingQueue T) (es : List (QueueEvent T))
      → drains es ≡ 0
      → line (run q es) ≡ line q ++ arrivals es
  unfolding run
  line-run q [] h = sym (append-nil _)
  line-run q (e ∷ es) h = line-run (step q e) es (tail_undrained e es h) ∙ line-step q e es h

  -- While nothing is drained, what is flushed and then what is queued are the items in the order of
  -- their arrival, each once.
  pub flushed-arrivals :
      (config : BatchingQueueConfig) (es : List (QueueEvent T))
      → drains es ≡ 0
      → (run (new_queue config) es).flushed ++ (run (new_queue config) es).queue ≡ arrivals es
  unfolding new_queue
  flushed-arrivals config es h = line-run (new_queue config) es h
