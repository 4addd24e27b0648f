-- ===== src/Soroban/Batching.antt =====
-- `BatchingQueue` of src/services/soroban/batchingQueue.ts as a state machine. The event loop may run
-- a timer, the end of a flush or a call at any moment: these are the events. A promise that the queue
-- hands out is the item's number in the order of arrival. Metrics and logs are left out.
pub mod Delivery
pub mod Progress
mod Tests
use veritasor_backend.Prelude.{
  ℕ, zero, suc, ◌+◌, ◌-◌, min, Bool, true, false, ◌&&◌, ◌||◌, List, [], ◌∷◌, ◌++◌, Option, none,
  some, ltb, leb, ◌==◌, if◌then◌else◌, length, take, drop,
}

pub data FlushTrigger : Type 0 where
  size latency backpressure manual : FlushTrigger

pub record BatchingQueueConfig : Type 0 where
  pub max_batch_size : ℕ
  pub max_latency_ms : ℕ
  pub backpressure_threshold : ℕ
  pub flush_cooldown_ms : ℕ

pub record BatchingQueueItem (T : Type 0) : Type 0 where
  pub payload : T
  pub enqueued_at : ℕ

-- `flushing` holds the batch that the flush callback works on.
pub record BatchingQueue (T : Type 0) : Type 0 where
  pub config : BatchingQueueConfig
  pub queue : List (BatchingQueueItem T)
  pub flushing : Option (List (BatchingQueueItem T))
  pub latency_timer : Bool
  -- The timers that a cooldown set, each with its trigger.
  pub deferred : List FlushTrigger
  pub last_flush_time : ℕ
  -- The batches handed to the flush callback, and the items that `drain` rejected.
  pub flushed : List (BatchingQueueItem T)
  pub rejected : List (BatchingQueueItem T)

abbrev pub is_empty {ℓ} : {A : Type ℓ} → List A → Bool
is_empty [] = true
is_empty (x ∷ xs) = false

abbrev pub is_flushing {ℓ} : {A : Type ℓ} → Option A → Bool
is_flushing none = false
is_flushing (some b) = true

-- `trigger !== 'backpressure' && trigger !== 'manual'`
abbrev pub has_cooldown : FlushTrigger → Bool
has_cooldown size = true
has_cooldown latency = true
has_cooldown backpressure = false
has_cooldown manual = false

module _ {T : Type 0} where
  unfoldable pub new_queue : BatchingQueueConfig → BatchingQueue T
  new_queue config = record {
    config = config;
    queue = [];
    flushing = none;
    latency_timer = false;
    deferred = [];
    last_flush_time = 0;
    flushed = [];
    rejected = [];
  }

  -- From the cooldown check to the call of the flush callback.
  abbrev pub start_flush : ℕ → BatchingQueue T → BatchingQueue T
  start_flush now q =
      let batch_size = min q.config.max_batch_size (length q.queue) in
      record q {
        flushing = some (take batch_size q.queue);
        queue = drop batch_size q.queue;
        latency_timer = false;
        last_flush_time = now;
        flushed = q.flushed ++ take batch_size q.queue;
      }

  unfoldable pub do_flush : ℕ → FlushTrigger → BatchingQueue T → BatchingQueue T
  do_flush now trigger q =
      if is_flushing q.flushing || is_empty q.queue
      then q
      else if has_cooldown trigger && ltb now (q.last_flush_time + q.config.flush_cooldown_ms)
      then record q { deferred = q.deferred ++ trigger ∷ [] }
      else start_flush now q

  unfoldable pub check_triggers : ℕ → BatchingQueue T → BatchingQueue T
  check_triggers now q =
      if is_flushing q.flushing
      then q
      else if leb q.config.backpressure_threshold (length q.queue)
      then do_flush now backpressure q
      else if leb q.config.max_batch_size (length q.queue)
      then do_flush now size q
      else q

  -- The timer is set for the remaining time, or for the next tick if the oldest item is overdue.
  unfoldable pub schedule_latency_flush : BatchingQueue T → BatchingQueue T
  schedule_latency_flush q = record q { latency_timer = if is_empty q.queue then false else true }

  -- `this.queue.push(item)`
  abbrev pub push : ℕ → T → BatchingQueue T → BatchingQueue T
  push now payload q = record q {
    queue = q.queue ++ record { payload = payload; enqueued_at = now } ∷ [];
  }

  -- The queue of one item sets the timer.
  abbrev pub first_item : BatchingQueue T → BatchingQueue T
  first_item q = if length q.queue == 1 then schedule_latency_flush q else q

  unfoldable pub enqueue : ℕ → T → BatchingQueue T → BatchingQueue T
  enqueue now payload q = check_triggers now (first_item (push now payload q))

  -- The callback of the latency timer.
  unfoldable pub latency_fires : ℕ → BatchingQueue T → BatchingQueue T
  latency_fires now q = do_flush now latency (record q { latency_timer = false })

  -- The callback of the first timer that a cooldown set.
  abbrev pub run_deferred : ℕ → BatchingQueue T → List FlushTrigger → BatchingQueue T
  run_deferred now q [] = q
  run_deferred now q (t ∷ ts) = do_flush now t (record q { deferred = ts })

  abbrev pub remaining_items : BatchingQueue T → BatchingQueue T
  remaining_items q = if is_empty q.queue then q else schedule_latency_flush q

  -- The `finally` block, when the flush callback settles.
  unfoldable pub flush_settles : ℕ → BatchingQueue T → BatchingQueue T
  flush_settles now q = check_triggers now (remaining_items (record q { flushing = none }))

  unfoldable pub drain : BatchingQueue T → BatchingQueue T
  drain q = record q { latency_timer = false; queue = []; rejected = q.rejected ++ q.queue }

  -- A test's call: the items left behind are neither flushed nor rejected.
  unfoldable pub reset : BatchingQueue T → BatchingQueue T
  reset q = record q { latency_timer = false; queue = []; last_flush_time = 0; flushing = none }

  unfoldable pub oldest_wait_ms : ℕ → List (BatchingQueueItem T) → ℕ
  oldest_wait_ms now [] = 0
  oldest_wait_ms now (item ∷ items) = now - item.enqueued_at

-- What the event loop runs next. A timer fires only if it is set, and a flush settles only while
-- one runs.
pub data QueueEvent (T : Type 0) : Type 0 where
  enqueued : ℕ → T → QueueEvent T
  latency_fired deferred_fired flush_settled flush_now : ℕ → QueueEvent T
  drained : QueueEvent T

module _ {T : Type 0} where
  unfoldable pub step : BatchingQueue T → QueueEvent T → BatchingQueue T
  step q (enqueued now payload) = enqueue now payload q
  step q (latency_fired now) = if q.latency_timer then latency_fires now q else q
  step q (deferred_fired now) = run_deferred now q q.deferred
  step q (flush_settled now) = if is_flushing q.flushing then flush_settles now q else q
  step q (flush_now now) = do_flush now manual q
  step q drained = drain q

  unfoldable pub run : BatchingQueue T → List (QueueEvent T) → BatchingQueue T
  run q [] = q
  run q (e ∷ es) = run (step q e) es
