-- ===== src/Soroban/Scheduler.antt =====
-- The deficit round-robin scheduler `DrrScheduler` of src/services/soroban/drrScheduler.ts. Tier
-- weights are a table that is given: its reading from the environment, metrics and logs are left
-- out.
pub mod Fifo
pub mod Calls
pub mod Rounds
pub mod Batches
mod Tests
use veritasor_backend.Prelude.{
  ℕ, ◌/◌, suc, zero, suc, ◌+◌, ◌-◌, ◌*◌, Bool, true, false, not, ◌&&◌, List, [], ◌∷◌, ◌++◌, Option,
  none, some, ltb, leb, if◌then◌else◌, length,
}
use veritasor_backend.Prelude.Text.{Text, includes}
use veritasor_backend.Prelude.Maps.{get, put}

pub record BatchQueueItem (T : Type 0) : Type 0 where
  pub tenant_id : Text
  pub tier : Text
  pub payload : T
  pub enqueued_at : ℕ

pub record TenantState (T : Type 0) : Type 0 where
  pub queue : List (BatchQueueItem T)
  pub deficit : ℕ
  pub weight : ℕ

pub record DrrScheduler (T : Type 0) : Type 0 where
  pub tenants : List (Text × TenantState T)
  pub active_order : List Text
  pub tier_weights : List (Text × ℕ)
  pub quantum : ℕ
  pub rounds : ℕ

abbrev pub default_drr_quantum : ℕ
default_drr_quantum = 10

abbrev pub fallback_weight : ℕ
fallback_weight = 1

-- `typeof w === 'number' && w > 0`
abbrev pub weight_or_fallback : Option ℕ → ℕ
weight_or_fallback none = fallback_weight
weight_or_fallback (some zero) = fallback_weight
weight_or_fallback (some (suc w)) = suc w

abbrev pub resolve_weight : List (Text × ℕ) → Text → ℕ
resolve_weight weights tier = weight_or_fallback (get weights tier)

abbrev pub none_left {ℓ} : {A : Type ℓ} → List A → Bool
none_left [] = true
none_left (x ∷ xs) = false

-- What the inner loop has taken of a queue, and what it leaves.
pub record Consumed (T : Type 0) : Type 0 where
  pub taken : List (BatchQueueItem T)
  pub left : List (BatchQueueItem T)
  pub credit : ℕ

-- The variables of a round: the tenants, the result so far and `exhausted`.
pub record Round (T : Type 0) : Type 0 where
  pub tenants : List (Text × TenantState T)
  pub result : List (BatchQueueItem T)
  pub exhausted : List Text

-- The variables of the outer loop.
pub record Batch (T : Type 0) : Type 0 where
  pub scheduler : DrrScheduler T
  pub collected : List (BatchQueueItem T)

-- `ids.filter((id) => !exhausted.includes(id))`
unfoldable pub without : List Text → List Text → List Text
without exhausted [] = []
without exhausted (id ∷ ids) =
    if includes exhausted id then without exhausted ids else id ∷ without exhausted ids

module _ {T : Type 0} where
  -- The quantum that is asked for is a fraction, with the predecessor of its denominator.
  unfoldable pub new_scheduler : List (Text × ℕ) → ℕ → ℕ → DrrScheduler T
  new_scheduler weights numerator below_denominator = record {
    tenants = [];
    active_order = [];
    tier_weights = weights;
    quantum = if ltb 0 numerator then numerator / suc below_denominator else default_drr_quantum;
    rounds = 0;
  }

  abbrev pub tenant_or_new : ℕ → Option (TenantState T) → TenantState T
  tenant_or_new weight none = record { queue = []; deficit = 0; weight = weight }
  tenant_or_new weight (some t) = record t { weight = weight }

  unfoldable pub enqueue : BatchQueueItem T → DrrScheduler T → DrrScheduler T
  enqueue item s =
      let state =
        tenant_or_new (resolve_weight s.tier_weights item.tier) (get s.tenants item.tenant_id) in
      record s {
        tenants = put s.tenants item.tenant_id (record state { queue = state.queue ++ item ∷ [] });
        active_order =
            if includes s.active_order item.tenant_id
            then s.active_order
            else s.active_order ++ item.tenant_id ∷ [];
      }

  -- While there are credits, items and room in the batch.
  abbrev pub consume : List (BatchQueueItem T) → ℕ → ℕ → Consumed T
  consume [] deficit room = record { taken = []; left = []; credit = deficit }
  consume (x ∷ xs) zero room = record { taken = []; left = x ∷ xs; credit = 0 }
  consume (x ∷ xs) (suc deficit) zero = record { taken = []; left = x ∷ xs; credit = suc deficit }
  consume (x ∷ xs) (suc deficit) (suc room) =
      let rest = consume xs deficit room in
      record { taken = x ∷ rest.taken; left = rest.left; credit = rest.credit }

  abbrev pub serve : ℕ → ℕ → Text → TenantState T → Round T → Round T
  serve batch_size quantum id state r =
      let c =
        consume state.queue (state.deficit + state.weight * quantum)
          (batch_size - length r.result) in
      record {
        tenants = put r.tenants id (record state { queue = c.left; deficit = c.credit });
        result = r.result ++ c.taken;
        exhausted = if none_left c.left then r.exhausted ++ id ∷ [] else r.exhausted;
      }

  abbrev pub visit_state : ℕ → ℕ → Text → Option (TenantState T) → Round T → Round T
  visit_state batch_size quantum id none r = record r { exhausted = r.exhausted ++ id ∷ [] }
  visit_state batch_size quantum id (some state) r =
      if none_left state.queue
      then record r { exhausted = r.exhausted ++ id ∷ [] }
      else serve batch_size quantum id state r

  -- The body of the `for` loop. Once the batch is full it stays full, so that no later tenant is
  -- visited either: the code's `break`.
  unfoldable pub visit : ℕ → ℕ → Text → Round T → Round T
  visit batch_size quantum id r =
      if leb batch_size (length r.result)
      then r
      else visit_state batch_size quantum id (get r.tenants id) r

  unfoldable pub visit_all : ℕ → ℕ → List Text → Round T → Round T
  visit_all batch_size quantum [] r = r
  visit_all batch_size quantum (id ∷ ids) r =
      visit_all batch_size quantum ids (visit batch_size quantum id r)

  -- The body of the outer loop.
  unfoldable pub round : ℕ → DrrScheduler T → List (BatchQueueItem T) → Batch T
  round batch_size s result =
      let r =
        visit_all batch_size s.quantum s.active_order
          (record { tenants = s.tenants; result = result; exhausted = [] }) in
      record {
        scheduler = record s {
          tenants = r.tenants;
          active_order = without r.exhausted s.active_order;
          rounds = suc s.rounds;
        };
        collected = r.result;
      }

  unfoldable pub goes_on : ℕ → Batch T → Bool
  goes_on batch_size b =
      ltb (length b.collected) batch_size && not (none_left b.scheduler.active_order)

  unfoldable pub rounds_loop : ℕ → ℕ → Batch T → Batch T
  rounds_loop zero batch_size b = b
  rounds_loop (suc fuel) batch_size b =
      let rest = rounds_loop fuel batch_size (round batch_size b.scheduler b.collected) in
      if goes_on batch_size b then rest else b

  -- Every round but the last collects an item, so that the size of the batch is fuel enough.
  unfoldable pub dequeue_batch : ℕ → DrrScheduler T → Batch T
  dequeue_batch batch_size s =
      rounds_loop batch_size batch_size (record { scheduler = s; collected = [] })

  unfoldable pub total_depth : List (Text × TenantState T) → ℕ
  total_depth [] = 0
  total_depth ((id, state) ∷ ts) = length state.queue + total_depth ts
