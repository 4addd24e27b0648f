-- ===== src/Hedging.antt =====
-- `hedgedRequest` of src/utils/hedged-request.ts as a state machine: one request, the calls of which
-- settle in any order, and the counter of hedges that it shares with other requests. Metrics are left
-- out; errors are truthy values, as `if (err)` takes them.
pub mod Runs
mod Tests
use veritasor_backend.Prelude.{
  ℕ, zero, suc, ◌+◌, ◌-◌, ◌≡◌, max, Bool, true, false, not, ◌&&◌, Option, none, some, leb,
  if◌then◌else◌,
}

abbrev pub default_max_concurrent_hedges : ℕ
default_max_concurrent_hedges = 5

-- What `Number.parseInt` makes of the environment's value.
pub data RawCap : Type 0 where
  unset not_a_number negative : RawCap
  integer : ℕ → RawCap

unfoldable pub initialize_hedge_concurrency : RawCap → ℕ → ℕ
initialize_hedge_concurrency unset cap = cap
initialize_hedge_concurrency not_a_number cap = cap
initialize_hedge_concurrency negative cap = cap
initialize_hedge_concurrency (integer zero) cap = cap
initialize_hedge_concurrency (integer (suc n)) cap = suc n

abbrev pub set_max_concurrent_hedges : ℕ → ℕ
set_max_concurrent_hedges n = max 1 n

pub data Rejection (E : Type 0) : Type 0 where
  primary_failed : Option E → Rejection E
  abort_error : Rejection E

pub data Promise (T E : Type 0) : Type 0 where
  pending : Promise T E
  resolved : T → Promise T E
  rejected : Rejection E → Promise T E

-- `armed` is whether the timer is set, `in_flight` whether the hedge runs; `hedge_failed` is ghost
-- state: the hedge has failed while the primary was running.
pub record HedgedRequest (T E : Type 0) : Type 0 where
  pub promise : Promise T E
  pub hedge_started : Bool
  pub primary_error : Option E
  pub primary_done : Bool
  pub armed : Bool
  pub in_flight : Bool
  pub concurrent_hedges : ℕ
  pub hedge_failed : Bool

pub data Event (T E : Type 0) : Type 0 where
  primary_ok hedge_ok : T → Event T E
  primary_fails : E → Event T E
  hedge_fails timer_fires aborted : Event T E
  -- Other requests have changed the counter.
  elsewhere : ℕ → Event T E

module _ {T E : Type 0} where
  -- `hedged_request` up to its first await, with the counter as it is.
  unfoldable pub start : ℕ → HedgedRequest T E
  start concurrent = record {
    promise = pending;
    hedge_started = false;
    primary_error = none;
    primary_done = false;
    armed = true;
    in_flight = false;
    concurrent_hedges = concurrent;
    hedge_failed = false;
  }

  abbrev pub is_settled : Promise T E → Bool
  is_settled pending = false
  is_settled (resolved v) = true
  is_settled (rejected e) = true

  -- `onSettle`, with the clean-up of the timer.
  unfoldable pub on_settle : Promise T E → HedgedRequest T E → HedgedRequest T E
  on_settle p s = if is_settled s.promise then s else record s { promise = p; armed = false }

  module _ (cap : ℕ) where
    abbrev pub fire : HedgedRequest T E → HedgedRequest T E
    fire s = if leb cap s.concurrent_hedges then s else record s {
      hedge_started = true;
      in_flight = true;
      concurrent_hedges = s.concurrent_hedges + 1;
    }

    unfoldable pub react : Event T E → HedgedRequest T E → HedgedRequest T E
    react (primary_ok v) s = on_settle (resolved v) (record s { primary_done = true })
    react (primary_fails e) s =
        let failed = record s { primary_done = true; primary_error = some e } in
        if s.hedge_started then failed else on_settle (rejected (primary_failed (some e))) failed
    react timer_fires s =
        let fired = record s { armed = false } in if is_settled s.promise then fired else fire fired
    react (hedge_ok v) s =
        on_settle (resolved v)
          (record s { concurrent_hedges = s.concurrent_hedges - 1; in_flight = false })
    react hedge_fails s =
        let ended = record s {
          concurrent_hedges = s.concurrent_hedges - 1;
          in_flight = false;
          hedge_failed = not s.primary_done;
        } in
        if s.primary_done
        then on_settle (rejected (primary_failed s.primary_error)) ended
        else ended
    react aborted s = on_settle (rejected abort_error) s
    react (elsewhere n) s = record s { concurrent_hedges = n }

    -- Each call settles once, the timer fires once and not after it is cleared, and the counter holds
    -- the hedge in flight and no more than the cap.
    unfoldable pub can_happen : Event T E → HedgedRequest T E → Bool
    can_happen (primary_ok v) s = not s.primary_done
    can_happen (primary_fails e) s = not s.primary_done
    can_happen timer_fires s = s.armed
    can_happen (hedge_ok v) s = s.in_flight
    can_happen hedge_fails s = s.in_flight
    can_happen aborted s = not (is_settled s.promise)
    can_happen (elsewhere n) s = leb (if s.in_flight then 1 else 0) n && leb n cap

    pub data Reaches : HedgedRequest T E → HedgedRequest T E → Type 0 where
      here : {s : HedgedRequest T E} → Reaches s s
      next :
          {s t : HedgedRequest T E} (e : Event T E)
          → can_happen e s ≡ true
          → Reaches (react e s) t
          → Reaches s t
