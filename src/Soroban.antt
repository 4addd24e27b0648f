-- ===== src/Soroban.antt =====
-- The Soroban client of src/services/soroban: retry budget, circuit breaker, the request loop and
-- the fair scheduler of the submission queue.
pub mod Budget
pub mod Breaker
pub mod Request
pub mod Batching
pub mod Scheduler
mod Tests
