-- ===== src/Lib.antt =====
-- A verification library of the Veritasor backend, a service that takes revenue attestations of
-- businesses, builds Merkle trees over them and submits the roots to Soroban contracts.
--
-- Parts and how they interact. A request passes the rate limiter, the permission middleware and
-- the idempotency middleware before its handler; clients renew their sessions by refresh tokens.
-- Attestations are hashed into a Merkle tree; what goes to Soroban waits in the batching queue or
-- the fair scheduler and is sent by the request loop, which asks the circuit breaker first and
-- takes its retries out of a shared budget. Decisions of the policy engine are recorded in the
-- audit log, whose entries form a hash chain.
--
-- Files and the code they model. A definition has the name of the function in snake_case, a record
-- that of the class or interface.
--   Merkle: src/services/merkle/buildTree.ts and generateProof.ts. buildTree, getRoot,
--     generateProof and verifyProof are build_tree, get_root, generate_proof and verify_proof; loops
--     over levels run on fuel, which Merkle.Levels shows to be enough as every level halves.
--   Merkle.Legacy: src/services/merkle.ts, the class MerkleTree; a round of its loop halves the level, so
--     that one round more than there are leaves is fuel enough.
--   Soroban.Budget: src/services/soroban/retry-budget.ts, SorobanRetryBudget and fullJitter.
--   Soroban.Breaker, Soroban.Request: src/services/soroban/client.ts, CircuitBreaker and
--     executeSorobanRequest. Attempts are numbered; clock, random draws and outcomes of the calls are
--     functions of the number. The loop recurses on the attempts that are left.
--   Soroban.Batching: src/services/soroban/batchingQueue.ts, BatchingQueue. The event loop is a list
--     of events: calls, timers and the end of a flush. What flushed and rejected hold is ghost state.
--   Soroban.Scheduler: src/services/soroban/drrScheduler.ts, DrrScheduler. Tenants are a map in the
--     order of insertion. The outer loop of dequeueBatch runs on fuel of the size of the batch: a
--     round that is not the last collects an item.
--   Submission: src/services/soroban/submitAttestation.ts: deduplication (Dedupe), polling and checks of
--     the result (Confirm), submitAttestation as a monad over Redis, the transactions sent and the polls
--     (Submit), and the queue for the time that the breaker is open (Queue), which submits by a
--     parameter. What other calls do to the queue while a submission is awaited is a parameter too.
--   Hedging: src/utils/hedged-request.ts, hedgedRequest. `react` has a case for each callback; which
--     events can come is `can_happen`, and `Reaches` is their sequences.
--   Webhooks.Rotation: src/services/webhooks/secretRotation.ts; the gauge of the metrics is the list of
--     the calls it gets.
--   Webhooks.Razorpay: src/routes/webhooks-razorpay.ts (Route), src/services/webhooks/razorpayHandler.ts
--     with the store of idempotency.ts (the module itself), its schema (Events) and saveDeadLetter of
--     deadLetterQueue.ts. Webhooks.Backoff is src/utils/backoff.ts; the delays are a parameter that
--     may change the whole state, as other requests do.
--   Attestations: src/repositories/attestationRepository.ts over the rows of its table, with the loop of
--     createWithConflictCheck in Attestations.Creation; Attestations.Revocation is
--     src/services/attestation/revokeBatch.ts and revoke.ts, the latter with src/repositories/attestation.ts.
--   Users: src/repositories/userRepository.ts, the two maps of the users; Users.Login is
--     src/services/auth/login.ts.
--   PasswordReset: src/services/auth/forgotPassword.ts and resetPassword.ts, each cut where the users can
--     change while it waits, with src/utils/tokenHash.ts and src/services/email/sendReset.ts.
--   Signup: src/utils/signupRateLimiter.ts, SignupRateLimitStore, with normalizeEmail of
--     src/utils/abusePrevention.ts in Signup.Email.
--   Permissions: src/middleware/permissions.ts and src/types/permissions.ts, evaluatePolicy and
--     requirePermissions (Permissions.Access); a response is a value of Response.
--   Audit: src/repositories/auditLogRepository.ts, createAuditLog and verifyChain. The log is the
--     list auditLogs, passed on explicitly; `none` stands for the error that timingSafeEqual throws.
--   Idempotency: src/middleware/idempotency.ts, the store in memory (store_get, store_set) and the
--     two halves of the middleware, before the handler (arrive) and at its response (respond).
--   RateLimit: src/middleware/rateLimiter.ts, MemoryStore (memory_increment), SlidingWindowMemoryStore
--     (sliding_increment) and their cleanups.
--   Sessions: src/services/auth/refresh.ts and usedTokenStore.ts. refresh is refresh_start up to the
--     look-up of the user and refresh_finish from there, since other requests may run in between.
--   Prelude: the names that all share, Boolean tests, lists, texts and maps.
--
-- Numbers are natural numbers, times are milliseconds, texts are lists of code units. Hash functions,
-- random draws, clocks, printing and the calls to the network are parameters. A function of the
-- source that is asynchronous is one step, or several where another call may come in between.
--
-- Not modelled: the routes other than that of Razorpay, SQL, the Redis stores, metrics, logs, tracing,
-- the reading of environment variables, JWT and TLS, the OAuth flows, GraphQL and WebSocket. They are
-- input and output, or calls of libraries.
pub mod Prelude
pub mod Attestations
pub mod Users
pub mod PasswordReset
pub mod Submission
pub mod Webhooks
pub mod Hedging
pub mod Signup
pub mod Merkle
pub mod Soroban
pub mod RateLimit
pub mod Sessions
pub mod Permissions
pub mod Audit
pub mod Idempotency
