-- ===== src/Lib.antt =====
-- Verification library of the PlanBuddy backend.
--
-- The program has two halves. The files at the root of the repository are a job engine: workers
-- (base-worker.js) poll job tables through atomic-engine.js, which leases rows, commits results and
-- recovers leases that ran out, and adaptive-controller.js tells each worker how many rows it may
-- take and whether it may poll at all. planbuddy_v9/ is the HTTP service: middleware
-- (idempotency.js with Idempotencyconflictlimiter.js) guards the routes, the controllers cancel
-- bookings and take in the webhooks of the payment provider, and queueReliabilityState.js and
-- circuitBreakerUtil.js keep the health of the queues and of outside services.
--
-- Which file models what:
--   Base            the shared names; Base/Tests Boolean tests on numbers, Base/Lists lists, Base/Text
--                   texts as lists of code units, and stores with text keys
--   Queues          queues.js: the tables of settings, as functions of the queue's key
--   Adaptive        adaptive-controller.js: one record for each queue, one function for each method;
--                   _openCircuit is open_slot, canProcess can_process, onFailure on_failure, and so on
--   Breaker         planbuddy_v9/utils/circuitBreakerUtil.js: execute is begin before the wrapped
--                   call and settle after it, so that calls may overlap
--   Engine          atomic-engine.js: Engine/Table is UPDATE and SELECT on a list of rows, Engine/Jobs
--                   and Engine/Claim the statements on job tables (atomicClaim is atomic_claim,
--                   reclaimExpiredLeases reclaim_expired, commitFailure read_attempts and
--                   write_failure), Engine/Outbox those on the outbox and Engine/Journal those on the
--                   journal of side effects. Engine/Events, Engine/Relay and Engine/Replaying have
--                   the histories of such calls by any workers
--                   Engine/Log is the execution log and the buckets of rate limits
--   Worker          base-worker.js: _poll, split where it waits for the claim: ask and receive.
--                   Worker/Lifecycle has start, drain, stop, wakeups, the end of an item with its
--                   commits, and the heartbeat row
--   Notify          notify-listener.js, without the parsing of payloads
--   Shards          shard-router.js
--   Regions         region-manager.js and the function acquire_region_leader of schema-v3.sql, and the
--                   rows of its registry in Regions/Registry
--   Backpressure    Backpressure/Counters is middleware/backpressure.js, where next() is a function on
--                   the state; Backpressure/Tiers is planbuddy_v9/middleware/backpressure.js
--   RateLimits      planbuddy_v9/middleware/rateLimit.js: makeLimiter is make_limiter, and the
--                   middleware that it returns is handle
--   Tokens          planbuddy_v9/utils/jwt.js: the revocation list and the durations
--   Auth            planbuddy_v9/controllers/authController.js: Auth/Accounts, Auth/Login,
--                   Auth/Passwords and Auth/Sessions, one function for each handler; the revoked
--                   tokens are those of Tokens. Auth/Access is planbuddy_v9/middleware/index.js
--   Payments        planbuddy_v9/controllers/paymentController.js
--   Database        planbuddy_v9/config/db.js: _runTransaction is run_transaction over its attempts
--   Errors          planbuddy_v9/middleware/errorHandler.js and csrfProtection.js
--   Idempotency     planbuddy_v9/middleware/idempotency.js, split where the route's handler runs:
--                   begin goes up to next() and finish is the intercepted res.json;
--                   Idempotency/Conflicts is Idempotencyconflictlimiter.js
--   Booking         planbuddy_v9/controllers/Dbservice fixed cancelbooking.js: one transaction is one
--                   step, because its row locks order the calls. Booking/Requests and
--                   Booking/Availability are planbuddy_v9/controllers/bookingController.js
--   Webhook         planbuddy_v9/controllers/razorpayWebhookController.js and the function
--                   enqueueWebhookEvent of planbuddy_v9/config/queues.js, whose other functions are
--                   Health/Scheduling
--   Health          planbuddy_v9/utils/queueReliabilityState.js: the mutators are the cases of mark;
--                   Health/Patches has the patches and the snapshot, and ready of
--                   planbuddy_v9/controllers/healthController.js
--   Monitoring      planbuddy_v9/utils/queueMonitoring.js and production of healthController.js
--   Api             planbuddy_v9/app.js: respond is the order of the middleware, and Api/Routes the
--                   tables of planbuddy_v9/routes/ with the guards of each route
--   Proxies         planbuddy_v9/middleware/proxyValidation.js, on texts and 32-bit numbers
--   Redis           planbuddy_v9/config/redis.js and rateLimitRedis.js
--   Server          planbuddy_v9/server.js: Server/Startup and Server/Shutdown
--   Config          grafana/planbuddy_v9/config/env.js, the only copy of it in the repository, where
--                   load is the module, and planbuddy_v9/apply-all-migrations.js
--   Tests           the theorems at concrete inputs
--
-- Conventions. State is passed explicitly. The clock, random draws, outcomes of outside calls and
-- failures of queries are arguments, so a theorem holds for all of them. Times are natural numbers
-- of milliseconds, or seconds for Redis. Differences of times are written as sums, so that a clock
-- that steps back is treated as the source does. Columns and ids that are only compared are numbers.
-- Concurrency is a list of steps in any order: a step is one SQL statement, one transaction under row
-- locks, or the part of a function between two awaits. Recursion is structural everywhere. One
-- definition uses fuel, run_transaction, whose loop the source bounds by its number of attempts: fuel
-- for three attempts is enough.
--
-- Parameters. Code that is not in the repository is an argument: the digest of database keys, the
-- decoding of signatures, JSON.parse and the timestamp service, the hashes of passwords, the counting
-- library of the limiters, the services of refresh tokens, sessions, refunds and payments, the provider's
-- client, the attempts of a transaction, net.isIP, the database of the migrations, the library of the
-- queues and the service that tracks their jobs, and what Express, the cors library and the parsers
-- decide about a request. Where a theorem needs something of them, it is a hypothesis that the theorem
-- names: that the library passes a request that is to be skipped, that an attempt that does not commit
-- changes nothing, that the database gives all rows of a query in some order and amounts as texts, that
-- the errors of the timestamp service have no status or that of an error, and that the refund service
-- fails.
--
-- Not modelled: money.js, which computes with floating-point numbers; settings, headers of answers,
-- logs and metrics, which keep no state of the kind that is stated here; validation schemas, which are
-- a third-party library's; and the texts of migrations, scripts and tests.
pub mod Base
pub mod Queues
pub mod Adaptive
pub mod Breaker
pub mod Engine
pub mod Api
pub mod Auth
pub mod Backpressure
pub mod Booking
pub mod Config
pub mod Database
pub mod Errors
pub mod Health
pub mod Idempotency
pub mod Monitoring
pub mod Notify
pub mod Payments
pub mod Proxies
pub mod RateLimits
pub mod Redis
pub mod Regions
pub mod Server
pub mod Shards
pub mod Tokens
pub mod Webhook
pub mod Worker
pub mod Tests
