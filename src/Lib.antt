-- ===== src/Lib.antt =====
-- microservice-kit, a Go library of building blocks for services. This development models the
-- parts of it that carry logic of their own, each in a module named for its package.
--
-- - Prelude: the shared names, tests on numbers, lists by native numbers, signed integers.
-- - Saga: saga: `Saga.ExecuteWithData` as `execute`, with its loop `run_steps`, the retries
--   `execute_step_with_retry` and `compensate`; the loops recur on the steps, on the rounds of the
--   retry count and on the count of completed steps, so no fuel is needed. The store, the clock,
--   the context and the hooks are the record `Env`; a panic, of a function of a step that panics
--   or is nil or of an index out of range, is `none`.
-- - Pagination: util/pagination: `New`, `Offset`, `TotalPages`, `HasNext`.
-- - PriorityQueue: util/collections/priorityqueue: the binary heap; `up_from` recurs on the index
--   and `down_from` on the length as fuel, which is enough as the index grows.
-- - Deque: util/collections/deque: the ring buffer, with its growth and shrinking; Deque.Ends
--   relates it to lists. `double_until` recurs on the capacity asked for as fuel.
-- - Slices: util/collections/slices: one function each; `chunk_from` has the length of the slice
--   as fuel, since each round adds a positive size.
-- - Cache: storage/cache/memory.go: the operations on the map of items. Strings, JSON and the
--   order of a loop over a map are the record `Go`.
-- - RateLimit: middleware/ratelimit: the windows, and the limiter over the interface
--   `RateCounter`, which `cache_rate_counter` fills with the operations of Cache.
-- - Retry: middleware/retry: the loop of `Retry.Run` and that of the endpoint middleware, which
--   recur on the rounds left.
-- - Idempotency: middleware/idempotency/endpoint.go: the endpoint middleware, over the interface
--   of the store.
-- - TreeMap: util/collections/treemap: the red-black tree. A node with its parent pointers is the
--   subtree below it and the way up from it, `Parents`, on which `insert_fixup` and `delete_fixup`
--   recur, as the loops of `insertFixup` and `deleteFixup` climb. TreeMap.Spec has the sorted
--   lists that the operations are compared with.
-- - TreeSet: util/collections/treeset: the set as the keys of a TreeMap; a loop of `Range` is a
--   traversal with the state that its function changes.
-- - Semaphore: middleware/semaphore: `TryAcquire`, `Acquire`, `Release` and `Available` over the
--   interface `Counter`, which `cache_counter` fills with the operations of Cache; `acquire`
--   recurs on the waits of its loop; Semaphore.Steps has the clients whose calls interleave, with
--   the time to live of the key.
-- - Scheduler: scheduler: one execution of a job, `execute_job`, with its retries, which recur on
--   the attempts left, its handler, which may panic, its hooks and its lock, which are the record
--   `Env`; and in Scheduler.Jobs the jobs and what is registered with the cron package, the record
--   `Cron`.
-- - Lock: storage/lock: the lock `Redis` as the record `Locker`, whose methods call the locks of
--   Cache; `lock` recurs on the waits of its loop.
-- - LruCache: util/collections/lrucache: the doubly linked list as entries at addresses of a heap,
--   where a write through nil fails; LruCache.Spec has the pairs in the order of their last use,
--   which the calls are compared with. The loops of `Keys` and `Resize` run on fuel, and any fuel
--   above the number of the pairs is enough.
-- - Auth: auth: the authorizers, the context, the endpoint middleware and, in Auth.Transport,
--   those of HTTP and gRPC; Auth.Discovery has what the proto options say of the methods. The
--   authenticator and the callbacks of the options take and return the state of the world; a
--   dereference of nil is the outcome `panicked`.
-- - Health: transport/health/health.go: a run of checkers, whose goroutines write their results in
--   any order, and the status over all.
--
-- How they interact. RateLimit calls the operations of Cache through the interface `RateCounter`.
-- Saga, Retry, Idempotency and Scheduler run the steps, functions and endpoints of their clients,
-- which are parameters that take the state of the world to a result and the state after it.
-- TreeSet calls the operations of TreeMap, Semaphore those of Cache through the interface
-- `Counter`, and Lock those of Cache. What a Scheduler asks of a lock is part of its `Env`. The
-- other parts stand alone.
--
-- Not modelled: the servers, clients, brokers, loggers, tracers and drivers of the library, which
-- wrap other packages and do I/O; goroutines, timers and the waiting of the limiters; the token
-- bucket, which counts in floating point; generated code. The hash set and the functions on maps
-- and the request context have logic of their own, which is left out.
--
-- Conventions. An `int` that is never negative is a native number; a signed one is a ℤ of
-- Prelude.Int, and an int32 keeps its wrap-around. A method returns the new state beside its
-- results; what it changes of the world outside the package (clock, context, store, callbacks) is
-- a parameter. Logging, tracing and metrics calls change no result and are left out. A mutex makes
-- the operations of its object atomic, so each is one step here; the clients of a semaphore, which
-- share a counter and no mutex, interleave their calls in Semaphore.Steps.
pub mod Prelude
pub mod Pagination
pub mod Saga
pub mod PriorityQueue
pub mod Deque
pub mod Slices
pub mod Cache
pub mod RateLimit
pub mod Retry
pub mod Idempotency
pub mod TreeMap
pub mod TreeSet
pub mod Semaphore
pub mod Scheduler
pub mod Lock
pub mod LruCache
pub mod Auth
pub mod Health
