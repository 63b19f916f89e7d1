-- ===== src/Lib.antt =====
-- Verification of gocc, a collection of concurrent Go components.
--
-- Each component guards its state with a lock or with channels, and the development takes a call of a
-- method as one step: a function from the state to the new state and the result. A run of the program
-- is a sequence of such calls, in the order in which they take effect. Where the code gives the lock
-- up in the middle of a call, that is said below. What a method gets from outside (the clock, a factory, a validity check, which ready case a select takes) is an argument.
--
-- The parts, and the files that model them:
--   stage1/01-concurrent-counter/ratelimiter/sliding_window.go    RateLimiter/SlidingLog.antt
--     SlidingWindowLog: the slice of timestamps; cleanup, Allow, AllowN and Count.
--   stage2/05-cache/cache/lru.go                                  Cache/Lru.antt
--     LRUCache: the nodes are a heap of records addressed by numbers, with their prev and next
--     pointers; the Go map is an association list from keys to addresses. An operation that would
--     dereference nil has no result. Cache/Lru/Spec.antt is the contract, a list of entries.
--   stage2/05-cache/cache/cache.go                                Cache/Basic.antt
--     Cache: one Go map of entries; the key that a range meets first is an argument. Get is one
--     step, though the code takes the lock again for each change.
--   stage2/05-cache/cache/singleflight.go                         Cache/Singleflight.antt
--     Singleflight: the map of calls in flight, the calls, and the goroutines in Do, which is cut where
--     it holds no lock.
--   stage2/06-connection-pool/pool/managed.go                     ConnPool/Managed.antt
--     ManagedPool: the channel of idle connections is a list of addresses, the channel `semaphore`
--     its number of tokens, and the connections a heap. Acquire that has to block answers `waiting`,
--     and its blocking select is the step acquire_wait. A send on a closed channel and a call on a
--     nil connection are the outcome `panics`.
--   stage2/06-connection-pool/pool/pool.go                        ConnPool/Basic.antt
--     Pool: the same two channels, over connections that the client owns outright. Both pools hold
--     their lock only to read or set `closed`; a call is one step up to the select that blocks.
--   stage2/08-concurrent-map/cmap/sharded_map.go                  ConcurrentMap/Sharded.antt
--     ShardedMap: its methods over ConcurrentMap/Sharding.antt, which has the list of shards, the
--     mask, nextPowerOf2 and defaultHasher. FNV-1a is an argument.
--     Len and ShardStats are one step, though the code takes the locks of the shards one by one.
--   stage2/08-concurrent-map/cmap/rwmutex_map.go                  ConcurrentMap/RwMutex.antt
--     RWMutexMap: one Go map, the contract of ShardedMap.
--   stage2/08-concurrent-map/cmap/ttl_map.go                      ConcurrentMap/Ttl.antt
--     TTLMap: a sharded map of entries that expire. ConcurrentMap/Ttl/Flat.antt is its contract.
--     Get is one step, though the code lets go of its lock before it deletes an expired key, and so are
--     Len, ActiveLen and cleanup, though the code takes the locks of the shards one by one.
--   stage2/07-task-scheduler/scheduler/scheduler.go, task.go      Scheduler/Engine.antt
--     Scheduler: the map from identifiers to tasks, the tasks in the order of their creation, and the
--     goroutines that run them. Task.antt has the tasks, Engine.antt the Schedule methods,
--     Execution.antt executeTask with its dependencies and retries, and Operations.antt the other
--     methods and the runs. A goroutine's way from its select to the call of the task's function is one
--     step, and so is its way from there to its next select. Which timer fires is part of the run,
--     whether it is due is not asked.
--   stage2/07-task-scheduler/scheduler/cron.go                    Scheduler/Cron.antt
--     CronExpr: a string is its list of bytes. ParseCron, with what it uses of strings and strconv
--     in Scheduler/Cron/Text.antt, and Next, over a calendar that is an argument. The grammar as data
--     is in Scheduler/Cron/Rendering.antt.
--   stage2/07-task-scheduler/scheduler/waiter.go                  Scheduler/Waiter.antt, Lock.antt
--     TaskWaiter: its two maps and the tests of the three calls that wait. Waiter/Wakeups.antt has
--     the goroutine that waits, the lock, the condition variable and the broadcasts as steps, those for
--     the contexts of other waiting goroutines included.
--     DistributedLock: the map of locks, the clock an argument.
--   stage1/04-pubsub/pubsub/broker.go                             PubSub/Broker.antt
--     Subscriber and Broker: the subscribers that were made are a list, and a channel is the list of its
--     messages. Subscriber.send is one step, though the code gives its lock up before it sends.
-- Prelude.antt and the files under Prelude hold what they share. Tests.antt and the files under
-- Tests run the models.
--
-- Instants and durations are whole nanoseconds. Instants are natural numbers, durations integers, both
-- without bounds.
-- Lists stand for slices and buffered channels, whose capacity is compared where the code relies on
-- it. Go's int is an integer of 64 bits that wraps round where the code adds a number of the client's
-- to one: in AllowN of SlidingWindowLog, and in the steps of a cron field. Elsewhere it is an integer
-- without bounds: there the code only counts calls and elements. Bit operations are on natural numbers
-- below 2 ^ 64.
--
-- Fuel: the loop of LRUCache.Keys has one step more than the map has entries. The loop over the steps
-- of a cron field has one step more than the upper bound: every step adds at least one, and where the
-- sum wraps round, which it does only for the step 2 ^ 63 - 1 from the lower bound 1, there are three
-- values. The loop of CronExpr.Next has the code's own bound.
--
-- Not modelled: the goroutines that the constructors start, beyond the calls that they make in their
-- loops; mutexes and their blocking, but for TaskWaiter; floating-point rates, whose arithmetic is an
-- argument of the scheduler's back-off; Range over a Go map, whose order Go leaves open; and the other
-- components of the repository: the counters, the token and leaky buckets and SlidingWindowCounter, the
-- worker pools, the crawler, fanout.go of publish and subscribe, ttl.go of the cache and CacheAside of
-- singleflight.go, dbpool.go and httppool.go, priority_queue.go of the task scheduler, MutexMap and
-- SyncMap, the HTTP server, and the main programs.
pub mod Cache
pub mod ConcurrentMap
pub mod ConnPool
pub mod Prelude
pub mod PubSub
pub mod RateLimiter
pub mod Scheduler
pub mod Tests
