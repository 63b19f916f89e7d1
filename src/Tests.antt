-- ===== src/Tests.antt =====
-- Runs of the models at concrete inputs, and the theorems at inputs that meet their hypotheses.
mod SlidingLog
mod ConnPool
mod Lru
mod ConcurrentMap
mod BasicPool
mod Cache
mod Lock
mod Waiter
mod Cron
mod Scheduler
mod PubSub
mod Singleflight
