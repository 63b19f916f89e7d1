-- ===== src/Scheduler.antt =====
-- stage2/07-task-scheduler/scheduler: tasks that run at given times.
pub mod Lock
pub mod Waiter
pub mod Cron
pub mod Task
pub mod Engine
pub mod Execution
pub mod Operations
pub mod Accounts
pub mod Registry
