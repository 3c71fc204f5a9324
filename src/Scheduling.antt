-- ===== src/Scheduling.antt =====
-- kernel/scheduler.c and kernel/thread.c over all the lists at once: the wake-up of timed sleepers
-- and `scheduler_schedule`.
pub mod Sleepers
pub mod Expired
pub mod Leave
pub mod Schedule
