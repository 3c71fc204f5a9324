-- ===== src/Tests.antt =====
-- Concrete inputs, and the results at work on them.
pub mod Memory
pub mod Threads
pub mod Lifecycle
pub mod Vm
pub mod Semaphore
pub mod Locks
pub mod Library
pub mod Filesystems
pub mod Processes
pub mod Usercopy
pub mod Diskfiles
