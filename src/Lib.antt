-- ===== src/Lib.antt =====
-- BUENOS, a small operating system kernel for the YAMS simulator of a MIPS machine, and its C code.
-- The program is built with the switches CHANGED_1 to CHANGED_5 and CHANGED_ADDITIONAL_1 on
-- (Makefile), so this is the code modelled.
--
-- The parts and the files that model them:
--
-- - Prelude: numbers, Boolean tests, lists, machine words, and results. `Result` is what a C
--   function comes to: a value, a kernel panic, an access `outside` an array, or a loop that ran
--   out of fuel (`hang`).
-- - Libc: lib/libc.c, strings, memory and atoi; Xprintf: lib/xprintf.c, formatted output, with one
--   round of fuel for each turn of its loops.
-- - Bitmap: lib/bitmap.c, an array of 32-bit words. `Bitmap.get_at` and `Bitmap.set_at` are
--   bitmap_get and bitmap_set past their assertions; Bitmap/Bits and Bitmap/Find hold the proofs.
-- - Kmalloc: kernel/kmalloc.c, permanent kernel memory; addresses are numbers below 2 ^ 32 and
--   every sum is reduced where C reduces it.
-- - Pagepool: vm/pagepool.c, over Bitmap and Kmalloc.
-- - Vm: vm/vm.c, the page table as an array of pairs of pages; Vm/Entries defines what virtual page
--   the table translates to what, the view of it that the theorems use.
-- - Threads: the thread table of kernel/thread.h. `Kernel` holds the table, the heads of the sleep
--   queues, the ready list and the list of timed sleepers. The links are the fields of the table,
--   as in the code; Threads/Links, Threads/Splice and Threads/Bounded say which list of thread
--   numbers a chain of links stands for.
-- - Scheduler: kernel/scheduler.c; Scheduler/Enqueue says in which order the ready list is kept.
-- - Sleepq: kernel/sleepq.c, the hash table of waiting threads. The `next` field links a waiting
--   thread to its slot and a ready one to the ready list, so the proofs keep the lists apart.
-- - Scheduling: scheduler_wakeup_expired_sleepers and scheduler_schedule over all the lists at
--   once.
-- - Lifecycle: kernel/thread.c, the start of the tables, thread creation, thread_sleep and
--   thread_finish; a static counter is an argument and part of the result. Lifecycle/Walk, Order
--   and Slept are the steps of the proof for thread_sleep.
-- - Semaphore: kernel/semaphore.c; Semaphore.lower and Semaphore.raise are semaphore_P and
--   semaphore_V, over Sleepq.add and Sleepq.wake with the semaphore's address as the resource.
-- - Locks: kernel/lock_cond.c; lock_acquire is cut where the thread sleeps, and Locks.lock_resume
--   is the part behind it. Locks/Ownership holds the proofs on locks.
-- - Vfs: fs/vfs.c, the tables of mounts and of open files over a record of driver functions;
--   Vfs/Paths, Mounts and Files hold the calls, Vfs/Names, Rows, Operations, Opened, Mounted and
--   Mounting the proofs. `Outcome` of Prelude.Outcomes tells a failed assertion from an access
--   outside an array.
-- - Process: the process table of proc/process.c with execp, exit and join of
--   proc/syscall_handler_proc.c; a critical section is one step. Process/Starting and Exiting hold
--   the proofs, Process/Children the list of children, Process/Handles the closing of its files
--   over Vfs.
-- - Syscalls: proc/syscall_helpers.c, reading and writing the memory of a process page by page;
--   Syscalls/Copying holds the proofs.
-- - Tfs: fs/tfs.c with tfs_open, tfs_close, tfs_read and tfs_getfree; Tfs/Reading says which bytes
--   tfs_read delivers. Tfs/Writing has creating and removing a file, Tfs/Allocation and Tfs/Freeing
--   the blocks that these take and give back; Tfs/Storing has tfs_write, and Tfs/Untouched the
--   blocks that it leaves alone. The disk's write request is a parameter.
-- - Tests: concrete inputs on which the results are used.
--
-- A function of the kernel that runs with interrupts off and a spinlock held is one step. A loop
-- over a chain of threads has fuel for one round more than there are thread table entries, which is
-- enough for a chain that holds no thread twice. The numbers of C's type `int` that can be negative
-- are integers of Prelude.Int. An access behind a bitmap's words or behind the block numbers of an
-- inode is an outcome of its own, `outside`.
--
-- Not modelled: the TLB handlers, device drivers, the boot sequence, interrupt entry, the simple
-- file system of fs/sfs.c, the loading of programs, most system calls, the network, and the user
-- programs.
pub mod Prelude
pub mod Libc
pub mod Xprintf
pub mod Bitmap
pub mod Kmalloc
pub mod Pagepool
pub mod Threads
pub mod Scheduler
pub mod Sleepq
pub mod Scheduling
pub mod Lifecycle
pub mod Semaphore
pub mod Locks
pub mod Vm
pub mod Vfs
pub mod Process
pub mod Syscalls
pub mod Tfs
pub mod Tests
