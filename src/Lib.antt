-- ===== src/Lib.antt =====
-- task-dispatcher, a fiber-based task scheduler: its containers, its scheduler and its interface.
--
-- The parts. Threads run fibers, and fibers run tasks. A task that waits for a counter gives its thread
-- to another fiber and sits in a slot of that counter, until a change of the count puts it into a queue of
-- resumable fibers. Tasks, idle fibers, resumable fibers and free counters each have an MPMC queue; fibers
-- pinned to a thread have a FIFO queue behind a spin lock. Callers hold counters as handles, inside sync
-- objects and futures.
--
-- The files, with the code that each is about (below src/task-dispatcher/):
--   Base: results with faults, machine words, arrays as functions, lists, rings, decided comparisons.
--   Fifo: the bounded list that the queues implement, and scripts of its calls.
--   FifoQueue (container/mpsc_queue.hh): mHead, mTail and mData are head, tail and slots.
--   MpmcQueue (container/mpmc_queue.hh): enqueue_step and dequeue_step make one access to shared
--     memory; enqueue and dequeue are calls that run alone. Quiescent is about such calls, Construct about
--     the constructor, and Threads about any number of calls at once.
--   SpinLock (common/spin_lock.hh): lock, try_lock and unlock; Threads has their interleavings.
--   VersionRing (container/version_ring.hh): isExpired, acquire, get and reset.
--   Deque (container/spmc_queue.hh): push_bottom, pop_bottom and steal of the Chase-Lev deque for calls
--     that do not overlap; Race has them one access at a time, for one owner and any number of
--     thieves; Ends has Worker and Stealer, and prepare_chase_lev and get_task of scheduler.cc.
--   Scheduler (scheduler.cc): State has the members of Scheduler and the thread-local s_tls; Counters has
--     counterAddWaitingFiber, counterCheckWaitingFibers and counterIncrement, with Protocol for the
--     interleavings at one slot; Handles the counter handles; Fibers yieldToFiber, cleanUpPrevFiber,
--     tryResumeFiber and getNextTask; Threads all threads at once, as steps that switch fibers; Api
--     submitTasks and wait; Construct the constructor; Start and Workers start, the shutdown,
--     fiber_func and worker_func. HandlePool is the interface of clean-core's pool of handles.
--   Config (scheduler.config.cc, scheduler.hh): the sizes and their check.
--   Batches (td.hh): how submit_batched cuts a range.
--   Syncs (td-lean.hh, sync.hh, td.hh): launch, the submit and wait calls on sync objects, and future;
--     Submits has the calls that make their tasks themselves.
--   Tasks (container/task.hh): a task as bytes, with lambda, ptr and execute_and_cleanup.
--   Native (native/thread.hh): Threads has the creation of a thread, Events wait_for_event.
--   Common (common/math_intrin.hh, common/system_info.cc): the logarithms and a count of cores.
--
-- Conventions. A w-bit word is a natural number below 2 ^ w and its arithmetic wraps by a
-- remainder; an int is its bit pattern. A failed CC_ASSERT, what C++ leaves undefined and a loop
-- that nobody else can end are faults of the result. A call of the scheduler is written for one
-- thread with nothing of another thread in between, but for a slot of a counter in
-- Counters.Protocol and the switches of fibers in Threads, where a call of a queue is one access;
-- memory orders are left out.
--
-- Bounds and fuel. A call of an MPMC queue that runs alone takes five steps. The drains take more
-- turns than entries. The loop of acquireFreeFiber, which has no bound, takes the number of
-- attempts as an argument; so does the loop of fiber_func. The joins at the shutdown are a
-- parameter of it, and may change the state as the threads do that are joined. In Deque.Race and
-- MpmcQueue.Threads fewer than 2 ^ 62 steps are taken, which keeps the positions from wrapping.
--
-- Not modelled: native fibers (native/fiber.hh), which are a parameter; the use of the list of
-- buffers to reclaim by several thieves at once, whose changes are left open in Deque.Race; Windows
-- code, rdtsc, and logging. What pthread, cpuid and the compiler's builtins answer are parameters,
-- and so is int_div_ceil of clean-core.
pub mod Base
pub mod Fifo
pub mod FifoQueue
pub mod MpmcQueue
pub mod SpinLock
pub mod Scheduler
pub mod VersionRing
pub mod Batches
pub mod Config
pub mod Syncs
pub mod Deque
pub mod Tasks
pub mod Common
pub mod Native
