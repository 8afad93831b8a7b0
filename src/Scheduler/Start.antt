-- ===== src/Scheduler/Start.antt =====
-- The life of a scheduler, src/task-dispatcher/scheduler.cc: `start` with its queues, the main
-- functions of the worker threads and of the fibers, and the shutdown. What comes from `native`
-- (threads, fibers, events) is a parameter or, for fibers and threads that are created and joined,
-- left out; the Chase-Lev deques are off.
pub mod Queues
use task_dispatcher.Base.{
  ℕ, zero, suc, ◌+◌, ◌-◌, ◌*◌, Bool, true, false, not, ◌&&◌, Option, none, some, Result, ok, err,
  stuck, ◌>>=◌, if◌then◌else◌, ◌==◌, min,
}
use task_dispatcher.Base.Words.{minus_one}
use task_dispatcher.FifoQueue
use task_dispatcher.MpmcQueue
use task_dispatcher.MpmcQueue.{MpmcQueue}
use task_dispatcher.SpinLock
use task_dispatcher.Scheduler.State.{
  invalid_fiber, invalid_thread, WaitingFiber, AtomicCounter, FiberDestination, none_dest,
  WorkerThread, WorkerFiber, Task, Tls, Shared, World, M, return, assert, fault, gets, modify,
  modify_tls, signal,
}
use task_dispatcher.Scheduler.Counters.{on_queue, counter_increment}
use task_dispatcher.Scheduler.HandlePool.{HandlePool}
use task_dispatcher.Scheduler.Fibers.{acquire_free_fiber, clean_up_prev_fiber, get_next_task}

-- The sizes of `mConfig` that `start` reads.
pub record Sizes : Type 0 where
  pub num_threads : ℕ
  pub num_fibers : ℕ
  pub max_num_counters : ℕ

-- `tls_t::reset`, and the default members of the arrays.
abbrev pub reset_tls : Tls
reset_tls = record {
  current_fiber_index = invalid_fiber;
  previous_fiber_index = invalid_fiber;
  previous_fiber_dest = none_dest;
  thread_index = invalid_thread;
  is_thread_waiting = false;
}

abbrev pub default_counter : AtomicCounter
default_counter = record {
  count = 0;
  waiting_fibers = λ _. record {
    counter_target = 0;
    fiber_index = invalid_fiber;
    pinned_thread_index = invalid_thread;
    in_use = true;
  };
  free_waiting_slots = λ _. false;
}

abbrev pub default_thread : WorkerThread
default_thread = record {
  pinned_resumable_fibers = FifoQueue.init 0;
  pinned_resumable_fibers_lock = record { is_locked = false };
}

abbrev pub default_fiber : WorkerFiber
default_fiber = record { is_waiting_cleaned_up = false }

-- `for (i = 0; i < size; ++i) queue.enqueue(i)` from `i` on, whose results are not looked at.
unfoldable pub populate : ℕ → ℕ → MpmcQueue ℕ → Result (MpmcQueue ℕ)
populate zero i q = ok q
populate (suc n) i q = do stored ← MpmcQueue.enqueue q i; populate n (i + 1) stored.1

-- `while (queue.dequeue(dump)) {}`, with fuel for its turns.
unfoldable pub drain : {A : Type 0} → ℕ → MpmcQueue A → Result (MpmcQueue A)
drain zero q = err stuck
drain (suc fuel) q = do
  taken ← MpmcQueue.dequeue q
  elim taken.0 [ none ↦ ok taken.1 | some x ↦ drain fuel taken.1 ]

-- The pauses that `fiber_func` makes after a turn without work.
abbrev pub max_backoff_pauses : ℕ
max_backoff_pauses = 1024

abbrev pub min_backoff_pauses : ℕ
min_backoff_pauses = 1

unfoldable pub next_backoff : ℕ → ℕ
next_backoff pauses = min max_backoff_pauses (pauses * 2)
