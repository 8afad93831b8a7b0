-- ===== src/Scheduler/Threads.antt =====
-- The threads of src/task-dispatcher/scheduler.cc and their switches of fibers, one access to what the
-- threads share at a time: `acquireFreeFiber`, `yieldToFiber`, `cleanUpPrevFiber`, `tryResumeFiber`, and
-- the part of `wait` about fibers. A call of a queue is one access. Which fiber a thread tries to resume
-- is left open: it is any fiber, at any time.
pub mod Owned
pub mod Setup
pub mod Views
pub mod Identity
mod Tests
use task_dispatcher.Base.{
  ℕ, suc, ◌+◌, ◌^◌, ◌≡◌, Bool, true, false, Option, none, some, ok, update, if◌then◌else◌,
}
use task_dispatcher.MpmcQueue
use task_dispatcher.MpmcQueue.Quiescent
use task_dispatcher.Scheduler.State.{waiting, pool, Tls, Shared, World, WorkerFiber}
use task_dispatcher.Scheduler.HandlePool.{HandlePool}
use task_dispatcher.Scheduler.Start.{Sizes, reset_tls}
use task_dispatcher.Scheduler.Fibers.{acquire_free_fiber, clean_up_prev_fiber}
use task_dispatcher.Scheduler.Fibers.Switching.{with_flag, with_tls, switched}
use task_dispatcher.Scheduler.Fibers.Places.{View}
use task_dispatcher.Scheduler.Workers.{start_setup}

-- A thread is on its own fiber, on a fiber of the scheduler, on one that it has switched to and that has
-- not cleaned up yet, or back on its own fiber at the end.
pub data Phase : Type 0 where
  outside : Phase
  on_fiber : Phase
  arriving : Phase
  halted : Phase

pub record System (W P : Type 0) : Type 0 where
  pub shared : Shared W P
  pub tls : ℕ → Tls
  pub phase : ℕ → Phase

abbrev pub has_fiber : Phase → Bool
has_fiber outside = false
has_fiber on_fiber = true
has_fiber arriving = true
has_fiber halted = true

abbrev pub has_previous : Phase → Bool
has_previous outside = false
has_previous on_fiber = false
has_previous arriving = true
has_previous halted = false

module _ {W P : Type 0} where
  -- What thread `i` sees, and what it leaves.
  abbrev pub at : ℕ → System W P → World W P
  at i s = record { shared = s.shared; tls = s.tls i }

  abbrev pub leave : ℕ → Phase → World W P → System W P → System W P
  leave i p w s = record {
    shared = w.shared;
    tls = update s.tls i w.tls;
    phase = update s.phase i p;
  }

  -- `worker_func` up to its switch, with fiber `f`.
  abbrev pub entered : ℕ → ℕ → World W P → World W P
  entered i f w = with_tls w (record reset_tls { thread_index = i; current_fiber_index = f })

  pub data Step (s : System W P) : System W P → Type 0 where
    enter :
        (i f : ℕ) (x : World W P)
        → s.phase i ≡ outside
        → acquire_free_fiber 1 (at i s) ≡ ok (f, x)
        → Step s (leave i on_fiber (entered i f x) s)
    clear_flag :
        (i : ℕ)
        → s.phase i ≡ on_fiber
        → Step s (leave i on_fiber (with_flag (at i s) (s.tls i).current_fiber_index false) s)
    yield_waiting :
        (i f : ℕ) (x : World W P)
        → s.phase i ≡ on_fiber
        → acquire_free_fiber 1 (at i s) ≡ ok (f, x)
        → Step s (leave i arriving (switched f waiting x) s)
    resume :
        (i f : ℕ)
        → s.phase i ≡ on_fiber
        → (s.shared.fibers f).is_waiting_cleaned_up ≡ true
        → Step s (leave i arriving (switched f pool (with_flag (at i s) f false)) s)
    arrive :
        (i : ℕ) (y : World W P)
        → s.phase i ≡ arriving
        → clean_up_prev_fiber (at i s) ≡ ok (tt, y)
        → Step s (leave i on_fiber y s)
    halt :
        (i : ℕ)
        → s.phase i ≡ on_fiber
        → s.shared.is_shutting_down ≡ true
        → Step s (leave i halted (at i s) s)
    -- What a thread does to tasks, counters and resumable fibers.
    other :
        (sh : Shared W P)
        → sh.idle_fibers ≡ s.shared.idle_fibers
        → sh.fibers ≡ s.shared.fibers
        → Step s (record s { shared = sh })

  abbrev pub view : System W P → View
  view s = record {
    idle = Quiescent.contents s.shared.idle_fibers;
    running = λ i. if has_fiber (s.phase i) then some (s.tls i).current_fiber_index else none;
    leaving = λ i. if has_previous (s.phase i) then some (s.tls i).previous_fiber_index else none;
    flag = λ f. (s.shared.fibers f).is_waiting_cleaned_up;
  }

-- What is reached from `start` once the scheduler is set up: the queue of idle fibers comes from its
-- constructor, and has 2 ^ k cells.
module _ {W : Type 0} (H : HandlePool) where
  open H use {Pool}

  pub data Reach (k : ℕ) (sizes : Sizes) : System W Pool → Type 0 where
    set_up :
        (w x : World W Pool)
        → MpmcQueue.init 0 (2 ^ k) ≡ ok w.idle_fibers
        → start_setup H sizes w ≡ ok (tt, x)
        → Reach k sizes (record { shared = x.shared; tls = λ _. reset_tls; phase = λ _. outside })
    later : {s t : System W Pool} → Reach k sizes s → Step s t → Reach k sizes t
