-- ===== src/Scheduler/Fibers.antt =====
-- Fibers of src/task-dispatcher/scheduler.cc: who runs next, and what becomes of the fiber that
-- yields. `switch_to target previous` is `native::switch_to_fiber`: it comes back when some thread
-- switches to `previous` again, with whatever the other fibers have done in between.
pub mod Switching
pub mod NextTask
pub mod Places
mod Tests
use task_dispatcher.Base.{
  ℕ, zero, suc, Bool, true, false, not, ◌&&◌, Option, none, some, ok, stuck, if◌then◌else◌, ◌==◌,
  update,
}
use task_dispatcher.FifoQueue
use task_dispatcher.MpmcQueue
use task_dispatcher.Scheduler.State.{
  invalid_fiber, max_pinned, FiberDestination, none_dest, waiting, pool, Task, M, ◌>>=◌, ◌>>◌,
  return, assert, fault, gets, modify_tls, set_cleaned_up, signal,
}
use task_dispatcher.Scheduler.Counters.{
  on_queue, lock_pinned, unlock_pinned, enqueue_pinned, enqueue_resumable,
}

module _ {W P : Type 0} where
  abbrev pub dequeue_idle : M W P (Option ℕ)
  dequeue_idle =
      on_queue (λ s. s.idle_fibers) (λ q s. record s { idle_fibers = q }) MpmcQueue.dequeue

  abbrev pub enqueue_idle : ℕ → M W P Bool
  enqueue_idle f =
      on_queue (λ s. s.idle_fibers) (λ q s. record s { idle_fibers = q })
        (λ q. MpmcQueue.enqueue q f)

  abbrev pub dequeue_resumable : M W P (Option ℕ)
  dequeue_resumable =
      on_queue (λ s. s.resumable_fibers) (λ q s. record s { resumable_fibers = q })
        MpmcQueue.dequeue

  abbrev pub dequeue_task : M W P (Option (Task W))
  dequeue_task = on_queue (λ s. s.tasks) (λ q s. record s { tasks = q }) MpmcQueue.dequeue

  -- `pinned_resumable_fibers.dequeue` of thread `t`, inside its lock.
  abbrev dequeue_pinned : ℕ → M W P (Option ℕ)
  dequeue_pinned t w =
      let (r, q) = FifoQueue.dequeue max_pinned (w.threads t).pinned_resumable_fibers in
      ok (
        r,
        record {
          shared = record (w.shared) {
            threads = update w.threads t (record (w.threads t) { pinned_resumable_fibers = q });
          };
          tls = w.tls;
        },
      )

  -- The loop over attempts has no end; `fuel` bounds the attempts that are followed here.
  unfoldable pub acquire_free_fiber : ℕ → M W P ℕ
  acquire_free_fiber zero = fault stuck
  acquire_free_fiber (suc fuel) =
      let again = acquire_free_fiber fuel in
      do res ← dequeue_idle; elim res [ some f ↦ return f | none ↦ again ]

  -- The two lines behind the `switch`.
  abbrev forget_previous : M W P (Unit {0})
  forget_previous =
      modify_tls
        (λ t. record t { previous_fiber_index = invalid_fiber; previous_fiber_dest = none_dest })

  unfoldable pub clean_up_prev_fiber : M W P (Unit {0})
  clean_up_prev_fiber = do
    dest ← gets (λ w. w.previous_fiber_dest)
    previous ← gets (λ w. w.previous_fiber_index)
    elim dest [
      | none_dest ↦ return tt
      | pool ↦ do stored ← enqueue_idle previous; forget_previous
      | waiting ↦ do set_cleaned_up previous true; forget_previous
    ]

  module _ (switch_to : ℕ → ℕ → M W P (Unit {0})) where
    unfoldable pub yield_to_fiber : ℕ → FiberDestination → M W P (Unit {0})
    unfolding clean_up_prev_fiber
    yield_to_fiber target_fiber own_destination = do
      modify_tls (λ t. record t {
        previous_fiber_index = t.current_fiber_index;
        previous_fiber_dest = own_destination;
        current_fiber_index = target_fiber;
      })
      previous ← gets (λ w. w.previous_fiber_index)
      current ← gets (λ w. w.current_fiber_index)
      assert (not (previous == invalid_fiber) && not (current == invalid_fiber))
      switch_to current previous
      clean_up_prev_fiber

    -- The compare-exchange of `is_waiting_cleaned_up` from true to false decides.
    unfoldable pub try_resume_fiber : ℕ → M W P Bool
    unfolding yield_to_fiber
    try_resume_fiber fiber = do
      cleaned_up ← gets (λ w. (w.fibers fiber).is_waiting_cleaned_up)
      if cleaned_up
          then (do set_cleaned_up fiber false; yield_to_fiber fiber pool; return true)
          else return false

    -- The block of `getNextTask` over the fibers pinned to this thread.
    unfoldable pub resume_pinned : M W P (Unit {0})
    unfolding try_resume_fiber
    resume_pinned = do
      thread ← gets (λ w. w.thread_index)
      lock_pinned thread
      got ← dequeue_pinned thread
      unlock_pinned thread
      elim got [
        | none ↦ return tt
        | some fiber ↦ do
          resumed ← try_resume_fiber fiber
          if resumed then return tt else (do
            lock_pinned thread
            enqueue_pinned thread fiber
            unlock_pinned thread
            signal)
      ]

    -- Its block over the scheduler's resumable fibers.
    unfoldable pub resume_global : M W P (Unit {0})
    unfolding try_resume_fiber
    resume_global = do
      got ← dequeue_resumable
      elim got [
        | none ↦ return tt
        | some fiber ↦ do
          resumed ← try_resume_fiber fiber
          if resumed then return tt else (do stored ← enqueue_resumable fiber; signal)
      ]

    -- With `gc_use_workstealing` off, as it is.
    unfoldable pub get_next_task : M W P (Option (Task W))
    unfolding resume_pinned resume_global
    get_next_task = do resume_pinned; resume_global; dequeue_task
