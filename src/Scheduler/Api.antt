-- ===== src/Scheduler/Api.antt =====
-- The calls that a task makes of the scheduler, src/task-dispatcher/scheduler.cc: submitting tasks,
-- waiting for a counter, and changing it by hand.
pub mod Waits
pub mod Parks
pub mod Submits
mod Tests
use task_dispatcher.Base.{
  ℕ, zero, suc, ◌+◌, ◌-◌, ◌*◌, ◌%◌, Bool, true, false, not, ◌&&◌, Option, none, some, List, [], ◌∷◌,
  Result, ok, err, if◌then◌else◌, ◌==◌, length,
}
use task_dispatcher.Base.Words.{u16_mod, u32_mod, minus_one, is_negative32, sub32}
use task_dispatcher.MpmcQueue
use task_dispatcher.Scheduler.State.{
  invalid_thread, FiberDestination, none_dest, waiting, pool, Task, Tls, Shared, World, M, ◌>>=◌,
  ◌>>◌, return, assert, gets, modify, modify_tls, set_cleaned_up, signal,
}
use task_dispatcher.Scheduler.Counters.{on_queue, counter_increment, counter_add_waiting_fiber}
use task_dispatcher.Scheduler.HandlePool.{HandlePool}
use task_dispatcher.Scheduler.Handles.{counter_index}
use task_dispatcher.Scheduler.Fibers.{acquire_free_fiber, yield_to_fiber}

abbrev pub enqueue_task : {W P : Type 0} → Task W → M W P Bool
enqueue_task t =
    on_queue (λ s. s.tasks) (λ q s. record s { tasks = q }) (λ q. MpmcQueue.enqueue q t)

-- `CurrentThreadIndex` and `CurrentFiberIndex`, which td-lean.hh passes on under these names.
unfoldable pub current_thread_id : {W P : Type 0} → World W P → ℕ
current_thread_id w = w.thread_index

unfoldable pub current_fiber_id : {W P : Type 0} → World W P → ℕ
current_fiber_id w = w.current_fiber_index

-- The loop of `submitTasks`, which goes on after a task that finds no room.
unfoldable pub enqueue_tasks : {W P : Type 0} → ℕ → List W → Bool → M W P Bool
enqueue_tasks c [] success = return success
enqueue_tasks c (work ∷ rest) success = do
  stored ← enqueue_task (record { metadata = c; work = work })
  enqueue_tasks c rest (success && stored)

module _ {W : Type 0} (H : HandlePool) where
  open H use {Pool, is_alive}

  unfoldable pub submit_tasks : List W → ℕ → M W Pool (Unit {0})
  unfolding enqueue_tasks
  submit_tasks tasks h = do
    c ← counter_index H h
    count ← counter_increment c (length tasks % u32_mod)
    success ← enqueue_tasks c tasks true
    signal
    assert success

  unfoldable pub increment_counter : ℕ → ℕ → M W Pool ℕ
  increment_counter h amount = do c ← counter_index H h; counter_increment c amount

  -- `int(amount) * -1`.
  unfoldable pub decrement_counter : ℕ → ℕ → M W Pool ℕ
  decrement_counter h amount = do c ← counter_index H h; counter_increment c (sub32 0 amount)

  -- `spins` bounds the attempts of `acquireFreeFiber`, and `switch_to` is `native::switch_to_fiber`.
  module _ (spins : ℕ) (switch_to : ℕ → ℕ → M W Pool (Unit {0})) where
    unfoldable pub wait : ℕ → Bool → ℕ → M W Pool ℕ
    wait h pinned target = do
      assert (not (is_negative32 target))
      alive ← gets (λ w. is_alive w.counter_handles h)
      assert alive
      c ← counter_index H h
      current ← gets (λ w. w.current_fiber_index)
      set_cleaned_up current false
      modify_tls (λ t. record t { is_thread_waiting = true })
      thread ← gets (λ w. if pinned then w.thread_index else invalid_thread)
      added ← counter_add_waiting_fiber c current thread target
      (if added.0
          then return tt
          else (do next ← acquire_free_fiber spins; yield_to_fiber switch_to next waiting))
      modify_tls (λ t. record t { is_thread_waiting = false })
      return added.1
