-- ===== src/Scheduler/Workers.antt =====
-- The main functions of src/task-dispatcher/scheduler.cc: `fiber_func`, `primary_fiber_func`,
-- `worker_func`, and `start` with the shutdown. `execute` runs a task's closure, `switch_to` and
-- `switch_to_thread` are `native::switch_to_fiber` to a fiber of the scheduler and to the thread's own,
-- and `hook index is_start` is the user's start and stop function.
pub mod Turns
pub mod Shutdown
mod Tests
use task_dispatcher.Base.{
  ℕ, zero, suc, ◌+◌, ◌-◌, ◌*◌, Bool, true, false, not, ◌&&◌, Option, none, some, Result, ok, err,
  stuck, if◌then◌else◌, ◌==◌,
}
use task_dispatcher.Base.Words.{minus_one}
use task_dispatcher.Scheduler.State.{
  M, ◌>>=◌, ◌>>◌, return, assert, fault, gets, modify, modify_tls, signal,
}
use task_dispatcher.Scheduler.Counters.{on_queue, counter_increment}
use task_dispatcher.Scheduler.HandlePool.{HandlePool}
use task_dispatcher.Scheduler.Fibers.{acquire_free_fiber, clean_up_prev_fiber, get_next_task}
use task_dispatcher.Scheduler.Start.{
  Sizes, reset_tls, default_counter, default_thread, default_fiber, populate, drain,
  max_backoff_pauses, min_backoff_pauses, next_backoff,
}

module _ {W P : Type 0} (execute : W → M W P (Unit {0})) (switch_to : ℕ → ℕ → M W P (Unit {0}))
    (switch_to_thread : ℕ → M W P (Unit {0})) (wait_for_event : M W P (Unit {0})) where
  -- A turn of the loop with no work: the backoff that it leaves.
  unfoldable pub idle_turn : ℕ → M W P ℕ
  idle_turn backoff = do
    thread_waits ← gets (λ w. w.is_thread_waiting)
    if backoff == max_backoff_pauses && not thread_waits
        then (wait_for_event >> return backoff)
        else return (next_backoff backoff)

  -- A turn of the loop in `fiber_func`: a task, after which its counter goes down by one, or a pause.
  unfoldable pub fiber_turn : ℕ → M W P ℕ
  unfolding idle_turn
  fiber_turn backoff = do
    task ← get_next_task switch_to
    elim task [
      | some t ↦ do
        execute t.work
        count ← counter_increment t.metadata minus_one
        return min_backoff_pauses
      | none ↦ idle_turn backoff
    ]

  -- The loop, with fuel for its turns.
  unfoldable pub fiber_loop : ℕ → ℕ → M W P (Unit {0})
  unfolding fiber_turn
  fiber_loop zero backoff = fault stuck
  fiber_loop (suc fuel) backoff =
      let again : ℕ → M W P (Unit {0}) = λ next. fiber_loop fuel next in
      do
        shutting_down ← gets (λ w. w.is_shutting_down)
        if shutting_down then return tt else (fiber_turn backoff >>= again)

  -- Nothing may come back behind the last switch.
  unfoldable pub fiber_func : ℕ → M W P (Unit {0})
  unfolding fiber_loop
  fiber_func fuel = do
    clean_up_prev_fiber
    fiber_loop fuel min_backoff_pauses
    current ← gets (λ w. w.current_fiber_index)
    switch_to_thread current
    assert false

  unfoldable pub primary_fiber_func : W → M W P (Unit {0})
  primary_fiber_func main_task = do
    execute main_task
    modify (λ s. record s { is_shutting_down = true })
    current ← gets (λ w. w.current_fiber_index)
    switch_to_thread current
    assert false

-- A queue operation that returns nothing.
abbrev pub done : {Q : Type 0} → Result Q → Result (Unit {0} × Q)
done (ok q) = ok (tt, q)
done (err e) = err e

-- `native::switch_to_fiber` from the thread's own fiber is `enter`.
module _ {W P : Type 0} (enter : ℕ → M W P (Unit {0})) (hook : ℕ → Bool → M W P (Unit {0})) where
  unfoldable pub worker_func : ℕ → ℕ → M W P (Unit {0})
  worker_func spins index = do
    modify_tls (λ t. record reset_tls { thread_index = index })
    hook index true
    fiber ← acquire_free_fiber spins
    modify_tls (λ t. record t { current_fiber_index = fiber })
    enter fiber
    hook index false

-- `join` is `native::join_thread` of a worker thread, which returns once that thread has ended, in the
-- world that it and the others have left by then.
module _ {W : Type 0} (H : HandlePool) (join : ℕ → M W (HandlePool.Pool H) (Unit {0})) where
  open H use {Pool, destroy}

  -- The loop over the worker threads from `i` on, `n` of them.
  unfoldable pub signal_joins : ℕ → ℕ → M W Pool (Unit {0})
  signal_joins zero i = return tt
  signal_joins (suc n) i = let rest = signal_joins n (i + 1) in do signal; join i; rest

  -- The block behind the return of the primary fiber, and whether `sCurrentScheduler` is set behind it;
  -- `fuel` is for the turns of each drain. The fibers and the event are native, and their deletion is
  -- left out.
  unfoldable pub shut_down : Sizes → ℕ → M W Pool Bool
  unfolding signal_joins
  shut_down sizes fuel = do
    shutting_down ← gets (λ w. w.is_shutting_down)
    (if shutting_down then return tt else fault stuck)
    signal
    signal_joins (sizes.num_threads - 1) 1
    on_queue (λ s. s.tasks) (λ q s. record s { tasks = q }) (λ q. done (drain fuel q))
    on_queue (λ s. s.idle_fibers) (λ q s. record s { idle_fibers = q }) (λ q. done (drain fuel q))
    on_queue (λ s. s.resumable_fibers) (λ q s. record s { resumable_fibers = q })
        (λ q. done (drain fuel q))
    on_queue (λ s. s.free_counters) (λ q s. record s { free_counters = q })
        (λ q. done (drain fuel q))
    modify (λ s. record s { counter_handles = destroy s.counter_handles })
    return false

-- `sizeof(void*) * 16`.
abbrev pub thread_stack_overhead_safety : ℕ
thread_stack_overhead_safety = 8 * 16

module _ {W P : Type 0} (create_thread : ℕ → ℕ → Option ℕ → M W P Bool) where
  -- The loop that launches the worker threads from `i` on, `n` of them, with a core each if they are
  -- pinned. `create_thread index stack_size core` is that of `native`.
  unfoldable pub launch_workers : ℕ → Bool → ℕ → ℕ → M W P (Unit {0})
  launch_workers stack pinned zero i = return tt
  launch_workers stack pinned (suc n) i =
      let rest = launch_workers stack pinned n (i + 1) in
      do
        success ←
            create_thread i (stack + thread_stack_overhead_safety)
              (if pinned then some (i - 1) else none)
        assert success
        rest

module _ {W : Type 0} (H : HandlePool) where
  open H use {Pool, initialize}

  -- The arrays, the handles, the thread-local state and the two filled queues. `sCurrentScheduler`, which
  -- is set from here on until the shutdown, is the argument `alive` of Syncs.
  unfoldable pub start_setup : Sizes → M W Pool (Unit {0})
  start_setup sizes = do
    modify (λ s. record s {
      threads = λ _. default_thread;
      fibers = λ _. default_fiber;
      counters = λ _. default_counter;
      counter_handles = initialize sizes.max_num_counters;
      is_shutting_down = false;
    })
    modify_tls (λ t. reset_tls)
    on_queue (λ s. s.idle_fibers) (λ q s. record s { idle_fibers = q })
        (λ q. done (populate sizes.num_fibers 0 q))
    on_queue (λ s. s.free_counters) (λ q s. record s { free_counters = q })
        (λ q. done (populate sizes.max_num_counters 0 q))
    modify_tls (λ t. record t { thread_index = 0 })

  -- `start`, where `enter` runs the primary fiber until it returns to the thread's own fiber, and
  -- with it whatever the worker threads do. The result is that of `shut_down`.
  unfoldable pub start :
      (ℕ → ℕ → Option ℕ → M W Pool Bool)
      → (ℕ → M W Pool (Unit {0}))
      → (ℕ → M W Pool (Unit {0}))
      → Sizes
      → ℕ
      → Bool
      → ℕ
      → ℕ
      → M W Pool Bool
  unfolding start_setup shut_down launch_workers
  start create_thread enter join sizes stack pinned spins fuel = do
    start_setup sizes
    launch_workers create_thread stack pinned (sizes.num_threads - 1) 1
    fiber ← acquire_free_fiber spins
    modify_tls (λ t. record t { current_fiber_index = fiber })
    enter fiber
    shut_down H join sizes fuel
