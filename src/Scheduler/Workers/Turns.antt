-- ===== src/Scheduler/Workers/Turns.antt =====
-- A turn of the loop in `fiber_func`, and what it does for a task that was submitted.
use task_dispatcher.Base.{ℕ, suc, ◌≡◌, true, false, some, List, [], ◌∷◌, ok, arith}
use task_dispatcher.Base.Words.{add32, minus_one}
use task_dispatcher.MpmcQueue.{MpmcQueue}
use task_dispatcher.MpmcQueue.Quiescent
use task_dispatcher.MpmcQueue.Quiescent.{IsQuiet}
use task_dispatcher.Scheduler.State.{max_waiting, Task, World, M}
use task_dispatcher.Scheduler.Counters.{counter_increment}
use task_dispatcher.Scheduler.Counters.Change.{recounted, counter_increment_lem}
use task_dispatcher.Scheduler.Counters.Waiting.{with_counter}
use task_dispatcher.Scheduler.Counters.Waking.{woken, checked, Ready, Woke, pinned, resumables}
use task_dispatcher.Scheduler.Api.Waits.{task_list, with_tasks}
use task_dispatcher.Scheduler.Fibers.{get_next_task}
use task_dispatcher.Scheduler.Fibers.NextTask.{get_next_task_lem}
use task_dispatcher.Scheduler.Start.{min_backoff_pauses}
use task_dispatcher.Scheduler.Workers.{fiber_turn, fiber_loop}

module _ {W P : Type 0} (execute : W → M W P (Unit {0})) (switch_to : ℕ → ℕ → M W P (Unit {0}))
    (switch_to_thread : ℕ → M W P (Unit {0})) (wait_for_event : M W P (Unit {0})) where
  turn-steps :
      (backoff n : ℕ) (t : Task W) (w x y z : World W P)
      → get_next_task switch_to w ≡ ok (some t, x)
      → execute t.work x ≡ ok (tt, y)
      → counter_increment t.metadata minus_one y ≡ ok (n, z)
      → fiber_turn execute switch_to switch_to_thread wait_for_event backoff w
        ≡ ok (min_backoff_pauses, z)
  unfolding fiber_turn
  turn-steps backoff n t w x y z e f g = ground (arith, e, f, g)

  -- A turn with no fiber to resume, on the oldest task, whose run returns: the task is taken and run, the
  -- counter in its metadata goes down by one from where the run left it, the fibers that waited for the
  -- new count are resumed, and the backoff is the least one. The queues have room for those fibers.
  pub fiber_turn_lem :
      (b k backoff : ℕ) (t : Task W) (l : List (Task W)) (run : World W P → World W P)
      (w : World W P)
      → Ready b [] w
      → resumables w ≡ []
      → pinned w w.thread_index ≡ []
      → IsQuiet k w.tasks
      → task_list w ≡ t ∷ l
      → ((x : World W P) → execute t.work x ≡ ok (tt, run x))
      → ((q : MpmcQueue (Task W))
          → let y = run (with_tasks w q) in
            let n = add32 (y.counters t.metadata).count minus_one in
            let left = recounted n (y.counters t.metadata) in
            Ready b (woken max_waiting n 0 left) (with_counter y t.metadata left))
      → (q : MpmcQueue (Task W)) × (Quiescent.contents q ≡ l)
        × (let y = run (with_tasks w q) in
            let n = add32 (y.counters t.metadata).count minus_one in
            let left = recounted n (y.counters t.metadata) in
            (z : World W P) × (fiber_turn execute switch_to switch_to_thread wait_for_event backoff
                w
              ≡ ok (min_backoff_pauses, z))
            × Woke t.metadata
                (checked max_waiting n 0 left)
                (woken max_waiting n 0 left)
                (with_counter y t.metadata left)
                z)
  fiber_turn_lem b k backoff t l run w ready nobody nobody_pinned v first runs ready_after =
      let (q, e, quiet, rest) =
        (get_next_task_lem switch_to b k w ready nobody nobody_pinned v).1 t l first in
      let y = run (with_tasks w q) in
      let n = add32 (y.counters t.metadata).count minus_one in
      let (z, f, woke, after) =
        (counter_increment_lem b t.metadata minus_one y (ready_after q)).1 (omega arith) in
      (
        q,
        rest,
        (z, turn-steps backoff n t w (with_tasks w q) y z e (runs (with_tasks w q)) f, woke),
      )

  -- A fiber leaves its loop at once when the scheduler shuts down, and a turn that returns is followed by
  -- the rest of the loop with the backoff that it leaves.
  pub fiber_loop_lem :
      (fuel backoff next : ℕ) (w x : World W P)
      → (w.is_shutting_down ≡ true
          → fiber_loop execute switch_to switch_to_thread wait_for_event (suc fuel) backoff w
            ≡ ok (tt, w))
        × (w.is_shutting_down ≡ false
            → fiber_turn execute switch_to switch_to_thread wait_for_event backoff w ≡ ok (next, x)
            → fiber_loop execute switch_to switch_to_thread wait_for_event (suc fuel) backoff w
              ≡ fiber_loop execute switch_to switch_to_thread wait_for_event fuel next x)
  unfolding fiber_loop
  fiber_loop_lem fuel backoff next w x =
      (λ down. ground (arith, down), λ up turn. ground (arith, up, turn))
