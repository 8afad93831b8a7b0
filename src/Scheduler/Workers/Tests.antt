-- ===== src/Scheduler/Workers/Tests.antt =====
-- A turn on the sample world with one task, which stands for counter 3 and changes nothing.
use task_dispatcher.Base.{
  ℕ, ◌≡◌, refl, [], ok, arith, if◌then◌else◌, ◌==◌, ℕ_discrete, update, subst, sym,
}
use task_dispatcher.FifoQueue
use task_dispatcher.MpmcQueue.{MpmcQueue}
use task_dispatcher.MpmcQueue.Quiescent
use task_dispatcher.MpmcQueue.Quiescent.{IsQuiet}
use task_dispatcher.Scheduler.State.{max_waiting, AtomicCounter, Task, World, M, return}
use task_dispatcher.Scheduler.Samples.{Handles, sample}
use task_dispatcher.Scheduler.Samples.Idle.{woken-idle, idle-Ready}
use task_dispatcher.Scheduler.Counters.Change.{recounted}
use task_dispatcher.Scheduler.Counters.Waiting.{with_counter}
use task_dispatcher.Scheduler.Counters.Waking.{woken, checked, Ready, Woke}
use task_dispatcher.Scheduler.Api.Waits.{with_tasks}
use task_dispatcher.Scheduler.Start.{min_backoff_pauses}
use task_dispatcher.Scheduler.Workers.{fiber_turn}
use task_dispatcher.Scheduler.Workers.Turns.{fiber_turn_lem}

abbrev task : Task ℕ
task = record { metadata = 3; work = 10 }

abbrev one_task : MpmcQueue (Task ℕ)
one_task = record {
  cells = λ i. record { sequence = if i == 0 then 1 else i; item = task };
  mask = 7;
  enqueue_pos = 1;
  dequeue_pos = 0;
}

one_task-IsQuiet : IsQuiet 3 one_task
one_task-IsQuiet = record {
  wide = (omega arith, omega arith);
  masked = refl;
  words = (omega arith, omega arith);
  fits = omega arith;
  filled = λ i h. ground arith;
  free = λ i h r. grind arith;
}

abbrev loaded : World ℕ Handles
loaded = with_tasks sample one_task

-- Counter 3 behind the task.
abbrev six : AtomicCounter
six = recounted 6 (sample.counters 3)

nobody_at_six : woken max_waiting 6 0 six ≡ []
nobody_at_six = woken-idle max_waiting 6 0 six (λ j. ground arith)

abbrev no_switch : ℕ → ℕ → M ℕ Handles (Unit {0})
no_switch target previous = return tt

loaded-Ready :
    (f : ℕ → AtomicCounter) (q : MpmcQueue (Task ℕ))
    → Ready 3 []
        (record { shared = record (sample.shared) { counters = f; tasks = q }; tls = sample.tls })
unfolding FifoQueue.init
loaded-Ready f q =
    let r = idle-Ready f [] refl in
    record {
      quiet = r.quiet;
      room = r.room;
      valid = r.valid;
      pinned_room = r.pinned_room;
      unlocked = r.unlocked;
    }

fiber_turn_example :
    (q : MpmcQueue (Task ℕ)) × (Quiescent.contents q ≡ [])
    × ((z : World ℕ Handles) × (fiber_turn
            (λ work. return tt)
            no_switch
            (λ f. return tt)
            (return tt)
            8
            loaded
          ≡ ok (min_backoff_pauses, z))
        × Woke 3
            (checked max_waiting 6 0 six)
            (woken max_waiting 6 0 six)
            (with_counter (with_tasks loaded q) 3 six)
            z)
unfolding ℕ_discrete FifoQueue.init
fiber_turn_example =
    fiber_turn_lem (λ work. return tt) no_switch (λ f. return tt) (return tt) 3 3 8 task [] (λ x. x)
      loaded (loaded-Ready sample.counters one_task) refl refl one_task-IsQuiet refl (λ x. refl)
      (λ q.
        subst (λ l. Ready 3 l (with_counter (with_tasks loaded q) 3 six)) (sym nobody_at_six)
          (loaded-Ready (update sample.counters 3 six) q))
