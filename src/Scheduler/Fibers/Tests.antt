-- ===== src/Scheduler/Fibers/Tests.antt =====
-- Fibers on the sample world, with fiber 5 as the idle or the resumable one.
use task_dispatcher.Base.{
  ℕ, suc, ◌+◌, ◌≡◌, refl, true, false, none, some, List, [], ◌∷◌, ◌++◌, ok, err, stuck, arith,
  ℕ_discrete,
}
use task_dispatcher.FifoQueue
use task_dispatcher.MpmcQueue.{MpmcQueue}
use task_dispatcher.MpmcQueue.Quiescent
use task_dispatcher.MpmcQueue.Quiescent.{IsQuiet}
use task_dispatcher.MpmcQueue.Tests.{fresh8-IsQuiet}
use task_dispatcher.Scheduler.State.{pool, none_dest, Task, World, M, return}
use task_dispatcher.Scheduler.Samples.{Handles, sample, one_free, one_free-IsQuiet}
use task_dispatcher.Scheduler.Samples.Idle.{idle-Ready}
use task_dispatcher.Scheduler.Counters.Waking.{resumables}
use task_dispatcher.Scheduler.Api.Waits.{task_list, with_tasks}
use task_dispatcher.Scheduler.Fibers.{
  acquire_free_fiber, clean_up_prev_fiber, try_resume_fiber, resume_global, get_next_task,
}
use task_dispatcher.Scheduler.Fibers.Switching.{
  idle, with_idle, with_flag, switched, Settled, clean_up_prev_fiber_lem, acquire_free_fiber_lem,
  try_resume_fiber_lem,
}
use task_dispatcher.Scheduler.Fibers.NextTask.{resume_global_lem, get_next_task_lem}

-- Fiber 2 has left for the pool.
abbrev leaving : World ℕ Handles
leaving = record {
  shared = record (sample.shared) {
    idle_fibers = one_free;
    resumable_fibers = one_free;
    fibers = λ f. record { is_waiting_cleaned_up = false };
  };
  tls = record (sample.tls) { previous_fiber_index = 2; previous_fiber_dest = pool };
}

abbrev no_switch : ℕ → ℕ → M ℕ Handles (Unit {0})
no_switch target previous = return tt

clean_up_prev_fiber_example :
    (y : World ℕ Handles) × (clean_up_prev_fiber leaving ≡ ok (tt, y))
    × (y.previous_fiber_dest ≡ none_dest)
    × IsQuiet 3 y.idle_fibers
    × Settled pool 2 leaving y
clean_up_prev_fiber_example = clean_up_prev_fiber_lem 3 leaving one_free-IsQuiet (omega arith)

acquire_free_fiber_example :
    ((f : ℕ) (l : List ℕ) (n : ℕ)
      → idle leaving ≡ f ∷ l
      → (q : MpmcQueue ℕ) × (acquire_free_fiber (suc n) leaving ≡ ok (f, with_idle leaving q))
        × IsQuiet 3 q
        × (Quiescent.contents q ≡ l))
    × (idle leaving ≡ [] → (n : ℕ) → acquire_free_fiber n leaving ≡ err stuck)
acquire_free_fiber_example = acquire_free_fiber_lem 3 leaving one_free-IsQuiet

try_resume_fiber_example :
    ((leaving.fibers 5).is_waiting_cleaned_up ≡ false
      → try_resume_fiber no_switch 5 leaving ≡ ok (false, leaving))
    × ((leaving.fibers 5).is_waiting_cleaned_up ≡ true
        → no_switch 5 4 (switched 5 pool (with_flag leaving 5 false)) ≡ ok (tt, sample)
        → clean_up_prev_fiber sample ≡ ok (tt, sample)
        → try_resume_fiber no_switch 5 leaving ≡ ok (true, sample))
try_resume_fiber_example =
    try_resume_fiber_lem no_switch 5 leaving sample sample (omega arith) (omega arith)

resume_global_example :
    (resumables leaving ≡ [] → resume_global no_switch leaving ≡ ok (tt, leaving))
    × ((f : ℕ) (l : List ℕ)
        → resumables leaving ≡ f ∷ l
        → (leaving.fibers f).is_waiting_cleaned_up ≡ false
        → (y : World ℕ Handles) × (resume_global no_switch leaving ≡ ok (tt, y))
          × IsQuiet 3 y.resumable_fibers
          × (resumables y ≡ l ++ (f ∷ []))
          × (y.signals ≡ leaving.signals + 1))
resume_global_example = resume_global_lem no_switch 3 leaving one_free-IsQuiet

get_next_task_example :
    (task_list sample ≡ [] → get_next_task no_switch sample ≡ ok (none, sample))
    × ((t : Task ℕ) (l : List (Task ℕ))
        → task_list sample ≡ t ∷ l
        → (q : MpmcQueue (Task ℕ)) × (get_next_task no_switch sample
            ≡ ok (some t, with_tasks sample q))
          × IsQuiet 3 q
          × (Quiescent.contents q ≡ l))
unfolding ℕ_discrete FifoQueue.init
get_next_task_example =
    get_next_task_lem no_switch 3 3 sample (idle-Ready sample.counters [] refl) refl refl
      (fresh8-IsQuiet (record { metadata = 0; work = 0 }))
