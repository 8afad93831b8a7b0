-- ===== src/Scheduler/Trials.antt =====
-- Handles, tasks, waits and queues on the sample world.
use task_dispatcher.Base.{
  ℕ, ◌≡◌, ◌≢◌, refl, true, false, [], ◌∷◌, ◌++◌, ok, arith, ℕ_discrete, some, update, err, Result,
}
use task_dispatcher.MpmcQueue
use task_dispatcher.MpmcQueue.{MpmcQueue}
use task_dispatcher.MpmcQueue.Quiescent
use task_dispatcher.MpmcQueue.Quiescent.{IsQuiet}
use task_dispatcher.MpmcQueue.Tests.{numbers8, numbers8-IsQuiet, fresh8-IsQuiet}
use task_dispatcher.Scheduler.State.{waiting, pool, Task, World, M, return, modify, modify_tls}
use task_dispatcher.Scheduler.Samples.{Handles, handles, sample, one_free, one_free-IsQuiet}
use task_dispatcher.Scheduler.Handles.{reset, acquire_counter_handle, release_counter_if_on_target}
use task_dispatcher.Scheduler.Handles.Cycle.{
  free_list, acquire-fresh_counter, release_on_target_lem,
}
use task_dispatcher.Scheduler.Start.{populate, drain}
use task_dispatcher.Scheduler.Start.Queues.{numbers, populate_lem, drain_lem}
use task_dispatcher.Scheduler.Api.{enqueue_tasks, wait}
use task_dispatcher.Scheduler.Api.Waits.{
  task_list, tagged, with_tasks, waited, enqueue_tasks_lem, wait-on_target,
}
use task_dispatcher.Scheduler.Fibers.{clean_up_prev_fiber}
use task_dispatcher.Scheduler.Fibers.Switching.{switched, with_idle}
use task_dispatcher.Scheduler.Api.Parks.{registered_in, resumed, wait-off_target}
use task_dispatcher.Scheduler.Workers.{shut_down}
use task_dispatcher.Scheduler.Workers.Shutdown.{shut_down_lem}

acquire-fresh_counter_example :
    (w' : World ℕ Handles) × (acquire_counter_handle handles sample ≡ ok (1, w'))
    × (handles.is_alive w'.counter_handles 1 ≡ true)
    × (handles.get w'.counter_handles 1 ≡ 5)
    × (w'.counters 5 ≡ reset (sample.counters 5))
    × IsQuiet 3 w'.free_counters
    × (free_list w' ≡ [])
    × ((j : ℕ)
        → handles.is_alive sample.counter_handles j ≡ true
        → (handles.is_alive w'.counter_handles j ≡ true)
          × (handles.get w'.counter_handles j ≡ handles.get sample.counter_handles j))
acquire-fresh_counter_example =
    acquire-fresh_counter handles 3 sample one_free-IsQuiet 5 1 _ [] refl refl

release_on_target_example :
    ((sample.counters 2).count ≡ 1
      → (w' : World ℕ Handles) × (release_counter_if_on_target handles 0 1 sample ≡ ok (true, w'))
        × (handles.is_alive w'.counter_handles 0 ≡ false)
        × IsQuiet 3 w'.free_counters
        × (free_list w' ≡ free_list sample ++ (2 ∷ [])))
    × ((sample.counters 2).count ≢ 1
        → release_counter_if_on_target handles 0 1 sample ≡ ok (false, sample))
unfolding ℕ_discrete
release_on_target_example =
    release_on_target_lem handles 3 sample one_free-IsQuiet 0 1 (omega arith)

populate_example :
    (q' : MpmcQueue ℕ) × (populate 8 0 numbers8 ≡ ok q')
    × IsQuiet 3 q'
    × (Quiescent.contents q' ≡ Quiescent.contents numbers8 ++ numbers 8 0)
populate_example = populate_lem 8 0 3 numbers8 numbers8-IsQuiet (omega arith)

drain_example :
    (q' : MpmcQueue ℕ) × (drain 2 one_free ≡ ok q') × IsQuiet 3 q' × (Quiescent.contents q' ≡ [])
drain_example = drain_lem (5 ∷ []) 2 3 one_free one_free-IsQuiet refl (omega arith)

enqueue_tasks_example :
    (q : MpmcQueue (Task ℕ)) × (enqueue_tasks 2 (10 ∷ 11 ∷ []) true sample
      ≡ ok (true, with_tasks sample q))
    × IsQuiet 3 q
    × (Quiescent.contents q ≡ task_list sample ++ tagged 2 (10 ∷ 11 ∷ []))
enqueue_tasks_example =
    enqueue_tasks_lem 2 3 (10 ∷ 11 ∷ []) sample (fresh8-IsQuiet (record { metadata = 0; work = 0 }))
      (omega arith)

wait-on_target_example :
    wait handles 1 (λ f g. return tt) 0 true 1 sample
    ≡ ok (1, waited handles 1 (λ f g. return tt) 0 true 1 2 sample)
unfolding ℕ_discrete
wait-on_target_example = wait-on_target handles 1 (λ f g. return tt) 0 true 2 sample refl refl refl

abbrev pub one_idle : World ℕ Handles
one_idle = record { shared = record (sample.shared) { idle_fibers = one_free }; tls = sample.tls }

-- The queue of idle fibers once fiber 5 has left it.
abbrev pub none_idle : MpmcQueue ℕ
none_idle = record {
  cells = update one_free.cells 0 (record { sequence = 8; item = 5 });
  mask = 7;
  enqueue_pos = 1;
  dequeue_pos = 1;
}

-- Another fiber resumes the one that was left, and is on its way to the pool.
abbrev pub come_back : ℕ → ℕ → M ℕ Handles (Unit {0})
come_back target previous = modify_tls (λ t. record t {
  current_fiber_index = previous;
  previous_fiber_index = target;
  previous_fiber_dest = pool;
})

abbrev pub world_of :
    {A : Type 0} → World ℕ Handles → Result (A × World ℕ Handles) → World ℕ Handles
world_of w (ok (a, x)) = x
world_of w (err e) = w

abbrev switched_back : World ℕ Handles
switched_back = world_of one_idle (
    come_back 5 4 (
      switched 5 waiting
        (with_idle (registered_in handles 1 come_back 0 true 3 2 one_idle) none_idle)))

abbrev back : World ℕ Handles
unfolding clean_up_prev_fiber
back = world_of one_idle (clean_up_prev_fiber switched_back)

pub takes_five : MpmcQueue.dequeue one_free ≡ ok (some 5, none_idle)
unfolding MpmcQueue.dequeue MpmcQueue.dequeue_run MpmcQueue.dequeue_step ℕ_discrete
takes_five = refl

cleans_up : clean_up_prev_fiber switched_back ≡ ok (tt, back)
unfolding clean_up_prev_fiber back ℕ_discrete MpmcQueue.enqueue MpmcQueue.enqueue_run
    MpmcQueue.enqueue_step
cleans_up = refl

wait-off_target_example :
    IsQuiet 3 none_idle
    × (Quiescent.contents none_idle ≡ [])
    × (wait handles 1 come_back 0 true 3 one_idle ≡ ok (1, resumed handles 1 come_back back))
unfolding ℕ_discrete
wait-off_target_example =
    wait-off_target handles 1 come_back 0 3 2 5 true 3 [] none_idle one_idle switched_back back 0
      refl refl refl refl refl one_free-IsQuiet refl takes_five (omega arith) (omega arith) refl
      cleans_up

-- The main task has asked for the shutdown of two threads.
abbrev ending : World ℕ Handles
ending = record { shared = record (one_idle.shared) { is_shutting_down = true }; tls = sample.tls }

-- The worker thread has left a fiber to be resumed.
abbrev ends : ℕ → M ℕ Handles (Unit {0})
ends thread = modify (λ s. record s { resumable_fibers = one_free })

abbrev joined : World ℕ Handles
joined = record {
  shared = record (ending.shared) { resumable_fibers = one_free; signals = 2 };
  tls = sample.tls;
}

shut_down_example :
    (y : World ℕ Handles) × (shut_down handles ends
        (record { num_threads = 2; num_fibers = 8; max_num_counters = 8 })
        2
        ending
      ≡ ok (false, y))
    × (Quiescent.contents y.tasks ≡ [])
    × (Quiescent.contents y.idle_fibers ≡ [])
    × (Quiescent.contents y.resumable_fibers ≡ [])
    × (Quiescent.contents y.free_counters ≡ [])
    × (y.counter_handles ≡ handles.destroy joined.counter_handles)
    × (y.is_shutting_down ≡ joined.is_shutting_down)
    × (y.signals ≡ joined.signals)
    × (y.counters ≡ joined.counters)
    × (y.fibers ≡ joined.fibers)
    × (y.threads ≡ joined.threads)
    × (y.tls ≡ joined.tls)
shut_down_example =
    shut_down_lem handles ends (record { num_threads = 2; num_fibers = 8; max_num_counters = 8 }) 2
      3 3 3 3 ending joined refl (joined, refl, refl)
      (fresh8-IsQuiet (record { metadata = 0; work = 0 }), omega arith)
      (one_free-IsQuiet, omega arith) (one_free-IsQuiet, omega arith)
      (one_free-IsQuiet, omega arith)
