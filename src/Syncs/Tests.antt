-- ===== src/Syncs/Tests.antt =====
-- Syncs on the sample world of the scheduler.
use task_dispatcher.Base.{
  ℕ, ◌≡◌, ◌≢◌, refl, ℕ_discrete, true, false, some, ok, update, arith, length, ◌^◌, ◌<◌, ◌++◌, ◌∷◌,
  [],
}
use task_dispatcher.Scheduler.State.{waiting, World, M, ◌>>◌, return, modify}
use task_dispatcher.Scheduler.Samples.{Handles, handles, sample, awaited, one_free-IsQuiet}
use task_dispatcher.Scheduler.Handles.Cycle.{free_list}
use task_dispatcher.Scheduler.Counters.Change.{recounted}
use task_dispatcher.Scheduler.Trials.{one_idle, none_idle, come_back, world_of, takes_five}
use task_dispatcher.Scheduler.Api.Parks.{registered_in, resumed}
use task_dispatcher.Scheduler.Fibers.{clean_up_prev_fiber}
use task_dispatcher.Scheduler.Fibers.Switching.{with_idle, switched}
use task_dispatcher.MpmcQueue
use task_dispatcher.MpmcQueue.Quiescent.{IsQuiet}
use task_dispatcher.Syncs.{null_handle_value, single_wait_for, Future, future_move, future_destroy}
use task_dispatcher.Syncs.Laws.{single_wait_for_lem, single_wait_for-parked, future_move-destroy}

abbrev no_switch : ℕ → ℕ → M ℕ Handles (Unit {0})
no_switch target previous = return tt

-- Counter 2, behind handle 0, is down to 0; two of its slots are taken.
abbrev finished : World ℕ Handles
finished = record {
  shared = record (sample.shared) { counters = update sample.counters 2 (recounted 0 awaited) };
  tls = sample.tls;
}

single_wait_for_example :
    (left : ℕ) × (y : World ℕ Handles) × (single_wait_for handles true 1 no_switch 0 true finished
      ≡ ok ((0, left), y))
    × (left ≡ null_handle_value)
    × (handles.is_alive y.counter_handles 0 ≡ false)
    × (free_list y ≡ free_list finished ++ (2 ∷ []))
    × (single_wait_for handles true 1 no_switch left true y ≡ ok ((0, left), y))
unfolding ℕ_discrete
single_wait_for_example =
    single_wait_for_lem handles 1 no_switch 0 3 2 true finished (omega arith) refl refl refl
      one_free-IsQuiet (omega arith)

-- Another thread takes the counter down to 0 before it resumes the fiber.
abbrev finish : ℕ → ℕ → M ℕ Handles (Unit {0})
finish target previous =
    modify (λ s. record s { counters = update s.counters 2 (recounted 0 (s.counters 2)) })
    >> come_back target previous

abbrev resuming : World ℕ Handles
resuming = world_of one_idle (
    finish 5 4 (
      switched 5 waiting
        (with_idle (registered_in handles 1 finish 0 true 0 2 one_idle) none_idle)))

abbrev tidy : World ℕ Handles
unfolding clean_up_prev_fiber
tidy = world_of one_idle (clean_up_prev_fiber resuming)

tidies : clean_up_prev_fiber resuming ≡ ok (tt, tidy)
unfolding clean_up_prev_fiber tidy ℕ_discrete MpmcQueue.enqueue MpmcQueue.enqueue_run
    MpmcQueue.enqueue_step
tidies = refl

tidy-IsQuiet : IsQuiet 3 tidy.free_counters × (length (free_list tidy) < 2 ^ 3)
unfolding tidy clean_up_prev_fiber ℕ_discrete MpmcQueue.enqueue MpmcQueue.enqueue_run
    MpmcQueue.enqueue_step
tidy-IsQuiet = (one_free-IsQuiet, omega arith)

single_wait_for-parked_example :
    let c = handles.get tidy.counter_handles 0 in
    ((tidy.counters c).count ≡ 0
      → (z : World ℕ Handles) × (single_wait_for handles true 1 finish 0 true one_idle
          ≡ ok ((1, null_handle_value), z))
        × (handles.is_alive z.counter_handles 0 ≡ false)
        × (free_list z ≡ free_list tidy ++ (c ∷ [])))
    × ((tidy.counters c).count ≢ 0
        → single_wait_for handles true 1 finish 0 true one_idle
          ≡ ok ((1, 0), resumed handles 1 finish tidy))
unfolding ℕ_discrete
single_wait_for-parked_example =
    single_wait_for-parked handles 1 finish 0 3 3 2 5 true [] none_idle one_idle resuming tidy 0
      refl (omega arith) refl refl refl one_free-IsQuiet refl takes_five (omega arith) (omega arith)
      refl tidies tidy-IsQuiet.0 tidy-IsQuiet.1

future_move-destroy_example :
    let f : Future = record { sync = 0; value = some 64 } in
    let (to, from) = future_move f in
    (to ≡ f) × (future_destroy handles 1 no_switch from sample ≡ ok (from, sample))
future_move-destroy_example =
    future_move-destroy handles 1 no_switch (record { sync = 0; value = some 64 }) sample
