-- ===== src/Scheduler/Threads/Tests.antt =====
-- Two fibers and one thread, which takes fiber 0 and waits on it, so that it goes on with fiber 1.
use task_dispatcher.Base.{
  ℕ, ◌<◌, ◌≡◌, ◌≢◌, refl, arith, ok, err, stuck, zero, suc, Result, ℕ_discrete,
}
use task_dispatcher.Base.Members.{AllDistinct}
use task_dispatcher.MpmcQueue
use task_dispatcher.MpmcQueue.{MpmcQueue}
use task_dispatcher.MpmcQueue.Construct.{made, init_lem}
use task_dispatcher.Scheduler.State.{waiting, World}
use task_dispatcher.Scheduler.Samples.{Handles, handles, sample}
use task_dispatcher.Scheduler.Start.{Sizes, populate}
use task_dispatcher.Scheduler.Workers.{start_setup}
use task_dispatcher.Scheduler.Fibers.{acquire_free_fiber, clean_up_prev_fiber}
use task_dispatcher.Scheduler.Fibers.Switching.{switched}
use task_dispatcher.Scheduler.Fibers.Places.{Place, At}
use task_dispatcher.Scheduler.Threads.{
  on_fiber, arriving, System, at, leave, entered, enter, yield_waiting, view, Reach, set_up, later,
}
use task_dispatcher.Scheduler.Threads.Setup.{started}
use task_dispatcher.Scheduler.Threads.Owned.Arrivals.{destined}
use task_dispatcher.Scheduler.Threads.Owned.Reached.{each_fiber_once}
use task_dispatcher.Scheduler.Threads.Identity.{ids_differ}
use task_dispatcher.Scheduler.Api.{current_thread_id, current_fiber_id}

abbrev two_fibers : Sizes
two_fibers = record { num_threads = 1; num_fibers = 2; max_num_counters = 1 }

abbrev fresh_world : World ℕ Handles
fresh_world = record {
  shared = record (sample.shared) { idle_fibers = made 0 2; free_counters = made 0 2 };
  tls = sample.tls;
}

abbrev world_of : {A : Type 0} → Result (A × World ℕ Handles) → World ℕ Handles
world_of (ok (a, x)) = x
world_of (err e) = sample

set : World ℕ Handles
unfolding start_setup populate MpmcQueue.enqueue
set = world_of (start_setup handles two_fibers fresh_world)

first : System ℕ Handles
unfolding set
first = started set

-- The world behind the first acquisition, and behind the second.
one_taken : World ℕ Handles
unfolding first acquire_free_fiber MpmcQueue.dequeue
one_taken = world_of (acquire_free_fiber 1 (at 0 first))

second : System ℕ Handles
unfolding one_taken
second = leave 0 on_fiber (entered 0 0 one_taken) first

two_taken : World ℕ Handles
unfolding second acquire_free_fiber MpmcQueue.dequeue
two_taken = world_of (acquire_free_fiber 1 (at 0 second))

third : System ℕ Handles
unfolding two_taken
third = leave 0 arriving (switched 1 waiting two_taken) second

third-Reach : Reach handles 1 two_fibers third
unfolding third two_taken one_taken second first set acquire_free_fiber ℕ_discrete
    MpmcQueue.enqueue_run MpmcQueue.enqueue_step MpmcQueue.dequeue_run MpmcQueue.dequeue_step
third-Reach =
    later
      (later (set_up fresh_world set (init_lem 0 1 (omega arith) (omega arith)) refl)
        (enter 0 0 one_taken refl refl))
      (yield_waiting 0 1 two_taken refl refl)

each_fiber_once_example :
    ((f : ℕ)
      → f < 2
      → (p : Place) × At (view third) f p × ((q : Place) → At (view third) f q → q ≡ p))
    × ((f : ℕ) (p : Place) → At (view third) f p → f < 2)
    × AllDistinct (view third).idle
    × ((i : ℕ)
        → third.phase i ≡ arriving
        → (y : World ℕ Handles) × (clean_up_prev_fiber (at i third) ≡ ok (tt, y))
          × At
              (view (leave i on_fiber y third))
              (third.tls i).previous_fiber_index
              (destined (third.tls i).previous_fiber_dest))
each_fiber_once_example =
    each_fiber_once handles 1 two_fibers third (omega arith) (omega arith) (omega arith) third-Reach

-- Two threads have taken the two fibers, and a third one never gets one.
taken_by_1 : World ℕ Handles
unfolding second acquire_free_fiber MpmcQueue.dequeue
taken_by_1 = world_of (acquire_free_fiber 1 (at 1 second))

both_taken : System ℕ Handles
unfolding taken_by_1
both_taken = leave 1 on_fiber (entered 1 1 taken_by_1) second

third_thread_starves : (n : ℕ) → acquire_free_fiber n (at 2 both_taken) ≡ err stuck
unfolding both_taken taken_by_1 one_taken second first set acquire_free_fiber ℕ_discrete
    MpmcQueue.enqueue_run MpmcQueue.enqueue_step MpmcQueue.dequeue_run MpmcQueue.dequeue_step
third_thread_starves zero = refl
third_thread_starves (suc n) = third_thread_starves n

both_taken-Reach : Reach handles 1 two_fibers both_taken
unfolding both_taken taken_by_1 one_taken second first set acquire_free_fiber ℕ_discrete
    MpmcQueue.enqueue_run MpmcQueue.enqueue_step MpmcQueue.dequeue_run MpmcQueue.dequeue_step
both_taken-Reach =
    later
      (later (set_up fresh_world set (init_lem 0 1 (omega arith) (omega arith)) refl)
        (enter 0 0 one_taken refl refl))
      (enter 1 1 taken_by_1 refl refl)

ids_differ_example :
    (current_thread_id (at 0 both_taken) ≡ 0)
    × (current_thread_id (at 1 both_taken) ≡ 1)
    × (current_fiber_id (at 0 both_taken) ≢ current_fiber_id (at 1 both_taken))
unfolding both_taken second first ℕ_discrete
ids_differ_example =
    ids_differ handles 1 two_fibers both_taken 0 1 (omega arith) (omega arith) (omega arith)
      both_taken-Reach refl refl (omega arith)
