-- ===== src/Scheduler/Api/Tests.antt =====
-- Two tasks for counter 2 of the sample world, whose count wraps to the 0 that two fibers wait for, one
-- of them pinned.
use task_dispatcher.Base.{ℕ, ◌+◌, ◌-◌, ◌≡◌, [], ◌∷◌, ◌++◌, ok, arith, length, update, ℕ_discrete}
use task_dispatcher.Base.Words.{minus_one}
use task_dispatcher.MpmcQueue.Tests.{fresh8-IsQuiet}
use task_dispatcher.Scheduler.State.{max_waiting, World}
use task_dispatcher.Scheduler.Samples.{Handles, handles, sample, awaited}
use task_dispatcher.Scheduler.Counters.Change.{recounted}
use task_dispatcher.Scheduler.Counters.Waking.{woken, unpinned, pinned_to, pinned, resumables}
use task_dispatcher.Scheduler.Tests.{woken-awaited, sample-Ready}
use task_dispatcher.Scheduler.Api.{submit_tasks}
use task_dispatcher.Scheduler.Api.Waits.{task_list, tagged}
use task_dispatcher.Scheduler.Api.Submits.{submit_tasks_lem}

abbrev wrapping : World ℕ Handles
wrapping = record {
  shared = record (sample.shared) {
    counters = update sample.counters 2 (recounted (minus_one - 1) awaited);
  };
  tls = sample.tls;
}

submit_tasks_example :
    let awake = woken max_waiting 0 0 (recounted 0 awaited) in
    (y : World ℕ Handles) × (submit_tasks handles (10 ∷ 11 ∷ []) 0 wrapping ≡ ok (tt, y))
    × ((y.counters 2).count ≡ 0)
    × (task_list y ≡ task_list wrapping ++ tagged 2 (10 ∷ 11 ∷ []))
    × (resumables y ≡ resumables wrapping ++ unpinned awake)
    × (y.signals ≡ wrapping.signals + length awake + 1)
    × (y.counter_handles ≡ wrapping.counter_handles)
    × (y.fibers ≡ wrapping.fibers)
    × (y.tls ≡ wrapping.tls)
    × ((t : ℕ) → pinned y t ≡ pinned wrapping t ++ pinned_to t awake)
unfolding ℕ_discrete
submit_tasks_example =
    submit_tasks_lem handles 3 3 0 (10 ∷ 11 ∷ []) wrapping (λ e. cc) (omega arith)
      (sample-Ready (update wrapping.counters 2 (recounted 0 awaited))
        (woken max_waiting 0 0 (recounted 0 awaited)) (woken-awaited 0))
      (fresh8-IsQuiet (record { metadata = 0; work = 0 })) (omega arith)
