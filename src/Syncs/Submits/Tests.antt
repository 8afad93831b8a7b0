-- ===== src/Syncs/Submits/Tests.antt =====
-- Submits on the sample world of the scheduler: ten elements in at most three batches on the handle of
-- counter 2, and a function with a result on the free counter 5.
use task_dispatcher.Base.{
  ℕ, ◌+◌, ◌-◌, ◌*◌, ◌/◌, ◌≡◌, refl, true, some, List, [], ◌∷◌, ◌++◌, map, ok, arith, update,
  ℕ_discrete,
}
use task_dispatcher.Base.Words.{add32}
use task_dispatcher.Batches.Tests.{div_ceil, div_ceil-IsDivCeil, submit_ten}
use task_dispatcher.Batches.Cover.{Covers}
use task_dispatcher.MpmcQueue.Tests.{fresh8-IsQuiet}
use task_dispatcher.Scheduler.State.{max_waiting, World}
use task_dispatcher.Scheduler.Samples.{Handles, handles, sample, awaited, one_free-IsQuiet}
use task_dispatcher.Scheduler.Samples.Idle.{woken-idle, idle-Ready}
use task_dispatcher.Scheduler.Counters.Change.{recounted}
use task_dispatcher.Scheduler.Counters.Waking.{woken, resumables}
use task_dispatcher.Scheduler.Api.Waits.{task_list, tagged}
use task_dispatcher.Syncs.Submits.{submit_batched_n, submit_future}
use task_dispatcher.Syncs.Submits.Queued.{submit_batched_n_lem}
use task_dispatcher.Syncs.Submits.Single.{submit_future_lem}

abbrev three : List (ℕ × ℕ × ℕ)
three = (0, 4, 0) ∷ (4, 8, 1) ∷ (8, 10, 2) ∷ []

abbrev weigh : ℕ → ℕ → ℕ → ℕ
weigh start end batch = start + 100 * end + 10000 * batch

nobody_at_four : woken max_waiting 4 0 (recounted 4 awaited) ≡ []
nobody_at_four = woken-idle max_waiting 4 0 (recounted 4 awaited) (λ j. ground arith)

submit_batched_n_example :
    (y : World ℕ Handles) × (submit_batched_n handles true div_ceil 0 weigh 10 3 sample
      ≡ ok ((3, 0), y))
    × Covers ((10 + 3 - 1) / 3) 0 0 three 10
    × ((y.counters 2).count ≡ add32 (sample.counters 2).count 3)
    × (task_list y ≡ task_list sample ++ tagged 2 (map (λ r. weigh r.0 r.1 r.2) three))
unfolding ℕ_discrete
submit_batched_n_example =
    submit_batched_n_lem handles 3 3 0 10 3 div_ceil weigh three sample div_ceil-IsDivCeil
      (omega arith) (omega arith) (omega arith) (omega arith) submit_ten (omega arith)
      (idle-Ready (update sample.counters 2 (recounted 4 awaited))
        (woken max_waiting 4 0 (recounted 4 awaited)) nobody_at_four)
      (fresh8-IsQuiet (record { metadata = 0; work = 0 })) (omega arith)

submit_future_example :
    (y : World ℕ Handles) × (submit_future handles true 64 (λ a. a + 7) sample
      ≡ ok (record { sync = 1; value = some 64 }, y))
    × (handles.is_alive y.counter_handles 1 ≡ true)
    × (handles.get y.counter_handles 1 ≡ 5)
    × ((y.counters 5).count ≡ 1)
    × (task_list y ≡ task_list sample ++ tagged 5 (71 ∷ []))
    × (resumables y ≡ resumables sample)
unfolding ℕ_discrete
submit_future_example =
    submit_future_lem handles 3 3 3 5 1 64 (λ a. a + 7)
      (record { next = 2; alive = update (λ h. true) 1 true; index = λ h. 2 }) [] sample
      one_free-IsQuiet refl refl (idle-Ready sample.counters [] refl)
      (fresh8-IsQuiet (record { metadata = 0; work = 0 })) (omega arith)
