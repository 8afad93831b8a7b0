-- ===== src/Scheduler/Construct/Tests.antt =====
-- The defaults of the configuration, on the sample world.
use task_dispatcher.Base.{ℕ, ◌^◌, ◌≡◌, refl, [], ok, err, assertion, arith, inl, inr, true}
use task_dispatcher.MpmcQueue.Quiescent
use task_dispatcher.MpmcQueue.Quiescent.{IsQuiet}
use task_dispatcher.Config.{SchedulerConfig, is_valid}
use task_dispatcher.Config.Tests.{ceil_pow2, is_pow2, library, defaults, defaults-valid}
use task_dispatcher.Scheduler.State.{Task, World}
use task_dispatcher.Scheduler.Samples.{Handles, handles, sample}
use task_dispatcher.Scheduler.Workers.{start_setup}
use task_dispatcher.Scheduler.Construct.{Queues, construct, with_queues, sizes_of}
use task_dispatcher.Scheduler.Construct.Ready.{Filled, construct-start_setup, construct-asserts}

abbrev no_task : Task ℕ
no_task = record { metadata = 0; work = 0 }

construct-start_setup_example :
    (m : Queues ℕ) × (x : World ℕ Handles) × (f : ℕ) × (k : ℕ) × (t : ℕ) × (construct ceil_pow2
        is_pow2 8 no_task defaults
      ≡ ok m)
    × (start_setup handles (sizes_of defaults) (with_queues m sample) ≡ ok (tt, x))
    × (defaults.num_fibers ≡ 2 ^ f)
    × (defaults.max_num_counters ≡ 2 ^ k)
    × (defaults.max_num_tasks ≡ 2 ^ t)
    × Filled handles f k (sizes_of defaults) (with_queues m sample) x
    × IsQuiet t m.tasks
    × IsQuiet f m.resumable_fibers
    × (Quiescent.contents m.tasks ≡ [])
    × (Quiescent.contents m.resumable_fibers ≡ [])
construct-start_setup_example =
    construct-start_setup handles ceil_pow2 is_pow2 8 no_task defaults sample library defaults-valid
      (omega arith, omega arith) (omega arith, omega arith) (omega arith, omega arith) (omega arith)

-- Room for one task only.
abbrev one_task : SchedulerConfig
one_task = record defaults { max_num_tasks = 1 }

one_task-valid : is_valid ceil_pow2 is_pow2 one_task ≡ true
unfolding is_valid
one_task-valid = refl

construct-asserts_example : construct ceil_pow2 is_pow2 8 no_task one_task ≡ err assertion
construct-asserts_example =
    construct-asserts ceil_pow2 is_pow2 8 no_task one_task library one_task-valid (omega arith)
      (omega arith) (omega arith) (inr (inl (omega arith)))
