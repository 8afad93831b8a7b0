-- ===== src/Scheduler/Construct.antt =====
-- The constructor of the scheduler in src/task-dispatcher/scheduler.cc: its four queues in the order of the
-- members, and the checks of the configuration. The event is native and left out. `logical_cores` is
-- `system::num_logical_cores()`.
pub mod Ready
mod Tests
use task_dispatcher.Base.{ℕ, Bool, ok, Result, assert, ◌>>=◌, ◌>>◌, leb}
use task_dispatcher.MpmcQueue
use task_dispatcher.MpmcQueue.{MpmcQueue}
use task_dispatcher.Config.{SchedulerConfig, is_valid}
use task_dispatcher.Scheduler.State.{Task, World}
use task_dispatcher.Scheduler.Start.{Sizes}

pub record Queues (W : Type 0) : Type 0 where
  pub tasks : MpmcQueue (Task W)
  pub idle_fibers : MpmcQueue ℕ
  pub resumable_fibers : MpmcQueue ℕ
  pub free_counters : MpmcQueue ℕ

module _ {W : Type 0} (ceil_pow2 : ℕ → ℕ) (is_pow2 : ℕ → Bool) (logical_cores : ℕ)
    (no_task : Task W) where
  unfoldable pub construct : SchedulerConfig → Result (Queues W)
  construct config = do
    tasks ← MpmcQueue.init no_task config.max_num_tasks
    idle_fibers ← MpmcQueue.init 0 config.num_fibers
    resumable_fibers ← MpmcQueue.init 0 config.num_fibers
    free_counters ← MpmcQueue.init 0 config.max_num_counters
    assert (is_valid ceil_pow2 is_pow2 config)
    assert (leb config.num_threads logical_cores)
    ok (record {
      tasks = tasks;
      idle_fibers = idle_fibers;
      resumable_fibers = resumable_fibers;
      free_counters = free_counters;
    })

-- A scheduler with these queues.
abbrev pub with_queues : {W P : Type 0} → Queues W → World W P → World W P
with_queues m w = record {
  shared = record (w.shared) {
    tasks = m.tasks;
    idle_fibers = m.idle_fibers;
    resumable_fibers = m.resumable_fibers;
    free_counters = m.free_counters;
  };
  tls = w.tls;
}

abbrev pub sizes_of : SchedulerConfig → Sizes
sizes_of config = record {
  num_threads = config.num_threads;
  num_fibers = config.num_fibers;
  max_num_counters = config.max_num_counters;
}
