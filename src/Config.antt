-- ===== src/Config.antt =====
-- src/task-dispatcher/scheduler.config.cc and the `scheduler_config` of scheduler.hh: the sizes that
-- the scheduler is built with, and their check. `cc::ceil_pow2` and `cc::is_pow2` of clean-core are
-- parameters, with what their names promise on 32-bit words. The callbacks are left out.
pub mod Sizes
pub mod Tests
use task_dispatcher.Base.{
  ℕ, ◌+◌, ◌-◌, ◌*◌, ◌^◌, ◌≤◌, ◌<◌, ◌≡◌, Bool, true, false, ◌&&◌, if◌then◌else◌, ltb,
}
use task_dispatcher.Base.Words.{u16_mod, minus_one}

-- `static_alloc` is whether the pointer is set.
pub record SchedulerConfig : Type 0 where
  pub num_fibers : ℕ
  pub num_threads : ℕ
  pub max_num_counters : ℕ
  pub max_num_tasks : ℕ
  pub fiber_stack_size : ℕ
  pub pin_threads_to_cores : Bool
  pub static_alloc : Bool

-- What the code relies on: rounding up keeps a power of two and finds one at least as large, and the
-- test accepts the powers of two.
pub record IsPow2Library (ceil_pow2 : ℕ → ℕ) (is_pow2 : ℕ → Bool) : Type 0 where
  pub ceil_fixed : (k : ℕ) → k < 32 → ceil_pow2 (2 ^ k) ≡ 2 ^ k
  pub ceil_above :
      (n : ℕ) → 0 < n → n ≤ 2 ^ 31 → (k : ℕ) × (k < 32) × (ceil_pow2 n ≡ 2 ^ k) × (n ≤ 2 ^ k)
  pub accepts : (k : ℕ) → k < 32 → is_pow2 (2 ^ k) ≡ true
  pub accepted : (n : ℕ) → 0 < n → is_pow2 n ≡ true → (k : ℕ) × (n ≡ 2 ^ k)

module _ (ceil_pow2 : ℕ → ℕ) (is_pow2 : ℕ → Bool) where
  unfoldable pub ceil_to_pow2 : SchedulerConfig → SchedulerConfig
  ceil_to_pow2 c = record c {
    num_fibers = ceil_pow2 c.num_fibers;
    max_num_counters = ceil_pow2 c.max_num_counters;
    max_num_tasks = ceil_pow2 c.max_num_tasks;
  }

  unfoldable pub is_valid : SchedulerConfig → Bool
  is_valid c =
      if c.static_alloc
      then (ltb 0 c.num_fibers
          && ltb 0 c.num_threads
          && ltb 0 c.max_num_counters
          && ltb 0 c.max_num_tasks
          && is_pow2 c.num_fibers
          && is_pow2 c.max_num_counters
          && is_pow2 c.max_num_tasks
          && ltb c.num_fibers minus_one
          && ltb c.num_threads minus_one
          && ltb c.max_num_counters (u16_mod - 1))
      else false

  unfoldable pub validate : SchedulerConfig → Bool × SchedulerConfig
  unfolding is_valid ceil_to_pow2
  validate c = (is_valid (ceil_to_pow2 c), ceil_to_pow2 c)
