-- ===== src/Scheduler/Construct/Ready.antt =====
-- From a configuration to a scheduler that is set up: src/task-dispatcher/scheduler.config.cc, the
-- constructor in src/task-dispatcher/scheduler.cc, and the beginning of its `start`.
use task_dispatcher.Base.{
  ℕ, zero, suc, ◌^◌, ◌≤◌, ◌<◌, ◌≡◌, refl, ap, ◌∙◌, Bool, true, false, [], ◌++◌, ok, err, assertion,
  ◌⊎◌, inl, inr, arith, length, dec_le,
}
use native.Mathlib.Nat.{pow-le-pow_right}
use task_dispatcher.MpmcQueue
use task_dispatcher.MpmcQueue.{MpmcQueue}
use task_dispatcher.MpmcQueue.Construct.{init-IsQuiet, init-one}
use task_dispatcher.MpmcQueue.Quiescent
use task_dispatcher.MpmcQueue.Quiescent.{IsQuiet}
use task_dispatcher.Config.{SchedulerConfig, IsPow2Library, is_valid}
use task_dispatcher.Config.Sizes.{is_valid-sizes}
use task_dispatcher.Scheduler.State.{Task, World}
use task_dispatcher.Scheduler.HandlePool.{HandlePool}
use task_dispatcher.Scheduler.Start.{
  Sizes, populate, reset_tls, default_thread, default_fiber, default_counter,
}
use task_dispatcher.Scheduler.Start.Queues.{numbers, populate_lem}
use task_dispatcher.Scheduler.Workers.{start_setup}
use task_dispatcher.Scheduler.Construct.{Queues, construct, with_queues, sizes_of}

-- The exponent of a 32-bit size of at least 2.
exponent : (k n : ℕ) → n ≡ 2 ^ k → 2 ≤ n → n < 2 ^ 32 → (1 ≤ k) × (k ≤ 62)
exponent zero n e lo hi = absurd (omega arith)
exponent (suc k) n e lo hi = (omega arith, small (suc k) (omega arith))
  where
    small : (j : ℕ) → 2 ^ j < 2 ^ 32 → j ≤ 62
    small j h = elim (dec_le j 62) [
      | yes p ↦ p
      | no p ↦
          absurd
            (omega (arith, pow-le-pow_right {n = 2} (omega arith) {i = 32} {j = j} (omega arith)))
    ]

-- A queue of one of the sizes.
made_lem :
    {A : Type 0} (z : A) (k n : ℕ)
    → n ≡ 2 ^ k
    → 2 ≤ n
    → n < 2 ^ 32
    → (q : MpmcQueue A) × (MpmcQueue.init z n ≡ ok q) × IsQuiet k q × (Quiescent.contents q ≡ [])
made_lem z k n e lo hi =
    let (a, b) = exponent k n e lo hi in
    let (q, made, quiet, empty) = init-IsQuiet z k a b in
    (q, ap (MpmcQueue.init z) e ∙ made, quiet, empty)

-- Filling a queue that is empty with all its indices.
filled_lem :
    (k n : ℕ) (q : MpmcQueue ℕ)
    → IsQuiet k q
    → Quiescent.contents q ≡ []
    → n ≡ 2 ^ k
    → (q' : MpmcQueue ℕ) × (populate n 0 q ≡ ok q')
      × IsQuiet k q'
      × (Quiescent.contents q' ≡ numbers n 0)
filled_lem k n q quiet empty e =
    let (q', done, quiet', all) = populate_lem n 0 k q quiet (omega (arith, ap length empty)) in
    (q', done, quiet', all ∙ ap (λ l. l ++ numbers n 0) empty)

module _ {W : Type 0} (H : HandlePool) where
  open H use {Pool}

  -- The state behind the two loops.
  abbrev filled : Sizes → World W Pool → MpmcQueue ℕ → MpmcQueue ℕ → World W Pool
  filled sizes w p q = record {
    shared = record (w.shared) {
      threads = λ _. default_thread;
      fibers = λ _. default_fiber;
      counters = λ _. default_counter;
      counter_handles = H.initialize sizes.max_num_counters;
      is_shutting_down = false;
      idle_fibers = p;
      free_counters = q;
    };
    tls = record reset_tls { thread_index = 0 };
  }

  fills_both :
      (sizes : Sizes) (w : World W Pool) (p q : MpmcQueue ℕ)
      → populate sizes.num_fibers 0 w.idle_fibers ≡ ok p
      → populate sizes.max_num_counters 0 w.free_counters ≡ ok q
      → start_setup H sizes w ≡ ok (tt, filled sizes w p q)
  unfolding start_setup
  fills_both sizes w p q e f = ground (arith, e, f)

  -- What `start` has before the first thread is launched.
  abbrev pub Filled : ℕ → ℕ → Sizes → World W Pool → World W Pool → Type 0
  Filled f k sizes w x =
      IsQuiet f x.idle_fibers
      × IsQuiet k x.free_counters
      × (Quiescent.contents x.idle_fibers ≡ numbers sizes.num_fibers 0)
      × (Quiescent.contents x.free_counters ≡ numbers sizes.max_num_counters 0)
      × (x.tasks ≡ w.tasks)
      × (x.resumable_fibers ≡ w.resumable_fibers)
      × (x.tls ≡ record reset_tls { thread_index = 0 })
      × (x.is_shutting_down ≡ false)

  pub start_setup_lem :
      (f k : ℕ) (sizes : Sizes) (w : World W Pool)
      → IsQuiet f w.idle_fibers
      → Quiescent.contents w.idle_fibers ≡ []
      → sizes.num_fibers ≡ 2 ^ f
      → IsQuiet k w.free_counters
      → Quiescent.contents w.free_counters ≡ []
      → sizes.max_num_counters ≡ 2 ^ k
      → (x : World W Pool) × (start_setup H sizes w ≡ ok (tt, x)) × Filled f k sizes w x
  start_setup_lem f k sizes w f_quiet f_empty ef k_quiet k_empty ek =
      let (p, p_done, p_quiet, p_all) =
        filled_lem f sizes.num_fibers w.idle_fibers f_quiet f_empty ef in
      let (q, q_done, q_quiet, q_all) =
        filled_lem k sizes.max_num_counters w.free_counters k_quiet k_empty ek in
      (
        filled sizes w p q,
        fills_both sizes w p q p_done q_done,
        (p_quiet, q_quiet, p_all, q_all, refl, refl, refl, refl),
      )

  -- A valid configuration of 32-bit sizes of at least 2, with a core for each thread: the constructor
  -- succeeds, and on a scheduler with its queues the beginning of `start` succeeds and leaves all fibers
  -- idle and all counters free, in order, no task and no resumable fiber, in queues with room for as
  -- many as the configuration says, and thread 0 with nothing to clean up.
  pub construct-start_setup :
      (ceil_pow2 : ℕ → ℕ) (is_pow2 : ℕ → Bool) (logical_cores : ℕ) (no_task : Task W)
      (c : SchedulerConfig) (w : World W Pool)
      → IsPow2Library ceil_pow2 is_pow2
      → is_valid ceil_pow2 is_pow2 c ≡ true
      → (2 ≤ c.num_fibers) × (c.num_fibers < 2 ^ 32)
      → (2 ≤ c.max_num_counters) × (c.max_num_counters < 2 ^ 32)
      → (2 ≤ c.max_num_tasks) × (c.max_num_tasks < 2 ^ 32)
      → c.num_threads ≤ logical_cores
      → (m : Queues W) × (x : World W Pool) × (f : ℕ) × (k : ℕ) × (t : ℕ) × (construct ceil_pow2
            is_pow2 logical_cores no_task c
          ≡ ok m)
        × (start_setup H (sizes_of c) (with_queues m w) ≡ ok (tt, x))
        × (c.num_fibers ≡ 2 ^ f)
        × (c.max_num_counters ≡ 2 ^ k)
        × (c.max_num_tasks ≡ 2 ^ t)
        × Filled f k (sizes_of c) (with_queues m w) x
        × IsQuiet t m.tasks
        × IsQuiet f m.resumable_fibers
        × (Quiescent.contents m.tasks ≡ [])
        × (Quiescent.contents m.resumable_fibers ≡ [])
  unfolding construct
  construct-start_setup ceil_pow2 is_pow2 cores z c w lib valid (f_lo, f_hi) (k_lo, k_hi)
        (t_lo, t_hi) fit =
      let (f, k, t, ef, ek, et, few, threads, alloc) =
        is_valid-sizes ceil_pow2 is_pow2 c lib valid in
      let (tasks, tasks_made, tasks_quiet, tasks_empty) =
        made_lem z t c.max_num_tasks et t_lo t_hi in
      let (fibers, fibers_made, fibers_quiet, fibers_empty) =
        made_lem 0 f c.num_fibers ef f_lo f_hi in
      let (free, free_made, free_quiet, free_empty) =
        made_lem 0 k c.max_num_counters ek k_lo k_hi in
      let m : Queues W = record {
        tasks = tasks;
        idle_fibers = fibers;
        resumable_fibers = fibers;
        free_counters = free;
      } in
      let (x, done, full) =
        start_setup_lem f k (sizes_of c) (with_queues m w) fibers_quiet fibers_empty ef free_quiet
          free_empty ek in
      (
        m,
        x,
        f,
        k,
        t,
        ground (arith, tasks_made, fibers_made, free_made, valid),
        done,
        ef,
        ek,
        et,
        full,
        tasks_quiet,
        fibers_quiet,
        tasks_empty,
        fibers_empty,
      )

-- A queue of a 32-bit size that is a power of two: the size 1 fails, all others succeed.
made_cases :
    {A : Type 0} (z : A) (k n : ℕ)
    → n ≡ 2 ^ k
    → n < 2 ^ 32
    → ((n < 2) × (MpmcQueue.init z n ≡ err assertion))
      ⊎ ((2 ≤ n) × (q : MpmcQueue A) × (MpmcQueue.init z n ≡ ok q))
made_cases z k n e hi = elim (dec_le 2 n) [
  | yes lo ↦ let (q, made, quiet, empty) = made_lem z k n e lo hi in inr (lo, q, made)
  | no below ↦
      let pos : 1 ≤ 2 ^ k = pow-le-pow_right {n = 2} (omega arith) {i = 0} {j = k} (omega arith) in
      let one : n ≡ 1 = omega (arith, e, pos) in
      inl (omega arith, ap (MpmcQueue.init z) one ∙ init-one z)
]

-- A configuration that the check accepts, of 32-bit sizes, fails an assertion of the constructor when
-- its fibers, its counters or its tasks are fewer than two, or when it has more threads than the machine
-- has cores.
pub construct-asserts :
    {W : Type 0} (ceil_pow2 : ℕ → ℕ) (is_pow2 : ℕ → Bool) (logical_cores : ℕ) (no_task : Task W)
    (c : SchedulerConfig)
    → IsPow2Library ceil_pow2 is_pow2
    → is_valid ceil_pow2 is_pow2 c ≡ true
    → c.num_fibers < 2 ^ 32
    → c.max_num_counters < 2 ^ 32
    → c.max_num_tasks < 2 ^ 32
    → ((c.num_fibers < 2) ⊎ (c.max_num_counters < 2))
      ⊎ ((c.max_num_tasks < 2) ⊎ (logical_cores < c.num_threads))
    → construct ceil_pow2 is_pow2 logical_cores no_task c ≡ err assertion
unfolding construct
construct-asserts ceil_pow2 is_pow2 cores z c lib valid f_hi k_hi t_hi bad =
    let (f, k, t, ef, ek, et, few, threads, alloc) = is_valid-sizes ceil_pow2 is_pow2 c lib valid in
    elim (made_cases z t c.max_num_tasks et t_hi) [
      | inl (low, failed) ↦ ground (arith, failed)
      | inr (t_lo, tasks, tasks_made) ↦ elim (made_cases {A = ℕ} 0 f c.num_fibers ef f_hi) [
        | inl (low, failed) ↦ ground (arith, tasks_made, failed)
        | inr (f_lo, fibers, fibers_made) ↦
            elim (made_cases {A = ℕ} 0 k c.max_num_counters ek k_hi) [
              | inl (low, failed) ↦ ground (arith, tasks_made, fibers_made, failed)
              | inr (k_lo, free, free_made) ↦
                  let wide : cores < c.num_threads = elim bad [
                    | inl (inl b) ↦ absurd (omega arith)
                    | inl (inr b) ↦ absurd (omega arith)
                    | inr (inl b) ↦ absurd (omega arith)
                    | inr (inr b) ↦ b
                  ] in
                  ground (arith, tasks_made, fibers_made, free_made, valid, wide)
            ]
      ]
    ]
