-- ===== src/Scheduler/Samples/Idle.antt =====
-- The sample world with other counters, of which nobody is to be woken.
use task_dispatcher.Base.{ℕ, zero, suc, ◌+◌, ◌≡◌, refl, false, List, [], arith, sym, subst}
use task_dispatcher.FifoQueue
use task_dispatcher.FifoQueue.Refine.{init-IsValid}
use task_dispatcher.MpmcQueue.Tests.{numbers8-IsQuiet}
use task_dispatcher.Scheduler.State.{max_pinned, WaitingFiber, AtomicCounter}
use task_dispatcher.Scheduler.Samples.{sample}
use task_dispatcher.Scheduler.Counters.Waking.{wakes, woken, Ready}

-- None of the slots is woken.
pub woken-idle :
    (n value i : ℕ) (k : AtomicCounter)
    → ((j : ℕ) → wakes k value j ≡ false)
    → woken n value i k ≡ []
woken-idle zero value i k h = refl
woken-idle (suc n) value i k h = rw (h i) (woken-idle n value (i + 1) k h)

pub idle-Ready :
    (f : ℕ → AtomicCounter) (l : List WaitingFiber)
    → l ≡ []
    → Ready 3 l (record { shared = record (sample.shared) { counters = f }; tls = sample.tls })
unfolding FifoQueue.init
idle-Ready f l e =
    subst
      (λ z.
        Ready 3 z (record { shared = record (sample.shared) { counters = f }; tls = sample.tls }))
      (sym e)
      (record {
        quiet = numbers8-IsQuiet;
        room = omega arith;
        valid = λ t. (init-IsValid max_pinned 0 (omega arith) (omega arith)).0;
        pinned_room = λ t. omega arith;
        unlocked = λ t. refl;
      })
