-- ===== src/Scheduler/Tests.antt =====
-- The calls of the scheduler on the sample world.
use task_dispatcher.Base.{
  ℕ, zero, suc, ◌+◌, ◌≤◌, ◌≡◌, ◌≢◌, refl, true, none, some, List, [], ◌∷◌, ok, err, assertion,
  arith, update, ◌==◌, ℕ_discrete, sym, subst,
}
use task_dispatcher.Base.Words.{minus_one, add32}
use task_dispatcher.FifoQueue
use task_dispatcher.FifoQueue.Refine.{init-IsValid}
use task_dispatcher.MpmcQueue.Tests.{numbers8-IsQuiet}
use task_dispatcher.Scheduler.State.{
  invalid_thread, max_waiting, max_pinned, WaitingFiber, AtomicCounter, World,
}
use task_dispatcher.Scheduler.Samples.{Handles, sample, awaited, waiting_in}
use task_dispatcher.Scheduler.Counters.{
  counter_check_waiting_fibers, counter_increment, counter_add_waiting_fiber,
}
use task_dispatcher.Scheduler.Counters.Waiting.{
  registered, first_free, with_counter, counter_add_waiting_fiber_lem,
}
use task_dispatcher.Scheduler.Counters.Waking.Loop.{counter_check_waiting_fibers_lem}
use task_dispatcher.Scheduler.Counters.Waking.{wakes, mark, woken, checked, Ready, Woke}
use task_dispatcher.Scheduler.Counters.Change.{recounted, counter_increment_lem}

-- Free slots hold nobody to wake.
woken-none :
    (n value i : ℕ) (k : AtomicCounter)
    → ((j : ℕ) → i ≤ j → k.free_waiting_slots j ≡ true)
    → woken n value i k ≡ []
woken-none zero value i k h = refl
woken-none (suc n) value i k h =
    ground (arith, h i (omega arith), woken-none n value (i + 1) k (λ j l. h j (omega arith)))

woken-two :
    (n value : ℕ) (k : AtomicCounter)
    → wakes k value 0 ≡ true
    → wakes (mark 0 k) value 1 ≡ true
    → ((j : ℕ) → 2 ≤ j → (mark 1 (mark 0 k)).free_waiting_slots j ≡ true)
    → woken (suc (suc n)) value 0 k ≡ k.waiting_fibers 0 ∷ (mark 0 k).waiting_fibers 1 ∷ []
woken-two n value k a b h = ground (arith, a, b, woken-none n value 2 (mark 1 (mark 0 k)) h)

pub woken-awaited :
    (n : ℕ)
    → woken max_waiting 0 0 (recounted n awaited)
      ≡ waiting_in 6 invalid_thread ∷ waiting_in 3 1 ∷ []
unfolding ℕ_discrete
woken-awaited n = woken-two 30 0 (recounted n awaited) refl refl (λ j h. ground arith)

pub sample-Ready :
    (f : ℕ → AtomicCounter) (l : List WaitingFiber)
    → l ≡ waiting_in 6 invalid_thread ∷ waiting_in 3 1 ∷ []
    → Ready 3 l (record { shared = record (sample.shared) { counters = f }; tls = sample.tls })
unfolding FifoQueue.init
sample-Ready f l e =
    subst
      (λ z.
        Ready 3 z (record { shared = record (sample.shared) { counters = f }; tls = sample.tls }))
      (sym e)
      (record {
        quiet = numbers8-IsQuiet;
        room = omega arith;
        valid = λ t. (init-IsValid max_pinned 0 (omega arith) (omega arith)).0;
        pinned_room = λ t. ground arith;
        unlocked = λ t. refl;
      })

counter_add_waiting_fiber_example :
    let k = sample.counters 2 in
    counter_add_waiting_fiber 2 4 1 0 sample
    ≡ (elim (first_free k.free_waiting_slots max_waiting 0) [
      | none ↦ err assertion
      | some j ↦ ok ((0 == k.count, k.count), with_counter sample 2 (registered 4 1 0 j k))
    ])
counter_add_waiting_fiber_example = counter_add_waiting_fiber_lem 2 4 1 0 sample

counter_check_waiting_fibers_example :
    (w' : World ℕ Handles) × (counter_check_waiting_fibers 2 0 sample ≡ ok (tt, w'))
    × Woke 2
        (checked max_waiting 0 0 (sample.counters 2))
        (woken max_waiting 0 0 (sample.counters 2))
        sample
        w'
    × Ready 3 [] w'
unfolding ℕ_discrete
counter_check_waiting_fibers_example =
    counter_check_waiting_fibers_lem 3 2 0 sample
      (sample-Ready sample.counters (woken max_waiting 0 0 (sample.counters 2)) (woken-awaited 1))

counter_increment_example :
    let n = add32 (sample.counters 2).count minus_one in
    let k = recounted n (sample.counters 2) in
    let w1 = with_counter sample 2 k in
    (counter_increment 2 0 sample ≡ err assertion)
    × (minus_one ≢ 0
        → (w' : World ℕ Handles) × (counter_increment 2 minus_one sample ≡ ok (n, w'))
          × Woke 2 (checked max_waiting n 0 k) (woken max_waiting n 0 k) w1 w'
          × Ready 3 [] w')
unfolding ℕ_discrete
counter_increment_example = counter_increment_lem 3 2 minus_one sample (
    sample-Ready (update sample.counters 2 (recounted 0 (sample.counters 2)))
      (woken max_waiting 0 0 (recounted 0 (sample.counters 2))) (woken-awaited 0))
