-- ===== src/SpinLock/Tests.antt =====
-- Two threads contend for one SpinLock: thread 0 takes it, thread 1 spins.
use task_dispatcher.Base.{ℕ, ◌≡◌, refl, true, update, ℕ_discrete, err, stuck}
use task_dispatcher.SpinLock.{lock, try_lock, unlock}
use task_dispatcher.SpinLock.Threads.{
  outside, exchanging, spinning, holding, call_lock, exchange_free, exchange_held, Threads, step,
  Reach, start, later, mutual_exclusion,
}

abbrev contended : Threads
contended = record {
  flag = true;
  pc =
      update (update (update (update (λ _. outside) 0 exchanging) 0 holding) 1 exchanging) 1
        spinning;
}

contended-Reach : Reach contended
unfolding ℕ_discrete
contended-Reach =
    later
      (later (later (later start (step 0 call_lock)) (step 0 (exchange_free refl)))
        (step 1 call_lock))
      (step 1 (exchange_held refl))

mutual_exclusion_example :
    ((i j : ℕ) → contended.pc i ≡ holding → contended.pc j ≡ holding → i ≡ j)
    × (contended.flag ≡ true → (i : ℕ) × (contended.pc i ≡ holding))
    × ((i : ℕ) → contended.pc i ≡ holding → contended.flag ≡ true)
mutual_exclusion_example = mutual_exclusion contended-Reach

lock_twice : lock (record { is_locked = true }) ≡ err stuck
unfolding lock
lock_twice = refl

unlock_then_try : (try_lock (unlock (record { is_locked = true }))).0 ≡ true
unfolding try_lock unlock
unlock_then_try = refl
