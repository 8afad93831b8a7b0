-- ===== src/Native/Tests.antt =====
-- Concrete runs of the native calls: a system with pages of 4096 bytes that only takes stack sizes of
-- whole pages.
use task_dispatcher.Base.{
  ℕ, ◌+◌, ◌*◌, ◌%◌, ◌≤◌, ◌<◌, ◌≡◌, refl, Bool, true, false, some, List, ok, max, arith, ltb, ◌==◌,
  ◌∷◌, [], if◌then◌else◌,
}
use task_dispatcher.Native.Threads.{Posix, Act, create_posix_thread, round_to_page_size}
use task_dispatcher.Native.Threads.Creation.{
  Creates, create_posix_thread_lem, round_to_page_size_lem,
}
use task_dispatcher.Native.Events.{wait_for_event, wait_for_event_lem, lock, unlock, cond_timedwait}

abbrev linux : Posix
linux = record {
  page_size = 4096;
  default_stack_size = 8388608;
  stack_min = 16384;
  accepts_stack = λ n. n % 4096 == 0;
  accepts_core = λ c. ltb c 16;
  masks = true;
  creates = true;
  blockable = λ s. if s == 9 then false else true;
  uninitialised = λ s. false;
}

round_to_page_size_example :
    (r : ℕ) × (round_to_page_size linux 5000 ≡ ok r)
    × (5000 ≤ r)
    × (r < 5000 + 4096)
    × (r % 4096 ≡ 0)
round_to_page_size_example = round_to_page_size_lem linux 5000 (omega arith) (omega arith)

-- The calling thread blocks signal 13.
create_posix_thread_example :
    let mask : ℕ → Bool = λ s. s == 13 in
    (r : Bool × (ℕ → Bool) × List Act) × (create_posix_thread linux mask 8388609 (some 3) ≡ ok r)
    × Creates linux mask (max 8388609 8388608) r
create_posix_thread_example =
    create_posix_thread_lem linux (λ s. s == 13) 8388609 (some 3) (omega arith) (omega arith)
      (omega arith)

-- Ten milliseconds, the wait of an idle worker, as ten thousand nanoseconds.
ten : wait_for_event (λ s n. true) 10 ≡ (false, lock ∷ cond_timedwait 0 10000 ∷ unlock ∷ [])
unfolding wait_for_event
ten = refl

wait_for_event_example :
    (sec nsec : ℕ) × (wait_for_event (λ s n. true) 10
      ≡ (false, lock ∷ cond_timedwait sec nsec ∷ unlock ∷ []))
    × (nsec < 1000000000)
    × (sec * 1000000000 + nsec + 10 % 1000 * 999000 ≡ 10 * 1000000)
wait_for_event_example = wait_for_event_lem (λ s n. true) 10 (omega arith)
