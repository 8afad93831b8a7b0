-- ===== src/Scheduler/Counters/Protocol/Tests.antt =====
-- A wake-up that is lost: fibers 10 and 20 wait for the value 7. Thread 0 has registered fiber 10 when
-- thread 1 changes the count to 7 and hands fiber 10 over; thread 2 registers fiber 20 in the same slot;
-- then thread 0 loads the count and the slot of fiber 20, and uses it up as if it were its own.
use task_dispatcher.Base.{ℕ, suc, ◌≡◌, refl, true, false, List, [], ◌∷◌, update, ℕ_discrete}
use task_dispatcher.Scheduler.Counters.Protocol.{
  Pc, idle, claim, returned, check_free, slot_step, System, move, call_add, change_count, access,
  started, Reach, start, later,
}
use task_dispatcher.Scheduler.Counters.Protocol.Invariant.{owns, Descends, Genuine}
use task_dispatcher.Scheduler.Counters.Protocol.Once.{registered_once}

-- The accesses of a list of threads, in order.
abbrev after : List ℕ → System → System
after [] s = s
after (i ∷ l) s = after l (move i s)

after-Reach : (n : ℕ) (l : List ℕ) (s : System) → Reach n s → Reach n (after l s)
after-Reach n [] s r = r
after-Reach n (i ∷ l) s r = after-Reach n l (move i s) (later r (access i))

abbrev calls : ℕ → Pc → System → System
calls i p s = record { slot = s.slot; pc = update s.pc i p }

abbrev counted : ℕ → ℕ → System → System
counted i value s = record {
  slot = record (s.slot) { count = value };
  pc = update s.pc i (check_free value);
}

abbrev first_registered : System
first_registered = after (0 ∷ 0 ∷ 0 ∷ []) (calls 0 (claim 10 7) (started 1))

abbrev handed_over : System
handed_over = after (1 ∷ 1 ∷ 1 ∷ 1 ∷ 1 ∷ 1 ∷ []) (counted 1 7 first_registered)

abbrev second_used : System
second_used = after (2 ∷ 2 ∷ 2 ∷ 0 ∷ 0 ∷ 0 ∷ 0 ∷ 0 ∷ 2 ∷ 2 ∷ []) (calls 2 (claim 20 7) handed_over)

second_used-Reach : Reach 1 second_used
unfolding slot_step ℕ_discrete
second_used-Reach =
    after-Reach 1 (2 ∷ 2 ∷ 2 ∷ 0 ∷ 0 ∷ 0 ∷ 0 ∷ 0 ∷ 2 ∷ 2 ∷ []) (calls 2 (claim 20 7) handed_over) (
      later
        (after-Reach 1 (1 ∷ 1 ∷ 1 ∷ 1 ∷ 1 ∷ 1 ∷ []) (counted 1 7 first_registered) (
          later
            (after-Reach 1 (0 ∷ 0 ∷ 0 ∷ []) (calls 0 (claim 10 7) (started 1))
              (later start (call_add 0 10 7 refl)))
            (change_count 1 7 refl)))
        (call_add 2 20 7 refl))

-- Fiber 10 goes on and was made resumable; fiber 20 waits for the value that the count has, and nobody
-- makes it resumable.
second_lost :
    (second_used.pc 0 ≡ returned true)
    × (second_used.pc 1 ≡ idle)
    × (second_used.pc 2 ≡ returned false)
    × (second_used.slot.count ≡ 7)
    × (second_used.slot.is_free ≡ true)
    × (second_used.slot.won ≡ 2 ∷ 1 ∷ [])
    × (second_used.slot.resumed ≡ (1, 10) ∷ [])
unfolding slot_step ℕ_discrete
second_lost = (refl, refl, refl, refl, refl, refl, refl)

registered_once_example :
    Descends (suc second_used.slot.registrations) second_used.slot.won
    × Genuine second_used.slot.registered
        (suc second_used.slot.registrations)
        second_used.slot.resumed
    × ((i j : ℕ) → owns (second_used.pc i) ≡ true → owns (second_used.pc j) ≡ true → i ≡ j)
registered_once_example = registered_once 1 second_used second_used-Reach
