-- ===== src/Scheduler/Counters/Waiting.antt =====
-- `counterAddWaitingFiber`: the fiber takes the first free slot, and stays in it unless the counter
-- is on its target already.
use task_dispatcher.Base.{
  ℕ, zero, suc, ◌+◌, ◌≡◌, refl, ap₂, Bool, true, false, Option, none, some, ok, err, assertion,
  arith, if◌then◌else◌, ◌==◌, update, update_self, update-update, Bool-cases, inl, inr,
}
use task_dispatcher.Scheduler.State.{max_waiting, WaitingFiber, AtomicCounter, World, set_free}
use task_dispatcher.Scheduler.Counters.{register_slot, add_from_slot, counter_add_waiting_fiber}

-- The first free slot among the `n` from `i` on.
abbrev pub first_free : (ℕ → Bool) → ℕ → ℕ → Option ℕ
first_free free zero i = none
first_free free (suc n) i = if free i then some i else first_free free n (i + 1)

-- The counter with the fiber in slot `j`, which is free and in use again if the target is met.
abbrev pub registered : ℕ → ℕ → ℕ → ℕ → AtomicCounter → AtomicCounter
registered fiber thread target j n = record n {
  waiting_fibers = update n.waiting_fibers j (record {
    counter_target = target;
    fiber_index = fiber;
    pinned_thread_index = thread;
    in_use = target == n.count;
  });
  free_waiting_slots = update n.free_waiting_slots j (target == n.count);
}

abbrev slot_of : ℕ → ℕ → ℕ → Bool → WaitingFiber
slot_of fiber thread target used = record {
  counter_target = target;
  fiber_index = fiber;
  pinned_thread_index = thread;
  in_use = used;
}

abbrev pub with_counter : {W P : Type 0} → World W P → ℕ → AtomicCounter → World W P
with_counter w c n = record {
  shared = record (w.shared) { counters = update w.counters c n };
  tls = w.tls;
}

register_lem :
    (fiber thread target j : ℕ) (n : AtomicCounter)
    → register_slot fiber thread target j (set_free j false n)
      ≡ ((target == n.count, n.count), registered fiber thread target j n)
unfolding register_slot
register_lem fiber thread target j n =
    let s = slot_of fiber thread target in
    rw (update_self n.waiting_fibers j (s false)) (elim (Bool-cases (target == n.count)) [
      | inl on ↦ rw on (
          ap₂
            (λ f g. (
              (true, n.count),
              record { count = n.count; waiting_fibers = f; free_waiting_slots = g },
            ))
            (update-update n.waiting_fibers j (s false) (s true))
            (update-update n.free_waiting_slots j false true))
      | inr off ↦ rw off
    ])

-- The whole call, from slot `i` on.
add_lem :
    (fiber thread target n i : ℕ) (k : AtomicCounter)
    → add_from_slot n fiber thread target i k ≡ (elim (first_free k.free_waiting_slots n i) [
      | none ↦ err assertion
      | some j ↦ ok ((target == k.count, k.count), registered fiber thread target j k)
    ])
unfolding add_from_slot
add_lem fiber thread target zero i k = refl
add_lem fiber thread target (suc n) i k =
    ground (arith, register_lem fiber thread target i k, add_lem fiber thread target n (i + 1) k)

-- A fiber that waits takes the first free slot of the counter. The call returns whether the count is
-- the target already, with the count; the slot stays taken and open to a waker exactly if it is not.
-- Without a free slot the call panics.
pub counter_add_waiting_fiber_lem :
    {W P : Type 0} (c fiber thread target : ℕ) (w : World W P)
    → let k = w.counters c in
      counter_add_waiting_fiber c fiber thread target w
      ≡ (elim (first_free k.free_waiting_slots max_waiting 0) [
        | none ↦ err assertion
        | some j ↦
            ok ((target == k.count, k.count), with_counter w c (registered fiber thread target j k))
      ])
unfolding counter_add_waiting_fiber
counter_add_waiting_fiber_lem c fiber thread target w =
    ground (arith, add_lem fiber thread target max_waiting 0 (w.counters c))
