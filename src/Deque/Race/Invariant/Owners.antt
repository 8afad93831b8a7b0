-- ===== src/Deque/Race/Invariant/Owners.antt =====
-- The steps of the owner in `push_bottom` and `pop_bottom` of
-- src/task-dispatcher/container/spmc_queue.hh.
use task_dispatcher.Base.{ℕ, suc, ◌<◌, refl, ap, arith, ◌^◌}
use task_dispatcher.Base.Words.{sub64}
use task_dispatcher.Deque.Race.{
  OwnerPc, resting, push_called, push_loaded, push_written, pop_called, pop_lowered, pop_racing,
  pop_restoring, pop_taking, owner_step, owner_next, System,
}
use task_dispatcher.Deque.Race.Held.{OwnerHolds}
use task_dispatcher.Deque.Race.Invariant.{OwnerAt, Inv}
use task_dispatcher.Deque.Race.Invariant.Quiet.{quiet-Inv}
use task_dispatcher.Deque.Race.Invariant.Pushes.{pushed-Inv, written-Inv}
use task_dispatcher.Deque.Race.Invariant.Pops.{lowered-Inv, racing-Inv, returned-Inv}

module _ {A : Type 0} (fresh : ℕ → A) where
  module _ (m b : ℕ) (s : System A) (h : Inv m b s) (bound : m < 2 ^ 62) where
    step-Inv :
        (p : OwnerPc A)
        → OwnerAt s.deque.top b s.deque.bottom p
        → OwnerHolds s.deque.top b s.deque.buffer s.items s.pushed s.sent p
        → (b' : ℕ) × Inv (suc m) b' (owner_next p (owner_step fresh p s.deque) s)
    unfolding owner_step
    step-Inv (resting r) at now = (b, quiet-Inv m b s h (resting r) s.deque refl refl at tt)
    step-Inv (push_called x) at now = (
      b,
      quiet-Inv m b s h (push_loaded x s.deque.bottom s.deque.top) s.deque refl refl
          (at, at, omega arith) (omega (arith, h.holds.room)),
    )
    step-Inv (push_loaded x c u) at now = (b, written-Inv fresh m b s h bound x c u at now)
    step-Inv (push_written c) (low, e) now = (suc b, pushed-Inv fresh m b s h bound c e now)
    step-Inv pop_called at now = (
      b,
      quiet-Inv m b s h (pop_lowered s.deque.bottom)
          (record (s.deque) { bottom = sub64 s.deque.bottom 1 }) refl refl
          (ap (λ z. sub64 z 1) at, at) tt,
    )
    step-Inv (pop_lowered c) at now = lowered-Inv fresh m b s h bound c at
    step-Inv (pop_racing c u) at now = (b, racing-Inv fresh m b s h bound c u at)
    step-Inv (pop_restoring c r) (low, e, gone) now =
        (b, quiet-Inv m b s h (resting r) (record (s.deque) { bottom = c }) refl refl e tt)
    step-Inv (pop_taking c u) at now = (b, returned-Inv fresh m b s h bound c u at now)

  pub owner-Inv :
      (m b : ℕ) (s : System A)
      → Inv m b s
      → m < 2 ^ 62
      → (b' : ℕ) × Inv (suc m) b' (owner_next s.owner (owner_step fresh s.owner s.deque) s)
  owner-Inv m b s h bound = step-Inv m b s h bound s.owner h.owner_at h.owner_holds
