-- ===== src/Scheduler/Handles.antt =====
-- Counter handles of src/task-dispatcher/scheduler.cc: a free counter behind each live handle.
pub mod Cycle
use task_dispatcher.Base.{
  ℕ, ◌+◌, ◌≡◌, Bool, true, false, Option, none, some, List, [], ◌∷◌, ◌++◌, Result, ok, err, arith,
  if◌then◌else◌, ◌==◌, update,
}
use task_dispatcher.MpmcQueue
use task_dispatcher.Scheduler.State.{
  max_waiting, AtomicCounter, Shared, World, M, ◌>>=◌, ◌>>◌, return, assert, gets, modify,
  modify_counter,
}
use task_dispatcher.Scheduler.Counters.{on_queue}
use task_dispatcher.Scheduler.HandlePool.{HandlePool}

-- `atomic_counter_t::reset`; the loop frees each of the slots.
unfoldable pub reset : AtomicCounter → AtomicCounter
reset k = record k { count = 0; free_waiting_slots = λ _. true }

module _ {W : Type 0} (H : HandlePool) where
  open H use {Pool, acquire, get, put, release}

  abbrev pub dequeue_free_counter : M W Pool (Option ℕ)
  dequeue_free_counter =
      on_queue (λ s. s.free_counters) (λ q s. record s { free_counters = q }) MpmcQueue.dequeue

  abbrev pub enqueue_free_counter : ℕ → M W Pool Bool
  enqueue_free_counter c =
      on_queue (λ s. s.free_counters) (λ q s. record s { free_counters = q })
        (λ q. MpmcQueue.enqueue q c)

  abbrev pub set_handles : Pool → M W Pool (Unit {0})
  set_handles p = modify (λ s. record s { counter_handles = p })

  -- `mCounterHandles.get(c).counterIndex`.
  abbrev pub counter_index : ℕ → M W Pool ℕ
  counter_index c = gets (λ w. get w.counter_handles c)

  -- `acquire` panics in the pool where no handle is left.
  abbrev new_handle : ℕ → Option (ℕ × Pool) → M W Pool ℕ
  new_handle c none = assert false >> return 0
  new_handle c (some (h, p)) = set_handles (put p h c) >> return h

  unfoldable pub acquire_counter_handle : M W Pool ℕ
  acquire_counter_handle = do
    free ← dequeue_free_counter
    elim free [
      | none ↦ assert false >> return 0
      | some c ↦ do
        modify_counter c reset
        taken ← gets (λ w. acquire w.counter_handles)
        new_handle c taken
    ]

  -- The result of the last `enqueue` is not looked at.
  unfoldable pub release_counter : ℕ → M W Pool ℕ
  release_counter h = do
    c ← counter_index h
    last_state ← gets (λ w. (w.counters c).count)
    pool ← gets (λ w. w.counter_handles)
    set_handles (release pool h)
    stored ← enqueue_free_counter c
    return last_state

  unfoldable pub release_counter_if_on_target : ℕ → ℕ → M W Pool Bool
  release_counter_if_on_target h target = do
    c ← counter_index h
    last_state ← gets (λ w. (w.counters c).count)
    if last_state == target
        then (do
          pool ← gets (λ w. w.counter_handles)
          set_handles (release pool h)
          stored ← enqueue_free_counter c
          return true)
        else return false
