-- ===== src/Scheduler/Counters.antt =====
-- The counters of src/task-dispatcher/scheduler.cc: the slots in which fibers wait for a value, and
-- what a change of the count does to them. A compare-exchange that follows a load with no other
-- thread in between sees the loaded value; it is written out all the same.
pub mod Waiting
pub mod Waking
pub mod Change
pub mod Protocol
use task_dispatcher.Base.{
  ℕ, zero, suc, ◌+◌, ◌-◌, ◌%◌, Bool, true, false, not, Result, ok, err, assertion, if◌then◌else◌,
  ◌==◌, update,
}
use task_dispatcher.Base.Words.{add32}
use task_dispatcher.FifoQueue
use task_dispatcher.MpmcQueue
use task_dispatcher.MpmcQueue.{MpmcQueue}
use task_dispatcher.SpinLock
use task_dispatcher.SpinLock.{SpinLock}
use task_dispatcher.Scheduler.State.{
  invalid_thread, max_waiting, max_pinned, WaitingFiber, AtomicCounter, WorkerThread, Shared, World,
  M, ◌>>=◌, ◌>>◌, return, assert, fault, gets, modify, modify_counter, modify_slot, set_free,
  signal,
}

-- A queue operation on the member that `get` reads and `put` writes.
abbrev pub on_queue :
    {W P A Q : Type 0}
    → (Shared W P → Q)
    → (Q → Shared W P → Shared W P)
    → (Q → Result (A × Q))
    → M W P A
on_queue get put op w = elim (op (get w.shared)) [
  | ok (a, q) ↦ ok (a, record { shared = put q w.shared; tls = w.tls })
  | err e ↦ err e
]

-- A change of one worker thread that may fail.
abbrev pub on_thread : {W P : Type 0} → ℕ → (WorkerThread → Result WorkerThread) → M W P (Unit {0})
on_thread t op w = elim (op (w.threads t)) [
  | ok r ↦
      ok (tt, record { shared = record (w.shared) { threads = update w.threads t r }; tls = w.tls })
  | err e ↦ err e
]

abbrev pub with_lock : WorkerThread → Result SpinLock → Result WorkerThread
with_lock r (ok l) = ok (record r { pinned_resumable_fibers_lock = l })
with_lock r (err e) = err e

abbrev pub with_pinned : WorkerThread → Result (FifoQueue.FifoQueue ℕ) → Result WorkerThread
with_pinned r (ok q) = ok (record r { pinned_resumable_fibers = q })
with_pinned r (err e) = err e

module _ {W P : Type 0} where
  -- `LockGuard lg(thread.pinned_resumable_fibers_lock)`, its constructor and its destructor.
  abbrev pub lock_pinned : ℕ → M W P (Unit {0})
  lock_pinned t = on_thread t (λ r. with_lock r (SpinLock.lock r.pinned_resumable_fibers_lock))

  abbrev pub unlock_pinned : ℕ → M W P (Unit {0})
  unlock_pinned t =
      on_thread t (λ r. with_lock r (ok (SpinLock.unlock r.pinned_resumable_fibers_lock)))

  abbrev pub enqueue_pinned : ℕ → ℕ → M W P (Unit {0})
  enqueue_pinned t fiber =
      on_thread t
        (λ r. with_pinned r (FifoQueue.enqueue max_pinned r.pinned_resumable_fibers fiber))

  abbrev pub enqueue_resumable : ℕ → M W P Bool
  enqueue_resumable fiber =
      on_queue (λ s. s.resumable_fibers) (λ q s. record s { resumable_fibers = q })
        (λ q. MpmcQueue.enqueue q fiber)

  -- The compare-exchange of `slot.in_use` from false to true.
  abbrev exchange_in_use : ℕ → ℕ → M W P Bool
  exchange_in_use c i = do
    used ← gets (λ w. ((w.counters c).waiting_fibers i).in_use)
    if used
        then return false
        else (modify_counter c (modify_slot i (λ s. record s { in_use = true })) >> return true)

  -- The body of `if (slot.counter_target == value)`.
  unfoldable pub wake_slot : ℕ → ℕ → M W P (Unit {0})
  wake_slot c i = do
    locked ← exchange_in_use c i
    if not locked then return tt else do
      slot ← gets (λ w. (w.counters c).waiting_fibers i)
      if slot.pinned_thread_index == invalid_thread
          then (do success ← enqueue_resumable slot.fiber_index; assert success)
          else (do
            lock_pinned slot.pinned_thread_index
            enqueue_pinned slot.pinned_thread_index slot.fiber_index
            unlock_pinned slot.pinned_thread_index)
      signal
      modify_counter c (set_free i true)

  -- One turn of the loop in `counterCheckWaitingFibers`.
  unfoldable pub check_slot : ℕ → ℕ → ℕ → M W P (Unit {0})
  check_slot c value i = do
    counter ← gets (λ w. w.counters c)
    if counter.free_waiting_slots i
        then return tt
        else (if (counter.waiting_fibers i).in_use
            then return tt
            else (if (counter.waiting_fibers i).counter_target == value
                then wake_slot c i
                else return tt))

  -- The turns from slot `i` on, `n` of them.
  unfoldable pub check_slots : ℕ → ℕ → ℕ → ℕ → M W P (Unit {0})
  check_slots zero c value i = return tt
  check_slots (suc n) c value i = check_slot c value i >> check_slots n c value (i + 1)

  unfoldable pub counter_check_waiting_fibers : ℕ → ℕ → M W P (Unit {0})
  counter_check_waiting_fibers c value = check_slots max_waiting c value 0

  unfoldable pub counter_increment : ℕ → ℕ → M W P ℕ
  counter_increment c amount = do
    assert (not (amount == 0))
    previous ← gets (λ w. (w.counters c).count)
    modify_counter c (λ k. record k { count = add32 k.count amount })
    counter_check_waiting_fibers c (add32 previous amount)
    return (add32 previous amount)

-- The body of the loop in `counterAddWaitingFiber` once slot `i` is acquired, on the counter that is
-- passed by reference: the result with what goes through `out_counter_val`, and the counter.
unfoldable pub register_slot : ℕ → ℕ → ℕ → ℕ → AtomicCounter → (Bool × ℕ) × AtomicCounter
register_slot fiber thread target i counter =
    let stored =
      modify_slot i
        (λ s. record {
          counter_target = target;
          fiber_index = fiber;
          pinned_thread_index = thread;
          in_use = false;
        })
        counter in
    let counter_val = stored.count in
    let slot = stored.waiting_fibers i in
    if slot.in_use
    then ((false, counter_val), stored)
    else (if slot.counter_target == counter_val
        then (if slot.in_use then ((false, counter_val), stored) else (
          (true, counter_val),
          set_free i true (modify_slot i (λ s. record s { in_use = true }) stored),
        ))
        else ((false, counter_val), stored))

-- The turns from slot `i` on: the compare-exchange of a free slot from true to false, and the panic
-- behind the last slot.
unfoldable pub add_from_slot :
    ℕ → ℕ → ℕ → ℕ → ℕ → AtomicCounter → Result ((Bool × ℕ) × AtomicCounter)
add_from_slot zero fiber thread target i counter = err assertion
add_from_slot (suc n) fiber thread target i counter =
    let rest = add_from_slot n fiber thread target (i + 1) counter in
    if counter.free_waiting_slots i
    then ok (register_slot fiber thread target i (set_free i false counter))
    else rest

module _ {W P : Type 0} where
  unfoldable pub counter_add_waiting_fiber : ℕ → ℕ → ℕ → ℕ → M W P (Bool × ℕ)
  counter_add_waiting_fiber c fiber thread target w =
      elim (add_from_slot max_waiting fiber thread target 0 (w.counters c)) [
        | ok (r, n) ↦ ok (
          r,
          record { shared = record (w.shared) { counters = update w.counters c n }; tls = w.tls },
        )
        | err e ↦ err e
      ]
