-- ===== src/Scheduler/Counters/Waking.antt =====
-- `counterCheckWaitingFibers`: which fibers a new value wakes, and where they go.
pub mod Slot
pub mod Loop
use task_dispatcher.Base.{
  ℕ, zero, suc, ◌+◌, ◌^◌, ◌≤◌, ◌≡◌, refl, sym, ap, ◌∙◌, Bool, true, false, List, [], ◌∷◌, ◌++◌,
  append-nil, append_assoc, ok, arith, if◌then◌else◌, ◌==◌, update, update_self, update-update,
  update-cases, update-same, fun_ext, subst, Bool-cases, inl, inr, length, length-append,
}
use task_dispatcher.FifoQueue
use task_dispatcher.FifoQueue.Refine
use task_dispatcher.FifoQueue.Refine.{IsValid}
use task_dispatcher.MpmcQueue
use task_dispatcher.MpmcQueue.Quiescent
use task_dispatcher.MpmcQueue.Quiescent.{IsQuiet}
use task_dispatcher.SpinLock
use task_dispatcher.Scheduler.State.{
  invalid_thread, max_waiting, max_pinned, WaitingFiber, AtomicCounter, WorkerThread, World,
  modify_slot, >>=-ok,
}
use task_dispatcher.Scheduler.Counters.{
  wake_slot, check_slot, check_slots, counter_check_waiting_fibers,
}

-- Whether the value wakes the fiber of slot `i`: the slot is taken, nobody handles it, and the
-- value is its target.
abbrev pub wakes : AtomicCounter → ℕ → ℕ → Bool
wakes k value i =
    if k.free_waiting_slots i
    then false
    else (if (k.waiting_fibers i).in_use
        then false
        else (k.waiting_fibers i).counter_target == value)

-- The slot once its fiber is awake.
abbrev pub used : WaitingFiber → WaitingFiber
used s = record s { in_use = true }

abbrev pub mark : ℕ → AtomicCounter → AtomicCounter
mark i k = record k {
  waiting_fibers = update k.waiting_fibers i (used (k.waiting_fibers i));
  free_waiting_slots = update k.free_waiting_slots i true;
}

-- The slots that the value wakes among the `n` from `i` on, in order, and the counter without them.
abbrev pub woken : ℕ → ℕ → ℕ → AtomicCounter → List WaitingFiber
woken zero value i k = []
woken (suc n) value i k =
    if wakes k value i
    then k.waiting_fibers i ∷ woken n value (i + 1) (mark i k)
    else woken n value (i + 1) k

abbrev pub checked : ℕ → ℕ → ℕ → AtomicCounter → AtomicCounter
checked zero value i k = k
checked (suc n) value i k = checked n value (i + 1) (if wakes k value i then mark i k else k)

-- The fibers of such slots that no thread pins, and those that thread `t` pins.
abbrev pub unpinned : List WaitingFiber → List ℕ
unpinned [] = []
unpinned (s ∷ l) =
    if s.pinned_thread_index == invalid_thread then s.fiber_index ∷ unpinned l else unpinned l

abbrev pub pinned_to : ℕ → List WaitingFiber → List ℕ
pinned_to t [] = []
pinned_to t (s ∷ l) =
    if s.pinned_thread_index == invalid_thread
    then pinned_to t l
    else (if s.pinned_thread_index == t then s.fiber_index ∷ pinned_to t l else pinned_to t l)

abbrev pub resumables : {W P : Type 0} → World W P → List ℕ
resumables w = Quiescent.contents w.resumable_fibers

abbrev pub pinned : {W P : Type 0} → World W P → ℕ → List ℕ
pinned w t = Refine.contents max_pinned (w.threads t).pinned_resumable_fibers

-- The queues of resumable fibers are well formed, unlocked, and have room for the fibers of `l`.
pub record Ready {W P : Type 0} (b : ℕ) (l : List WaitingFiber) (w : World W P) : Type 0 where
  pub quiet : IsQuiet b w.resumable_fibers
  pub room : length (resumables w) + length (unpinned l) ≤ 2 ^ b
  pub valid : (t : ℕ) → IsValid max_pinned (w.threads t).pinned_resumable_fibers
  pub pinned_room : (t : ℕ) → length (pinned w t) + length (pinned_to t l) ≤ max_pinned
  pub unlocked : (t : ℕ) → (w.threads t).pinned_resumable_fibers_lock.is_locked ≡ false

-- What waking the fibers of `l` does: they join the queues in order, each with a signal, and nothing
-- but these queues and counter `c` changes.
pub record Woke {W P : Type 0} (c : ℕ) (k : AtomicCounter) (l : List WaitingFiber)
    (w w' : World W P) : Type 0 where
  pub counters : w'.counters ≡ update w.counters c k
  pub resumed : resumables w' ≡ resumables w ++ unpinned l
  pub resumed_pinned : (t : ℕ) → pinned w' t ≡ pinned w t ++ pinned_to t l
  pub signalled : w'.signals ≡ w.signals + length l
  pub same_fibers : w'.fibers ≡ w.fibers
  pub same_queues :
      (w'.tasks ≡ w.tasks) × (w'.idle_fibers ≡ w.idle_fibers) × (w'.free_counters ≡ w.free_counters)
  pub same_rest :
      (w'.counter_handles ≡ w.counter_handles)
      × (w'.is_shutting_down ≡ w.is_shutting_down)
      × (w'.tls ≡ w.tls)
