-- ===== src/Scheduler/Fibers/NextTask.antt =====
-- `getNextTask`: resumable fibers come before tasks.
use task_dispatcher.Base.{
  ℕ, ◌+◌, ◌^◌, ◌<◌, ◌≡◌, refl, sym, ap, ◌∙◌, Bool, Option, true, false, none, some, List, [], ◌∷◌,
  ◌++◌, ok, arith, length, update, update_self, update-update, update-same, fun_ext,
}
use task_dispatcher.FifoQueue
use task_dispatcher.FifoQueue.{FifoQueue}
use task_dispatcher.FifoQueue.Refine
use task_dispatcher.SpinLock
use task_dispatcher.MpmcQueue
use task_dispatcher.MpmcQueue.{MpmcQueue}
use task_dispatcher.MpmcQueue.Quiescent
use task_dispatcher.MpmcQueue.Quiescent.{IsQuiet}
use task_dispatcher.Scheduler.State.{max_pinned, WorkerThread, Task, World, M}
use task_dispatcher.Scheduler.Counters.Waking.{Ready, resumables, pinned}
use task_dispatcher.Scheduler.Fibers.{resume_pinned, resume_global, try_resume_fiber, get_next_task}
use task_dispatcher.Scheduler.Api.Waits.{task_list, with_tasks}

abbrev held : Bool → FifoQueue ℕ → WorkerThread
held b q = record {
  pinned_resumable_fibers = q;
  pinned_resumable_fibers_lock = record { is_locked = b };
}

dequeue-none :
    (q : FifoQueue ℕ)
    → Refine.contents max_pinned q ≡ []
    → FifoQueue.dequeue max_pinned q ≡ (none, q)
unfolding FifoQueue.dequeue
dequeue-none q e = ground (arith, e)

module _ {W P : Type 0} where
  abbrev pub with_resumables : World W P → MpmcQueue ℕ → World W P
  with_resumables w q = record { shared = record (w.shared) { resumable_fibers = q }; tls = w.tls }

  abbrev with_threads : World W P → (ℕ → WorkerThread) → World W P
  with_threads w t = record { shared = record (w.shared) { threads = t }; tls = w.tls }

  -- A thread whose lock was free has the same state once the lock is free again.
  same_thread :
      (w : World W P) (t : ℕ)
      → (w.threads t).pinned_resumable_fibers_lock.is_locked ≡ false
      → update w.threads t (held false (w.threads t).pinned_resumable_fibers) ≡ w.threads
  same_thread w t free =
      ap (λ b. update w.threads t (held b (w.threads t).pinned_resumable_fibers)) (sym free)
      ∙ fun_ext (update-same w.threads t)

  resume_pinned-none :
      (switch_to : ℕ → ℕ → M W P (Unit {0})) (w : World W P)
      → (w.threads w.thread_index).pinned_resumable_fibers_lock.is_locked ≡ false
      → pinned w w.thread_index ≡ []
      → resume_pinned switch_to w ≡ ok (tt, w)
  unfolding resume_pinned SpinLock.lock SpinLock.unlock
  resume_pinned-none switch_to w free e =
      let t = w.thread_index in
      let old = (w.threads t).pinned_resumable_fibers in
      let unlocked : resume_pinned switch_to w
          ≡ ok (tt, with_threads w (update w.threads t (held false old))) =
        ground (
          arith,
          free,
          dequeue-none old e,
          update_self w.threads t (held true old),
          update-update w.threads t (held true old) (held true old),
          update-update w.threads t (held true old) (held false old),
        ) in
      unlocked ∙ ap (λ ts. ok (tt, with_threads w ts)) (same_thread w t free)

  -- A resumable fiber that is not cleaned up yet goes back to the end of its queue, with a signal, and
  -- without one the call does nothing.
  pub resume_global_lem :
      (switch_to : ℕ → ℕ → M W P (Unit {0})) (k : ℕ) (w : World W P)
      → IsQuiet k w.resumable_fibers
      → (resumables w ≡ [] → resume_global switch_to w ≡ ok (tt, w))
        × ((f : ℕ) (l : List ℕ)
            → resumables w ≡ f ∷ l
            → (w.fibers f).is_waiting_cleaned_up ≡ false
            → (y : World W P) × (resume_global switch_to w ≡ ok (tt, y))
              × IsQuiet k y.resumable_fibers
              × (resumables y ≡ l ++ (f ∷ []))
              × (y.signals ≡ w.signals + 1))
  unfolding resume_global try_resume_fiber
  resume_global_lem switch_to k w v = (
    λ e. let d = Quiescent.dequeue-nil_lem k w.resumable_fibers v e in ground (arith, d),
    λ f l e off.
        let (q, d, quiet, rest) = Quiescent.dequeue-cons_lem k w.resumable_fibers v f l e in
        let room : length (Quiescent.contents q) < 2 ^ k = omega (
          arith,
          ap length rest,
          ap length e,
          Quiescent.length-contents k w.resumable_fibers v,
          v.fits,
        ) in
        let (q', g, quiet', more) = Quiescent.enqueue-room_lem k q quiet f room in
        (
          record {
            shared = record (w.shared) { resumable_fibers = q'; signals = w.signals + 1 };
            tls = w.tls;
          },
          ground (arith, d, off, g),
          quiet',
          more ∙ ap (λ t. t ++ (f ∷ [])) rest,
          refl,
        ),
  )

  get_next_task-steps :
      (switch_to : ℕ → ℕ → M W P (Unit {0})) (w : World W P) {r : Option (Task W)}
      {q : MpmcQueue (Task W)}
      → resume_pinned switch_to w ≡ ok (tt, w)
      → resume_global switch_to w ≡ ok (tt, w)
      → MpmcQueue.dequeue w.tasks ≡ ok (r, q)
      → get_next_task switch_to w ≡ ok (r, with_tasks w q)
  unfolding get_next_task
  get_next_task-steps switch_to w e f g = ground (arith, e, f, g)

  -- With no fiber to resume, the call returns and removes the oldest task, and nothing without one; no
  -- fiber is switched to, and nothing else changes.
  pub get_next_task_lem :
      (switch_to : ℕ → ℕ → M W P (Unit {0})) (b k : ℕ) (w : World W P)
      → Ready b [] w
      → resumables w ≡ []
      → pinned w w.thread_index ≡ []
      → IsQuiet k w.tasks
      → (task_list w ≡ [] → get_next_task switch_to w ≡ ok (none, w))
        × ((t : Task W) (l : List (Task W))
            → task_list w ≡ t ∷ l
            → (q : MpmcQueue (Task W)) × (get_next_task switch_to w ≡ ok (some t, with_tasks w q))
              × IsQuiet k q
              × (Quiescent.contents q ≡ l))
  get_next_task_lem switch_to b k w ready nobody nobody_pinned v =
      let e = resume_pinned-none switch_to w (ready.unlocked w.thread_index) nobody_pinned in
      let f = (resume_global_lem switch_to b w ready.quiet).0 nobody in
      (
        λ no_task.
            get_next_task-steps switch_to w e f (Quiescent.dequeue-nil_lem k w.tasks v no_task),
        λ t l first.
            let (q, g, quiet, rest) = Quiescent.dequeue-cons_lem k w.tasks v t l first in
            (q, get_next_task-steps switch_to w e f g, quiet, rest),
      )
