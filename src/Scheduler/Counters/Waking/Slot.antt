-- ===== src/Scheduler/Counters/Waking/Slot.antt =====
-- Waking the fiber of one slot, the body behind the test of its target.
use task_dispatcher.Base.{
  ℕ, ◌+◌, ◌≤◌, ◌≡◌, refl, true, false, List, [], ◌∷◌, ◌++◌, append-nil, ok, arith, ◌==◌, update,
  update_self, update-update, update-cases, Bool-cases, inl, inr, length, length-append,
}
use task_dispatcher.FifoQueue
use task_dispatcher.FifoQueue.Refine
use task_dispatcher.FifoQueue.Refine.{IsValid}
use task_dispatcher.MpmcQueue
use task_dispatcher.MpmcQueue.Quiescent
use task_dispatcher.MpmcQueue.Quiescent.{IsQuiet}
use task_dispatcher.SpinLock
use task_dispatcher.Scheduler.State.{
  invalid_thread, max_pinned, WaitingFiber, AtomicCounter, WorkerThread, World, modify_slot,
}
use task_dispatcher.Scheduler.Counters.{wake_slot}
use task_dispatcher.Scheduler.Counters.Waking.{
  used, mark, unpinned, pinned_to, resumables, pinned, Ready, Woke,
}

module _ {W P : Type 0} (c i : ℕ) (w : World W P) where
  abbrev slot : WaitingFiber
  slot = (w.counters c).waiting_fibers i

  -- The counter once the slot is locked by this thread.
  abbrev locked : AtomicCounter
  locked = modify_slot i (λ s. record s { in_use = true }) (w.counters c)

  abbrev woken_world : MpmcQueue.MpmcQueue ℕ → (ℕ → WorkerThread) → World W P
  woken_world q ts = record {
    shared = record (w.shared) {
      resumable_fibers = q;
      threads = ts;
      counters = update w.counters c (mark i (w.counters c));
      signals = w.signals + 1;
    };
    tls = w.tls;
  }

  wake_unpinned :
      {q : MpmcQueue.MpmcQueue ℕ}
      → slot.in_use ≡ false
      → (slot.pinned_thread_index == invalid_thread) ≡ true
      → MpmcQueue.enqueue w.resumable_fibers slot.fiber_index ≡ ok (true, q)
      → wake_slot c i w ≡ ok (tt, woken_world q w.threads)
  unfolding wake_slot
  wake_unpinned {q} idle free e = ground (
    arith,
    idle,
    free,
    e,
    update_self w.counters c locked,
    update_self (w.counters c).waiting_fibers i (used slot),
    update-update w.counters c locked (mark i (w.counters c)),
  )

  abbrev home : ℕ
  home = slot.pinned_thread_index

  abbrev held : SpinLock.SpinLock → FifoQueue.FifoQueue ℕ → WorkerThread
  held l q = record { pinned_resumable_fibers = q; pinned_resumable_fibers_lock = l }

  wake_pinned :
      {q : FifoQueue.FifoQueue ℕ}
      → slot.in_use ≡ false
      → (slot.pinned_thread_index == invalid_thread) ≡ false
      → (w.threads home).pinned_resumable_fibers_lock.is_locked ≡ false
      → FifoQueue.enqueue max_pinned (w.threads home).pinned_resumable_fibers slot.fiber_index
        ≡ ok q
      → wake_slot c i w
        ≡ ok (
          tt,
          woken_world w.resumable_fibers
              (update w.threads home (held (record { is_locked = false }) q)),
        )
  unfolding wake_slot SpinLock.lock SpinLock.unlock
  wake_pinned {q} idle pin open_lock e =
      let up : SpinLock.SpinLock = record { is_locked = true } in
      let down : SpinLock.SpinLock = record { is_locked = false } in
      let old = (w.threads home).pinned_resumable_fibers in
      ground (
        arith,
        idle,
        pin,
        open_lock,
        e,
        update_self w.counters c locked,
        update_self (w.counters c).waiting_fibers i (used slot),
        update-update w.counters c locked (mark i (w.counters c)),
        update_self w.threads home (held up old),
        update_self w.threads home (held up q),
        update-update w.threads home (held up old) (held up q),
        update-update w.threads home (held up q) (held down q),
      )

module _ {W P : Type 0} (b c i : ℕ) (w : World W P) (rest : List WaitingFiber) where
  abbrev s : WaitingFiber
  s = slot c i w

  abbrev after : AtomicCounter
  after = mark i (w.counters c)

  abbrev Woken : Type 0
  Woken =
      (w' : World W P) × (wake_slot c i w ≡ ok (tt, w'))
      × Woke c after (s ∷ []) w w'
      × Ready b rest w'

  -- The fiber of an unpinned slot joins the scheduler's queue.
  wake_unpinned_lem :
      s.in_use ≡ false
      → (s.pinned_thread_index == invalid_thread) ≡ true
      → Ready b (s ∷ rest) w
      → Woken
  wake_unpinned_lem idle free r =
      let (q, e, quiet, grown) =
        Quiescent.enqueue-room_lem b w.resumable_fibers r.quiet s.fiber_index
          (ground (arith, free, r.room)) in
      (
        woken_world c i w q w.threads,
        wake_unpinned c i w idle free e,
        record {
          counters = refl;
          resumed = ground (arith, free, grown);
          resumed_pinned = λ t. ground (arith, free, append-nil (pinned w t));
          signalled = refl;
          same_fibers = refl;
          same_queues = (refl, refl, refl);
          same_rest = (refl, refl, refl);
        },
        record {
          quiet = quiet;
          room =
              ground
                (arith, free, grown, r.room, length-append (resumables w) (s.fiber_index ∷ []));
          valid = r.valid;
          pinned_room = λ t. ground (arith, free, r.pinned_room t);
          unlocked = r.unlocked;
        },
      )

  -- The fiber of a pinned slot joins the queue of its thread.
  module _ (idle : s.in_use ≡ false) (pin : (s.pinned_thread_index == invalid_thread) ≡ false)
      (r : Ready b (s ∷ rest) w) (q : FifoQueue.FifoQueue ℕ)
      (e : FifoQueue.enqueue max_pinned
          (w.threads s.pinned_thread_index).pinned_resumable_fibers
          s.fiber_index
        ≡ ok q)
      (valid : IsValid max_pinned q)
      (grown : Refine.contents max_pinned q
        ≡ pinned w s.pinned_thread_index ++ (s.fiber_index ∷ [])) where
    abbrev new : WorkerThread
    new = held c i w (record { is_locked = false }) q

    wake_pinned_with : Woken
    wake_pinned_with = (
      woken_world c i w w.resumable_fibers (update w.threads s.pinned_thread_index new),
      wake_pinned c i w idle pin (r.unlocked s.pinned_thread_index) e,
      record {
        counters = refl;
        resumed = ground (arith, pin, append-nil (resumables w));
        resumed_pinned =
            update-cases
              (λ t u.
                Refine.contents max_pinned u.pinned_resumable_fibers
                ≡ pinned w t ++ pinned_to t (s ∷ []))
              w.threads s.pinned_thread_index new (ground (arith, pin, grown))
              (λ t ne. ground (arith, pin, ne, append-nil (pinned w t)));
        signalled = refl;
        same_fibers = refl;
        same_queues = (refl, refl, refl);
        same_rest = (refl, refl, refl);
      },
      record {
        quiet = r.quiet;
        room = ground (arith, pin, r.room);
        valid =
            update-cases (λ t u. IsValid max_pinned u.pinned_resumable_fibers) w.threads
              s.pinned_thread_index new valid (λ t ne. r.valid t);
        pinned_room =
            update-cases
              (λ t u.
                length (Refine.contents max_pinned u.pinned_resumable_fibers)
                  + length (pinned_to t rest)
                ≤ max_pinned)
              w.threads s.pinned_thread_index new
              (ground (
                arith,
                pin,
                grown,
                r.pinned_room s.pinned_thread_index,
                length-append (pinned w s.pinned_thread_index) (s.fiber_index ∷ []),
              ))
              (λ t ne. ground (arith, pin, ne, r.pinned_room t));
        unlocked =
            update-cases (λ t u. u.pinned_resumable_fibers_lock.is_locked ≡ false) w.threads
              s.pinned_thread_index new refl (λ t ne. r.unlocked t);
      },
    )

  wake_pinned_lem :
      s.in_use ≡ false
      → (s.pinned_thread_index == invalid_thread) ≡ false
      → Ready b (s ∷ rest) w
      → Woken
  wake_pinned_lem idle pin r =
      let h = s.pinned_thread_index in
      let (q, e, valid, grown) =
        Refine.enqueue-room_lem (r.valid h) s.fiber_index (ground (arith, pin, r.pinned_room h)) in
      wake_pinned_with idle pin r q e valid grown

  pub wake_lem : s.in_use ≡ false → Ready b (s ∷ rest) w → Woken
  wake_lem idle r = elim (Bool-cases (s.pinned_thread_index == invalid_thread)) [
    | inl free ↦ wake_unpinned_lem idle free r
    | inr pin ↦ wake_pinned_lem idle pin r
  ]

pub unpinned-append : (k l : List WaitingFiber) → unpinned (k ++ l) ≡ unpinned k ++ unpinned l
unpinned-append [] l = refl
unpinned-append (s ∷ k) l = ground (arith, unpinned-append k l)

pub pinned_to-append :
    (t : ℕ) (k l : List WaitingFiber) → pinned_to t (k ++ l) ≡ pinned_to t k ++ pinned_to t l
pinned_to-append t [] l = refl
pinned_to-append t (s ∷ k) l = ground (arith, pinned_to-append t k l)
