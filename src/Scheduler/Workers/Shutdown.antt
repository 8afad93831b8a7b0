-- ===== src/Scheduler/Workers/Shutdown.antt =====
-- The shutdown in `start` of src/task-dispatcher/scheduler.cc, once the primary fiber has returned.
use task_dispatcher.Base.{
  ℕ, zero, suc, ◌+◌, ◌-◌, ◌<◌, ◌≡◌, refl, ap, ◌∙◌, true, false, [], ok, arith, length,
}
use task_dispatcher.MpmcQueue.{MpmcQueue}
use task_dispatcher.MpmcQueue.Quiescent
use task_dispatcher.MpmcQueue.Quiescent.{IsQuiet}
use task_dispatcher.Scheduler.State.{Task, World, M}
use task_dispatcher.Scheduler.HandlePool.{HandlePool}
use task_dispatcher.Scheduler.Start.{Sizes, drain}
use task_dispatcher.Scheduler.Start.Queues.{drain_lem}
use task_dispatcher.Scheduler.Workers.{signal_joins, shut_down}

-- A queue that can be drained with the fuel.
abbrev pub Drains : {A : Type 0} → ℕ → ℕ → MpmcQueue A → Type 0
Drains fuel k q = IsQuiet k q × (length (Quiescent.contents q) < fuel)

module _ {W : Type 0} (H : HandlePool) (join : ℕ → M W (HandlePool.Pool H) (Unit {0})) where
  open H use {Pool, destroy}

  abbrev pub signalled : World W Pool → World W Pool
  signalled w = record { shared = record (w.shared) { signals = w.signals + 1 }; tls = w.tls }

  -- The joins of `n` worker threads from `i` on return, each behind one more signal, and lead from the
  -- first world to the last.
  abbrev pub Joins : ℕ → ℕ → World W Pool → World W Pool → Type 0
  Joins zero i w v = w ≡ v
  Joins (suc n) i w v =
      (x : World W Pool) × (join i (signalled w) ≡ ok (tt, x)) × Joins n (i + 1) x v

  signal_joins-cons :
      (n i : ℕ) (w x : World W Pool)
      → join i (signalled w) ≡ ok (tt, x)
      → signal_joins H join (suc n) i w ≡ signal_joins H join n (i + 1) x
  unfolding signal_joins
  signal_joins-cons n i w x e = ground (arith, e)

  signal_joins_lem :
      (n i : ℕ) (w v : World W Pool) → Joins n i w v → signal_joins H join n i w ≡ ok (tt, v)
  unfolding signal_joins
  signal_joins_lem zero i w v e = ap (λ x. ok (tt, x)) e
  signal_joins_lem (suc n) i w v (x, e, rest) =
      signal_joins-cons n i w x e ∙ signal_joins_lem n (i + 1) x v rest

  abbrev emptied :
      World W Pool → MpmcQueue (Task W) → MpmcQueue ℕ → MpmcQueue ℕ → MpmcQueue ℕ → World W Pool
  emptied v tasks idle_fibers resumable_fibers free_counters = record {
    shared = record (v.shared) {
      tasks = tasks;
      idle_fibers = idle_fibers;
      resumable_fibers = resumable_fibers;
      free_counters = free_counters;
      counter_handles = destroy v.counter_handles;
    };
    tls = v.tls;
  }

  shut_down-drains :
      (sizes : Sizes) (fuel : ℕ) (w v : World W Pool) (t : MpmcQueue (Task W)) (i r c : MpmcQueue ℕ)
      → w.is_shutting_down ≡ true
      → signal_joins H join (sizes.num_threads - 1) 1 (signalled w) ≡ ok (tt, v)
      → drain fuel v.tasks ≡ ok t
      → drain fuel v.idle_fibers ≡ ok i
      → drain fuel v.resumable_fibers ≡ ok r
      → drain fuel v.free_counters ≡ ok c
      → shut_down H join sizes fuel w ≡ ok (false, emptied v t i r c)
  unfolding shut_down
  shut_down-drains sizes fuel w v t i r c down joined et ei er ec =
      ground (arith, down, joined, et, ei, er, ec)

  -- Once the shutdown has been asked for: where the joins of the worker threads, each behind a signal,
  -- return and leave a world whose queues have fewer entries than each drain has turns, the shutdown
  -- ends there with all four queues empty, the pool of handles destroyed and `sCurrentScheduler` not
  -- set, and with nothing else of that world changed.
  pub shut_down_lem :
      (sizes : Sizes) (fuel t i r c : ℕ) (w v : World W Pool)
      → w.is_shutting_down ≡ true
      → Joins (sizes.num_threads - 1) 1 (signalled w) v
      → Drains fuel t v.tasks
      → Drains fuel i v.idle_fibers
      → Drains fuel r v.resumable_fibers
      → Drains fuel c v.free_counters
      → (y : World W Pool) × (shut_down H join sizes fuel w ≡ ok (false, y))
        × (Quiescent.contents y.tasks ≡ [])
        × (Quiescent.contents y.idle_fibers ≡ [])
        × (Quiescent.contents y.resumable_fibers ≡ [])
        × (Quiescent.contents y.free_counters ≡ [])
        × (y.counter_handles ≡ destroy v.counter_handles)
        × (y.is_shutting_down ≡ v.is_shutting_down)
        × (y.signals ≡ v.signals)
        × (y.counters ≡ v.counters)
        × (y.fibers ≡ v.fibers)
        × (y.threads ≡ v.threads)
        × (y.tls ≡ v.tls)
  shut_down_lem sizes fuel t i r c w v down joins (qt, lt) (qi, li) (qr, lr) (qc, lc) =
      let (t', et, vt, nt) = drain_lem (Quiescent.contents v.tasks) fuel t v.tasks qt refl lt in
      let (i', ei, vi, ni) =
        drain_lem (Quiescent.contents v.idle_fibers) fuel i v.idle_fibers qi refl li in
      let (r', er, vr, nr) =
        drain_lem (Quiescent.contents v.resumable_fibers) fuel r v.resumable_fibers qr refl lr in
      let (c', ec, vc, nc) =
        drain_lem (Quiescent.contents v.free_counters) fuel c v.free_counters qc refl lc in
      let joined = signal_joins_lem (sizes.num_threads - 1) 1 (signalled w) v joins in
      (
        emptied v t' i' r' c',
        shut_down-drains sizes fuel w v t' i' r' c' down joined et ei er ec,
        nt,
        ni,
        nr,
        nc,
        refl,
        refl,
        refl,
        refl,
        refl,
        refl,
        refl,
      )
