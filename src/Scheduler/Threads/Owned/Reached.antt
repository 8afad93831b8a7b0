-- ===== src/Scheduler/Threads/Owned/Reached.antt =====
-- All that the threads of src/task-dispatcher/scheduler.cc can reach from `start`, by their switches of
-- fibers in any order.
use task_dispatcher.Base.{
  ℕ, ◌^◌, ◌≤◌, ◌<◌, ◌≡◌, sym, ap, ◌∙◌, subst, Option, [], ◌++◌, ok, arith, length,
}
use task_dispatcher.Base.Members.{AllDistinct}
use task_dispatcher.MpmcQueue
use task_dispatcher.MpmcQueue.{MpmcQueue}
use task_dispatcher.MpmcQueue.Construct.{init-IsQuiet}
use task_dispatcher.MpmcQueue.Quiescent
use task_dispatcher.MpmcQueue.Quiescent.{IsQuiet}
use task_dispatcher.Scheduler.State.{World}
use task_dispatcher.Scheduler.HandlePool.{HandlePool}
use task_dispatcher.Scheduler.Start.{Sizes}
use task_dispatcher.Scheduler.Start.Queues.{numbers, populate_lem}
use task_dispatcher.Scheduler.Workers.{start_setup}
use task_dispatcher.Scheduler.Fibers.{clean_up_prev_fiber}
use task_dispatcher.Scheduler.Fibers.Places.{Place, At, one_place}
use task_dispatcher.Scheduler.Threads.{
  on_fiber, arriving, System, at, leave, view, Reach, set_up, later,
}
use task_dispatcher.Scheduler.Threads.Setup.{
  start_setup-fills, started, at_start, at_start-Exact, at_start-Covers,
}
use task_dispatcher.Scheduler.Threads.Owned.{Owned}
use task_dispatcher.Scheduler.Threads.Owned.Arrivals.{destined, settle_self, arrive_lem}
use task_dispatcher.Scheduler.Threads.Owned.Steps.{Step-Owned}

module _ {W : Type 0} (H : HandlePool) where
  open H use {Pool}

  set_up-Owned :
      (k : ℕ) (sizes : Sizes) (w x : World W Pool)
      → 1 ≤ k
      → k ≤ 62
      → sizes.num_fibers ≤ 2 ^ k
      → MpmcQueue.init 0 (2 ^ k) ≡ ok w.idle_fibers
      → start_setup H sizes w ≡ ok (tt, x)
      → Owned k sizes.num_fibers (at_start sizes.num_fibers) (started x)
  set_up-Owned k sizes w x lo hi fits made e =
      let n = sizes.num_fibers in
      let (q0, built, quiet0, empty0) : (q : MpmcQueue ℕ) × (MpmcQueue.init 0 (2 ^ k) ≡ ok q)
          × IsQuiet k q
          × (Quiescent.contents q ≡ []) =
        init-IsQuiet 0 k lo hi in
      let same : q0 ≡ w.idle_fibers = let both = sym built ∙ made in cc in
      let empty : Quiescent.contents w.idle_fibers ≡ [] =
        ap Quiescent.contents (sym same) ∙ empty0 in
      let (q, filled, quiet, all) =
        populate_lem n 0 k w.idle_fibers (subst (IsQuiet k) same quiet0)
          (omega (arith, ap length empty)) in
      let (idle, fibers) = start_setup-fills H sizes w x q filled e in
      record {
        quiet = subst (IsQuiet k) (sym idle) quiet;
        fits = fits;
        exact =
            at_start-Exact n x (ap Quiescent.contents idle ∙ all ∙ ap (λ l. l ++ numbers n 0) empty)
              (λ f. ap (λ fs. (fs f).is_waiting_cleaned_up) fibers);
        covers = at_start-Covers n;
        tidy = λ i h. absurd cc;
      }

  pub Reach-Owned :
      (k : ℕ) (sizes : Sizes) (s : System W Pool)
      → 1 ≤ k
      → k ≤ 62
      → sizes.num_fibers ≤ 2 ^ k
      → Reach H k sizes s
      → (place : ℕ → Option Place) × Owned k sizes.num_fibers place s
  Reach-Owned k sizes s lo hi fits (later {s = r} before step) =
      let (place, o) = Reach-Owned k sizes r lo hi fits before in
      Step-Owned k sizes.num_fibers place r s o step
  Reach-Owned k sizes s lo hi fits (set_up w x made e) =
      (at_start sizes.num_fibers, set_up-Owned k sizes w x lo hi fits made e)

  -- Any number of threads switch between the fibers after `start` has set them up, one switch at a time
  -- and in any order, and the queue of idle fibers has 2 ^ k >= num_fibers cells. Each fiber below
  -- num_fibers is always at exactly one place: idle, on one thread, left behind by one thread, or
  -- parked; no other fiber is anywhere, and no fiber is idle twice. A thread that has switched
  -- can always clean up the fiber that it left, which is then where it was sent, as the idle queue has room.
  pub each_fiber_once :
      (k : ℕ) (sizes : Sizes) (s : System W Pool)
      → 1 ≤ k
      → k ≤ 62
      → sizes.num_fibers ≤ 2 ^ k
      → Reach H k sizes s
      → ((f : ℕ)
          → f < sizes.num_fibers
          → (p : Place) × At (view s) f p × ((q : Place) → At (view s) f q → q ≡ p))
        × ((f : ℕ) (p : Place) → At (view s) f p → f < sizes.num_fibers)
        × AllDistinct (view s).idle
        × ((i : ℕ)
            → s.phase i ≡ arriving
            → (y : World W Pool) × (clean_up_prev_fiber (at i s) ≡ ok (tt, y))
              × At
                  (view (leave i on_fiber y s))
                  (s.tls i).previous_fiber_index
                  (destined (s.tls i).previous_fiber_dest))
  each_fiber_once k sizes s lo hi fits r =
      let (place, o) = Reach-Owned k sizes s lo hi fits r in
      (
        λ f lt.
            let (p, h) = o.covers.0 f lt in
            let here = o.exact.there f p h in
            (p, here, λ q m. one_place place (view s) o.exact f q p m here),
        λ f p m. o.covers.1 f p (o.exact.found f p m),
        o.exact.distinct,
        λ i coming.
            let (y, e, next) = arrive_lem k sizes.num_fibers i place s o coming in
            (
              y,
              e,
              next.exact.there (s.tls i).previous_fiber_index
                  (destined (s.tls i).previous_fiber_dest)
                  (settle_self (s.tls i).previous_fiber_dest (s.tls i).previous_fiber_index place),
            ),
      )
